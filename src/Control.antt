-- ===== src/Control.antt =====
-- Regulator/src/Control.cpp: one cycle of the control, which reads and writes the image and the
-- alarms.
pub mod Effects
pub mod Runs
pub mod Cycle
use turbine_governor.Base.{ℕ, Bool, true, false, not, Option, none, some, ◌==◌, ◌||◌, if◌then◌else◌}
use turbine_governor.Base.Int.{ℤ, pos}
use turbine_governor.Types.Float.{FloatOps}
use turbine_governor.AlarmManager.{AlarmManager, set_alarm, clear_alarms, al_tripext}
use turbine_governor.Image.{Image, value_at, store_at}
use turbine_governor.Control.Effects.{
  World, Act, done, ask, tell, alarm, get_state, put_state, ◌>>=◌, ◌>>◌, when,
}

-- includes/RegIDS.h
abbrev pub hmsm_reg_str : ℕ
hmsm_reg_str = 2000000000

abbrev pub hmsm_reg_trip : ℕ
hmsm_reg_trip = 2000000003

abbrev pub hmsm_reg_alrep : ℕ
hmsm_reg_alrep = 2000000004

abbrev pub hmsm_reg_spok : ℕ
hmsm_reg_spok = 2000000008

abbrev pub hmsm_reg_pwreg : ℕ
hmsm_reg_pwreg = 2000000009

abbrev pub hmsm_reg_opreg : ℕ
hmsm_reg_opreg = 2000000010

abbrev pub zr_reg_pwsp : ℕ
zr_reg_pwsp = 2000000012

abbrev pub zr_reg_opsp : ℕ
zr_reg_opsp = 2000000013

abbrev pub sah_tur_ovs : ℕ
sah_tur_ovs = 1000000002

abbrev pub sahh_tur_ovs : ℕ
sahh_tur_ovs = 1000000003

abbrev pub sis_tur_sync : ℕ
sis_tur_sync = 1000000004

abbrev pub sis_tur_exc : ℕ
sis_tur_exc = 1000000005

abbrev pub sis_tur_brk : ℕ
sis_tur_brk = 1000000006

abbrev pub sis_tur_n0 : ℕ
sis_tur_n0 = 1000000007

abbrev pub zc_reg_pwsp : ℕ
zc_reg_pwsp = 1000000017

abbrev pub zc_reg_opsp : ℕ
zc_reg_opsp = 1000000018

abbrev pub zc_reg_ssp : ℕ
zc_reg_ssp = 1000000019

abbrev pub y_reg_state : ℕ
y_reg_state = 3000000000

abbrev pub se_reg_f1 : ℕ
se_reg_f1 = 3000000001

abbrev pub se_reg_f2 : ℕ
se_reg_f2 = 3000000002

abbrev pub se_reg_f3 : ℕ
se_reg_f3 = 3000000003

module _ {F : Type 0} (fl : FloatOps F) where
  abbrev pub int_float : ℕ → F
  int_float n = fl.of_int (pos n)

  -- `x > n`
  abbrev pub above : F → ℕ → Bool
  above x n = fl.lt (int_float n) x

  abbrev pub of_bool : Bool → F
  of_bool b = if b then int_float 1 else int_float 0

  -- A comparison of a value with 0 or 1.
  abbrev pub is_value : ℕ → F → Bool
  is_value n x = fl.eq x (int_float n)

  -- The start order is read in state 0 only.
  abbrev pub start_order : ℕ → Act F Unit
  start_order s =
      if s == 0 then (ask hmsm_reg_str >>= λ x. when (is_value 1 x) (put_state 1)) else done tt

  abbrev pub clear_order : Act F Unit
  clear_order = ask hmsm_reg_alrep >>= λ x. when (is_value 1 x) (alarm clear_alarms)

  abbrev pub check_trip : Act F Unit
  check_trip =
      ask hmsm_reg_trip >>= λ x. if is_value 0 x then alarm (set_alarm al_tripext) else clear_order

  -- `currentSpeed += 0.009`, and back to 0 above 80.
  abbrev pub next_speed : F → F
  next_speed x = let y = fl.add x (fl.of_ratio 9 1000) in if above y 80 then int_float 0 else y

  abbrev pub show_speed : F → Act F Unit
  show_speed x =
      tell se_reg_f1 x
      >> tell se_reg_f2 x
      >> tell se_reg_f3 x
      >> tell sis_tur_n0 (of_bool (fl.lt x (fl.of_ratio 1 2)))
      >> tell sis_tur_brk (of_bool (fl.lt x (int_float 10)))
      >> tell sis_tur_exc (of_bool (above x 50))
      >> tell sis_tur_sync (of_bool (above x 59))

  -- States 1 and 4: the turbine speeds up.
  abbrev pub speed_up : Act F Unit
  speed_up = ask se_reg_f1 >>= λ old.
      let x = next_speed old in
      show_speed x
      >> when (above x 59) (tell zc_reg_ssp (int_float 60) >> put_state 4)
      >> tell sah_tur_ovs (of_bool (not (above x 62)))
      >> tell sahh_tur_ovs (of_bool (not (above x 70)))
      >> when (above x 65) (tell zc_reg_pwsp (int_float 50) >> put_state 6)

  -- State 6: the power is regulated.
  abbrev pub regulate_power : Act F Unit
  regulate_power = ask hmsm_reg_opreg >>= λ x.
      if is_value 1 x
      then put_state 7
      else (ask hmsm_reg_spok >>= λ y.
          when (is_value 1 y) (ask zr_reg_pwsp >>= λ z. tell zc_reg_pwsp z))

  -- State 7: the opening is regulated.
  abbrev pub regulate_opening : Act F Unit
  regulate_opening = ask hmsm_reg_pwreg >>= λ x.
      if is_value 1 x then put_state 6 else (ask zr_reg_opsp >>= λ z. tell zc_reg_opsp z)

  abbrev pub regulate : ℕ → Act F Unit
  regulate s =
      if s == 1 || s == 4
      then speed_up
      else if s == 6
      then regulate_power
      else if s == 7
      then regulate_opening
      else done tt

  abbrev pub publish_state : Act F Unit
  publish_state = get_state >>= λ s. tell y_reg_state (int_float s)

  unfoldable pub update_control : Act F Unit
  update_control =
      (get_state >>= λ s. start_order s)
      >> check_trip
      >> (get_state >>= λ s. regulate s)
      >> publish_state
