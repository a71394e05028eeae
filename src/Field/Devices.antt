-- ===== src/Field/Devices.antt =====
-- The errors of the devices: `updateDevice` and `getVarQState` of AnalogDev.cpp, `updateDevice` of
-- PulseDev.cpp, and the maps of errors in EthercatDrv.cpp. The error of a device and the entry of its
-- address in the map of the driver.
use turbine_governor.Base.{
  ℕ, ◌-◌, ◌%◌, ◌^◌, ◌≡◌, Bool, true, false, not, ◌&&◌, Option, some, none, List, [], ◌∷◌, bit_and,
  leb, ltb, ◌==◌, ◌>>=◌, if◌then◌else◌,
}
use turbine_governor.Types.{IoAddr, QuState, qu_code}
use turbine_governor.Field.Bytes.{IoMap, read_device}
use turbine_governor.Field.Errors.{find, Unique, new_var_error, clear_var_error}

pub record StatusWord : Type 0 where
  pub addr : IoAddr
  pub under_range_bit : ℕ
  pub over_range_bit : ℕ

-- The part of a device that every kind has.
pub record EtherDevice : Type 0 where
  pub in_error : Bool
  pub last_q_state : QuState

abbrev pub VarErrors : Type 0
VarErrors = List (IoAddr × QuState)

abbrev pub new_device : EtherDevice
new_device = record { in_error = false; last_q_state = QuState.ok }

abbrev pub is_module_ok : List ℕ → IoAddr → Bool
is_module_ok [] a = true
is_module_ok (m ∷ ms) a = not (m == a.mod_no) && is_module_ok ms a

abbrev pub status_word_ok : StatusWord → Bool
status_word_ok w =
    ltb 0 w.addr.num_bits
    && leb w.addr.num_bits 32
    && w.addr.num_bits % 8 == 0
    && not (w.addr.num_bits == 24)
    && leb w.under_range_bit (w.addr.num_bits - 1)
    && leb w.over_range_bit (w.addr.num_bits - 1)

-- The states that the bits of a status word stand for; bit 0 is the highest one.
unfoldable pub state_of_word : StatusWord → ℕ → QuState
state_of_word w word =
    if not (bit_and word (2 ^ (w.addr.num_bits - w.under_range_bit - 1)) == 0)
    then QuState.under_range
    else if not (bit_and word (2 ^ (w.addr.num_bits - w.over_range_bit - 1)) == 0)
    then QuState.over_range
    else QuState.ok

unfoldable pub get_var_q_state : StatusWord → IoMap → Option QuState
get_var_q_state w s =
    if status_word_ok w
    then (read_device w.addr s >>= λ r.
        some (if r.0 then state_of_word w r.1 else QuState.com_error))
    else some QuState.com_error

-- `updateDevice` of AnalogDev from the new state on.
unfoldable pub note_state : QuState → IoAddr → EtherDevice → VarErrors → EtherDevice × VarErrors
note_state q a d errs =
    if not (qu_code q == qu_code QuState.ok)
    then (
      record { in_error = true; last_q_state = q },
      if d.in_error && qu_code d.last_q_state == qu_code q then errs else new_var_error a q errs,
    )
    else if d.in_error
    then (record { in_error = false; last_q_state = QuState.ok }, clear_var_error a errs)
    else (d, errs)

unfoldable pub update_analog :
    List ℕ
    → StatusWord
    → IoMap
    → IoAddr
    → EtherDevice
    → VarErrors
    → Option (EtherDevice × VarErrors)
update_analog modules w s a d errs =
    (if is_module_ok modules a then get_var_q_state w s else some QuState.com_error) >>= λ q.
    some (note_state q a d errs)

-- `updateDevice` of PulseDev.
unfoldable pub update_pulse : List ℕ → IoAddr → EtherDevice → VarErrors → EtherDevice × VarErrors
update_pulse modules a d errs =
    if not (is_module_ok modules a)
    then (
      record { in_error = true; last_q_state = QuState.com_error },
      if not d.in_error then new_var_error a QuState.com_error errs else errs,
    )
    else if d.in_error
    then (record { in_error = false; last_q_state = QuState.ok }, clear_var_error a errs)
    else (d, errs)

-- The entry of a device in the map: none while it is not in error, else its state.
abbrev pub entry : EtherDevice → Option QuState
entry d = if d.in_error then some d.last_q_state else none

-- The device is in error exactly when its state is not ok, and the map has its entry.
unfoldable pub Recorded : IoAddr → EtherDevice → VarErrors → Type 0
Recorded a d errs =
    (find a errs ≡ entry d) × (d.in_error ≡ not (qu_code d.last_q_state == 0)) × Unique errs
