-- ===== src/Tests/Widgets.antt =====
-- The widgets of the HMI, run on whole numbers in the place of floats.
use turbine_governor.Base.{
  ℕ, ◌<◌, ◌≡◌, refl, Bool, true, false, not, ◌&&◌, ◌||◌, List, [], ◌∷◌, ltb, ◌==◌, arith,
}
use turbine_governor.Widgets.PidTable.{PidInfo, send_pid}
use turbine_governor.Widgets.SentPid as SentPid
use turbine_governor.Widgets.Panel.{Panel, Lamp, Display, sp_target, y_reg_state, y_reg_loc}
use turbine_governor.Widgets.Enabled as Enabled
use turbine_governor.Widgets.Position.{PositionCtrl, Command, clicked}
use turbine_governor.Widgets.Speeds.{IsOrdered, InLimits, clicked-InLimits}
use turbine_governor.Tests.Regulator.{wholes}

abbrev zeros : PidInfo ℕ
zeros = record { kp = 0; ki = 0; kd = 0; db = 0; scan_t = 20 }

abbrev typed : PidInfo ℕ
typed = record { kp = 3; ki = 0; kd = 1; db = 2; scan_t = 40 }

abbrev table : List (PidInfo ℕ)
table = zeros ∷ zeros ∷ []

equal_apart : (m n : ℕ) → m < 16777216 → n < 16777216 → wholes.eq m n ≡ true → m ≡ n
equal_apart m n h k e = ground arith

send_pid-all_changed_example :
    SentPid.all_changed wholes (send_pid wholes 1 zeros typed) table ≡ zeros ∷ typed ∷ []
send_pid-all_changed_example =
    SentPid.send_pid-all_changed wholes 1 (omega arith) (λ n small. refl) equal_apart table zeros
      typed refl (omega arith) (omega arith)

abbrev panel : Panel ℕ
panel = record {
  last_frec_sp = 0;
  last_pw_sp = 0;
  last_op_sp = 0;
  last_reg_st = 0;
  reg_in_loc = false;
  sp_enabled = true;
  sp_limits_of = 0;
  sp_display = Display.blank;
  types_enabled = true;
  type_a_checked = true;
  type_p_checked = true;
  controls_enabled = true;
  lamps = [];
  loc_lamp = Lamp.no;
  rem_lamp = Lamp.no;
}

abbrev is_set : ℕ → Bool
is_set n = not (n == 0)

-- The regulator goes to remote, then to the regulation of the opening.
all_changed-enabled_example :
    let q = Enabled.all_changed wholes is_set ((y_reg_loc, 0) ∷ (y_reg_state, 7) ∷ []) panel in
    (q.sp_enabled ≡ (ltb 5 q.last_reg_st && not q.reg_in_loc))
    × (q.types_enabled ≡ (ltb 5 q.last_reg_st && not q.reg_in_loc))
    × ((not (q.sp_enabled && ltb q.last_reg_st 8) || q.sp_limits_of == sp_target q) ≡ true)
all_changed-enabled_example =
    Enabled.all_changed-enabled wholes is_set panel y_reg_loc 0 ((y_reg_state, 7) ∷ []) refl

abbrev gate : PositionCtrl ℕ
gate = record {
  read_id = 29;
  write_id = 2000000060;
  is_manual = true;
  min_limit = 0;
  max_limit = 10;
  last_speed_val = 8;
}

wholes-IsOrdered : IsOrdered wholes
wholes-IsOrdered = record {
  irreflexive = λ x. ground arith;
  grows = λ x m n h. ground arith;
  shrinks = λ x m n h. ground arith;
}

clicked-InLimits_example : InLimits wholes gate (clicked wholes Command.much_more gate)
clicked-InLimits_example =
    clicked-InLimits wholes wholes-IsOrdered gate refl Command.much_more (refl, refl) (refl, refl)
