-- ===== src/Widgets/PidTable.antt =====
-- HMI/src/PIDTableModel.cpp, and the parameters that HMI/src/ControlOptWdg.cpp sends. What the spin
-- boxes hold is an argument.
use turbine_governor.Base.{
  ℕ, ◌+◌, ◌-◌, ◌*◌, ◌/◌, ◌%◌, ◌&&◌, Option, none, some, List, [], ◌∷◌, ◌++◌, get_elem?, set, ltb,
  leb, ◌==◌, if◌then◌else◌,
}
use turbine_governor.Base.Int.{pos}
use turbine_governor.Types.Float.{FloatOps}

abbrev pub c_reg_pid1_kp : ℕ
c_reg_pid1_kp = 2000000014

abbrev pub c_reg_pid1_ki : ℕ
c_reg_pid1_ki = 2000000015

abbrev pub c_reg_pid1_kd : ℕ
c_reg_pid1_kd = 2000000016

abbrev pub c_reg_pid1_st : ℕ
c_reg_pid1_st = 2000000017

abbrev pub c_reg_pid1_db : ℕ
c_reg_pid1_db = 2000000018

abbrev pub c_reg_pid9_db : ℕ
c_reg_pid9_db = 2000000058

abbrev pub model_pids : ℕ
model_pids = 9

pub record PidInfo (F : Type 0) : Type 0 where
  pub kp : F
  pub ki : F
  pub kd : F
  pub db : F
  pub scan_t : ℕ

module _ {F : Type 0} (fl : FloatOps F) where
  -- The switch of `varChanged`.
  abbrev pub set_param : ℕ → F → PidInfo F → PidInfo F
  set_param column x info =
      if column == 0
      then record info { kp = x }
      else if column == 1
      then record info { ki = x }
      else if column == 2
      then record info { kd = x }
      else if column == 3
      then record info { scan_t = fl.to_unsigned 32 x }
      else record info { db = x }

  abbrev pub change_row :
      Option (PidInfo F) → ℕ → ℕ → F → List (PidInfo F) → List (PidInfo F) × Option (ℕ × ℕ)
  change_row none row column x t = (t, none)
  change_row (some info) row column x t =
      (set t row (set_param column x info), some (row, column + 2))

  -- `varChanged` for the id and the current value of an image: the table, and the cell that it reports.
  unfoldable pub var_changed : ℕ → F → List (PidInfo F) → List (PidInfo F) × Option (ℕ × ℕ)
  var_changed id x t =
      let row = (id - c_reg_pid1_kp) / 5 in
      if leb c_reg_pid1_kp id && leb id c_reg_pid9_db && ltb row model_pids
      then change_row (get_elem? t row) row ((id - c_reg_pid1_kp) % 5) x t
      else (t, none)

  abbrev pub get_pid_info : ℕ → List (PidInfo F) → Option (PidInfo F)
  get_pid_info row t = if ltb row model_pids then get_elem? t row else none

  -- The calls of `writeVar`, with the id and the value.
  abbrev pub update_pid_val : ℕ → F → F → ℕ → List (ℕ × F)
  update_pid_val row prev new start = if fl.eq prev new then [] else (start + row * 5, new) ∷ []

  -- `on_cmdSendPID_clicked` with a PID selected; `typed` is what the spin boxes hold.
  unfoldable pub send_pid : ℕ → PidInfo F → PidInfo F → List (ℕ × F)
  send_pid row info typed =
      update_pid_val row info.kp typed.kp c_reg_pid1_kp
      ++ (update_pid_val row info.ki typed.ki c_reg_pid1_ki
          ++ (update_pid_val row info.kd typed.kd c_reg_pid1_kd
              ++ (update_pid_val row (fl.of_int (pos info.scan_t)) (fl.of_int (pos typed.scan_t))
                    c_reg_pid1_st
                  ++ update_pid_val row info.db typed.db c_reg_pid1_db)))
