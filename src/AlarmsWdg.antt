-- ===== src/AlarmsWdg.antt =====
-- HMI/src/AlarmsWdg.cpp: how the HMI reads the alarm words and the words with the states of the
-- field signals. The text that it shows is a list of alarm numbers, or of signals with states.
pub mod Alarms
use turbine_governor.Base.{
  ℕ, zero, suc, ◌+◌, ◌-◌, ◌*◌, ◌/◌, ◌^◌, bit_and, bit_xor, min, Bool, true, false, ◌&&◌, List, [],
  ◌∷◌, ◌++◌, u32, not32, length, get_or, set, ltb, leb, ◌==◌, if◌then◌else◌,
}
use turbine_governor.Types.{QuState, qu_of_code}
use turbine_governor.AlarmManager.{num_alarms, fld_in_vars, fld_out_vars, fld_out_low_range}

pub record AlarmsWdg : Type 0 where
  pub logic_errors : List ℕ
  pub field_st : List ℕ

-- The loop that both the log and the report of active alarms run, from alarm `i` with `left`
-- rounds to go.
unfoldable pub marked_alarms : ℕ → ℕ → ℕ → ℕ → List ℕ
marked_alarms zero i mask w = []
marked_alarms (suc left) i mask w =
    let rest = marked_alarms left (i + 1) (mask / 2) w in
    if bit_and mask w == 0 then rest else i ∷ rest

-- The rounds from `offset` up to the stop bit.
abbrev pub alarm_rounds : ℕ → ℕ
alarm_rounds offset = min (offset + 32) num_alarms - offset

unfoldable pub append_logic_errors_rep : ℕ → ℕ → List ℕ
append_logic_errors_rep w idx = marked_alarms (alarm_rounds (32 * idx)) (32 * idx) (2 ^ 31) w

-- The alarms that are new in `val`.
unfoldable pub logic_error_int_changed : AlarmsWdg → ℕ → ℕ → AlarmsWdg × List ℕ
logic_error_int_changed s val int_id =
    let idx = int_id - 1 in
    let old = get_or s.logic_errors idx 0 in
    let fresh = bit_and (bit_xor val old) (not32 old) in
    (record s { logic_errors = set s.logic_errors idx val }, append_logic_errors_rep fresh idx)

abbrev reports : ℕ → List ℕ → List ℕ
reports idx [] = []
reports idx (w ∷ ws) = append_logic_errors_rep w idx ++ reports (idx + 1) ws

unfoldable pub gen_logic_errors_report : AlarmsWdg → List ℕ
gen_logic_errors_report s = reports 0 s.logic_errors

-- The identifier of the field variable with number `offset` in the words of states.
abbrev pub field_var_id : ℕ → ℕ
field_var_id offset =
    if ltb offset fld_in_vars then offset else fld_out_low_range + offset - fld_in_vars

-- Two bits of the word, `shift` places from its lower end: `mask & val` and its value.
abbrev pub pair_at : ℕ → ℕ → ℕ
pair_at shift w = bit_and (3 * 2 ^ shift) w

-- One word of states: the variables from `offset` on, with the pair of each and the shift of it.
unfoldable pub marked_states : ℕ → ℕ → ℕ → ℕ → List (ℕ × QuState)
marked_states zero offset shift w = []
marked_states (suc left) offset shift w =
    let rest = marked_states left (offset + 1) (shift - 2) w in
    if pair_at shift w == 0
    then rest
    else (field_var_id offset, qu_of_code (pair_at shift w / 2 ^ shift)) ∷ rest

-- The rounds of a word: sixteen pairs, or as many as there are variables left. The stop bit is
-- computed in unsigned words.
abbrev pub state_rounds : ℕ → ℕ
state_rounds idx = (min 32 (u32 ((fld_in_vars + fld_out_vars) * 2 + 2 ^ 32 - 32 * idx)) + 1) / 2

unfoldable pub append_field_st_rep : ℕ → ℕ → List (ℕ × QuState)
append_field_st_rep w idx = marked_states (state_rounds idx) (32 * idx / 2) 30 w

-- The states that `val` has and the old word has not.
unfoldable pub changed_states : ℕ → ℕ → ℕ → ℕ → ℕ → List (ℕ × QuState)
changed_states zero offset shift val old = []
changed_states (suc left) offset shift val old =
    let rest = changed_states left (offset + 1) (shift - 2) val old in
    if pair_at shift val == 0
    then rest
    else if pair_at shift val == pair_at shift old
    then rest
    else (field_var_id offset, qu_of_code (pair_at shift val / 2 ^ shift)) ∷ rest

unfoldable pub field_st_int_changed : AlarmsWdg → ℕ → ℕ → AlarmsWdg × List (ℕ × QuState)
field_st_int_changed s val int_id =
    let idx = int_id - 1 - length s.logic_errors in
    let old = get_or s.field_st idx 0 in
    (
      record s { field_st = set s.field_st idx val },
      changed_states (state_rounds idx) (32 * idx / 2) 30 val old,
    )

abbrev state_reports : ℕ → List ℕ → List (ℕ × QuState)
state_reports idx [] = []
state_reports idx (w ∷ ws) = append_field_st_rep w idx ++ state_reports (idx + 1) ws

unfoldable pub gen_field_st_report : AlarmsWdg → List (ℕ × QuState)
gen_field_st_report s = state_reports 0 s.field_st

-- What a changed word does: the log's new lines, of alarms or of signals.
unfoldable pub ro_int_changed : AlarmsWdg → ℕ → ℕ → AlarmsWdg × List ℕ × List (ℕ × QuState)
ro_int_changed s val int_id =
    if ltb 0 int_id
    then (if leb int_id (length s.logic_errors)
        then (let (t, alarms) = logic_error_int_changed s val int_id in (t, alarms, []))
        else if leb int_id (length s.field_st + length s.logic_errors)
        then (let (t, states) = field_st_int_changed s val int_id in (t, [], states))
        else (s, [], []))
    else (s, [], [])
