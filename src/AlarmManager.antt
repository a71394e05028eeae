-- ===== src/AlarmManager.antt =====
-- Regulator/src/AlarmManager.cpp: the alarm words, the words with the state of the field signals,
-- and the check of the drivers. The alarms and their levels are those of includes/Alarms.h.
pub mod Words
pub mod Raise
pub mod Drivers
use turbine_governor.Base.{
  ℕ, zero, suc, ◌+◌, ◌-◌, ◌*◌, ◌/◌, ◌%◌, ◌^◌, bit_and, bit_or, Bool, true, false, ◌&&◌, ◌||◌,
  Option, none, some, List, [], ◌∷◌, u32, not32, length, get_or, set, replicate, ltb, leb, ◌==◌,
  if◌then◌else◌,
}
use turbine_governor.Base.Dict
use turbine_governor.Types.{DrvState, QuState, qu_code}

abbrev pub al_tripext : ℕ
al_tripext = 0

abbrev pub al_tripint : ℕ
al_tripint = 1

abbrev pub al_mayor : ℕ
al_mayor = 2

abbrev pub al_minor : ℕ
al_minor = 3

abbrev pub al_fieldcom : ℕ
al_fieldcom = 4

abbrev pub al_fieldvars : ℕ
al_fieldvars = 5

abbrev pub al_mastercom : ℕ
al_mastercom = 6

abbrev pub num_alarms : ℕ
num_alarms = 21

abbrev pub alarm_levels : List ℕ
alarm_levels =
    1 ∷ 1 ∷ 1 ∷ 0 ∷ 1 ∷ 0 ∷ 0 ∷ 1 ∷ 0 ∷ 1 ∷ 1 ∷ 1 ∷ 0 ∷ 0 ∷ 0 ∷ 1 ∷ 1 ∷ 1 ∷ 1 ∷ 1 ∷ 1 ∷ []

-- includes/RegIDS.h and includes/IDVarList.h
abbrev pub fld_in_vars : ℕ
fld_in_vars = 35

abbrev pub fld_out_vars : ℕ
fld_out_vars = 26

abbrev pub fld_in_high_range : ℕ
fld_in_high_range = 999999999

abbrev pub fld_out_low_range : ℕ
fld_out_low_range = 1000000000

abbrev pub fld_out_high_range : ℕ
fld_out_high_range = 1999999999

pub record AlarmManager : Type 0 where
  pub with_errors : Bool
  pub logic_errors : List ℕ
  pub field_q_states : List ℕ
  pub levels : List ℕ
  pub last_fld_errors : List (ℕ × QuState)

-- `ceil(n / (float) 32)`
abbrev pub words_for : ℕ → ℕ
words_for n = (n + 31) / 32

-- `new std::uint32_t[n]` leaves the words with whatever the memory held.
abbrev pub raw_words : ℕ → (ℕ → ℕ) → List ℕ
raw_words zero junk = []
raw_words (suc n) junk = junk 0 ∷ raw_words n (λ i. junk (suc i))

unfoldable pub construct : (ℕ → ℕ) → (ℕ → ℕ) → AlarmManager
construct junk junk' = record {
  with_errors = false;
  logic_errors = raw_words (words_for num_alarms) junk;
  field_q_states = raw_words (words_for ((fld_in_vars + fld_out_vars) * 2)) junk';
  levels = alarm_levels;
  last_fld_errors = [];
}

unfoldable pub driver_failed : AlarmManager → AlarmManager
driver_failed s = record s { with_errors = true }

unfoldable pub clear_alarms : AlarmManager → AlarmManager
clear_alarms s = record s { logic_errors = replicate (length s.logic_errors) 0 }

unfoldable pub set_alarm_bit : ℕ → AlarmManager → AlarmManager
set_alarm_bit e s =
    let i = e / 32 in
    let mask = 2 ^ (31 - e % 32) in
    record s { logic_errors = set s.logic_errors i (bit_or (get_or s.logic_errors i 0) mask) }

unfoldable pub set_alarm : ℕ → AlarmManager → AlarmManager
set_alarm e s =
    if leb num_alarms e
    then s
    else let own = set_alarm_bit e s in
      if get_or s.levels e 0 == 1
      then (let major = set_alarm_bit al_mayor own in
          if al_tripext == e then major else set_alarm_bit al_tripint major)
      else set_alarm_bit al_minor own

unfoldable pub is_alarm_set : AlarmManager → ℕ → Bool
is_alarm_set s e =
    if leb num_alarms e
    then false
    else ltb 0 (bit_and (get_or s.logic_errors (e / 32) 0) (2 ^ (31 - e % 32)))

unfoldable pub clear_fld_states : AlarmManager → AlarmManager
clear_fld_states s = record s { field_q_states = replicate (length s.field_q_states) 0 }

-- `x << k` on 32-bit words. A shift by 32 or more is undefined, hence `none`.
abbrev pub shl32 : ℕ → ℕ → Option ℕ
shl32 x k = if ltb k 32 then some (u32 (x * 2 ^ k)) else none

-- The first bit of a field variable's state, or `none` for `continue`.
unfoldable pub start_bit : ℕ → Option ℕ
start_bit id =
    if leb id fld_in_high_range
    then some (u32 (id * 2))
    else if leb fld_out_low_range id && leb id fld_out_high_range
    then some (u32 ((id - fld_out_low_range + fld_in_vars) * 2))
    else none

-- One round of the loop of `setFldStates`. `none` is undefined behaviour: a shift past the word,
-- or a word past the end of the array.
unfoldable pub set_fld_state : List ℕ → ℕ → QuState → Option (List ℕ)
set_fld_state ws start q =
    let i = start / 32 in
    let w = get_or ws i 0 in
    let k = u32 (31 + 4294967296 - start) in
    if leb (length ws) i then none else elim (shl32 3 k) [
      | none ↦ none
      | some m ↦ elim (shl32 (qu_code q) k) [
        | none ↦ none
        | some v ↦ some (set ws i (bit_or (bit_and w (not32 m)) v))
      ]
    ]

unfoldable pub set_fld_states : List (ℕ × QuState) → List ℕ → Option (List ℕ)
set_fld_states [] ws = some ws
set_fld_states ((id, q) ∷ es) ws = elim (start_bit id) [
  | none ↦ set_fld_states es ws
  | some start ↦ elim (set_fld_state ws start q) [ none ↦ none | some ws' ↦ set_fld_states es ws' ]
]

-- `getFldErrors` inserts what the image reports into the map of the last errors.
abbrev pub insert_all : List (ℕ × QuState) → List (ℕ × QuState) → List (ℕ × QuState)
insert_all [] m = m
insert_all ((id, q) ∷ es) m = insert_all es (Dict.insert_new ◌==◌ id q m)

-- The branch of `checkDriverErrors` for a driver with failed variables.
unfoldable pub check_field_vars : List (ℕ × QuState) → AlarmManager → Option AlarmManager
check_field_vars reported s =
    let t = set_alarm al_fieldvars (record s { with_errors = true }) in
    let u = record t { last_fld_errors = insert_all reported t.last_fld_errors } in
    elim u.last_fld_errors [
      | [] ↦ some u
      | _ ↦
          let v = clear_fld_states u in
          elim (set_fld_states v.last_fld_errors v.field_q_states) [
            | none ↦ none
            | some ws ↦ some (record v { field_q_states = ws })
          ]
    ]

abbrev pub forget_errors : List (ℕ × QuState) → AlarmManager → AlarmManager
forget_errors [] s = s
forget_errors _ s = clear_fld_states (record s { last_fld_errors = [] })

-- The check of the slave driver, and of the field driver.
abbrev pub check_slave : DrvState → AlarmManager → AlarmManager
check_slave DrvState.com_error s = set_alarm al_mastercom s
check_slave _ s = s

abbrev pub check_field : DrvState → List (ℕ × QuState) → AlarmManager → Option AlarmManager
check_field DrvState.com_error reported s = some (set_alarm al_fieldcom s)
check_field DrvState.var_error reported s = check_field_vars reported s
check_field _ reported s = some (forget_errors s.last_fld_errors s)

-- What the image says of the drivers is passed in: their two states, and the errors by identifier.
unfoldable pub check_driver_errors :
    DrvState → DrvState → List (ℕ × QuState) → AlarmManager → Option AlarmManager
check_driver_errors fld slv reported s =
    let checked = check_field fld reported (check_slave slv (record s { with_errors = false })) in
    if s.with_errors then checked else some s
