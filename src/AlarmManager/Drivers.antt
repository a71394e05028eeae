-- ===== src/AlarmManager/Drivers.antt =====
-- `checkDriverErrors` of Regulator/src/AlarmManager.cpp, with the errors that an image without an
-- index of addresses reports: none.
use turbine_governor.Base.{
  ℕ, ◌≡◌, refl, ◌∙◌, inl, inr, Bool, true, false, some, [], leb, ◌==◌, get_or, length, Bool-cases,
  length-replicate,
}
use turbine_governor.Types.{DrvState}
use turbine_governor.AlarmManager.{
  AlarmManager, set_alarm, set_alarm_bit, clear_alarms, check_slave, check_field, check_field_vars,
  check_driver_errors, al_mastercom, al_fieldcom, al_fieldvars,
}
use turbine_governor.AlarmManager.Words.{IsWf}
use turbine_governor.AlarmManager.Raise.{set_alarm-IsWf}

set_alarm_bit-last :
    (e : ℕ) (s : AlarmManager) → (set_alarm_bit e s).last_fld_errors ≡ s.last_fld_errors
unfolding set_alarm_bit
set_alarm_bit-last e s = refl

-- Alarms leave the errors of the field alone.
pub set_alarm-last :
    (e : ℕ) (s : AlarmManager) → (set_alarm e s).last_fld_errors ≡ s.last_fld_errors
unfolding set_alarm set_alarm_bit
set_alarm-last e s = elim (Bool-cases (leb 21 e)) [
  | inl past ↦ rw past
  | inr known ↦ elim (Bool-cases (get_or s.levels e 0 == 1)) [
    | inl major ↦ elim (Bool-cases (0 == e)) [
      | inl ext ↦ rw (known, major, ext)
      | inr int ↦ rw (known, major, int)
    ]
    | inr minor ↦ rw (known, minor)
  ]
]

-- Words of the right shape, and no error of a field variable.
pub record NoFieldErrors (s : AlarmManager) : Type 0 where
  pub wf : IsWf s
  pub none_known : s.last_fld_errors ≡ []

pub set_alarm-NoFieldErrors :
    (e : ℕ) (s : AlarmManager) → NoFieldErrors s → NoFieldErrors (set_alarm e s)
set_alarm-NoFieldErrors e s v = record {
  wf = set_alarm-IsWf s e v.wf;
  none_known = set_alarm-last e s ∙ v.none_known;
}

-- A change of the mark for errors.
pub marked :
    (s : AlarmManager) (b : Bool) → NoFieldErrors s → NoFieldErrors (record s { with_errors = b })
marked s b v = record {
  wf = record {
    one_word = v.wf.one_word;
    four_words = v.wf.four_words;
    known_levels = v.wf.known_levels;
  };
  none_known = v.none_known;
}

pub clear_alarms-NoFieldErrors :
    (s : AlarmManager) → NoFieldErrors s → NoFieldErrors (clear_alarms s)
unfolding clear_alarms
clear_alarms-NoFieldErrors s v = record {
  wf = record {
    one_word = length-replicate {A = ℕ} (length s.logic_errors) 0 ∙ v.wf.one_word;
    four_words = v.wf.four_words;
    known_levels = v.wf.known_levels;
  };
  none_known = v.none_known;
}

check_slave-NoFieldErrors :
    (st : DrvState) (s : AlarmManager) → NoFieldErrors s → NoFieldErrors (check_slave st s)
check_slave-NoFieldErrors DrvState.com_error s v = set_alarm-NoFieldErrors al_mastercom s v
check_slave-NoFieldErrors DrvState.running s v = v
check_slave-NoFieldErrors DrvState.stopped s v = v
check_slave-NoFieldErrors DrvState.var_error s v = v
check_slave-NoFieldErrors DrvState.un_init s v = v

-- The field driver has failed variables, and the image does not know their names.
unnamed :
    (s : AlarmManager)
    → NoFieldErrors s
    → (t : AlarmManager) × (check_field_vars [] s ≡ some t) × NoFieldErrors t
unfolding check_field_vars set_alarm
unnamed s v =
    let t = set_alarm al_fieldvars (record s { with_errors = true }) in
    let w : NoFieldErrors t =
      set_alarm-NoFieldErrors al_fieldvars (record s { with_errors = true }) (marked s true v) in
    (t, rw (w.none_known, check_field_vars), w)

check_field-NoFieldErrors :
    (st : DrvState) (s : AlarmManager)
    → NoFieldErrors s
    → (t : AlarmManager) × (check_field st [] s ≡ some t) × NoFieldErrors t
check_field-NoFieldErrors DrvState.com_error s v =
    (_, refl, set_alarm-NoFieldErrors al_fieldcom s v)
check_field-NoFieldErrors DrvState.var_error s v = unnamed s v
check_field-NoFieldErrors DrvState.running s v = (s, rw v.none_known, v)
check_field-NoFieldErrors DrvState.stopped s v = (s, rw v.none_known, v)
check_field-NoFieldErrors DrvState.un_init s v = (s, rw v.none_known, v)

pub check_driver_errors-NoFieldErrors :
    (fld slv : DrvState) (s : AlarmManager)
    → NoFieldErrors s
    → (t : AlarmManager) × (check_driver_errors fld slv [] s ≡ some t) × NoFieldErrors t
unfolding check_driver_errors
check_driver_errors-NoFieldErrors fld slv s v = elim (Bool-cases s.with_errors) [
  | inr calm ↦ (s, rw (calm, check_driver_errors), v)
  | inl errors ↦
      let (t, e, w) =
        check_field-NoFieldErrors fld (check_slave slv (record s { with_errors = false }))
          (check_slave-NoFieldErrors slv (record s { with_errors = false }) (marked s false v)) in
      (t, rw (errors, check_driver_errors) e, w)
]
