-- ===== src/Field/Failures.antt =====
-- A device of AnalogDev.cpp and the map of failed variables in EthercatDrv.cpp agree.
use turbine_governor.Base.{
  ℕ, ◌≡◌, refl, ap, sym, ◌∙◌, Bool, true, false, not, ◌&&◌, inl, inr, Bool-cases, if-false, some,
  none, List, ◌==◌, if◌then◌else◌, arith,
}
use turbine_governor.Types.{IoAddr, QuState, qu_code, same_addr}
use turbine_governor.Field.Bytes.{IoMap}
use turbine_governor.Field.Errors.{
  find, clear_var_error, find-new_var_error, find-new_var_error_other, find-clear_var_error,
  find-clear_var_error_other, new_var_error-Unique, clear_var_error-Unique,
}
use turbine_governor.Field.Devices.{
  StatusWord, EtherDevice, VarErrors, is_module_ok, get_var_q_state, note_state, update_analog,
  Recorded,
}

qu_code-injective : (p q : QuState) → qu_code p ≡ qu_code q → p ≡ q
qu_code-injective QuState.ok QuState.ok e = refl
qu_code-injective QuState.over_range QuState.over_range e = refl
qu_code-injective QuState.under_range QuState.under_range e = refl
qu_code-injective QuState.com_error QuState.com_error e = refl
qu_code-injective QuState.ok QuState.over_range e = absurd (omega arith)
qu_code-injective QuState.ok QuState.under_range e = absurd (omega arith)
qu_code-injective QuState.ok QuState.com_error e = absurd (omega arith)
qu_code-injective QuState.over_range QuState.ok e = absurd (omega arith)
qu_code-injective QuState.over_range QuState.under_range e = absurd (omega arith)
qu_code-injective QuState.over_range QuState.com_error e = absurd (omega arith)
qu_code-injective QuState.under_range QuState.ok e = absurd (omega arith)
qu_code-injective QuState.under_range QuState.over_range e = absurd (omega arith)
qu_code-injective QuState.under_range QuState.com_error e = absurd (omega arith)
qu_code-injective QuState.com_error QuState.ok e = absurd (omega arith)
qu_code-injective QuState.com_error QuState.over_range e = absurd (omega arith)
qu_code-injective QuState.com_error QuState.under_range e = absurd (omega arith)

-- The device after a new state, the map, and the entry of another address.
unfoldable pub Noted : QuState → IoAddr → IoAddr → VarErrors → EtherDevice × VarErrors → Type 0
Noted q a b errs (d, new) = Recorded a d new × (d.last_q_state ≡ q) × (find b new ≡ find b errs)

note_failure :
    (q last : QuState) (in_error : Bool) (a b : IoAddr) (errs : VarErrors)
    → (qu_code q == 0) ≡ false
    → Recorded a (record { in_error = in_error; last_q_state = last }) errs
    → same_addr a b ≡ false
    → Noted q a b errs (note_state q a (record { in_error = in_error; last_q_state = last }) errs)
unfolding Noted Recorded note_state
note_failure q last in_error a b errs bad (found, error, unique) other =
    elim (Bool-cases (in_error && qu_code last == qu_code q)) [
      | inl known ↦
          let e : last ≡ q = qu_code-injective last q (ground arith) in
          let on : in_error ≡ true = ground arith in
          rw (bad, known)
            (
              (
                rw (sym e) (found ∙ ap (λ c. if c then some last else none) on),
                sym (ap not bad),
                unique,
              ),
              refl,
              refl,
            )
      | inr fresh ↦
          rw (bad, fresh)
            (
              (find-new_var_error a q errs, sym (ap not bad), new_var_error-Unique a q errs unique),
              refl,
              find-new_var_error_other a b q errs other,
            )
    ]

note_success :
    (d : EtherDevice) (a b : IoAddr) (errs : VarErrors)
    → Recorded a d errs
    → same_addr a b ≡ false
    → Noted QuState.ok a b errs (note_state QuState.ok a d errs)
unfolding Noted Recorded note_state
note_success d a b errs (found, error, unique) other = elim (Bool-cases d.in_error) [
  | inl on ↦ rw on (
    (find-clear_var_error a errs unique, refl, clear_var_error-Unique a errs unique),
    refl,
    find-clear_var_error_other a b errs unique other,
  )
  | inr off ↦
      let e : d.last_q_state ≡ QuState.ok =
        qu_code-injective d.last_q_state QuState.ok (ground arith) in
      let quiet =
        if-false {A = EtherDevice × VarErrors} d.in_error
          (record { in_error = false; last_q_state = QuState.ok }, clear_var_error a errs) (d, errs)
          off in
      rw quiet ((found, error, unique), e, refl)
]

pub note_state-Noted :
    (q : QuState) (d : EtherDevice) (a b : IoAddr) (errs : VarErrors)
    → Recorded a d errs
    → same_addr a b ≡ false
    → Noted q a b errs (note_state q a d errs)
note_state-Noted QuState.ok d a b errs inv other = note_success d a b errs inv other
note_state-Noted QuState.over_range d a b errs inv other =
    note_failure QuState.over_range d.last_q_state d.in_error a b errs refl inv other
note_state-Noted QuState.under_range d a b errs inv other =
    note_failure QuState.under_range d.last_q_state d.in_error a b errs refl inv other
note_state-Noted QuState.com_error d a b errs inv other =
    note_failure QuState.com_error d.last_q_state d.in_error a b errs refl inv other

-- Where the map agrees with a device, `updateDevice` of an analog device whose state (`getVarQState`,
-- or ComError for a failed module) is computed keeps it so: the device gets the state, the map has an
-- entry of its address exactly when the state is not OK, with that state, and the entry of another
-- address is as before.
pub update_analog-Recorded :
    (modules : List ℕ) (w : StatusWord) (s : IoMap) (a b : IoAddr) (d : EtherDevice)
    (errs : VarErrors) (q : QuState)
    → Recorded a d errs
    → same_addr a b ≡ false
    → (if is_module_ok modules a then get_var_q_state w s else some QuState.com_error) ≡ some q
    → (e : EtherDevice) × (new : VarErrors) × (update_analog modules w s a d errs ≡ some (e, new))
      × Recorded a e new
      × (e.last_q_state ≡ q)
      × (find b new ≡ find b errs)
unfolding update_analog Noted
update_analog-Recorded modules w s a b d errs q inv other state =
    let (recorded, last, rest) = note_state-Noted q d a b errs inv other in
    let (e, new) = note_state q a d errs in (e, new, rw state, recorded, last, rest)
