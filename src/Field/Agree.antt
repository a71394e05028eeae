-- ===== src/Field/Agree.antt =====
-- Every device of EthercatDrv.cpp agrees with the map of failed variables, after `updateDevice`.
use mathlib.Core.Path.{subst}
use turbine_governor.Base.{
  ℕ, ◌+◌, ◌≡◌, refl, ap, ◌∙◌, inl, inr, Bool, true, false, Option, none, some, List, ◌>>=◌,
  Bool-cases, arith,
}
use turbine_governor.Types.{IoAddr, QuState, same_addr}
use turbine_governor.Field.Errors.{
  find, find-new_var_error, find-new_var_error_other, find-clear_var_error,
  find-clear_var_error_other, new_var_error-Unique, clear_var_error-Unique,
}
use turbine_governor.Field.Devices.{
  EtherDevice, VarErrors, Recorded, is_module_ok, update_pulse, note_state,
}
use turbine_governor.Field.Failures.{Noted, note_state-Noted}
use turbine_governor.Field.Kinds.{Device}

-- The state of a device that only a failed module puts into error.
abbrev pub module_state : Bool → QuState
module_state true = QuState.com_error
module_state false = QuState.ok

abbrev pub Simple : IoAddr → EtherDevice → VarErrors → Type 0
Simple a d errs = Recorded a d errs × (d.last_q_state ≡ module_state d.in_error)

-- A device in agreement with the map, by its kind.
abbrev pub Agrees : {F : Type 0} → IoAddr → Device F → VarErrors → Type 0
Agrees a (Device.digital d) errs = Simple a d.dev errs
Agrees a (Device.analog d) errs = Recorded a d.dev errs
Agrees a (Device.pulse d) errs = Simple a d.dev errs

-- The entries of other addresses stay.
pub record OthersKept (a : IoAddr) (old new : VarErrors) : Type 0 where
  pub others : (b : IoAddr) → same_addr a b ≡ false → find b new ≡ find b old

unfoldable pub Updated : IoAddr → VarErrors → EtherDevice × VarErrors → Type 0
Updated a old (e, new) = Simple a e new × OthersKept a old new

module _ (failed : List ℕ) (a : IoAddr) (errs : VarErrors) where
  pub update_pulse-Updated :
      (in_error : Bool) (last : QuState)
      → Simple a (record { in_error = in_error; last_q_state = last }) errs
      → Updated a errs
          (update_pulse failed a (record { in_error = in_error; last_q_state = last }) errs)
  unfolding Updated Recorded update_pulse
  update_pulse-Updated true last ((found, error, unique), state) =
      elim (Bool-cases (is_module_ok failed a)) [
        | inl good ↦ rw good (
          ((find-clear_var_error a errs unique, refl, clear_var_error-Unique a errs unique), refl),
          record { others = λ b apart. find-clear_var_error_other a b errs unique apart },
        )
        | inr bad ↦
            rw bad
              (((found ∙ ap some state, refl, unique), refl), record { others = λ b apart. refl })
      ]
  update_pulse-Updated false last ((found, error, unique), state) =
      elim (Bool-cases (is_module_ok failed a)) [
        | inl good ↦ rw good (((found, error, unique), state), record { others = λ b apart. refl })
        | inr bad ↦ rw bad (
          (
            (
              find-new_var_error a QuState.com_error errs,
              refl,
              new_var_error-Unique a QuState.com_error errs unique,
            ),
            refl,
          ),
          record { others = λ b apart. find-new_var_error_other a b QuState.com_error errs apart },
        )
      ]

  -- Another address.
  abbrev elsewhere : IoAddr
  elsewhere = record a { header = a.header + 1 }

  elsewhere_other : same_addr a elsewhere ≡ false
  elsewhere_other = ground arith

  pub note_state-agrees :
      (q : QuState) (d : EtherDevice)
      → Recorded a d errs
      → Recorded a (note_state q a d errs).0 (note_state q a d errs).1
  unfolding Noted
  note_state-agrees q d h =
      let (recorded, _, _) = note_state-Noted q d a elsewhere errs h elsewhere_other in recorded

  pub note_state-OthersKept :
      (q : QuState) (d : EtherDevice)
      → Recorded a d errs
      → OthersKept a errs (note_state q a d errs).1
  unfolding Noted
  note_state-OthersKept q d h = record {
    others = λ b apart. let (_, _, kept) = note_state-Noted q d a b errs h apart in kept;
  }

-- What holds of every result of a computation.
unfoldable pub Every : {A : Type 0} → (A → Type 0) → Option A → Type 0
Every {A} P o = (r : A) → o ≡ some r → P r

abbrev pub the : {A : Type 0} → A → Option A → A
the d none = d
the d (some a) = a

module _ {A : Type 0} where
  pub some-Every : (P : A → Type 0) (a : A) → P a → Every P (some a)
  unfolding Every
  some-Every P a h r e = subst P (ap (the a) e) h

  pub bind-Every :
      {B : Type 0} (P : B → Type 0) (o : Option A) (f : A → Option B)
      → ((a : A) → o ≡ some a → Every P (f a))
      → Every P (o >>= f)
  unfolding Every
  bind-Every P none f h r e = absurd (cc)
  bind-Every P (some a) f h r e = h a refl r e
