-- ===== src/Regulator/Cycles.antt =====
-- The cycles of Regulator/src/main.cpp: the regulator never stops by itself.
use turbine_governor.Base.{
  ℕ, ◌≡◌, refl, sym, ◌∙◌, inl, inr, true, Option, some, List, [], ◌∷◌, Bool-cases,
}
use mathlib.Core.Option.{some-injective}
use turbine_governor.Base.Dict
use turbine_governor.Types.{IoAddr, QuState}
use turbine_governor.Types.Float.{FloatOps}
use turbine_governor.Types.IoVar.{IoVar}
use turbine_governor.AlarmManager.{AlarmManager, construct, driver_failed, al_tripext}
use turbine_governor.AlarmManager.Words.{construct-IsWf}
use turbine_governor.AlarmManager.Drivers.{
  NoFieldErrors, set_alarm-NoFieldErrors, clear_alarms-NoFieldErrors,
  check_driver_errors-NoFieldErrors, marked,
}
use turbine_governor.Image.{SlaveOps, FieldOps}
use turbine_governor.Image.Cells.{value_at-Has}
use turbine_governor.Image.Exchange.{get_fld_errors, known_errors}
use turbine_governor.Image.Keeps.{SlaveLaws, update_inputs-returns, update_outputs-returns}
use turbine_governor.Image.Start.{init-Ready}
use turbine_governor.Control.{is_value, hmsm_reg_trip, hmsm_reg_alrep}
use turbine_governor.Control.Runs.{Ready}
use turbine_governor.Control.Cycle.{is_state, alarms_after, update_control-returns}
use turbine_governor.Regulator.{
  Regulator, DriverStates, inputs, check_errors, control, outputs, cycle, boot,
}

-- Between two cycles: the image has the variables of the control and no index of addresses, the
-- control is in one of its states, the alarm manager knows of no failed variable, and the slave
-- driver is in a good state.
pub record RegInv {S D F : Type 0} (Good : S → Type 0) (r : Regulator S D F) : Type 0 where
  pub ready : Ready r.world.image
  pub no_index : r.world.image.field_addr_index ≡ []
  pub in_state : is_state r.world.i_state ≡ true
  pub no_errors : NoFieldErrors r.world.alarms
  pub good : Good r.slave

fresh_map : (words words' : ℕ → ℕ) → (construct words words').last_fld_errors ≡ []
unfolding construct
fresh_map words words' = refl

module _ {S D F : Type 0} (fl : FloatOps F) (slave : SlaveOps S F) (field : FieldOps D F)
    (states : DriverStates S D) (Good : S → Type 0) (laws : SlaveLaws slave Good) where
  -- A step of the cycle returns, and keeps the invariant.
  abbrev Proceeds : (Regulator S D F → Option (Regulator S D F)) → Type 0
  Proceeds step =
      (r : Regulator S D F)
      → RegInv Good r
      → (r' : Regulator S D F) × (step r ≡ some r') × RegInv Good r'

  no_known : (es : List (IoAddr × QuState)) → known_errors slave field [] es ≡ []
  unfolding Dict.lookup
  no_known [] = refl
  no_known ((a, q) ∷ es) = no_known es

  inputs-Proceeds : Proceeds (inputs fl slave field states)
  unfolding inputs
  inputs-Proceeds r v =
      let (img, s, e, g, keeps, index) =
        update_inputs-returns slave field Good laws r.world.image r.field r.slave v.good in
      (
        record r { world = record r.world { image = img }; slave = s },
        rw (e, inputs),
        record {
          ready = λ id u. keeps id (v.ready id u);
          no_index = index ∙ v.no_index;
          in_state = v.in_state;
          no_errors = v.no_errors;
          good = g;
        },
      )

  outputs-Proceeds : Proceeds (outputs fl slave field states)
  unfolding outputs
  outputs-Proceeds r v =
      let (img, d, s, e, g, keeps, index) =
        update_outputs-returns slave field Good laws r.world.alarms r.world.image r.field r.slave
          v.good in
      (
        record r { world = record r.world { image = img }; field = d; slave = s },
        rw (e, outputs),
        record {
          ready = λ id u. keeps id (v.ready id u);
          no_index = index ∙ v.no_index;
          in_state = v.in_state;
          no_errors = v.no_errors;
          good = g;
        },
      )

  check_errors-Proceeds : Proceeds (check_errors fl slave field states)
  unfolding check_errors get_fld_errors
  check_errors-Proceeds r v =
      let (al, e, w) =
        check_driver_errors-NoFieldErrors (states.of_field r.field) (states.of_slave r.slave)
          r.world.alarms v.no_errors in
      (
        record r { world = record r.world { alarms = al } },
        rw (v.no_index, no_known (field.var_errors r.field), e, check_errors, get_fld_errors),
        record {
          ready = v.ready;
          no_index = v.no_index;
          in_state = v.in_state;
          no_errors = w;
          good = v.good;
        },
      )

  alarms_after-NoFieldErrors :
      (trip reset : F) (al : AlarmManager)
      → NoFieldErrors al
      → NoFieldErrors (alarms_after fl trip reset al)
  alarms_after-NoFieldErrors trip reset al v = elim (Bool-cases (is_value fl 0 trip)) [
    | inl tripped ↦ rw tripped (set_alarm-NoFieldErrors al_tripext al v)
    | inr fine ↦ elim (Bool-cases (is_value fl 1 reset)) [
      | inl on ↦ rw (fine, on) (clear_alarms-NoFieldErrors al v)
      | inr off ↦ rw (fine, off) v
    ]
  ]

  control-Proceeds : Proceeds (control fl slave field states)
  unfolding control
  control-Proceeds r v =
      let (trip, e) = value_at-Has r.world.image hmsm_reg_trip (v.ready hmsm_reg_trip refl) in
      let (reset, f) = value_at-Has r.world.image hmsm_reg_alrep (v.ready hmsm_reg_alrep refl) in
      let (w, done, ready, follows, in_state, alarms, index) =
        update_control-returns fl r.world trip reset v.ready v.no_index v.in_state e f in
      (
        record r { world = w },
        rw (done, control),
        record {
          ready = ready;
          no_index = index;
          in_state = in_state;
          no_errors = rw alarms (alarms_after-NoFieldErrors trip reset r.world.alarms v.no_errors);
          good = v.good;
        },
      )

  -- A cycle of the regulator always returns, over any slave driver that keeps its promises: no null
  -- pointer, no access past an array, no undefined shift; and it leads to a state from which the next
  -- cycle returns too.
  pub cycle-returns :
      (r : Regulator S D F)
      → RegInv Good r
      → (r' : Regulator S D F) × (cycle fl slave field states r ≡ some r') × RegInv Good r'
  unfolding cycle
  cycle-returns r v =
      let (r₁, e₁, v₁) = inputs-Proceeds r v in
      let (r₂, e₂, v₂) = check_errors-Proceeds r₁ v₁ in
      let (r₃, e₃, v₃) = control-Proceeds r₂ v₂ in
      let (r₄, e₄, v₄) = outputs-Proceeds r₃ v₃ in (r₄, rw (e₁, e₂, e₃, e₄, cycle), v₄)

  boot-RegInv :
      (junk : ℕ → IoVar F) (al : AlarmManager) (d : D) (s : S) (r : Regulator S D F)
      → NoFieldErrors al
      → Good s
      → boot fl slave field states junk al d s ≡ some r
      → RegInv Good r
  unfolding boot
  boot-RegInv junk al d s r n g b =
      let (img, s', e, g', ready, index) = init-Ready fl slave Good laws junk s g in
      rw⁻¹ (some-injective _ _ (rw (e, boot) at b))
        (record { ready = ready; no_index = index; in_state = refl; no_errors = n; good = g' })

  -- The start of the regulator returns as well.
  pub boot-returns :
      (junk : ℕ → IoVar F) (al : AlarmManager) (d : D) (s : S)
      → Good s
      → (r : Regulator S D F) × (boot fl slave field states junk al d s ≡ some r)
  unfolding boot
  boot-returns junk al d s g =
      let (img, s', e, g', ready, index) = init-Ready fl slave Good laws junk s g in
      (
        record { world = record { image = img; alarms = al; i_state = 0 }; slave = s'; field = d },
        rw (e, boot),
      )

-- The drivers as they answer in one cycle: the times that are read and what the field does differ from
-- cycle to cycle.
module _ {C S D F : Type 0} (fl : FloatOps F) (slave : C → SlaveOps S F) (field : C → FieldOps D F)
    (states : DriverStates S D) (Good : S → Type 0)
    (laws : (c : C) → SlaveLaws (slave c) Good) where
  -- The states of the regulator: after the start, after a cycle, after the thread of a driver or a
  -- master has moved a driver, and after a driver has reported a failure.
  pub data Reached : Regulator S D F → Type 0 where
    booted :
        (c : C) (junk : ℕ → IoVar F) (words words' : ℕ → ℕ) (d : D) (s : S) (r : Regulator S D F)
        → Good s
        → boot fl (slave c) (field c) states junk (construct words words') d s ≡ some r
        → Reached r
    cycled :
        (c : C) (r r' : Regulator S D F)
        → Reached r
        → cycle fl (slave c) (field c) states r ≡ some r'
        → Reached r'
    slave_moved :
        (r : Regulator S D F) (s : S) → Reached r → Good s → Reached (record r { slave = s })
    field_moved : (r : Regulator S D F) (d : D) → Reached r → Reached (record r { field = d })
    failed :
        (r : Regulator S D F)
        → Reached r
        → Reached (record r { world = record r.world { alarms = driver_failed r.world.alarms } })

  driver_failed-RegInv :
      (r : Regulator S D F)
      → RegInv Good r
      → RegInv Good (record r { world = record r.world { alarms = driver_failed r.world.alarms } })
  unfolding driver_failed
  driver_failed-RegInv r v = record {
    ready = v.ready;
    no_index = v.no_index;
    in_state = v.in_state;
    no_errors = marked r.world.alarms true v.no_errors;
    good = v.good;
  }

  pub Reached-RegInv : (r : Regulator S D F) → Reached r → RegInv Good r
  Reached-RegInv r (Reached.booted c junk words words' d s _ g e) =
      boot-RegInv fl (slave c) (field c) states Good (laws c) junk (construct words words') d s r
        (record { wf = construct-IsWf words words'; none_known = fresh_map words words' }) g e
  Reached-RegInv r (Reached.cycled c q _ before e) =
      let (r', done, v) =
        cycle-returns fl (slave c) (field c) states Good (laws c) q (Reached-RegInv q before) in
      rw⁻¹ (some-injective r' r (sym done ∙ e)) v
  Reached-RegInv _ (Reached.slave_moved q s before g) =
      let v = Reached-RegInv q before in
      record {
        ready = v.ready;
        no_index = v.no_index;
        in_state = v.in_state;
        no_errors = v.no_errors;
        good = g;
      }
  Reached-RegInv _ (Reached.field_moved q d before) =
      let v = Reached-RegInv q before in
      record {
        ready = v.ready;
        no_index = v.no_index;
        in_state = v.in_state;
        no_errors = v.no_errors;
        good = v.good;
      }
  Reached-RegInv _ (Reached.failed q before) = driver_failed-RegInv q (Reached-RegInv q before)
