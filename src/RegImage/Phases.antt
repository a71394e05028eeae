-- ===== src/RegImage/Phases.antt =====
-- Every state of the buttons that the presses of RegImage.cpp, its timer and the driver reach.
use turbine_governor.Base.{
  ◌≡◌, refl, sym, ◌⊎◌, inl, inr, Bool, true, false, not, Option, none, some, List, [], ◌∷◌, ◌++◌,
}
use turbine_governor.Base.Dict
use turbine_governor.Base.DictLaws.{Unique}
use turbine_governor.Types.{IoAddr}
use turbine_governor.RegImage.Buttons.{write_as_button, process_uncompleted_writes}
use turbine_governor.RegImage.Pending.{values, IsPhase}
use turbine_governor.RegImage.Tables.{
  write_at, clean_at, queued_at, write_as_button_cases, write_as_button_ok, write_as_button-Tidy,
  driver_write_success-Tidy, driver_write_time_out-Tidy,
}
use turbine_governor.RegImage.Presses.{Desk, Step, Reached, Orderly, asked_after, one_table}
use turbine_governor.RegImage.Replies.{succeeded-PhaseAt, timed_out-PhaseAt}
use turbine_governor.RegImage.Requests.{taken-PhaseAt, refused-PhaseAt, served-PhaseAt}

module _ (rest : IoAddr → Bool) where
  pressed-Orderly :
      (d : Desk) (a : IoAddr) (accepted : Bool)
      → write_at a d.buttons ≡ none
      → clean_at a d.buttons ≡ none
      → Orderly rest d
      → Orderly rest (record d {
        buttons = (write_as_button a (not (rest a)) accepted d.buttons).1;
        asked = asked_after rest accepted a (not (rest a)) d.asked;
      })
  pressed-Orderly d a true w c h = (
    write_as_button-Tidy a (not (rest a)) true d.buttons w c h.0,
    λ j. taken-PhaseAt rest d a j w c h,
  )
  pressed-Orderly d a false w c h = (
    write_as_button-Tidy a (not (rest a)) false d.buttons w c h.0,
    λ j. refused-PhaseAt rest d a j w c h,
  )

  Step-Orderly : {d e : Desk} → Step rest d e → Orderly rest d → Orderly rest e
  unfolding process_uncompleted_writes
  Step-Orderly (Step.pressed d a accepted) h =
      elim (write_as_button_cases a (not (rest a)) accepted d.buttons) [
        | inl ignored ↦ rw ignored h
        | inr (w, c) ↦
            rw (write_as_button_ok a (not (rest a)) accepted d.buttons w c)
              (pressed-Orderly d a accepted w c h)
      ]
  Step-Orderly (Step.served d accepted) (tidy, phases) =
      (tidy, λ j. served-PhaseAt rest d j accepted (tidy, phases))
  Step-Orderly (Step.succeeded d before after a v e) (tidy, phases) = (
    driver_write_success-Tidy a d.buttons (one_table rest d a (phases a)) tidy,
    λ j. succeeded-PhaseAt rest d before after a j v e (tidy, phases),
  )
  Step-Orderly (Step.timed_out d before after a v e) (tidy, phases) = (
    driver_write_time_out-Tidy a d.buttons tidy,
    λ j. timed_out-PhaseAt rest d before after a j v e (tidy, phases),
  )

  Reached-Orderly : {d : Desk} → Reached rest d → Orderly rest d
  unfolding Dict.lookup Unique
  Reached-Orderly Reached.fresh = ((tt, tt), λ j. (refl, refl, refl))
  Reached-Orderly (Reached.next r s) = Step-Orderly s (Reached-Orderly r)

phase_cases :
    (rest : Bool) (w c : Option Bool) (asked queued : List Bool) (coil : Bool)
    → IsPhase rest w c asked queued coil
    → ((w ≡ none) × (c ≡ none) × (asked ≡ []) × (queued ≡ []) × (coil ≡ rest))
      ⊎ (((w ≡ some (not rest))
            × (c ≡ none)
            × (asked ≡ not rest ∷ [])
            × (queued ≡ [])
            × (coil ≡ rest))
          ⊎ ((w ≡ none) × (c ≡ some rest) × (asked ++ queued ≡ rest ∷ [])))
phase_cases rest none none asked queued coil (a, q, k) = inl (refl, refl, a, q, k)
phase_cases rest (some v) none asked queued coil (e, a, q, k) =
    inr (inl (rw e, refl, rw (sym e) a, q, k))
phase_cases rest none (some v) asked queued coil (e, inl (a, q)) =
    inr (inr (refl, rw e, rw (a, q, e)))
phase_cases rest none (some v) asked queued coil (e, inr (a, q)) =
    inr (inr (refl, rw e, rw (a, q, e)))
phase_cases rest (some v) (some x) asked queued coil h = absurd h

-- In every state that presses, passes over the queue and answers of the driver reach, each button has
-- nothing asked or queued, and the value last confirmed of its variable, if any, is the one at rest; or
-- its press has been asked of the driver, once, and this holds of its variable too; or its press is
-- confirmed and the write that takes it back is asked or queued, once in all. The driver answers each
-- request once.
pub Reached-phases :
    (rest : IoAddr → Bool) {d : Desk}
    → Reached rest d
    → (j : IoAddr)
    → ((write_at j d.buttons ≡ none)
        × (clean_at j d.buttons ≡ none)
        × (values j d.asked ≡ [])
        × (queued_at j d.buttons ≡ [])
        × (d.confirmed j ≡ rest j))
      ⊎ (((write_at j d.buttons ≡ some (not (rest j)))
            × (clean_at j d.buttons ≡ none)
            × (values j d.asked ≡ not (rest j) ∷ [])
            × (queued_at j d.buttons ≡ [])
            × (d.confirmed j ≡ rest j))
          ⊎ ((write_at j d.buttons ≡ none)
              × (clean_at j d.buttons ≡ some (rest j))
              × (values j d.asked ++ queued_at j d.buttons ≡ rest j ∷ [])))
Reached-phases rest {d} r j =
    phase_cases (rest j) (write_at j d.buttons) (clean_at j d.buttons) (values j d.asked)
      (queued_at j d.buttons) (d.confirmed j) ((Reached-Orderly rest r).1 j)
