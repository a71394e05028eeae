-- ===== src/RegImage/Replies.antt =====
-- The phases of the buttons of RegImage.cpp after an answer of the driver.
use mathlib.Core.List.{append-nil}
use mathlib.Core.Path.{subst}
use turbine_governor.Base.{
  ◌≡◌, refl, ap, sym, ◌∙◌, inl, inr, Bool, Option, none, List, [], ◌∷◌, ◌++◌, if◌then◌else◌,
  if-true, if-false, Bool-cases,
}
use turbine_governor.Types.{IoAddr, same_addr}
use turbine_governor.Types.Addr.{same_addr-IsSame}
use turbine_governor.RegImage.Buttons.{
  Buttons, ButtonWrites, driver_write_time_out, driver_write_success,
}
use turbine_governor.RegImage.Pending.{
  values, values-append, IsPhase, cleaned, waiting_after, if_none, succeeded-IsPhase,
  timed_out-IsPhase,
}
use turbine_governor.RegImage.Tables.{
  write_at, clean_at, queued_at, driver_write_success_at, driver_write_time_out_at,
}
use turbine_governor.RegImage.Presses.{
  Desk, update, PhaseAt, Orderly, one_table, IsPhase-cong, values-here, values-there, same_value,
  if_none-eq,
}

module _ (rest : IoAddr → Bool) where
  -- The tables b' after an answer for (a, v), at any address.
  answered-PhaseAt :
      (a j : IoAddr) (v : Bool) (b b' : Buttons) (asked before after : ButtonWrites)
      (c : Option Bool) (more : List Bool) (k old_coil coil : Bool)
      → asked ≡ before ++ ((a, v) ∷ after)
      → write_at j b' ≡ (if same_addr a j then none else write_at j b)
      → clean_at j b' ≡ (if same_addr a j then c else clean_at j b)
      → queued_at j b' ≡ queued_at j b ++ (if same_addr a j then more else [])
      → coil ≡ (if same_addr a j then k else old_coil)
      → IsPhase (rest a) none c (values a before ++ values a after) (queued_at a b ++ more) k
      → IsPhase (rest j) (write_at j b) (clean_at j b) (values j asked) (queued_at j b) old_coil
      → IsPhase
          (rest j)
          (write_at j b')
          (clean_at j b')
          (values j (before ++ after))
          (queued_at j b')
          coil
  answered-PhaseAt a j v b b' asked before after c more k old_coil coil e w cl q co self old =
      elim (Bool-cases (same_addr a j)) [
        | inl here ↦
            let p : a ≡ j = same_addr-IsSame.sound a j here in
            let moved : IsPhase (rest j) none c (values j before ++ values j after)
                (queued_at j b ++ more) k =
              subst
                (λ x.
                  IsPhase (rest x) none c (values x before ++ values x after)
                    (queued_at x b ++ more) k)
                p self in
            IsPhase-cong (rest j) (write_at j b') none (clean_at j b') c
              (values j (before ++ after)) (values j before ++ values j after) (queued_at j b')
              (queued_at j b ++ more) coil k (w ∙ if-true (same_addr a j) none (write_at j b) here)
              (cl ∙ if-true (same_addr a j) c (clean_at j b) here) (values-append j before after)
              (q ∙ ap (λ l. queued_at j b ++ l) (if-true (same_addr a j) more [] here))
              (co ∙ if-true (same_addr a j) k old_coil here) moved
        | inr other ↦
            IsPhase-cong (rest j) (write_at j b') (write_at j b) (clean_at j b') (clean_at j b)
              (values j (before ++ after)) (values j asked) (queued_at j b') (queued_at j b) coil
              old_coil (w ∙ if-false (same_addr a j) none (write_at j b) other)
              (cl ∙ if-false (same_addr a j) c (clean_at j b) other)
              (sym (ap (values j) e ∙ values-there a j v before after other))
              (q
                ∙ ap (λ l. queued_at j b ++ l) (if-false (same_addr a j) more [] other)
                ∙ append-nil (queued_at j b))
              (co ∙ if-false (same_addr a j) k old_coil other) old
      ]

  asked_here :
      (a : IoAddr) (v : Bool) (asked before after : ButtonWrites)
      → asked ≡ before ++ ((a, v) ∷ after)
      → values a asked ≡ values a before ++ (v ∷ values a after)
  asked_here a v asked before after e = ap (values a) e ∙ values-here a v before after

  pub succeeded-PhaseAt :
      (d : Desk) (before after : ButtonWrites) (a j : IoAddr) (v : Bool)
      → d.asked ≡ before ++ ((a, v) ∷ after)
      → Orderly rest d
      → PhaseAt rest j (record {
        buttons = driver_write_success a d.buttons;
        asked = before ++ after;
        confirmed = update rest d.confirmed a v;
      })
  succeeded-PhaseAt d before after a j v e (tidy, phases) =
      let (w, c, q) = driver_write_success_at a j d.buttons tidy (one_table rest d a (phases a)) in
      let here : IsPhase (rest a) (write_at a d.buttons) (clean_at a d.buttons)
          (values a before ++ (v ∷ values a after)) (queued_at a d.buttons) (d.confirmed a) =
        rw (sym (asked_here a v d.asked before after e)) (phases a) in
      answered-PhaseAt a j v d.buttons (driver_write_success a d.buttons) d.asked before after
        (cleaned (write_at a d.buttons)) (waiting_after (cleaned (write_at a d.buttons))) v
        (d.confirmed j) (update rest d.confirmed a v j) e w c q refl
        (succeeded-IsPhase (rest a) (write_at a d.buttons) (clean_at a d.buttons) (values a before)
          (values a after) (queued_at a d.buttons) v (d.confirmed a) here)
        (phases j)

  pub timed_out-PhaseAt :
      (d : Desk) (before after : ButtonWrites) (a j : IoAddr) (v : Bool)
      → d.asked ≡ before ++ ((a, v) ∷ after)
      → Orderly rest d
      → PhaseAt rest j
          (record d { buttons = (driver_write_time_out a d.buttons).1; asked = before ++ after })
  timed_out-PhaseAt d before after a j v e (tidy, phases) =
      let (w, c, q) = driver_write_time_out_at a j d.buttons tidy (one_table rest d a (phases a)) in
      let here : IsPhase (rest a) (write_at a d.buttons) (clean_at a d.buttons)
          (values a before ++ (v ∷ values a after)) (queued_at a d.buttons) (d.confirmed a) =
        rw (sym (asked_here a v d.asked before after e)) (phases a) in
      answered-PhaseAt a j v d.buttons (driver_write_time_out a d.buttons).1 d.asked before after
        (if_none (write_at a d.buttons) (clean_at a d.buttons))
        (waiting_after (if_none (write_at a d.buttons) (clean_at a d.buttons))) (d.confirmed a)
        (d.confirmed j) (d.confirmed j) e w
        (c
          ∙ same_value (λ x. clean_at x d.buttons) a j
          ∙ ap (λ o. if same_addr a j then o else clean_at j d.buttons)
              (sym (
                if_none-eq (write_at a d.buttons) (clean_at a d.buttons)
                  (one_table rest d a (phases a)))))
        q (same_value d.confirmed a j)
        (timed_out-IsPhase (rest a) (write_at a d.buttons) (clean_at a d.buttons) (values a before)
          (values a after) (queued_at a d.buttons) v (d.confirmed a) here)
        (phases j)
