-- ===== src/RegImage/Requests.antt =====
-- The phases of the buttons of RegImage.cpp after a press, and after a pass over the queue.
use mathlib.Core.List.{append-nil}
use mathlib.Core.Path.{subst}
use turbine_governor.Base.{
  ℕ, ◌≡◌, refl, ap, sym, ◌∙◌, inl, inr, Bool, true, false, not, none, some, [], ◌∷◌, ◌++◌, if-true,
  if-false, Bool-cases,
}
use turbine_governor.Types.{IoAddr, same_addr}
use turbine_governor.Types.Addr.{same_addr-IsSame}
use turbine_governor.RegImage.Buttons.{Buttons, write_as_button, drain, process_uncompleted_writes}
use turbine_governor.RegImage.Pending.{
  values, values-append, IsPhase, pressed-IsPhase, served-IsPhase,
}
use turbine_governor.RegImage.Tables.{
  write_at, clean_at, queued_at, write_as_button_at, write_as_button_refused,
}
use turbine_governor.RegImage.Presses.{Desk, PhaseAt, Orderly, IsPhase-cong, append-drain}

module _ (rest : IoAddr → Bool) where
  -- A press of a button that is in no table goes into the first phase.
  pub taken-PhaseAt :
      (d : Desk) (a j : IoAddr)
      → write_at a d.buttons ≡ none
      → clean_at a d.buttons ≡ none
      → Orderly rest d
      → PhaseAt rest j (record d {
        buttons = (write_as_button a (not (rest a)) true d.buttons).1;
        asked = d.asked ++ ((a, not (rest a)) ∷ []);
      })
  taken-PhaseAt d a j we ce (tidy, phases) =
      let new : Buttons = (write_as_button a (not (rest a)) true d.buttons).1 in
      let (w, c, q) = write_as_button_at a j d.buttons (not (rest a)) we ce tidy in
      elim (Bool-cases (same_addr a j)) [
        | inl here ↦
            let p : a ≡ j = same_addr-IsSame.sound a j here in
            let mine : IsPhase (rest a) none none (values a d.asked) (queued_at a d.buttons)
                (d.confirmed a) =
              IsPhase-cong (rest a) none (write_at a d.buttons) none (clean_at a d.buttons)
                (values a d.asked) (values a d.asked) (queued_at a d.buttons)
                (queued_at a d.buttons) (d.confirmed a) (d.confirmed a) (sym we) (sym ce) refl refl
                refl (phases a) in
            let moved =
              subst
                (λ x.
                  IsPhase (rest x) (some (not (rest x))) none
                    (values x d.asked ++ (not (rest x) ∷ [])) (queued_at x d.buttons)
                    (d.confirmed x))
                p
                (pressed-IsPhase (rest a) (not (rest a)) (values a d.asked) (queued_at a d.buttons)
                  (d.confirmed a) refl mine) in
            IsPhase-cong (rest j) (write_at j new) (some (not (rest j))) (clean_at j new) none
              (values j (d.asked ++ ((a, not (rest a)) ∷ [])))
              (values j d.asked ++ (not (rest j) ∷ [])) (queued_at j new) (queued_at j d.buttons)
              (d.confirmed j) (d.confirmed j)
              (w
                ∙ if-true (same_addr a j) (some (not (rest a))) (write_at j d.buttons) here
                ∙ ap (λ x. some (not (rest x))) p)
              (c ∙ ap (λ x. clean_at x d.buttons) (sym p) ∙ ce)
              (values-append j d.asked ((a, not (rest a)) ∷ [])
                ∙ ap (λ l. values j d.asked ++ l)
                    (if-true (same_addr a j) (not (rest a) ∷ []) [] here
                      ∙ ap (λ x. not (rest x) ∷ []) p))
              q refl moved
        | inr other ↦
            IsPhase-cong (rest j) (write_at j new) (write_at j d.buttons) (clean_at j new)
              (clean_at j d.buttons) (values j (d.asked ++ ((a, not (rest a)) ∷ [])))
              (values j d.asked) (queued_at j new) (queued_at j d.buttons) (d.confirmed j)
              (d.confirmed j)
              (w ∙ if-false (same_addr a j) (some (not (rest a))) (write_at j d.buttons) other) c
              (values-append j d.asked ((a, not (rest a)) ∷ [])
                ∙ ap (λ l. values j d.asked ++ l)
                    (if-false (same_addr a j) (not (rest a) ∷ []) [] other)
                ∙ append-nil (values j d.asked))
              q refl (phases j)
      ]

  pub served-PhaseAt :
      (d : Desk) (j : IoAddr) (accepted : ℕ → Bool)
      → Orderly rest d
      → PhaseAt rest j (record d {
        buttons = (process_uncompleted_writes accepted d.buttons).1;
        asked = d.asked ++ (process_uncompleted_writes accepted d.buttons).0;
      })
  unfolding process_uncompleted_writes
  served-PhaseAt d j accepted (tidy, phases) =
      let (taken, left) = drain accepted 0 d.buttons.uncompleted in
      let all : values j taken ++ values j left ≡ queued_at j d.buttons =
        sym (values-append j taken left)
        ∙ ap (values j) (append-drain accepted 0 d.buttons.uncompleted) in
      IsPhase-cong (rest j) (write_at j d.buttons) (write_at j d.buttons) (clean_at j d.buttons)
        (clean_at j d.buttons) (values j (d.asked ++ taken)) (values j d.asked ++ values j taken)
        (values j left) (values j left) (d.confirmed j) (d.confirmed j) refl refl
        (values-append j d.asked taken) refl refl
        (served-IsPhase (rest j) (write_at j d.buttons) (clean_at j d.buttons) (values j d.asked)
          (values j taken) (values j left) (d.confirmed j)
          (IsPhase-cong (rest j) (write_at j d.buttons) (write_at j d.buttons)
            (clean_at j d.buttons) (clean_at j d.buttons) (values j d.asked) (values j d.asked)
            (values j taken ++ values j left) (queued_at j d.buttons) (d.confirmed j)
            (d.confirmed j) refl refl refl all refl (phases j)))

  -- A press that the driver refuses leaves the tables as they were.
  pub refused-PhaseAt :
      (d : Desk) (a j : IoAddr)
      → write_at a d.buttons ≡ none
      → clean_at a d.buttons ≡ none
      → Orderly rest d
      → PhaseAt rest j (record d { buttons = (write_as_button a (not (rest a)) false d.buttons).1 })
  refused-PhaseAt d a j we ce (tidy, phases) =
      let new : Buttons = (write_as_button a (not (rest a)) false d.buttons).1 in
      let (w, c, q) = write_as_button_refused a j d.buttons (not (rest a)) we ce tidy in
      IsPhase-cong (rest j) (write_at j new) (write_at j d.buttons) (clean_at j new)
        (clean_at j d.buttons) (values j d.asked) (values j d.asked) (queued_at j new)
        (queued_at j d.buttons) (d.confirmed j) (d.confirmed j) w c refl q refl (phases j)
