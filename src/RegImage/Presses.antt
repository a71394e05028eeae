-- ===== src/RegImage/Presses.antt =====
-- Buttons of RegImage.cpp over time: presses, the passes of `updateImage` over the queue, and the
-- answers of the driver, in any order.
use turbine_governor.Base.{
  ℕ, suc, ◌≡◌, refl, ap, sym, ◌∙◌, ◌⊎◌, inl, inr, Bool, false, not, Option, none, some, List, [],
  ◌∷◌, ◌++◌, if◌then◌else◌, if-true, if-false, Bool-cases,
}
use turbine_governor.Types.{IoAddr, same_addr}
use turbine_governor.Types.Addr.{same_addr-IsSame}
use turbine_governor.RegImage.Buttons.{
  Buttons, ButtonWrites, no_buttons, write_as_button, driver_write_time_out, driver_write_success,
  drain, process_uncompleted_writes,
}
use turbine_governor.RegImage.Pending.{values, values-append, IsPhase, if_none}
use turbine_governor.RegImage.Tables.{Tidy, write_at, clean_at, queued_at}

-- The buttons with the requests that the driver has not answered, and, for each
-- variable, its value at rest or the last one that the driver has confirmed to be written.
pub record Desk : Type 0 where
  pub buttons : Buttons
  pub asked : ButtonWrites
  pub confirmed : IoAddr → Bool

pub append-drain :
    (accepted : ℕ → Bool) (i : ℕ) (ws : ButtonWrites)
    → (drain accepted i ws).0 ++ (drain accepted i ws).1 ≡ ws
unfolding drain
append-drain accepted i [] = refl
append-drain accepted i (w ∷ ws) = elim (Bool-cases (accepted i)) [
  | inl yes_ ↦ rw yes_ (ap (λ l. w ∷ l) (append-drain accepted (suc i) ws))
  | inr no_ ↦ rw no_
]

-- A value at an address, whatever the address is compared with.
pub same_value :
    {A : Type 0} (f : IoAddr → A) (a j : IoAddr) → f j ≡ (if same_addr a j then f a else f j)
same_value f a j = elim (Bool-cases (same_addr a j)) [
  | inl here ↦
      ap f (sym (same_addr-IsSame.sound a j here)) ∙ sym (if-true (same_addr a j) (f a) (f j) here)
  | inr other ↦ sym (if-false (same_addr a j) (f a) (f j) other)
]

pub if_none-eq : (w c : Option Bool) → (w ≡ none) ⊎ (c ≡ none) → if_none w c ≡ c
if_none-eq none c one = refl
if_none-eq (some w) none one = refl
if_none-eq (some w) (some c) one = elim one [ inl e ↦ absurd (cc) | inr e ↦ absurd (cc) ]

one_of_both :
    (rest : Bool) (w c : Option Bool) (asked queued : List Bool) (coil : Bool)
    → IsPhase rest w c asked queued coil
    → (w ≡ none) ⊎ (c ≡ none)
one_of_both rest none c asked queued coil h = inl refl
one_of_both rest (some w) none asked queued coil h = inr refl
one_of_both rest (some w) (some c) asked queued coil h = absurd h

pub IsPhase-cong :
    (rest : Bool) (w w' c c' : Option Bool) (asked asked' queued queued' : List Bool)
    (coil coil' : Bool)
    → w ≡ w'
    → c ≡ c'
    → asked ≡ asked'
    → queued ≡ queued'
    → coil ≡ coil'
    → IsPhase rest w' c' asked' queued' coil'
    → IsPhase rest w c asked queued coil
IsPhase-cong rest w w' c c' asked asked' queued queued' coil coil' p q r s t h =
    rw (p, q, r, s, t) h

pub values-here :
    (a : IoAddr) (v : Bool) (before after : ButtonWrites)
    → values a (before ++ ((a, v) ∷ after)) ≡ values a before ++ (v ∷ values a after)
values-here a v before after =
    values-append a before ((a, v) ∷ after)
    ∙ ap (λ l. values a before ++ l)
        (if-true (same_addr a a) (v ∷ values a after) (values a after)
          (same_addr-IsSame.reflects a))

pub values-there :
    (a j : IoAddr) (v : Bool) (before after : ButtonWrites)
    → same_addr a j ≡ false
    → values j (before ++ ((a, v) ∷ after)) ≡ values j (before ++ after)
values-there a j v before after other =
    values-append j before ((a, v) ∷ after)
    ∙ ap (λ l. values j before ++ l)
        (if-false (same_addr a j) (v ∷ values j after) (values j after) other)
    ∙ sym (values-append j before after)

module _ (rest : IoAddr → Bool) where
  abbrev pub at_rest : Desk
  at_rest = record { buttons = no_buttons; asked = []; confirmed = rest }

  -- `asked` after `writeVarAsButton` that returns `ok`.
  abbrev pub asked_after : Bool → IoAddr → Bool → ButtonWrites → ButtonWrites
  asked_after ok a v asked = if ok then asked ++ ((a, v) ∷ []) else asked

  abbrev pub update : (IoAddr → Bool) → IoAddr → Bool → IoAddr → Bool
  update confirmed a v j = if same_addr a j then v else confirmed j

  -- A press is of the value opposite to the one at rest. The driver answers a request of its queue
  -- once; one that times out may have been written all the same, which the driver does not confirm.
  pub data Step : Desk → Desk → Type 0 where
    pressed :
        (d : Desk) (a : IoAddr) (accepted : Bool)
        → Step d (record d {
          buttons = (write_as_button a (not (rest a)) accepted d.buttons).1;
          asked =
              asked_after
                (write_as_button a (not (rest a)) accepted d.buttons).0
                a
                (not (rest a))
                d.asked;
        })
    served :
        (d : Desk) (accepted : ℕ → Bool)
        → Step d (record d {
          buttons = (process_uncompleted_writes accepted d.buttons).1;
          asked = d.asked ++ (process_uncompleted_writes accepted d.buttons).0;
        })
    succeeded :
        (d : Desk) (before after : ButtonWrites) (a : IoAddr) (v : Bool)
        → d.asked ≡ before ++ ((a, v) ∷ after)
        → Step d (record {
          buttons = driver_write_success a d.buttons;
          asked = before ++ after;
          confirmed = update d.confirmed a v;
        })
    timed_out :
        (d : Desk) (before after : ButtonWrites) (a : IoAddr) (v : Bool)
        → d.asked ≡ before ++ ((a, v) ∷ after)
        → Step d
            (record d { buttons = (driver_write_time_out a d.buttons).1; asked = before ++ after })

  pub data Reached : Desk → Type 0 where
    fresh : Reached at_rest
    next : {d e : Desk} → Reached d → Step d e → Reached e

  -- The phase of the button at an address.
  abbrev pub PhaseAt : IoAddr → Desk → Type 0
  PhaseAt j d =
      IsPhase (rest j) (write_at j d.buttons) (clean_at j d.buttons) (values j d.asked)
        (queued_at j d.buttons) (d.confirmed j)

  abbrev pub Orderly : Desk → Type 0
  Orderly d = Tidy d.buttons × ((j : IoAddr) → PhaseAt j d)

  pub one_table :
      (d : Desk) (a : IoAddr)
      → PhaseAt a d
      → (write_at a d.buttons ≡ none) ⊎ (clean_at a d.buttons ≡ none)
  one_table d a h =
      one_of_both (rest a) (write_at a d.buttons) (clean_at a d.buttons) (values a d.asked)
        (queued_at a d.buttons) (d.confirmed a) h
