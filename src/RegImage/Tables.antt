-- ===== src/RegImage/Tables.antt =====
-- The tables of the buttons of RegImage.cpp after each operation.
use mathlib.Core.List.{append-nil}
use turbine_governor.Base.{
  ◌≡◌, refl, ap, sym, ◌∙◌, ◌⊎◌, inl, inr, Bool, true, false, not, Option, none, some, List, [], ◌∷◌,
  ◌++◌, if◌then◌else◌, Bool-cases, Option-cases,
}
use turbine_governor.Base.Dict
use turbine_governor.Base.DictLaws.{
  Unique, lookup-insert_new, lookup-erase, insert_new-Unique, erase-Unique,
}
use turbine_governor.Types.{IoAddr, same_addr}
use turbine_governor.Types.Addr.{same_addr-IsSame}
use turbine_governor.RegImage.Buttons.{
  Buttons, ButtonWrites, write_as_button, driver_write_time_out, driver_write_success, success_with,
  time_out_with,
}
use turbine_governor.RegImage.Pending.{values, values-append, cleaned, waiting_after, if_none}

-- The tables after each operation, at any address.
abbrev pub write_at : IoAddr → Buttons → Option Bool
write_at j b = Dict.lookup same_addr j b.writes

abbrev pub clean_at : IoAddr → Buttons → Option Bool
clean_at j b = Dict.lookup same_addr j b.to_clean

abbrev pub queued_at : IoAddr → Buttons → List Bool
queued_at j b = values j b.uncompleted

abbrev pub Tidy : Buttons → Type 0
Tidy b = Unique same_addr b.writes × Unique same_addr b.to_clean

nothing_more : (l : List Bool) (c : Bool) → l ≡ l ++ (if c then [] else [])
nothing_more l true = sym (append-nil l)
nothing_more l false = sym (append-nil l)

module _ (a j : IoAddr) (b : Buttons) where
  pub write_as_button_at :
      (val : Bool)
      → write_at a b ≡ none
      → clean_at a b ≡ none
      → Tidy b
      → (write_at j (write_as_button a val true b).1
          ≡ (if same_addr a j then some val else write_at j b))
        × (clean_at j (write_as_button a val true b).1 ≡ clean_at j b)
        × (queued_at j (write_as_button a val true b).1 ≡ queued_at j b)
  unfolding write_as_button
  write_as_button_at val w c tidy =
      rw (c, w) (lookup-insert_new same_addr same_addr-IsSame a j val b.writes w, refl, refl)

  -- Taking back what was inserted.
  pub write_as_button_refused :
      (val : Bool)
      → write_at a b ≡ none
      → clean_at a b ≡ none
      → Tidy b
      → (write_at j (write_as_button a val false b).1 ≡ write_at j b)
        × (clean_at j (write_as_button a val false b).1 ≡ clean_at j b)
        × (queued_at j (write_as_button a val false b).1 ≡ queued_at j b)
  unfolding write_as_button
  write_as_button_refused val w c (t, u) =
      rw (c, w)
        (
          lookup-erase same_addr same_addr-IsSame a j (Dict.insert_new same_addr a val b.writes)
                (insert_new-Unique same_addr same_addr-IsSame a val b.writes t)
              ∙ ap (λ o. if same_addr a j then none else o)
                  (lookup-insert_new same_addr same_addr-IsSame a j val b.writes w)
              ∙ taken_back,
          refl,
          refl,
        )
    where
      taken_back :
          (if same_addr a j then none else if same_addr a j then some val else write_at j b)
          ≡ write_at j b
      taken_back = elim (Bool-cases (same_addr a j)) [
        | inl same ↦
            rw same (sym (ap (λ x. write_at x b) (sym (same_addr-IsSame.sound a j same)) ∙ w))
        | inr other ↦ rw other
      ]

  unchanged :
      (m : ButtonWrites) (o : Option Bool)
      → Dict.lookup same_addr a m ≡ o
      → Dict.lookup same_addr j m ≡ (if same_addr a j then o else Dict.lookup same_addr j m)
  unchanged m o e = elim (Bool-cases (same_addr a j)) [
    | inl same ↦ rw same (rw (sym (same_addr-IsSame.sound a j same)) e)
    | inr other ↦ rw other
  ]

  success_with_at :
      (w c : Option Bool)
      → write_at a b ≡ w
      → clean_at a b ≡ c
      → Tidy b
      → (w ≡ none) ⊎ (c ≡ none)
      → (write_at j (success_with w c a b) ≡ (if same_addr a j then none else write_at j b))
        × (clean_at j (success_with w c a b) ≡ (if same_addr a j then cleaned w else clean_at j b))
        × (queued_at j (success_with w c a b)
            ≡ queued_at j b ++ (if same_addr a j then waiting_after (cleaned w) else []))
  unfolding success_with
  success_with_at none none w c tidy one = (
    unchanged b.writes none w,
    unchanged b.to_clean none c,
    nothing_more (queued_at j b) (same_addr a j),
  )
  success_with_at none (some u) w c (t, u') one = (
    unchanged b.writes none w,
    lookup-erase same_addr same_addr-IsSame a j b.to_clean u',
    nothing_more (queued_at j b) (same_addr a j),
  )
  success_with_at (some u) none w c (t, u') one = (
    lookup-erase same_addr same_addr-IsSame a j b.writes t,
    lookup-insert_new same_addr same_addr-IsSame a j (not u) b.to_clean c,
    values-append j b.uncompleted ((a, not u) ∷ []),
  )
  success_with_at (some u) (some x) w c tidy one = elim one [
    | inl e ↦ absurd (cc)
    | inr e ↦ absurd (cc)
  ]

  time_out_with_at :
      (w c : Option Bool)
      → write_at a b ≡ w
      → clean_at a b ≡ c
      → Tidy b
      → (w ≡ none) ⊎ (c ≡ none)
      → (write_at j (time_out_with w c a b).1 ≡ (if same_addr a j then none else write_at j b))
        × (clean_at j (time_out_with w c a b).1 ≡ clean_at j b)
        × (queued_at j (time_out_with w c a b).1
            ≡ queued_at j b ++ (if same_addr a j then waiting_after (if_none w c) else []))
  unfolding time_out_with
  time_out_with_at none none w c tidy one =
      (unchanged b.writes none w, refl, nothing_more (queued_at j b) (same_addr a j))
  time_out_with_at none (some u) w c tidy one =
      (unchanged b.writes none w, refl, values-append j b.uncompleted ((a, u) ∷ []))
  time_out_with_at (some u) c w e (t, u') one = (
    lookup-erase same_addr same_addr-IsSame a j b.writes t,
    refl,
    nothing_more (queued_at j b) (same_addr a j),
  )

  pub driver_write_success_at :
      Tidy b
      → (write_at a b ≡ none) ⊎ (clean_at a b ≡ none)
      → (write_at j (driver_write_success a b) ≡ (if same_addr a j then none else write_at j b))
        × (clean_at j (driver_write_success a b)
            ≡ (if same_addr a j then cleaned (write_at a b) else clean_at j b))
        × (queued_at j (driver_write_success a b)
            ≡ queued_at j b
              ++ (if same_addr a j then waiting_after (cleaned (write_at a b)) else []))
  unfolding driver_write_success
  driver_write_success_at tidy one =
      success_with_at (write_at a b) (clean_at a b) refl refl tidy one

  pub driver_write_time_out_at :
      Tidy b
      → (write_at a b ≡ none) ⊎ (clean_at a b ≡ none)
      → (write_at j (driver_write_time_out a b).1 ≡ (if same_addr a j then none else write_at j b))
        × (clean_at j (driver_write_time_out a b).1 ≡ clean_at j b)
        × (queued_at j (driver_write_time_out a b).1
            ≡ queued_at j b
              ++ (if same_addr a j
                  then waiting_after (if_none (write_at a b) (clean_at a b))
                  else []))
  unfolding driver_write_time_out
  driver_write_time_out_at tidy one =
      time_out_with_at (write_at a b) (clean_at a b) refl refl tidy one

-- Either the button is in a table and the press is ignored, or it is in none.
pub write_as_button_cases :
    (a : IoAddr) (val accepted : Bool) (b : Buttons)
    → (write_as_button a val accepted b ≡ (false, b))
      ⊎ ((write_at a b ≡ none) × (clean_at a b ≡ none))
unfolding write_as_button
write_as_button_cases a val accepted b = elim (Option-cases (clean_at a b)) [
  | inr (v, e) ↦ inl (rw e)
  | inl c ↦ elim (Option-cases (write_at a b)) [ inr (v, e) ↦ inl (rw (c, e)) | inl w ↦ inr (w, c) ]
]

pub write_as_button_ok :
    (a : IoAddr) (val accepted : Bool) (b : Buttons)
    → write_at a b ≡ none
    → clean_at a b ≡ none
    → (write_as_button a val accepted b).0 ≡ accepted
unfolding write_as_button
write_as_button_ok a val true b w c = rw (c, w)
write_as_button_ok a val false b w c = rw (c, w)

pub write_as_button-Tidy :
    (a : IoAddr) (val accepted : Bool) (b : Buttons)
    → write_at a b ≡ none
    → clean_at a b ≡ none
    → Tidy b
    → Tidy (write_as_button a val accepted b).1
unfolding write_as_button
write_as_button-Tidy a val true b w c (t, u) =
    rw (c, w) (insert_new-Unique same_addr same_addr-IsSame a val b.writes t, u)
write_as_button-Tidy a val false b w c (t, u) =
    rw (c, w)
      (
        erase-Unique same_addr same_addr-IsSame a (Dict.insert_new same_addr a val b.writes)
            (insert_new-Unique same_addr same_addr-IsSame a val b.writes t),
        u,
      )

success_with-Tidy :
    (a : IoAddr) (w c : Option Bool) (b : Buttons)
    → clean_at a b ≡ c
    → (w ≡ none) ⊎ (c ≡ none)
    → Tidy b
    → Tidy (success_with w c a b)
unfolding success_with
success_with-Tidy a none none b e one tidy = tidy
success_with-Tidy a none (some v) b e one (t, u) =
    (t, erase-Unique same_addr same_addr-IsSame a b.to_clean u)
success_with-Tidy a (some v) none b e one (t, u) = (
  erase-Unique same_addr same_addr-IsSame a b.writes t,
  insert_new-Unique same_addr same_addr-IsSame a (not v) b.to_clean u,
)
success_with-Tidy a (some v) (some x) b e one tidy = elim one [
  | inl f ↦ absurd (cc)
  | inr f ↦ absurd (cc)
]

pub driver_write_success-Tidy :
    (a : IoAddr) (b : Buttons)
    → (write_at a b ≡ none) ⊎ (clean_at a b ≡ none)
    → Tidy b
    → Tidy (driver_write_success a b)
unfolding driver_write_success
driver_write_success-Tidy a b one tidy =
    success_with-Tidy a (write_at a b) (clean_at a b) b refl one tidy

time_out_with-Tidy :
    (a : IoAddr) (w c : Option Bool) (b : Buttons) → Tidy b → Tidy (time_out_with w c a b).1
unfolding time_out_with
time_out_with-Tidy a none none b tidy = tidy
time_out_with-Tidy a none (some v) b tidy = tidy
time_out_with-Tidy a (some v) c b (t, u) = (erase-Unique same_addr same_addr-IsSame a b.writes t, u)

pub driver_write_time_out-Tidy :
    (a : IoAddr) (b : Buttons) → Tidy b → Tidy (driver_write_time_out a b).1
unfolding driver_write_time_out
driver_write_time_out-Tidy a b tidy = time_out_with-Tidy a (write_at a b) (clean_at a b) b tidy
