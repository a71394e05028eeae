-- ===== src/RegImage/Refresh.antt =====
-- `updateImage` of RegImage.cpp: when it signals that all variables have been updated.
use turbine_governor.Base.{
  ◌≤◌, ◌<◌, ◌≡◌, refl, ap, inl, inr, true, none, some, List, [], ◌∷◌, ◌++◌, length, ◌==◌, leb,
  if◌then◌else◌, Bool-cases, arith,
}
use turbine_governor.Types.{IoAddr}
use turbine_governor.Master.Reading.{has_addr}
use turbine_governor.RegImage.Image.{RegImage, Signal, new_var_updated}

-- The addresses that a list adds to a set of addresses.
abbrev pub noted_by : List IoAddr → List IoAddr → List IoAddr
noted_by [] noted = noted
noted_by (a ∷ as_) noted = noted_by as_ (if has_addr a noted then noted else a ∷ noted)

noted_by-grows : (as_ noted : List IoAddr) → length noted ≤ length (noted_by as_ noted)
noted_by-grows [] noted = omega arith
noted_by-grows (a ∷ as_) noted = elim (Bool-cases (has_addr a noted)) [
  | inl known ↦ rw known (noted_by-grows as_ noted)
  | inr fresh ↦ rw fresh (omega (arith, noted_by-grows as_ (a ∷ noted)))
]

module _ {F : Type 0} where
  -- The calls of `newVarUpdated` for a list of addresses.
  unfoldable pub updates : List IoAddr → RegImage F → RegImage F × List (Signal F)
  updates [] s = (s, [])
  updates (a ∷ as_) s =
      let (t, signals) = new_var_updated a s in
      let (u, more) = updates as_ t in (u, signals ++ more)

  updates-quiet :
      (as_ : List IoAddr) (s : RegImage F) → s.last_var_changes ≡ none → (updates as_ s).1 ≡ []
  unfolding updates new_var_updated
  updates-quiet [] s e = refl
  updates-quiet (a ∷ as_) s e = rw e (updates-quiet as_ (record s { last_var_changes = none }) refl)

  updates_from :
      (as_ noted : List IoAddr) (s : RegImage F)
      → s.last_var_changes ≡ some noted
      → length noted < s.vars_to_update
      → (updates as_ s).1 ≡ (
          if leb s.vars_to_update (length (noted_by as_ noted))
          then Signal.all_vars_updated ∷ []
          else [])
  unfolding updates new_var_updated
  updates_from [] noted s e few = ground arith
  updates_from (a ∷ as_) noted s e few =
      let noted' = if has_addr a noted then noted else a ∷ noted in
      elim (Bool-cases (length noted' == s.vars_to_update)) [
        | inl all_ ↦
            let enough : leb s.vars_to_update (length (noted_by as_ noted')) ≡ true =
              ground (arith, noted_by-grows as_ noted') in
            rw (e, all_, enough)
              (ap (λ l. Signal.all_vars_updated ∷ l)
                (updates-quiet as_ (record s { last_var_changes = none }) refl))
        | inr not_all ↦
            let still : length noted' < s.vars_to_update = ground arith in
            rw (e, not_all)
              (updates_from as_ noted' (record s { last_var_changes = some noted' }) refl still)
      ]

  -- After `init`, when the image waits for the first update of `n` variables, at least one: the calls
  -- of `newVarUpdated` signal that all variables have been updated exactly once if `n` different
  -- addresses or more are among theirs, and not at all if fewer are.
  pub updates-all :
      (as_ : List IoAddr) (s : RegImage F)
      → s.last_var_changes ≡ some []
      → 1 ≤ s.vars_to_update
      → (updates as_ s).1 ≡ (
          if leb s.vars_to_update (length (noted_by as_ []))
          then Signal.all_vars_updated ∷ []
          else [])
  updates-all as_ s e some_ = updates_from as_ [] s e (omega arith)
