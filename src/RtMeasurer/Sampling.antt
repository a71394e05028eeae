-- ===== src/RtMeasurer/Sampling.antt =====
-- The bounded buffer of a measure of HMI/src/RTMeasurer.cpp, against all that it was given.
use turbine_governor.Base.{
  ℕ, zero, suc, ◌-◌, ◌≤◌, ◌<◌, ◌≡◌, refl, ap, sym, ◌∙◌, true, false, inl, inr, List, [], ◌∷◌, ◌++◌,
  length, length-append, ltb, leb, ◌==◌, u32, get_or, set, get_elem?-eq, get_or-set_self,
  get_or-set_ne, length-set, All, some, Bool-cases, if◌then◌else◌, arith,
}
use turbine_governor.RtMeasurer.{Measure, new_measure, pop_front, take_measure, take_all}

module _ {F : Type 0} where
  abbrev pub skip : ℕ → List F → List F
  skip zero xs = xs
  skip (suc n) [] = []
  skip (suc n) (x ∷ xs) = skip n xs

  -- The last `n` of a list, or all of it.
  abbrev pub last_of : ℕ → List F → List F
  last_of n xs = skip (length xs - n) xs

  length-skip : (n : ℕ) (xs : List F) → length (skip n xs) ≡ length xs - n
  length-skip zero xs = omega arith
  length-skip (suc n) [] = omega arith
  length-skip (suc n) (x ∷ xs) = omega (arith, length-skip n xs)

  skip-suc : (n : ℕ) (xs : List F) → skip (suc n) xs ≡ pop_front (skip n xs)
  skip-suc zero [] = refl
  skip-suc zero (x ∷ xs) = refl
  skip-suc (suc n) [] = refl
  skip-suc (suc n) (x ∷ xs) = skip-suc n xs

  skip-append : (n : ℕ) (xs ys : List F) → n ≤ length xs → skip n (xs ++ ys) ≡ skip n xs ++ ys
  skip-append zero xs ys h = refl
  skip-append (suc n) [] ys h = absurd (omega arith)
  skip-append (suc n) (x ∷ xs) ys h = skip-append n xs ys (omega arith)

  -- Pushing a value and dropping the first one when there are too many.
  last_of-append :
      (n : ℕ) (xs : List F) (v : F)
      → last_of n (xs ++ (v ∷ [])) ≡ (
          if ltb n (length (last_of n xs ++ (v ∷ [])))
          then pop_front (last_of n xs ++ (v ∷ []))
          else last_of n xs ++ (v ∷ []))
  last_of-append n xs v = elim (Bool-cases (leb n (length xs))) [
    | inl full ↦
        let over : ltb n (length (last_of n xs ++ (v ∷ []))) ≡ true =
          ground (arith, length-append (last_of n xs) (v ∷ []), length-skip (length xs - n) xs) in
        let more : length (xs ++ (v ∷ [])) - n ≡ suc (length xs - n) =
          ground (arith, length-append xs (v ∷ [])) in
        rw over (
          ap (λ k. skip k (xs ++ (v ∷ []))) more
          ∙ skip-suc (length xs - n) (xs ++ (v ∷ []))
          ∙ ap pop_front (skip-append (length xs - n) xs (v ∷ []) (omega arith)))
    | inr room ↦
        let under : ltb n (length (last_of n xs ++ (v ∷ []))) ≡ false =
          ground (arith, length-append (last_of n xs) (v ∷ []), length-skip (length xs - n) xs) in
        let same : length (xs ++ (v ∷ [])) - n ≡ length xs - n =
          ground (arith, length-append xs (v ∷ [])) in
        rw under (
          ap (λ k. skip k (xs ++ (v ∷ []))) same
          ∙ skip-append (length xs - n) xs (v ∷ []) (omega arith))
  ]

  pub skip_nil : (n : ℕ) → skip n [] ≡ []
  skip_nil zero = refl
  skip_nil (suc n) = refl

  -- A measure of this size that has the last values and the number of all of them.
  unfoldable pub IsRecent : ℕ → Measure F → List F → Type 0
  IsRecent size m taken =
      (m.buffer_size ≡ size)
      × (m.buffer ≡ last_of size taken)
      × (m.total_measures ≡ u32 (length taken))

  pub take_measure-IsRecent :
      (size : ℕ) (m : Measure F) (taken : List F) (v : F)
      → IsRecent size m taken
      → IsRecent size (take_measure v m) (taken ++ (v ∷ []))
  unfolding IsRecent take_measure
  take_measure-IsRecent size m taken v (same, values, total) = (
    same,
    ap
          (λ k.
            if ltb k (length (m.buffer ++ (v ∷ [])))
            then pop_front (m.buffer ++ (v ∷ []))
            else m.buffer ++ (v ∷ []))
          same
        ∙ ap
            (λ b.
              if ltb size (length (b ++ (v ∷ [])))
              then pop_front (b ++ (v ∷ []))
              else b ++ (v ∷ []))
            values
        ∙ sym (last_of-append size taken v),
    omega (arith, length-append taken (v ∷ [])),
  )

  -- What the measures have been given after one more value of one of them, and after a round.
  unfoldable pub grow : (ℕ → F) → ℕ → (ℕ → List F) → ℕ → List F
  grow samples id h j = if id == j then h j ++ (samples id ∷ []) else h j

  unfoldable pub taken : (ℕ → F) → List ℕ → (ℕ → List F) → ℕ → List F
  taken samples [] h = h
  taken samples (id ∷ ids) h = taken samples ids (grow samples id h)

  -- Every measure is recent, and what does not exist has been given nothing.
  unfoldable pub Sampled : (ℕ → ℕ) → List (Measure F) → (ℕ → List F) → Type 0
  Sampled sizes ms h =
      ((j : ℕ) → j < length ms → IsRecent (sizes j) (get_or ms j (new_measure 0)) (h j))
      × ((j : ℕ) → length ms ≤ j → h j ≡ [])

  set-Sampled :
      (samples : ℕ → F) (sizes : ℕ → ℕ) (id : ℕ) (ms : List (Measure F)) (h : ℕ → List F)
      → id < length ms
      → Sampled sizes ms h
      → Sampled sizes
          (set ms id (take_measure (samples id) (get_or ms id (new_measure 0))))
          (grow samples id h)
  unfolding Sampled grow
  set-Sampled samples sizes id ms h in_range (recent, nothing) =
      let m : Measure F = take_measure (samples id) (get_or ms id (new_measure 0)) in
      (
        λ j lt. elim (Bool-cases (id == j)) [
          | inl same ↦
              let e : id ≡ j = ground arith in
              rw (same, sym e, get_or-set_self ms id m (new_measure 0) in_range)
                (take_measure-IsRecent (sizes id) (get_or ms id (new_measure 0)) (h id) (samples id)
                  (recent id in_range))
          | inr other ↦
              rw (other, get_or-set_ne ms id j m (new_measure 0) (λ e. ground arith))
                (recent j (omega (arith, length-set ms id m)))
        ],
        λ j past.
            let other : (id == j) ≡ false = ground (arith, length-set ms id m) in
            rw other (nothing j (omega (arith, length-set ms id m))),
      )

  -- A round of the loop meets only measures that exist, and gives each its value.
  pub take_all-Sampled :
      (samples : ℕ → F) (sizes : ℕ → ℕ) (ids : List ℕ) (ms : List (Measure F)) (h : ℕ → List F)
      → All (λ id. id < length ms) ids
      → Sampled sizes ms h
      → (ns : List (Measure F)) × (take_all samples ids ms ≡ some ns)
        × (length ns ≡ length ms)
        × Sampled sizes ns (taken samples ids h)
  unfolding take_all taken
  take_all-Sampled samples sizes [] ms h ok sampled = (ms, refl, refl, sampled)
  take_all-Sampled samples sizes (id ∷ ids) ms h (lt, ok) sampled =
      let m : Measure F = take_measure (samples id) (get_or ms id (new_measure 0)) in
      let still : All (λ i. i < length (set ms id m)) ids = rw (length-set ms id m) ok in
      let rest =
        take_all-Sampled samples sizes ids (set ms id m) (grow samples id h) still
          (set-Sampled samples sizes id ms h lt sampled) in
      (
        rest.0,
        rw (get_elem?-eq ms id (new_measure 0) lt) rest.1,
        rest.2 ∙ length-set ms id m,
        rest.3,
      )
