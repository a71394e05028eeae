-- ===== src/Base/DictLaws.antt =====
-- Laws of the maps of Base.Dict, for keys whose `==` is sound.
use mathlib.Core.Path.{◌≡◌, refl, sym, ap, ◌∙◌}
use mathlib.Core.Logic.{inl, inr}
use mathlib.Core.Bool.{Bool, true, false}
use mathlib.Core.List.{List, [], ◌∷◌}
use mathlib.Core.Option.{Option, none, some}
use native.Mathlib.Omega.{arith}
use turbine_governor.Base.Tests.{if◌then◌else◌, if-false, Bool-cases}
use turbine_governor.Base.Dict

-- What the laws ask of the comparison of keys.
pub record IsSame {ℓ} {K : Type ℓ} (same : K → K → Bool) : Type ℓ where
  pub reflects : (k : K) → same k k ≡ true
  pub sound : (j k : K) → same j k ≡ true → j ≡ k

-- The first of two results that there is.
abbrev pub or_else {ℓ} : {A : Type ℓ} → Option A → Option A → Option A
or_else none y = y
or_else (some x) y = some x

pub same_other {ℓ} :
    {K : Type ℓ} (same : K → K → Bool)
    → IsSame same
    → (j k : K) → same j k ≡ false
    → same k j ≡ false
same_other same laws j k h = elim (Bool-cases (same k j)) [
  | inl e ↦
      let p : k ≡ j = laws.sound k j e in
      let q : same j k ≡ true = rw p (laws.reflects j) in absurd (cc)
  | inr e ↦ e
]

-- Where a place of the map holds key i, looking for j after a change at k.
same_left {ℓ} :
    {K : Type ℓ} (same : K → K → Bool)
    → IsSame same
    → (i j k : K) → same i k ≡ true
    → same i j ≡ same k j
same_left same laws i j k e = ap (λ x. same x j) (laws.sound i k e)

apart {ℓ} :
    {K : Type ℓ} (same : K → K → Bool)
    → IsSame same
    → (i j k : K) → same i k ≡ false
    → same i j ≡ true
    → same k j ≡ false
apart same laws i j k e f = ap (same k) (sym (laws.sound i j f)) ∙ same_other same laws i k e

module _ {ℓ κ} {K : Type ℓ} {V : Type κ} (same : K → K → Bool) where
  -- No key has two entries.
  unfoldable pub Unique : List (K × V) → Type κ
  Unique [] = Unit
  Unique ((j, w) ∷ m) = (Dict.lookup same j m ≡ none) × Unique m

module _ {ℓ κ} {K : Type ℓ} {V : Type κ} (same : K → K → Bool) (laws : IsSame same) where
  pub lookup-assign :
      (k j : K) (v : V) (m : List (K × V))
      → Dict.lookup same j (Dict.assign same k v m)
        ≡ (if same k j then some v else Dict.lookup same j m)
  unfolding Dict.lookup Dict.assign
  lookup-assign k j v [] = refl
  lookup-assign k j v ((i, w) ∷ m) =
      ground (arith, same_left same laws i j k, apart same laws i j k, lookup-assign k j v m)

  -- Where the key is new, `insert` adds it.
  pub lookup-insert_new :
      (k j : K) (v : V) (m : List (K × V))
      → Dict.lookup same k m ≡ none
      → Dict.lookup same j (Dict.insert_new same k v m)
        ≡ (if same k j then some v else Dict.lookup same j m)
  unfolding Dict.lookup Dict.insert_new
  lookup-insert_new k j v [] h = refl
  lookup-insert_new k j v ((i, w) ∷ m) h =
      ground (arith, same_left same laws i j k, apart same laws i j k, lookup-insert_new k j v m)

  lookup_same :
      (i j : K) (m : List (K × V)) → same i j ≡ true → Dict.lookup same j m ≡ Dict.lookup same i m
  lookup_same i j m e = ap (λ x. Dict.lookup same x m) (sym (laws.sound i j e))

  -- `insert` keeps the value of a key that is there.
  pub lookup-insert_new_else :
      (k j : K) (v : V) (m : List (K × V))
      → Dict.lookup same j (Dict.insert_new same k v m)
        ≡ or_else (Dict.lookup same j m) (if same k j then some v else none)
  unfolding Dict.lookup Dict.insert_new
  lookup-insert_new_else k j v [] = refl
  lookup-insert_new_else k j v ((i, w) ∷ m) =
      ground
        (arith, same_left same laws i j k, apart same laws i j k, lookup-insert_new_else k j v m)

  pub lookup-erase :
      (k j : K) (m : List (K × V))
      → Unique same m
      → Dict.lookup same j (Dict.erase same k m) ≡ (if same k j then none else Dict.lookup same j m)
  unfolding Dict.lookup Dict.erase Unique
  lookup-erase k j [] u = ground arith
  lookup-erase k j ((i, w) ∷ m) (fresh, u) = ground (
    arith,
    same_left same laws i j k,
    apart same laws i j k,
    lookup-erase k j m u,
    lookup_same i j m,
    fresh,
  )

  pub assign-Unique :
      (k : K) (v : V) (m : List (K × V)) → Unique same m → Unique same (Dict.assign same k v m)
  unfolding Dict.lookup Dict.assign Unique
  assign-Unique k v [] u = (refl, u)
  assign-Unique k v ((i, w) ∷ m) (fresh, u) = elim (Bool-cases (same i k)) [
    | inl e ↦ rw e (fresh, u)
    | inr e ↦ rw e (
      lookup-assign k i v m
          ∙ if-false (same k i) (some v) (Dict.lookup same i m) (same_other same laws i k e)
          ∙ fresh,
      assign-Unique k v m u,
    )
  ]

  pub insert_new-Unique :
      (k : K) (v : V) (m : List (K × V)) → Unique same m → Unique same (Dict.insert_new same k v m)
  unfolding Dict.lookup Dict.insert_new Unique
  insert_new-Unique k v [] u = (refl, u)
  insert_new-Unique k v ((i, w) ∷ m) (fresh, u) = elim (Bool-cases (same i k)) [
    | inl e ↦ rw e (fresh, u)
    | inr e ↦
        let apart : same k i ≡ false = same_other same laws i k e in
        rw e (rw (lookup-insert_new_else k i v m, fresh, apart) refl, insert_new-Unique k v m u)
  ]

  pub erase-Unique : (k : K) (m : List (K × V)) → Unique same m → Unique same (Dict.erase same k m)
  unfolding Dict.lookup Dict.erase Unique
  erase-Unique k [] u = u
  erase-Unique k ((i, w) ∷ m) (fresh, u) = elim (Bool-cases (same i k)) [
    | inl e ↦ rw e u
    | inr e ↦ rw e (
      lookup-erase k i m u
          ∙ if-false (same k i) none (Dict.lookup same i m) (same_other same laws i k e)
          ∙ fresh,
      erase-Unique k m u,
    )
  ]
