-- ===== src/Base/Dict.antt =====
-- `std::unordered_map` and `std::unordered_set` as association lists, over the key's `==`.
-- The order of the entries stands for the order of iteration, which the program does not fix.
use turbine_governor.Base.Tests.{if◌then◌else◌}
use mathlib.Core.Bool.{Bool}
use mathlib.Core.List.{List, [], ◌∷◌}
use mathlib.Core.Option.{Option, none, some}

module _ {ℓ κ} {K : Type ℓ} {V : Type κ} (same : K → K → Bool) where
  -- `find`
  unfoldable pub lookup : K → List (K × V) → Option V
  lookup k [] = none
  lookup k ((j, v) ∷ m) = if same j k then some v else lookup k m

  -- `m.insert({k, v})` keeps the value of a key that is there.
  unfoldable pub insert_new : K → V → List (K × V) → List (K × V)
  insert_new k v [] = (k, v) ∷ []
  insert_new k v ((j, w) ∷ m) = if same j k then (j, w) ∷ m else (j, w) ∷ insert_new k v m

  -- `m[k] = v`
  unfoldable pub assign : K → V → List (K × V) → List (K × V)
  assign k v [] = (k, v) ∷ []
  assign k v ((j, w) ∷ m) = if same j k then (j, v) ∷ m else (j, w) ∷ assign k v m

  -- `m.erase(k)`
  unfoldable pub erase : K → List (K × V) → List (K × V)
  erase k [] = []
  erase k ((j, w) ∷ m) = if same j k then m else (j, w) ∷ erase k m
