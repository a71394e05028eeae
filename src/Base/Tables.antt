-- ===== src/Base/Tables.antt =====
-- Arrays of words with checked accesses: a read or write past the end gives `none`.
use Prim.Native.Nat.{ℕ, zero, suc, ◌+◌, ◌≤◌, ◌<◌}
use mathlib.Core.Path.{◌≡◌, refl, ap, ap₂, ◌∙◌, sym}
use mathlib.Core.Logic.{◌⊎◌, inl}
use mathlib.Core.List.{List, [], ◌∷◌}
use mathlib.Core.Option.{Option, none, some, some-injective}
use native.Mathlib.Omega.{arith}
use turbine_governor.Base.Tests.{ltb, if◌then◌else◌, ◌>>=◌, bind-some}
use turbine_governor.Base.Lists.{length, get_or, set, length-set, get_or-set_self, get_or-set_ne}

abbrev pub peek : List ℕ → ℕ → Option ℕ
peek xs i = if ltb i (length xs) then some (get_or xs i 0) else none

abbrev pub poke : List ℕ → ℕ → ℕ → Option (List ℕ)
poke xs i v = if ltb i (length xs) then some (set xs i v) else none

-- A loop that stores values at rising places.
unfoldable pub poke_all : List ℕ → ℕ → List ℕ → Option (List ℕ)
poke_all xs i [] = some xs
poke_all xs i (v ∷ vs) = poke xs i v >>= λ ys. poke_all ys (i + 1) vs

-- What the loop leaves when no access is past the end.
unfoldable pub put_all : List ℕ → ℕ → List ℕ → List ℕ
put_all xs i [] = xs
put_all xs i (v ∷ vs) = put_all (set xs i v) (i + 1) vs

-- The k words from place i on.
abbrev pub slice : List ℕ → ℕ → ℕ → List ℕ
slice xs i zero = []
slice xs i (suc k) = get_or xs i 0 ∷ slice xs (i + 1) k

pub length-put_all : (vs xs : List ℕ) (i : ℕ) → length (put_all xs i vs) ≡ length xs
unfolding put_all
length-put_all [] xs i = refl
length-put_all (v ∷ vs) xs i = length-put_all vs (set xs i v) (i + 1) ∙ length-set xs i v

pub length-poke : (xs ys : List ℕ) (i v : ℕ) → poke xs i v ≡ some ys → length ys ≡ length xs
length-poke xs ys i v e = ground (arith, length-set {0} xs i v)

pub length-poke_all :
    (vs xs ys : List ℕ) (i : ℕ) → poke_all xs i vs ≡ some ys → length ys ≡ length xs
unfolding poke_all
length-poke_all [] xs ys i e = ap length (sym (some-injective _ _ e))
length-poke_all (v ∷ vs) xs ys i e =
    let (zs, first, rest) = bind-some (poke xs i v) _ ys e in
    length-poke_all vs zs ys (i + 1) rest ∙ length-poke xs zs i v first

pub poke_all-eq-put_all :
    (vs xs : List ℕ) (i : ℕ) → i + length vs ≤ length xs → poke_all xs i vs ≡ some (put_all xs i vs)
unfolding poke_all put_all
poke_all-eq-put_all [] xs i h = refl
poke_all-eq-put_all (v ∷ vs) xs i h =
    ground (arith, poke_all-eq-put_all vs (set xs i v) (i + 1), length-set {0} xs i v)

-- A write leaves the words before and behind it alone.
pub get_or-put_all_out :
    (vs xs : List ℕ) (i j : ℕ)
    → (j < i) ⊎ (i + length vs ≤ j)
    → get_or (put_all xs i vs) j 0 ≡ get_or xs j 0
unfolding put_all
get_or-put_all_out [] xs i j h = refl
get_or-put_all_out (v ∷ vs) xs i j h =
    get_or-put_all_out vs (set xs i v) (i + 1) j (omega arith)
    ∙ get_or-set_ne xs i j v 0 (omega arith)

pub slice-put_all_out :
    (k : ℕ) (vs xs : List ℕ) (i j : ℕ)
    → (j + k ≤ i) ⊎ (i + length vs ≤ j)
    → slice (put_all xs i vs) j k ≡ slice xs j k
slice-put_all_out zero vs xs i j h = refl
slice-put_all_out (suc k) vs xs i j h =
    ap₂ ◌∷◌ (get_or-put_all_out vs xs i j (omega arith))
      (slice-put_all_out k vs xs i (j + 1) (omega arith))

-- A write can be read back.
pub slice-put_all :
    (vs xs : List ℕ) (i : ℕ)
    → i + length vs ≤ length xs
    → slice (put_all xs i vs) i (length vs) ≡ vs
unfolding put_all
slice-put_all [] xs i h = refl
slice-put_all (v ∷ vs) xs i h =
    ap₂ ◌∷◌
      (get_or-put_all_out vs (set xs i v) (i + 1) i (inl (omega arith))
        ∙ get_or-set_self xs i v 0 (omega arith))
      (slice-put_all vs (set xs i v) (i + 1) (omega (arith, length-set {0} xs i v)))

pub slice-put_all_of_length :
    (vs xs : List ℕ) (i k : ℕ)
    → length vs ≡ k
    → i + k ≤ length xs
    → slice (put_all xs i vs) i k ≡ vs
slice-put_all_of_length vs xs i k e h =
    ap (slice (put_all xs i vs) i) (sym e) ∙ slice-put_all vs xs i (omega arith)
