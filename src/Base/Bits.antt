-- ===== src/Base/Bits.antt =====
-- Machine words: casts, shifts, and the bits of `&`, `|`, `^` and `~`.
use Prim.Native.Nat.{
  ℕ, zero, suc, ◌+◌, ◌-◌, ◌*◌, ◌/◌, ◌%◌, ◌^◌, ◌≤◌, ◌<◌, bit_and, bit_or, bit_xor, min, max, digits,
  bit_and-bitwise, bit_or-bitwise, bit_xor-bitwise, differ,
}
use mathlib.Core.Path.{◌≡◌, refl, ap, ◌∙◌}
use native.Mathlib.Nat.{pow-suc, add-suc, add-zero, mul-one, div-div-eq-div-mul}
use native.Mathlib.Omega.{arith}
use turbine_governor.Base.Tests.{◌==◌, if◌then◌else◌}

abbrev pub u8 : ℕ → ℕ
u8 n = n % 256

abbrev pub u16 : ℕ → ℕ
u16 n = n % 65536

abbrev pub u32 : ℕ → ℕ
u32 n = n % 4294967296

-- `~x` on a 32-bit word.
abbrev pub not32 : ℕ → ℕ
not32 x = 4294967295 - x

-- The bit of weight 2 ^ k.
unfoldable pub bit : ℕ → ℕ → ℕ
bit zero a = a % 2
bit (suc k) a = bit k (a / 2)

-- The native operations recur on binary digits with fuel; any two large enough fuels agree.
module _ (end : ℕ → ℕ) (f : ℕ → ℕ → ℕ) where
  fuel_irrelevant : (p q a b : ℕ) → a ≤ p → a ≤ q → digits end f p a b ≡ digits end f q a b
  fuel_irrelevant p q zero b hp hq = at_zero p q
    where
      at_zero : (p q : ℕ) → digits end f p zero b ≡ digits end f q zero b
      at_zero zero zero = refl
      at_zero zero (suc q) = refl
      at_zero (suc p) zero = refl
      at_zero (suc p) (suc q) = refl
  fuel_irrelevant zero q (suc a) b hp hq = absurd (omega arith)
  fuel_irrelevant (suc p) zero (suc a) b hp hq = absurd (omega arith)
  fuel_irrelevant (suc p) (suc q) (suc a) b hp hq =
      ap (λ t. t * 2 + f (suc a % 2) (b % 2))
        (fuel_irrelevant p q (suc a / 2) (b / 2) (omega arith) (omega arith))

bit_and_low : (a b : ℕ) → bit_and a b ≡ bit_and (a / 2) (b / 2) * 2 + min (a % 2) (b % 2)
bit_and_low zero b = omega (arith, bit_and-bitwise 0 b, bit_and-bitwise 0 (b / 2))
bit_and_low (suc a) b = omega (
  arith,
  bit_and-bitwise (suc a) b,
  bit_and-bitwise (suc a / 2) (b / 2),
  fuel_irrelevant (λ _. 0) min a (suc a / 2) (suc a / 2) (b / 2) (omega arith) (omega arith),
)

bit_or_low : (a b : ℕ) → bit_or a b ≡ bit_or (a / 2) (b / 2) * 2 + max (a % 2) (b % 2)
bit_or_low zero b = omega (arith, bit_or-bitwise 0 b, bit_or-bitwise 0 (b / 2))
bit_or_low (suc a) b = omega (
  arith,
  bit_or-bitwise (suc a) b,
  bit_or-bitwise (suc a / 2) (b / 2),
  fuel_irrelevant (λ y. y) max a (suc a / 2) (suc a / 2) (b / 2) (omega arith) (omega arith),
)

differ_bits : (a b : ℕ) → a < 2 → b < 2 → differ a b ≡ (a + b) % 2
differ_bits zero b p q = omega arith
differ_bits (suc zero) zero p q = refl
differ_bits (suc zero) (suc zero) p q = refl
differ_bits (suc zero) (suc (suc b)) p q = absurd (omega arith)
differ_bits (suc (suc a)) b p q = absurd (omega arith)

bit_xor_low : (a b : ℕ) → bit_xor a b ≡ bit_xor (a / 2) (b / 2) * 2 + (a % 2 + b % 2) % 2
bit_xor_low zero b = omega (arith, bit_xor-bitwise 0 b, bit_xor-bitwise 0 (b / 2))
bit_xor_low (suc a) b = omega (
  arith,
  bit_xor-bitwise (suc a) b,
  bit_xor-bitwise (suc a / 2) (b / 2),
  differ_bits (suc a % 2) (b % 2) (omega arith) (omega arith),
  fuel_irrelevant (λ y. y) differ a (suc a / 2) (suc a / 2) (b / 2) (omega arith) (omega arith),
)

pub bit-lt : (k a : ℕ) → bit k a < 2
unfolding bit
bit-lt zero a = omega arith
bit-lt (suc k) a = bit-lt k (a / 2)

-- Bit by bit, `|` is the larger and `&` the smaller.
pub bit-bit_or : (k a b : ℕ) → bit k (bit_or a b) ≡ max (bit k a) (bit k b)
unfolding bit
bit-bit_or zero a b = omega (arith, bit_or_low a b)
bit-bit_or (suc k) a b = ap (bit k) (half a b) ∙ bit-bit_or k (a / 2) (b / 2)
  where
    half : (a b : ℕ) → bit_or a b / 2 ≡ bit_or (a / 2) (b / 2)
    half a b = omega (arith, bit_or_low a b)

pub bit-bit_and : (k a b : ℕ) → bit k (bit_and a b) ≡ min (bit k a) (bit k b)
unfolding bit
bit-bit_and zero a b = omega (arith, bit_and_low a b)
bit-bit_and (suc k) a b = ap (bit k) (half a b) ∙ bit-bit_and k (a / 2) (b / 2)
  where
    half : (a b : ℕ) → bit_and a b / 2 ≡ bit_and (a / 2) (b / 2)
    half a b = omega (arith, bit_and_low a b)

pub bit-bit_xor : (k a b : ℕ) → bit k (bit_xor a b) ≡ (bit k a + bit k b) % 2
unfolding bit
bit-bit_xor zero a b = omega (arith, bit_xor_low a b)
bit-bit_xor (suc k) a b = ap (bit k) (half a b) ∙ bit-bit_xor k (a / 2) (b / 2)
  where
    half : (a b : ℕ) → bit_xor a b / 2 ≡ bit_xor (a / 2) (b / 2)
    half a b = omega (arith, bit_xor_low a b)

bit-zero : (k : ℕ) → bit k 0 ≡ 0
unfolding bit
bit-zero zero = refl
bit-zero (suc k) = bit-zero k

-- The masks `1 << k` have one bit.
pub bit-pow : (j k : ℕ) → bit j (2 ^ k) ≡ (if j == k then 1 else 0)
unfolding bit
bit-pow zero zero = refl
bit-pow zero (suc k) = grind (arith, pow-suc 2 k)
bit-pow (suc j) zero = ground (arith, bit-zero j)
bit-pow (suc j) (suc k) = ground (arith, half, bit-pow j k)
  where
    half : bit j (2 ^ suc k / 2) ≡ bit j (2 ^ k)
    half = ap (bit j) (omega (arith, pow-suc 2 k))

bit_and-zero_below : (n a : ℕ) → a ≤ n → bit_and a 0 ≡ 0
bit_and-zero_below zero zero h = refl
bit_and-zero_below zero (suc a) h = absurd (omega arith)
bit_and-zero_below (suc n) zero h = refl
bit_and-zero_below (suc n) (suc a) h =
    omega (arith, bit_and_low (suc a) 0, bit_and-zero_below n (suc a / 2) (omega arith))

bit_and-zero : (a : ℕ) → bit_and a 0 ≡ 0
bit_and-zero a = bit_and-zero_below a a (omega arith)

-- `a & (1 << k)` is the bit, at its own weight.
pub bit_and-pow : (k a : ℕ) → bit_and a (2 ^ k) ≡ bit k a * 2 ^ k
unfolding bit
bit_and-pow zero a = omega (arith, bit_and_low a 1, bit_and-zero (a / 2))
bit_and-pow (suc k) a = omega (
  arith,
  bit_and_low a (2 ^ suc k),
  pow-suc 2 k,
  ap (bit_and (a / 2)) halved,
  bit_and-pow k (a / 2),
  ap (λ (t : ℕ). bit k (a / 2) * t) (pow-suc 2 k),
)
  where
    halved : 2 ^ suc k / 2 ≡ 2 ^ k
    halved = omega (arith, pow-suc 2 k)

-- `(1 << k) & a` is the same bit.
pub pow-bit_and : (k a : ℕ) → bit_and (2 ^ k) a ≡ bit k a * 2 ^ k
unfolding bit
pow-bit_and zero a = omega (arith, bit_and_low 1 a, bit_and-bitwise 0 (a / 2))
pow-bit_and (suc k) a = omega (
  arith,
  bit_and_low (2 ^ suc k) a,
  pow-suc 2 k,
  ap (λ t. bit_and t (a / 2)) halved,
  pow-bit_and k (a / 2),
  ap (λ (t : ℕ). bit k (a / 2) * t) (pow-suc 2 k),
)
  where
    halved : 2 ^ suc k / 2 ≡ 2 ^ k
    halved = omega (arith, pow-suc 2 k)

-- The bit as an arithmetic expression.
pub bit-eq-div : (k a : ℕ) → bit k a ≡ a / 2 ^ k % 2
unfolding bit
bit-eq-div zero a = omega arith
bit-eq-div (suc k) a =
    rw (bit-eq-div k (a / 2), div-div-eq-div-mul a 2 (2 ^ k))
      (ap (λ t. a / t % 2) (omega (arith, pow-suc 2 k)))

-- A left shift moves every bit up.
pub bit-shl : (j k a : ℕ) → bit (j + k) (a * 2 ^ k) ≡ bit j a
unfolding bit
bit-shl j zero a = rw (add-zero, mul-one)
bit-shl j (suc k) a = rw add-suc (ap (bit (j + k)) halved ∙ bit-shl j k a)
  where
    halved : a * 2 ^ suc k / 2 ≡ a * 2 ^ k
    halved = omega (arith, ap (λ (t : ℕ). a * t) (pow-suc 2 k))

pub bit-shl_low : (j k a : ℕ) → j < k → bit j (a * 2 ^ k) ≡ 0
unfolding bit
bit-shl_low zero zero a h = elim h [ ]
bit-shl_low (suc j) zero a h = elim h [ ]
bit-shl_low zero (suc k) a h = omega (arith, ap (λ (t : ℕ). a * t) (pow-suc 2 k))
bit-shl_low (suc j) (suc k) a h = ap (bit j) halved ∙ bit-shl_low j k a (omega arith)
  where
    halved : a * 2 ^ suc k / 2 ≡ a * 2 ^ k
    halved = omega (arith, ap (λ (t : ℕ). a * t) (pow-suc 2 k))

-- Two words with the same bits are the same word.
pub eq_of_bits : (n a b : ℕ) → a < 2 ^ n → b < 2 ^ n → ((k : ℕ) → k < n → bit k a ≡ bit k b) → a ≡ b
unfolding bit
eq_of_bits zero a b p q h = omega arith
eq_of_bits (suc n) a b p q h = omega (
  arith,
  pow-suc 2 n,
  h 0 (omega arith),
  eq_of_bits n (a / 2) (b / 2) (omega (arith, pow-suc 2 n)) (omega (arith, pow-suc 2 n))
      (λ k l. h (suc k) (omega arith)),
)

-- The bits past the width are 0.
pub bit-eq-zero : (n k a : ℕ) → a < 2 ^ n → n ≤ k → bit k a ≡ 0
unfolding bit
bit-eq-zero zero k a p q = ap (bit k) small ∙ bit-zero k
  where
    small : a ≡ 0
    small = omega arith
bit-eq-zero (suc n) zero a p q = elim q [ ]
bit-eq-zero (suc n) (suc k) a p q =
    bit-eq-zero n k (a / 2) (omega (arith, pow-suc 2 n)) (omega arith)

pub bit_or-lt : (n a b : ℕ) → a < 2 ^ n → b < 2 ^ n → bit_or a b < 2 ^ n
bit_or-lt zero zero b p q = omega (arith, bit_or-bitwise 0 b)
bit_or-lt zero (suc a) b p q = absurd (omega arith)
bit_or-lt (suc n) a b p q = omega (
  arith,
  bit_or_low a b,
  pow-suc 2 n,
  bit_or-lt n (a / 2) (b / 2) (omega (arith, pow-suc 2 n)) (omega (arith, pow-suc 2 n)),
)

pub bit_and-lt : (n a b : ℕ) → a < 2 ^ n → bit_and a b < 2 ^ n
bit_and-lt zero zero b p = omega (arith, bit_and-bitwise 0 b)
bit_and-lt zero (suc a) b p = absurd (omega arith)
bit_and-lt (suc n) a b p =
    omega (
      arith,
      bit_and_low a b,
      pow-suc 2 n,
      bit_and-lt n (a / 2) (b / 2) (omega (arith, pow-suc 2 n)),
    )

-- `~x` turns every bit of a word of n bits.
pub bit-complement : (n k a : ℕ) → a < 2 ^ n → k < n → bit k (2 ^ n - 1 - a) ≡ 1 - bit k a
unfolding bit
bit-complement zero k a p q = elim q [ ]
bit-complement (suc n) zero a p q = omega (arith, pow-suc 2 n)
bit-complement (suc n) (suc k) a p q =
    ap (bit k) halved ∙ bit-complement n k (a / 2) (omega (arith, pow-suc 2 n)) (omega arith)
  where
    halved : (2 ^ suc n - 1 - a) / 2 ≡ 2 ^ n - 1 - a / 2
    halved = omega (arith, pow-suc 2 n)
