-- ===== src/Field/Bitfields.antt =====
-- The bits that `readDevice` and `writeIO` of EthercatDrv.cpp read and write in a byte.
use native.Mathlib.Nat.{
  pow-suc, add-suc, one-le-pow, pow-le-pow_right, mul-one, add-zero, div-div-eq-div-mul,
}
use turbine_governor.Base.{
  ℕ, zero, suc, ◌+◌, ◌-◌, ◌*◌, ◌/◌, ◌%◌, ◌^◌, ◌≤◌, ◌<◌, ◌≡◌, refl, ap, sym, ◌∙◌, ◌⊎◌, inl, inr,
  ◌&&◌, bit_and, u8, bit, bit-lt, bit-bit_and, bit-bit_or, bit_and-lt, bit_or-lt, bit-shl,
  bit-shl_low, bit-complement, bit-eq-zero, bit-eq-div, eq_of_bits, leb, ltb, if◌then◌else◌,
  Bool-cases, leb→le, arith,
}
use turbine_governor.Field.Bytes.{low_mask, put_bits, take_bits}

low_mask-eq : (n : ℕ) → low_mask n + 1 ≡ 2 ^ n
low_mask-eq zero = refl
low_mask-eq (suc n) = omega (arith, pow-suc 2 n, low_mask-eq n)

bit-low_mask : (k n : ℕ) → bit k (low_mask n) ≡ (if ltb k n then 1 else 0)
bit-low_mask k n = elim (Bool-cases (leb n k)) [
  | inl past ↦
      bit-eq-zero n k (low_mask n) (omega (arith, low_mask-eq n)) (leb→le n k past) ∙ ground arith
  | inr inside ↦
      let lt : k < n = ground arith in
      let e : 2 ^ n - 1 - 0 ≡ low_mask n = omega (arith, low_mask-eq n) in
      ap (bit k) (sym e)
      ∙ bit-complement n k 0 (one-le-pow n 2 (omega arith)) lt
      ∙ ground (arith, bit-eq-zero 0 k 0 (omega arith) (omega arith))
]

bit-u8 : (k x : ℕ) → k < 8 → bit k (u8 x) ≡ bit k x
bit-u8 zero x h = omega (arith, bit-eq-div 0 (u8 x), bit-eq-div 0 x)
bit-u8 (suc zero) x h = omega (arith, bit-eq-div 1 (u8 x), bit-eq-div 1 x)
bit-u8 (suc (suc zero)) x h = omega (arith, bit-eq-div 2 (u8 x), bit-eq-div 2 x)
bit-u8 (suc (suc (suc zero))) x h = omega (arith, bit-eq-div 3 (u8 x), bit-eq-div 3 x)
bit-u8 (suc (suc (suc (suc zero)))) x h = omega (arith, bit-eq-div 4 (u8 x), bit-eq-div 4 x)
bit-u8 (suc (suc (suc (suc (suc zero))))) x h = omega (arith, bit-eq-div 5 (u8 x), bit-eq-div 5 x)
bit-u8 (suc (suc (suc (suc (suc (suc zero)))))) x h =
    omega (arith, bit-eq-div 6 (u8 x), bit-eq-div 6 x)
bit-u8 (suc (suc (suc (suc (suc (suc (suc zero))))))) x h =
    omega (arith, bit-eq-div 7 (u8 x), bit-eq-div 7 x)
bit-u8 (suc (suc (suc (suc (suc (suc (suc (suc k)))))))) x h = absurd (omega arith)

-- Shifts of whole words, bit by bit.
bit-up : (k off x : ℕ) → bit k (x * 2 ^ off) ≡ (if leb off k then bit (k - off) x else 0)
bit-up k off x = elim (Bool-cases (leb off k)) [
  | inl up ↦
      let e : k - off + off ≡ k = omega (arith, leb→le off k up) in
      rw up (ap (λ j. bit j (x * 2 ^ off)) (sym e) ∙ bit-shl (k - off) off x)
  | inr low ↦ rw low (bit-shl_low k off x (ground arith))
]

pow-add : (i j : ℕ) → 2 ^ (i + j) ≡ 2 ^ i * 2 ^ j
pow-add i zero = rw (add-zero i, mul-one (2 ^ i))
pow-add i (suc j) =
    rw add-suc
      (omega (arith, pow-suc 2 (i + j), pow-add i j, ap (λ (t : ℕ). 2 ^ i * t) (pow-suc 2 j)))

bit-down : (k off x : ℕ) → bit k (x / 2 ^ off) ≡ bit (k + off) x
bit-down k off x =
    bit-eq-div k (x / 2 ^ off)
    ∙ ap (λ t. t % 2) (div-div-eq-div-mul x (2 ^ off) (2 ^ k))
    ∙ ap (λ t. x / t % 2) (sym (pow-add off k) ∙ ap (λ j. 2 ^ j) order)
    ∙ sym (bit-eq-div (k + off) x)
  where
    order : off + k ≡ k + off
    order = omega arith

-- Bits in a mask at `off`.
bit-mask :
    (k off n : ℕ)
    → k < 8
    → bit k (u8 (low_mask n * 2 ^ off)) ≡ (if leb off k && ltb k (off + n) then 1 else 0)
bit-mask k off n h =
    bit-u8 k (low_mask n * 2 ^ off) h
    ∙ bit-up k off (low_mask n)
    ∙ ground (arith, bit-low_mask (k - off) n)

u8-lt : (x : ℕ) → u8 x < 2 ^ 8
u8-lt x = omega arith

-- A write of `n` bits at `off` replaces these bits of the byte by the low bits of the value, and
-- keeps every other bit.
pub bit-put_bits :
    (k off n val byte : ℕ)
    → k < 8
    → off + n ≤ 8
    → byte < 256
    → bit k (put_bits off n val byte)
      ≡ (if leb off k && ltb k (off + n) then bit (k - off) val else bit k byte)
unfolding put_bits
bit-put_bits k off n val byte h fits small =
    rw
      (
        bit-bit_or k (bit_and byte (255 - u8 (low_mask n * 2 ^ off)))
            (u8 (bit_and (u8 val) (low_mask n) * 2 ^ off)),
        bit-bit_and k byte (255 - u8 (low_mask n * 2 ^ off)),
        bit-u8 k (bit_and (u8 val) (low_mask n) * 2 ^ off) h,
        bit-up k off (bit_and (u8 val) (low_mask n)),
      )
      (ground (
        arith,
        bit-complement 8 k (u8 (low_mask n * 2 ^ off)) (u8-lt (low_mask n * 2 ^ off)) h,
        bit-mask k off n h,
        bit-bit_and (k - off) (u8 val) (low_mask n),
        bit-low_mask (k - off) n,
        bit-u8 (k - off) val,
        bit-lt k byte,
        bit-lt (k - off) val,
      ))

-- A read of `n` bits at `off` has these bits of the byte, from 0 on.
bit-take_bits :
    (k off n byte : ℕ)
    → k < 8
    → off + n ≤ 8
    → byte < 256
    → bit k (take_bits off n byte) ≡ (if ltb k n then bit (k + off) byte else 0)
unfolding take_bits
bit-take_bits k off n byte h fits small =
    bit-u8 k (bit_and byte (u8 (low_mask n * 2 ^ off)) / 2 ^ off) h
    ∙ bit-down k off (bit_and byte (u8 (low_mask n * 2 ^ off)))
    ∙ bit-bit_and (k + off) byte (u8 (low_mask n * 2 ^ off))
    ∙ elim (Bool-cases (leb 8 (k + off))) [
      | inl past ↦ ground (
        arith,
        bit-eq-zero 8 (k + off) (u8 (low_mask n * 2 ^ off)) (u8-lt (low_mask n * 2 ^ off))
            (leb→le 8 (k + off) past),
        leb→le 8 (k + off) past,
      )
      | inr in_byte ↦
          let lt : k + off < 8 = ground arith in
          ground (arith, bit-mask (k + off) off n lt, bit-lt (k + off) byte)
    ]

put_bits-lt : (off n val byte : ℕ) → byte < 256 → put_bits off n val byte < 256
unfolding put_bits
put_bits-lt off n val byte small =
    bit_or-lt 8 (bit_and byte (255 - u8 (low_mask n * 2 ^ off)))
      (u8 (bit_and (u8 val) (low_mask n) * 2 ^ off))
      (bit_and-lt 8 byte (255 - u8 (low_mask n * 2 ^ off)) small)
      (u8-lt (bit_and (u8 val) (low_mask n) * 2 ^ off))

take_bits-lt : (off n byte : ℕ) → take_bits off n byte < 2 ^ 8
unfolding take_bits
take_bits-lt off n byte = u8-lt (bit_and byte (u8 (low_mask n * 2 ^ off)) / 2 ^ off)

in_a_byte : (n val : ℕ) → n ≤ 8 → val < 2 ^ n → val < 2 ^ 8
in_a_byte n val small fits = omega (arith, bound)
  where
    bound : 2 ^ n ≤ 2 ^ 8
    bound = pow-le-pow_right (omega arith) small

-- A read gets what the last write stored.
pub take_bits-put_bits :
    (off n val byte : ℕ)
    → off + n ≤ 8
    → byte < 256
    → val < 2 ^ n
    → take_bits off n (put_bits off n val byte) ≡ val
take_bits-put_bits off n val byte fits small in_field =
    eq_of_bits 8 (take_bits off n (put_bits off n val byte)) val
      (take_bits-lt off n (put_bits off n val byte)) (in_a_byte n val (omega arith) in_field)
      (λ k h.
        bit-take_bits k off n (put_bits off n val byte) h fits (put_bits-lt off n val byte small)
        ∙ elim (Bool-cases (leb n k)) [
          | inl past ↦
              ground (arith, leb→le n k past, bit-eq-zero n k val in_field (leb→le n k past))
          | inr inside ↦
              let lt : k + off < 8 = ground arith in
              let e : k + off - off ≡ k = omega arith in
              ground
                (arith, bit-put_bits (k + off) off n val byte lt fits small, ap (λ j. bit j val) e)
        ])

-- A write leaves every other field of the byte.
pub take_bits-put_bits_out :
    (off n val byte at size : ℕ)
    → off + n ≤ 8
    → at + size ≤ 8
    → byte < 256
    → (off + n ≤ at) ⊎ (at + size ≤ off)
    → take_bits at size (put_bits off n val byte) ≡ take_bits at size byte
take_bits-put_bits_out off n val byte at size fits inside small apart =
    eq_of_bits 8 (take_bits at size (put_bits off n val byte)) (take_bits at size byte)
      (take_bits-lt at size (put_bits off n val byte)) (take_bits-lt at size byte)
      (λ k h.
        bit-take_bits k at size (put_bits off n val byte) h inside
          (put_bits-lt off n val byte small)
        ∙ elim (Bool-cases (leb size k)) [
          | inl past ↦ ground (arith, bit-take_bits k at size byte h inside small)
          | inr within ↦
              let lt : k + at < 8 = ground arith in
              ground (
                arith,
                bit-put_bits (k + at) off n val byte lt fits small,
                bit-take_bits k at size byte h inside small,
                apart,
              )
        ])
