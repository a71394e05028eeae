-- ===== src/Field/Signals.antt =====
-- The signals of a module of the field that have less than eight bits: `writeIO` and `readDevice` of
-- EthercatDrv.cpp on the bytes of the module.
use turbine_governor.Base.{
  ℕ, ◌+◌, ◌-◌, ◌/◌, ◌%◌, ◌^◌, ◌≤◌, ◌<◌, ◌≡◌, ◌≢◌, ◌==◌, ap, sym, ◌∙◌, ◌⊎◌, inl, inr, Bool, true,
  some, List, get_or, set, get_or-set_self, get_or-set_ne, length, length-set, leb, ltb, Bool-cases,
  arith,
}
use turbine_governor.Types.{IoAddr}
use turbine_governor.Field.Bytes.{write_bytes, read_bytes, put_bits, take_bits}
use turbine_governor.Field.Bitfields.{take_bits-put_bits, take_bits-put_bits_out}

-- A signal of one to seven bits that lies in one byte of the module.
unfoldable pub IsBitSignal : IoAddr → List ℕ → Type 0
IsBitSignal a bytes =
    (0 < a.num_bits)
    × (a.num_bits < 8)
    × (a.channel % 8 + a.num_bits ≤ 8)
    × (a.channel / 8 < length bytes)

abbrev shift : IoAddr → ℕ
shift a = 8 - (a.channel % 8 + a.num_bits)

-- The byte of the signal after a write.
abbrev pub written : IoAddr → ℕ → List ℕ → List ℕ
written a val bytes =
    set bytes (a.channel / 8) (put_bits (shift a) a.num_bits val (get_or bytes (a.channel / 8) 0))

pub write_bytes-eq :
    (little : Bool) (a : IoAddr) (val : ℕ) (bytes : List ℕ)
    → IsBitSignal a bytes
    → write_bytes little a val bytes ≡ some (true, written a val bytes)
unfolding write_bytes IsBitSignal
write_bytes-eq little a val bytes (some_bits, few, fits, in_range) =
    let bits : ltb a.num_bits 8 ≡ true = ground arith in
    let positive : ltb 0 a.num_bits ≡ true = ground arith in
    let inside : leb (a.channel % 8 + a.num_bits) 8 ≡ true = ground arith in
    let at_byte : ltb (a.channel / 8) (length bytes) ≡ true = ground arith in
    rw (bits, positive, inside, at_byte)

read_bytes-eq :
    (little : Bool) (a : IoAddr) (bytes : List ℕ)
    → IsBitSignal a bytes
    → read_bytes little a bytes
      ≡ some (true, take_bits (shift a) a.num_bits (get_or bytes (a.channel / 8) 0))
unfolding read_bytes IsBitSignal
read_bytes-eq little a bytes (some_bits, few, fits, in_range) =
    let bits : ltb a.num_bits 8 ≡ true = ground arith in
    let positive : ltb 0 a.num_bits ≡ true = ground arith in
    let inside : leb (a.channel % 8 + a.num_bits) 8 ≡ true = ground arith in
    let at_byte : ltb (a.channel / 8) (length bytes) ≡ true = ground arith in
    rw (bits, positive, inside, at_byte)

-- The bits of the module from the channel of one signal on that the other one does not use.
unfoldable pub Apart : IoAddr → IoAddr → Type 0
Apart a b = (a.channel + a.num_bits ≤ b.channel) ⊎ (b.channel + b.num_bits ≤ a.channel)

pub read_bytes-after_self :
    (little : Bool) (a : IoAddr) (val : ℕ) (bytes : List ℕ)
    → IsBitSignal a bytes
    → get_or bytes (a.channel / 8) 0 < 256
    → val < 2 ^ a.num_bits
    → read_bytes little a (written a val bytes) ≡ some (true, val)
unfolding IsBitSignal
read_bytes-after_self little a val bytes (some_bits, few, fits, in_range) small in_field =
    let byte : ℕ = get_or bytes (a.channel / 8) 0 in
    let new : ℕ = put_bits (shift a) a.num_bits val byte in
    read_bytes-eq little a (written a val bytes)
      (some_bits, few, fits, omega (arith, length-set bytes (a.channel / 8) new))
    ∙ ap (λ b. some (true, take_bits (shift a) a.num_bits b))
        (get_or-set_self bytes (a.channel / 8) new 0 in_range)
    ∙ ap (λ v. some (true, v))
        (take_bits-put_bits (shift a) a.num_bits val byte (omega arith) small in_field)

-- Another byte, or other bits of the same one.
unfoldable OtherBits : (i j off n at size : ℕ) → Type 0
OtherBits i j off n at size = (i ≢ j) ⊎ ((i ≡ j) × ((off + n ≤ at) ⊎ (at + size ≤ off)))

take_bits-set :
    (bytes : List ℕ) (i j off n val at size : ℕ)
    → i < length bytes
    → off + n ≤ 8
    → at + size ≤ 8
    → get_or bytes i 0 < 256
    → OtherBits i j off n at size
    → take_bits at size (get_or (set bytes i (put_bits off n val (get_or bytes i 0))) j 0)
      ≡ take_bits at size (get_or bytes j 0)
unfolding OtherBits
take_bits-set bytes i j off n val at size in_range fits inside small (inl other) =
    ap (take_bits at size) (get_or-set_ne bytes i j (put_bits off n val (get_or bytes i 0)) 0 other)
take_bits-set bytes i j off n val at size in_range fits inside small (inr (e, apart)) = rw (sym e) (
    ap (take_bits at size)
      (get_or-set_self bytes i (put_bits off n val (get_or bytes i 0)) 0 in_range)
    ∙ take_bits-put_bits_out off n val (get_or bytes i 0) at size fits inside small apart)

pub read_bytes-after_other :
    (little : Bool) (a b : IoAddr) (val : ℕ) (bytes : List ℕ)
    → IsBitSignal a bytes
    → IsBitSignal b bytes
    → get_or bytes (a.channel / 8) 0 < 256
    → Apart a b
    → read_bytes little b (written a val bytes) ≡ read_bytes little b bytes
unfolding IsBitSignal Apart OtherBits
read_bytes-after_other little a b val bytes (some_a, few_a, fits_a, in_a)
      (some_b, few_b, fits_b, in_b) small apart =
    let new : ℕ = put_bits (shift a) a.num_bits val (get_or bytes (a.channel / 8) 0) in
    let places : OtherBits (a.channel / 8) (b.channel / 8) (shift a) a.num_bits (shift b)
        b.num_bits =
      elim (Bool-cases (a.channel / 8 == b.channel / 8)) [
        | inl same_byte ↦
            let e : a.channel / 8 ≡ b.channel / 8 = ground arith in
            inr (e, elim apart [ inl before ↦ inr (omega arith) | inr after ↦ inl (omega arith) ])
        | inr other_byte ↦ inl (λ e. ground arith)
      ] in
    read_bytes-eq little b (written a val bytes)
      (some_b, few_b, fits_b, omega (arith, length-set bytes (a.channel / 8) new))
    ∙ ap (λ v. some (true, v))
        (take_bits-set bytes (a.channel / 8) (b.channel / 8) (shift a) a.num_bits val (shift b)
          b.num_bits in_a (omega arith) (omega arith) small places)
    ∙ sym (read_bytes-eq little b bytes (some_b, few_b, fits_b, in_b))
