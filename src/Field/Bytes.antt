-- ===== src/Field/Bytes.antt =====
-- `readDevice` and `writeIO` of EthercatDrv.cpp. `none` is undefined behaviour: a shift by a
-- negative number, or a byte past the memory of the module.
use turbine_governor.Base.{
  ℕ, zero, suc, ◌+◌, ◌-◌, ◌*◌, ◌/◌, ◌%◌, ◌^◌, Bool, true, false, ◌&&◌, ◌||◌, Option, none, some,
  List, bit_and, bit_or, u8, get_elem?, set, peek, poke, poke_all, put_all, slice, length, leb, ltb,
  ◌==◌, if◌then◌else◌, ◌>>=◌,
}
use turbine_governor.Types.{IoAddr}
use turbine_governor.Slave.Wire.{memory_of, value_of}

-- The bytes of the inputs and the outputs of each module; module 1 is the first.
pub record IoMap : Type 0 where
  pub little : Bool
  pub inputs : List (List ℕ)
  pub outputs : List (List ℕ)

-- `for(int i = 0; i < n; ++i) mask += (1 << i)`
abbrev pub low_mask : ℕ → ℕ
low_mask zero = 0
low_mask (suc i) = low_mask i + 2 ^ i

-- `7 - (channel % 8) - (n - 1)`, where it is not negative.
abbrev pub bit_offset : ℕ → ℕ → Option ℕ
bit_offset channel n = if leb (channel % 8 + n) 8 then some (8 - (channel % 8 + n)) else none

-- The byte with `n` bits of a value in it, from `off` on, and the `n` bits of a byte.
unfoldable pub put_bits : ℕ → ℕ → ℕ → ℕ → ℕ
put_bits off n val byte =
    let clean = 255 - u8 (low_mask n * 2 ^ off) in
    let bits = u8 (bit_and (u8 val) (low_mask n) * 2 ^ off) in bit_or (bit_and byte clean) bits

unfoldable pub take_bits : ℕ → ℕ → ℕ → ℕ
take_bits off n byte = u8 (bit_and byte (u8 (low_mask n * 2 ^ off)) / 2 ^ off)

abbrev pub is_bits : ℕ → Bool
is_bits n = ltb n 8 && ltb 0 n

abbrev pub is_bytes : IoAddr → Bool
is_bytes a = leb 8 a.num_bits && leb a.num_bits 32 && a.num_bits % 8 == 0 && a.channel % 8 == 0

-- The number of bytes that are copied: three bytes are not.
abbrev pub copied : ℕ → ℕ
copied n = if n == 1 || n == 2 || n == 4 then n else 0

abbrev pub in_modules : List (List ℕ) → ℕ → Bool
in_modules modules m = leb 1 m && leb m (length modules)

-- The new bytes of the module.
unfoldable pub write_bytes : Bool → IoAddr → ℕ → List ℕ → Option (Bool × List ℕ)
write_bytes little a val bytes =
    let at_byte = a.channel / 8 in
    let n = copied (a.num_bits / 8) in
    if is_bits a.num_bits
    then (bit_offset a.channel a.num_bits >>= λ off. peek bytes at_byte >>= λ b.
        poke bytes at_byte (put_bits off a.num_bits val b) >>= λ bs. some (true, bs))
    else if is_bytes a
    then (poke_all bytes at_byte (slice (memory_of little 4 val) 0 n) >>= λ bs. some (true, bs))
    else some (false, bytes)

-- `writeIO` without waiting for the next exchange.
unfoldable pub write_io : IoAddr → ℕ → IoMap → Option (Bool × IoMap)
write_io a val s =
    if in_modules s.outputs a.mod_no
    then (get_elem? s.outputs (a.mod_no - 1) >>= λ bytes. write_bytes s.little a val bytes >>= λ r.
        some (r.0, record s { outputs = set s.outputs (a.mod_no - 1) r.1 }))
    else some (false, s)

unfoldable pub read_bytes : Bool → IoAddr → List ℕ → Option (Bool × ℕ)
read_bytes little a bytes =
    let at_byte = a.channel / 8 in
    let n = copied (a.num_bits / 8) in
    if is_bits a.num_bits
    then (bit_offset a.channel a.num_bits >>= λ off.
        peek bytes at_byte >>= λ b. some (true, take_bits off a.num_bits b))
    else if is_bytes a
    then (if leb (at_byte + n) (length bytes)
        then some (true, value_of little (put_all (memory_of little 4 0) 0 (slice bytes at_byte n)))
        else none)
    else some (false, 0)

unfoldable pub read_device : IoAddr → IoMap → Option (Bool × ℕ)
read_device a s =
    if in_modules s.inputs a.mod_no
    then (get_elem? s.inputs (a.mod_no - 1) >>= λ bytes. read_bytes s.little a bytes)
    else some (false, 0)
