-- ===== src/Field/Echo.antt =====
-- A write of a signal and reads of signals, where the modules send their outputs back as inputs:
-- `writeIO` and `readDevice` of EthercatDrv.cpp.
use turbine_governor.Base.{
  ℕ, ◌-◌, ◌/◌, ◌^◌, ◌≤◌, ◌<◌, ◌≡◌, ◌≢◌, ap, sym, ◌∙◌, ◌⊎◌, inl, inr, Bool, true, some, List, [],
  get_or, get_elem?-eq, set, get_or-set_self, get_or-set_ne, length, length-set, leb, ◌==◌,
  Bool-cases, arith,
}
use turbine_governor.Types.{IoAddr}
use turbine_governor.Field.Bytes.{IoMap, write_io, read_device, read_bytes}
use turbine_governor.Field.Signals.{
  IsBitSignal, Apart, written, write_bytes-eq, read_bytes-after_self, read_bytes-after_other,
}

-- The bytes of the outputs of the signal's module.
abbrev pub module_of : IoMap → IoAddr → List ℕ
module_of s a = get_or s.outputs (a.mod_no - 1) []

-- The signal has one to seven bits, in one byte of the outputs of a module.
unfoldable pub IsOutputBits : IoMap → IoAddr → Type 0
IsOutputBits s a = (1 ≤ a.mod_no) × (a.mod_no ≤ length s.outputs) × IsBitSignal a (module_of s a)

abbrev pub echo : IoMap → IoMap
echo s = record s { inputs = s.outputs }

write_io-in :
    (s : IoMap) (a : IoAddr) (val : ℕ)
    → IsOutputBits s a
    → write_io a val s
      ≡ some (
        true,
        record s { outputs = set s.outputs (a.mod_no - 1) (written a val (module_of s a)) },
      )
unfolding IsOutputBits write_io
write_io-in s a val (low, high, bits) =
    let first : leb 1 a.mod_no ≡ true = ground arith in
    let last : leb a.mod_no (length s.outputs) ≡ true = ground arith in
    rw (
      first,
      last,
      get_elem?-eq s.outputs (a.mod_no - 1) [] (omega arith),
      write_bytes-eq s.little a val (module_of s a) bits,
    )

read_device-in :
    (little : Bool) (ins outs : List (List ℕ)) (a : IoAddr)
    → 1 ≤ a.mod_no
    → a.mod_no ≤ length ins
    → read_device a (record { little = little; inputs = ins; outputs = outs })
      ≡ read_bytes little a (get_or ins (a.mod_no - 1) [])
unfolding read_device
read_device-in little ins outs a low high =
    let first : leb 1 a.mod_no ≡ true = ground arith in
    let last : leb a.mod_no (length ins) ≡ true = ground arith in
    rw (first, last, get_elem?-eq ins (a.mod_no - 1) [] (omega arith))

-- Two signals use no common bit.
unfoldable pub IsOther : IoAddr → IoAddr → Type 0
IsOther a b = (a.mod_no ≢ b.mod_no) ⊎ Apart a b

read-same_module :
    (little : Bool) (outs : List (List ℕ)) (i j : ℕ) (a b : IoAddr) (val : ℕ)
    → i < length outs
    → i ≡ j
    → IsBitSignal a (get_or outs i [])
    → IsBitSignal b (get_or outs j [])
    → get_or (get_or outs i []) (a.channel / 8) 0 < 256
    → Apart a b
    → read_bytes little b (get_or (set outs i (written a val (get_or outs i []))) j [])
      ≡ read_bytes little b (get_or outs j [])
read-same_module little outs i j a b val in_range e bits_a bits_b small apart =
    let bits_there : IsBitSignal b (get_or outs i []) = rw e bits_b in
    rw (sym e) (
      ap (read_bytes little b)
        (get_or-set_self outs i (written a val (get_or outs i [])) [] in_range)
      ∙ read_bytes-after_other little a b val (get_or outs i []) bits_a bits_there small apart)

read-after_other :
    (little : Bool) (outs : List (List ℕ)) (i j : ℕ) (a b : IoAddr) (val : ℕ)
    → i < length outs
    → IsBitSignal a (get_or outs i [])
    → IsBitSignal b (get_or outs j [])
    → get_or (get_or outs i []) (a.channel / 8) 0 < 256
    → (i ≢ j) ⊎ Apart a b
    → read_bytes little b (get_or (set outs i (written a val (get_or outs i []))) j [])
      ≡ read_bytes little b (get_or outs j [])
read-after_other little outs i j a b val in_range bits_a bits_b small apart =
    elim (Bool-cases (i == j)) [
      | inl same ↦ elim apart [
        | inl other ↦ absurd (other (ground arith))
        | inr bits ↦
            read-same_module little outs i j a b val in_range (ground arith) bits_a bits_b small
              bits
      ]
      | inr distinct ↦
          ap (read_bytes little b)
            (get_or-set_ne outs i j (written a val (get_or outs i [])) [] (λ e. ground arith))
    ]

other_place :
    (a b : IoAddr)
    → 1 ≤ a.mod_no
    → 1 ≤ b.mod_no
    → IsOther a b
    → (a.mod_no - 1 ≢ b.mod_no - 1) ⊎ Apart a b
unfolding IsOther
other_place a b low_a low_b (inl other) = inl (λ e. other (omega arith))
other_place a b low_a low_b (inr apart) = inr apart

-- Where the outputs of the modules come back as inputs: `writeIO` of a value to a signal of one to
-- seven bits that lies in one byte of a module, with no more bits than the signal has, succeeds; the
-- signal then reads as the value, and another such signal, of another module or without a common
-- bit, reads as before. The byte before the write is less than 256.
pub write_io-read_device :
    (s : IoMap) (a b : IoAddr) (val : ℕ)
    → IsOutputBits s a
    → IsOutputBits s b
    → IsOther a b
    → get_or (module_of s a) (a.channel / 8) 0 < 256
    → val < 2 ^ a.num_bits
    → (t : IoMap) × (write_io a val s ≡ some (true, t))
      × (read_device a (echo t) ≡ some (true, val))
      × (read_device b (echo t) ≡ read_device b (echo s))
unfolding IsOutputBits
write_io-read_device s a b val (low, high, bits) (low_b, high_b, bits_b) other small in_field =
    let outs : List (List ℕ) = s.outputs in
    let new : List (List ℕ) = set outs (a.mod_no - 1) (written a val (module_of s a)) in
    let longer : length new ≡ length outs =
      length-set outs (a.mod_no - 1) (written a val (module_of s a)) in
    (
      record s { outputs = new },
      write_io-in s a val (low, high, bits),
      read_device-in s.little new new a low (omega arith)
          ∙ ap (read_bytes s.little a)
              (get_or-set_self outs (a.mod_no - 1) (written a val (module_of s a)) [] (omega arith))
          ∙ read_bytes-after_self s.little a val (module_of s a) bits small in_field,
      read_device-in s.little new new b low_b (omega arith)
          ∙ read-after_other s.little outs (a.mod_no - 1) (b.mod_no - 1) a b val (omega arith) bits
              bits_b small (other_place a b low low_b other)
          ∙ sym (read_device-in s.little outs outs b low_b high_b),
    )
