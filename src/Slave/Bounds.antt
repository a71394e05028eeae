-- ===== src/Slave/Bounds.antt =====
-- No access of ModbusSlaveDrv.cpp to its tables is past their end, when they have the sizes that
-- `init` asks for.
use turbine_governor.Base.{
  ℕ, ◌+◌, ◌-◌, ◌*◌, ◌%◌, ◌≤◌, ◌<◌, ◌≡◌, refl, ap, Bool, true, false, some, List, [], ◌∷◌, length,
  get_or, leb, arith, put_all, poke_all-eq-put_all,
}
use turbine_governor.Types.{QuState}
use turbine_governor.Types.IoVar.{IoVar, q_state}
use turbine_governor.Slave.State.{Mapping, Fits, Small, word32}
use turbine_governor.Slave.Wire.{wire_bytes, q_state_bits}
use turbine_governor.Slave.Access.{
  FloatCodec, value_index, coil_index, get_forced, set_q_state_bits, set_time_s, set_ro_int,
  get_float, get_forced_val, set_current, update_in,
}

pub length-wire_bytes_int : (little : Bool) (v : ℕ) → length (wire_bytes little 4 v) ≡ 4
unfolding wire_bytes
length-wire_bytes_int true v = refl
length-wire_bytes_int false v = refl

pub length-wire_bytes_time : (little : Bool) (v : ℕ) → length (wire_bytes little 8 v) ≡ 8
unfolding wire_bytes
length-wire_bytes_time true v = refl
length-wire_bytes_time false v = refl

pub length-q_state_bits : (q : QuState) → length (q_state_bits q) ≡ 2
unfolding q_state_bits
length-q_state_bits q = refl

pub value_index-eq : (n : ℕ) → 1 ≤ n → n < 256 → value_index n ≡ n * 4 - 4
value_index-eq n h k = omega arith

pub coil_index-eq : (n : ℕ) → 1 ≤ n → n < 256 → coil_index n ≡ n - 1
coil_index-eq n h k = omega arith

get_forced-eq :
    (m : Mapping) (n : ℕ)
    → 1 ≤ n
    → n < 256
    → n ≤ length m.bits
    → get_forced m n ≡ some (leb 1 (get_or m.bits (n - 1) 0))
unfolding get_forced
get_forced-eq m n lo hi h = rw (coil_index-eq n lo hi) (ground arith)

set_q_state_bits-eq :
    (q : QuState) (n : ℕ) (m : Mapping)
    → 1 ≤ n
    → n * 2 ≤ length m.input_bits
    → set_q_state_bits q n m
      ≡ some (record m { input_bits = put_all m.input_bits (n * 2 - 2) (q_state_bits q) })
unfolding set_q_state_bits
set_q_state_bits-eq q n m lo h = rw (
    poke_all-eq-put_all (q_state_bits q) m.input_bits (n * 2 - 2)
      (omega (arith, length-q_state_bits q)))

whole : (ro : ℕ) → ro * 2 < 4294967296 → word32 (ro * 2) ≡ ro * 2
whole ro h = omega arith

set_time_s-eq :
    (little : Bool) (ro time n : ℕ) (m : Mapping)
    → 1 ≤ n
    → ro * 2 < 4294967296
    → 2 * (n * 4 + ro * 2) ≤ length m.input_bytes
    → set_time_s little ro time n m
      ≡ some (record m {
        input_bytes = put_all m.input_bytes (2 * (n * 4 - 4 + ro * 2)) (wire_bytes little 8 time);
      })
unfolding set_time_s
set_time_s-eq little ro time n m lo small h = rw (
  whole ro small,
  poke_all-eq-put_all (wire_bytes little 8 time) m.input_bytes (2 * (n * 4 - 4 + ro * 2))
      (omega (arith, length-wire_bytes_time little time)),
)

pub set_ro_int-eq :
    (little : Bool) (v n : ℕ) (m : Mapping)
    → 1 ≤ n
    → 4 * n ≤ length m.input_bytes
    → set_ro_int little v n m
      ≡ some (record m {
        input_bytes = put_all m.input_bytes (2 * ((n - 1) * 2)) (wire_bytes little 4 v);
      })
unfolding set_ro_int
set_ro_int-eq little v n m lo h = rw (
    poke_all-eq-put_all (wire_bytes little 4 v) m.input_bytes (2 * ((n - 1) * 2))
      (omega (arith, length-wire_bytes_int little v)))

forced_index : (n : ℕ) → 1 ≤ n → n < 256 → (n * 4 + 65532 + 2) % 65536 ≡ n * 4 - 2
forced_index n lo hi = omega arith

module _ {F : Type 0} (codec : FloatCodec F) where
  abbrev pub abcd : F → List ℕ
  abcd x = let (a, b) = codec.set_abcd x in a ∷ b ∷ []

  -- The variable with the forced value and the mark that the tables hold for it.
  abbrev pub refreshed : ℕ → Mapping → IoVar F → IoVar F
  refreshed n m v = record v {
    forced_val =
        codec.get_abcd (get_or m.registers (n * 4 - 2) 0) (get_or m.registers (n * 4 - 1) 0);
    forced = leb 1 (get_or m.bits (n - 1) 0);
  }

  -- The tables with a variable's value, state and time.
  abbrev pub published : Bool → ℕ → IoVar F → ℕ → Mapping → Mapping
  published little ro v n m = record m {
    registers = put_all m.registers (n * 4 - 4) (abcd v.true_val);
    input_bits = put_all m.input_bits (n * 2 - 2) (q_state_bits (q_state v));
    input_bytes = put_all m.input_bytes (2 * (n * 4 - 4 + ro * 2)) (wire_bytes little 8 v.time_s);
  }

  pub set_current-eq :
      (x : F) (n : ℕ) (m : Mapping)
      → 1 ≤ n
      → n < 256
      → n * 4 ≤ length m.registers
      → set_current codec x n m
        ≡ some (record m { registers = put_all m.registers (n * 4 - 4) (abcd x) })
  unfolding set_current
  set_current-eq x n m lo hi h =
      rw
        (value_index-eq n lo hi, poke_all-eq-put_all (abcd x) m.registers (n * 4 - 4) (omega arith))

  pub get_float-eq :
      (regs : List ℕ) (i : ℕ)
      → i + 1 < length regs
      → get_float codec regs i ≡ some (codec.get_abcd (get_or regs i 0) (get_or regs (i + 1) 0))
  unfolding get_float
  get_float-eq regs i h = ground arith

  get_forced_val-eq :
      (m : Mapping) (n : ℕ)
      → 1 ≤ n
      → n < 256
      → n * 4 ≤ length m.registers
      → get_forced_val codec m n
        ≡ some
            (codec.get_abcd (get_or m.registers (n * 4 - 2) 0) (get_or m.registers (n * 4 - 1) 0))
  unfolding get_forced_val
  get_forced_val-eq m n lo hi h =
      rw (forced_index n lo hi, get_float-eq m.registers (n * 4 - 2) (omega arith))
        (ap (λ k. some (codec.get_abcd (get_or m.registers (n * 4 - 2) 0) (get_or m.registers k 0)))
          {x = n * 4 - 2 + 1} {y = n * 4 - 1} (omega arith))

  pub update_in-eq :
      (little : Bool) (io ro : ℕ) (v : IoVar F) (n : ℕ) (m : Mapping)
      → Fits io ro m
      → Small io ro
      → 1 ≤ n
      → n ≤ io
      → n < 256
      → let v' = refreshed n m v in
        update_in codec little ro v n m ≡ some (v', published little ro v' n m)
  unfolding update_in
  update_in-eq little io ro v n m f fine lo hi small = rw (
    get_forced_val-eq m n lo small (omega (arith, f)),
    get_forced-eq m n lo small (omega (arith, f)),
    set_current-eq v.true_val n m lo small (omega (arith, f)),
    set_q_state_bits-eq (q_state (refreshed n m v)) n
        (record m { registers = put_all m.registers (n * 4 - 4) (abcd v.true_val) }) lo
        (omega (arith, f)),
    set_time_s-eq little ro v.time_s n
        (record m {
          registers = put_all m.registers (n * 4 - 4) (abcd v.true_val);
          input_bits = put_all m.input_bits (n * 2 - 2) (q_state_bits (q_state (refreshed n m v)));
        })
        lo (omega arith) (omega (arith, f)),
  )
