-- ===== src/Slave/Wire.antt =====
-- The copies of bytes between integers and Modbus registers: `writeRO`, `setTimeS` and `setQState`
-- of Regulator/src/SlaveDriver/ModbusSlaveDrv.cpp, `getInt`, `getTimeS` and `getQState` of
-- HMI/src/MasterDriver/ModbusMasterDrv.cpp. A host's byte order is a Boolean, true for little.
use mathlib.Core.List.{reverse}
use turbine_governor.Base.{
  ℕ, zero, suc, ◌+◌, ◌-◌, ◌*◌, ◌/◌, ◌%◌, ◌^◌, ◌<◌, ◌≡◌, refl, bit_and, bit_or, Bool, true, false,
  List, [], ◌∷◌, get_or, set, if◌then◌else◌, u8, arith,
}
use turbine_governor.Types.{QuState, qu_code, qu_of_code}

-- The bytes of an integer of n bytes, lowest first.
abbrev pub low_first : ℕ → ℕ → List ℕ
low_first zero v = []
low_first (suc n) v = v % 256 ∷ low_first n (v / 256)

-- The integer with these bytes.
abbrev pub of_low_first : List ℕ → ℕ
of_low_first [] = 0
of_low_first (b ∷ bs) = b + 256 * of_low_first bs

-- What `(std::uint8_t*) &v` points to.
abbrev pub memory_of : Bool → ℕ → ℕ → List ℕ
memory_of little n v = if little then low_first n v else reverse (low_first n v)

abbrev pub value_of : Bool → List ℕ → ℕ
value_of little m = of_low_first (if little then m else reverse m)

-- The loop `*pMap = *pVal; --pVal or ++pVal; ++pMap`, as the list of the bytes that it stores.
unfoldable pub copy_out : Bool → ℕ → ℕ → List ℕ → List ℕ
copy_out little zero src m = []
copy_out little (suc left) src m =
    get_or m src 0 ∷ copy_out little left (if little then src - 1 else src + 1) m

-- The bytes of `v` as `writeRO` and `setTimeS` store them.
unfoldable pub wire_bytes : Bool → ℕ → ℕ → List ℕ
unfolding copy_out
wire_bytes little n v = copy_out little n (if little then n - 1 else 0) (memory_of little n v)

-- The loop `*pVal = *pMap; --pVal or ++pVal; ++pMap`, on the memory of the result.
unfoldable pub copy_in : Bool → ℕ → List ℕ → List ℕ → List ℕ
copy_in little dst [] m = m
copy_in little dst (b ∷ bs) m =
    copy_in little (if little then dst - 1 else dst + 1) bs (set m dst b)

-- The memory of an array of 16-bit registers, and the registers in a memory.
abbrev pub register_memory : Bool → List ℕ → List ℕ
register_memory little [] = []
register_memory little (r ∷ rs) =
    if little
    then r % 256 ∷ r / 256 % 256 ∷ register_memory little rs
    else r / 256 % 256 ∷ r % 256 ∷ register_memory little rs

abbrev pub memory_registers : Bool → List ℕ → List ℕ
memory_registers little [] = []
memory_registers little (a ∷ []) = []
memory_registers little (a ∷ b ∷ m) =
    (if little then a + 256 * b else 256 * a + b) ∷ memory_registers little m

-- `getInt`, from two registers. `iVal` starts at 0.
unfoldable pub get_int : Bool → List ℕ → ℕ
unfolding copy_in
get_int little regs =
    value_of little (
      copy_in little (if little then 3 else 0) (register_memory little regs) (memory_of little 4 0))

-- `getTimeS`, from four registers; all eight bytes of the old value are overwritten.
unfoldable pub get_time_s : Bool → ℕ → List ℕ → ℕ
unfolding copy_in
get_time_s little old regs = value_of little (
    copy_in little (if little then 7 else 0) (register_memory little regs) (memory_of little 8 old))

-- The loop of `setQState` over the input bits of a variable, with the mask and the offset.
unfoldable pub q_bits : ℕ → ℕ → ℕ → ℕ → List ℕ
q_bits zero v mask offset = []
q_bits (suc left) v mask offset =
    bit_and v mask / 2 ^ offset ∷ q_bits left v (mask / 2) (u8 (offset + 255))

unfoldable pub q_state_bits : QuState → List ℕ
unfolding q_bits
q_state_bits q = q_bits 2 (qu_code q) 2 1

-- The loop of `getQState`.
unfoldable pub q_value : ℕ → ℕ → List ℕ → ℕ
q_value acc offset [] = acc
q_value acc offset (b ∷ bs) = q_value (bit_or acc (u8 (b * 2 ^ offset))) (u8 (offset + 255)) bs

unfoldable pub get_q_state : List ℕ → QuState
unfolding q_value
get_q_state bits = qu_of_code (q_value 0 1 bits)

-- An integer that goes from slave to master over registers arrives as it was, when both hosts have
-- the same byte order.
pub get_int-wire_bytes :
    (little : Bool) (v : ℕ)
    → v < 2 ^ 32
    → get_int little (memory_registers little (wire_bytes little 4 v)) ≡ v
unfolding get_int wire_bytes
get_int-wire_bytes true v h = omega arith
get_int-wire_bytes false v h = omega arith

-- A time stamp of 64 bits that goes from slave to master over registers arrives as it was, when both
-- hosts have the same byte order, whatever the master held before.
pub get_time_s-wire_bytes :
    (little : Bool) (v old : ℕ)
    → v < 2 ^ 64
    → get_time_s little old (memory_registers little (wire_bytes little 8 v)) ≡ v
unfolding get_time_s wire_bytes
get_time_s-wire_bytes true v old h = omega arith
get_time_s-wire_bytes false v old h = omega arith

-- With two byte orders the bytes of each register arrive swapped.
pub get_int-wire_bytes_mixed :
    (v : ℕ)
    → v < 2 ^ 32
    → get_int false (memory_registers true (wire_bytes true 4 v))
      ≡ v / 2 ^ 16 % 256 * 2 ^ 24 + v / 2 ^ 24 * 2 ^ 16 + v % 256 * 256 + v / 256 % 256
unfolding get_int wire_bytes
get_int-wire_bytes_mixed v h = omega arith

pub get_q_state-q_state_bits : (q : QuState) → get_q_state (q_state_bits q) ≡ q
unfolding get_q_state q_state_bits
get_q_state-q_state_bits QuState.ok = refl
get_q_state-q_state_bits QuState.over_range = refl
get_q_state-q_state_bits QuState.under_range = refl
get_q_state-q_state_bits QuState.com_error = refl
