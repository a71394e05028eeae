-- ===== src/Slave/Access.antt =====
-- `read`, `write`, `updateFieldVar` and `writeRO` of ModbusSlaveDrv.cpp, and the accesses to the
-- tables that they are made of. `none` is an access past the end of a table.
use turbine_governor.Base.{
  ℕ, ◌+◌, ◌-◌, ◌*◌, Bool, true, false, ◌||◌, Option, none, some, List, [], ◌∷◌, u8, u16, ltb, leb,
  ◌==◌, if◌then◌else◌, ◌>>=◌, peek, poke, poke_all,
}
use turbine_governor.Base.Dict
use turbine_governor.Types.{DrvState, QuState, IoAddr}
use turbine_governor.Types.IoVar.{IoVar, q_state}
use turbine_governor.Slave.State.{Mapping, SlaveDrv, word32}
use turbine_governor.Slave.Wire.{wire_bytes, q_state_bits}

-- libmodbus: `modbus_get_float_abcd` and `modbus_set_float_abcd`, over two registers.
pub record FloatCodec (F : Type 0) : Type 0 where
  pub get_abcd : ℕ → ℕ → F
  pub set_abcd : F → ℕ × ℕ

abbrev pub coiloffset : ℕ
coiloffset = 1

abbrev pub dioffset : ℕ
dioffset = 2

abbrev pub iroffset : ℕ
iroffset = 4

abbrev pub hroffset : ℕ
hroffset = 4

-- The number of a variable's channel in the tables, a byte.
abbrev pub num_var : ℕ → ℕ → ℕ
num_var channel ro = u8 (channel + 4294967296 - ro)

abbrev pub is_uninit : DrvState → Bool
is_uninit DrvState.un_init = true
is_uninit _ = false

abbrev pub is_com_error : DrvState → Bool
is_com_error DrvState.com_error = true
is_com_error _ = false

-- The test that guards every access to the tables.
abbrev pub refused : ℕ → ℕ → DrvState → Bool
refused n count st = ltb n 1 || ltb count n || is_uninit st

-- `(uiVar * COILOFFSET) - COILOFFSET` as a `std::uint16_t`
abbrev pub coil_index : ℕ → ℕ
coil_index n = u16 (n + 65535)

unfoldable pub get_forced : Mapping → ℕ → Option Bool
get_forced m n = peek m.bits (coil_index n) >>= λ b. some (leb 1 b)

unfoldable pub set_forced : ℕ → Bool → Mapping → Option Mapping
set_forced n on m =
    poke m.bits (coil_index n) (if on then 1 else 0) >>= λ bs. some (record m { bits = bs })

abbrev pub value_index : ℕ → ℕ
value_index n = u16 (n * hroffset + 65532)

unfoldable pub set_q_state_bits : QuState → ℕ → Mapping → Option Mapping
set_q_state_bits q n m = poke_all m.input_bits (n * dioffset - dioffset) (q_state_bits q) >>= λ bs.
    some (record m { input_bits = bs })

unfoldable pub set_time_s : Bool → ℕ → ℕ → ℕ → Mapping → Option Mapping
set_time_s little ro time n m =
    poke_all m.input_bytes (2 * (n * iroffset - iroffset + word32 (ro * 2)))
      (wire_bytes little 8 time)
    >>= λ bs. some (record m { input_bytes = bs })

unfoldable pub set_ro_int : Bool → ℕ → ℕ → Mapping → Option Mapping
set_ro_int little v n m =
    poke_all m.input_bytes (2 * ((n - 1) * 2)) (wire_bytes little 4 v) >>= λ bs.
    some (record m { input_bytes = bs })

unfoldable pub write_ro : ℕ → IoAddr → SlaveDrv → Option (Bool × SlaveDrv)
write_ro v a s = if refused a.channel s.num_ro_ints s.state then some (false, s) else do
  m ← s.mapping
  m' ← set_ro_int s.little v a.channel m
  some (true, record s { mapping = some m' })

module _ {F : Type 0} (codec : FloatCodec F) where
  unfoldable pub get_float : List ℕ → ℕ → Option F
  get_float regs i = do a ← peek regs i; b ← peek regs (i + 1); some (codec.get_abcd a b)

  unfoldable pub get_current_val : Mapping → ℕ → Option F
  get_current_val m n = get_float m.registers (value_index n)

  unfoldable pub get_forced_val : Mapping → ℕ → Option F
  get_forced_val m n = get_float m.registers (u16 (n * hroffset + 65532 + 2))

  unfoldable pub set_current : F → ℕ → Mapping → Option Mapping
  set_current x n m =
      let (a, b) = codec.set_abcd x in
      poke_all m.registers (value_index n) (a ∷ b ∷ []) >>= λ rs. some (record m { registers = rs })

  unfoldable pub read : ℕ → IoVar F → SlaveDrv → Option (Bool × IoVar F)
  read now v s =
      let n = num_var v.addr.channel s.num_ro_ints in
      if refused n s.num_io_vars s.state then some (false, v) else do
        m ← s.mapping
        x ← get_current_val m n
        let q = if is_com_error s.state then QuState.com_error else QuState.ok
        some (true, record v { true_val = x; own_q_state = q; time_s = now })

  unfoldable pub write : IoVar F → SlaveDrv → Option (Bool × SlaveDrv)
  write v s =
      let n = num_var v.addr.channel s.num_ro_ints in
      if refused n s.num_io_vars s.state then some (false, s) else do
        m ← s.mapping
        m' ← set_current v.true_val n m
        some (true, record s { mapping = some m' })

  -- What `updateFieldVar` does once the number of the variable is known to be good.
  unfoldable pub update_in : Bool → ℕ → IoVar F → ℕ → Mapping → Option (IoVar F × Mapping)
  update_in little ro v n m = do
    x ← get_forced_val m n
    on ← get_forced m n
    let v' = record v { forced_val = x; forced = on }
    m₁ ← set_current v'.true_val n m
    m₂ ← set_q_state_bits (q_state v') n m₁
    m₃ ← set_time_s little ro v'.time_s n m₂
    some (v', m₃)

  -- The rest of `updateFieldVar`, for the number that the table of channels gives.
  unfoldable pub update_at : IoVar F → ℕ → SlaveDrv → Option (Bool × IoVar F × SlaveDrv)
  update_at v n s = if refused n s.num_io_vars s.state then some (false, v, s) else do
    m ← s.mapping
    (v', m') ← update_in s.little s.num_ro_ints v n m
    some (true, v', record s { mapping = some m' })

  unfoldable pub update_field_var : IoVar F → SlaveDrv → Option (Bool × IoVar F × SlaveDrv)
  update_field_var v s = elim (Dict.lookup ◌==◌ v.var_id s.field_vars) [
    | none ↦ some (false, v, s)
    | some a ↦ update_at v (num_var a.channel s.num_ro_ints) s
  ]
