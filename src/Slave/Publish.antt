-- ===== src/Slave/Publish.antt =====
-- What a master reads after `updateFieldVar` and `writeRO` of ModbusSlaveDrv.cpp, at the addresses
-- that `processRead` of HMI/src/MasterDriver/ModbusMasterDrv.cpp asks for.
use turbine_governor.Base.{
  ℕ, ◌+◌, ◌-◌, ◌*◌, ◌^◌, ◌≤◌, ◌<◌, ◌≡◌, refl, ap, ◌∙◌, inl, inr, Bool, true, false, some, List,
  ◌==◌, arith, length-put_all, slice, slice-put_all, slice-put_all_of_length, Option-cases,
  Bool-cases, ◌↔◌,
}
use turbine_governor.Base.Dict
use turbine_governor.Types.{DrvState, QuState, IoAddr}
use turbine_governor.Types.IoVar.{IoVar, q_state}
use turbine_governor.Slave.State.{Mapping, SlaveDrv, Fits, Small}
use turbine_governor.Slave.Wire.{
  wire_bytes, q_state_bits, get_int, get_time_s, get_q_state, memory_registers,
  get_time_s-wire_bytes, get_q_state-q_state_bits,
}
use turbine_governor.Slave.Access.{
  FloatCodec, refused, num_var, is_uninit, update_at, update_field_var,
}
use turbine_governor.Slave.Bounds.{
  abcd, refreshed, published, update_in-eq, length-wire_bytes_time, length-q_state_bits,
}

-- The registers, bits and integers that a master asks for, for the variable with number n of the
-- tables or the read-only integer of channel k. The master has the byte order of the slave.
abbrev pub read_value : Mapping → ℕ → List ℕ
read_value m n = slice m.registers (n * 4 - 4) 2

abbrev pub read_q_state : Mapping → ℕ → QuState
read_q_state m n = get_q_state (slice m.input_bits (n * 2 - 2) 2)

abbrev pub read_time : Bool → ℕ → Mapping → ℕ → ℕ
read_time little ro m n =
    get_time_s little 0 (memory_registers little (slice m.input_bytes (2 * (n * 4 - 4 + ro * 2)) 8))

abbrev pub read_ro : Bool → Mapping → ℕ → ℕ
read_ro little m k =
    get_int little (memory_registers little (slice m.input_bytes (2 * ((k - 1) * 2)) 4))

-- The guard accepts exactly the channels behind the read-only integers, of an initialised driver,
-- when the numbers of channels fit a byte.
pub refused_iff :
    (channel io ro : ℕ) (st : DrvState)
    → channel < 256
    → ro + io < 256
    → (refused (num_var channel ro) io st ≡ false)
      ↔ ((ro < channel) × (channel ≤ ro + io) × (is_uninit st ≡ false))
refused_iff channel io ro st h k = (λ r. ground arith, λ r. ground arith)

accepted : (n io : ℕ) (st : DrvState) → refused n io st ≡ false → (1 ≤ n) × (n ≤ io)
accepted n io st h = ground arith

abbrev pub IsReady : SlaveDrv → Type 0
IsReady s = (m : Mapping) × (s.mapping ≡ some m) × Fits s.num_io_vars s.num_ro_ints m

module _ {F : Type 0} (codec : FloatCodec F) where
  published-Fits :
      (little : Bool) (io ro : ℕ) (v : IoVar F) (n : ℕ) (m : Mapping)
      → Fits io ro m
      → Fits io ro (published codec little ro v n m)
  published-Fits little io ro v n m f = record {
    bits_len = f.bits_len;
    input_bits_len =
        length-put_all (q_state_bits (q_state v)) m.input_bits (n * 2 - 2) ∙ f.input_bits_len;
    registers_len =
        length-put_all (abcd codec v.true_val) m.registers (n * 4 - 4) ∙ f.registers_len;
    input_bytes_len =
        length-put_all (wire_bytes little 8 v.time_s) m.input_bytes (2 * (n * 4 - 4 + ro * 2))
        ∙ f.input_bytes_len;
  }

  update_at-eq :
      (v : IoVar F) (n : ℕ) (s : SlaveDrv) (m : Mapping)
      → s.mapping ≡ some m
      → Fits s.num_io_vars s.num_ro_ints m
      → Small s.num_io_vars s.num_ro_ints
      → n < 256
      → refused n s.num_io_vars s.state ≡ false
      → let v' = refreshed codec n m v in
        update_at codec v n s
        ≡ some
            (true, v', record s { mapping = some (published codec s.little s.num_ro_ints v' n m) })
  unfolding update_at
  update_at-eq v n s m e f fine small good =
      let (lo, hi) = accepted n s.num_io_vars s.state good in
      rw (good, e, update_in-eq codec s.little s.num_io_vars s.num_ro_ints v n m f fine lo hi small)

  update_at-IsReady :
      (v : IoVar F) (n : ℕ) (s : SlaveDrv)
      → IsReady s
      → Small s.num_io_vars s.num_ro_ints
      → n < 256
      → (done : Bool) × (v' : IoVar F) × (s' : SlaveDrv) × (update_at codec v n s
          ≡ some (done, v', s'))
        × IsReady s'
  unfolding update_at
  update_at-IsReady v n s (m, e, f) fine small =
      elim (Bool-cases (refused n s.num_io_vars s.state)) [
        | inl bad ↦ (false, v, s, rw (bad, update_at), (m, e, f))
        | inr good ↦
            let v' = refreshed codec n m v in
            (
              true,
              v',
              _,
              update_at-eq v n s m e f fine small good,
              (_, refl, published-Fits s.little s.num_io_vars s.num_ro_ints v' n m f),
            )
      ]

  -- `updateFieldVar` never accesses a table past its end when the tables have the sizes of `init`
  -- and these do not wrap: it returns, and keeps these sizes.
  pub update_field_var-IsReady :
      (v : IoVar F) (s : SlaveDrv)
      → IsReady s
      → Small s.num_io_vars s.num_ro_ints
      → (done : Bool) × (v' : IoVar F) × (s' : SlaveDrv) × (update_field_var codec v s
          ≡ some (done, v', s'))
        × IsReady s'
  unfolding update_field_var
  update_field_var-IsReady v s r fine =
      elim (Option-cases (Dict.lookup ◌==◌ v.var_id s.field_vars)) [
        | inl missing ↦ (false, v, s, rw (missing, update_field_var), r)
        | inr (a, found) ↦
            let (done, v', s', e, r') =
              update_at-IsReady v (num_var a.channel s.num_ro_ints) s r fine (omega arith) in
            (done, v', s', rw (found, update_field_var) e, r')
      ]

  -- A master that asks for the variable gets its value, state and time.
  read-published :
      (little : Bool) (io ro : ℕ) (v : IoVar F) (n : ℕ) (m : Mapping)
      → Fits io ro m
      → Small io ro
      → 1 ≤ n
      → n ≤ io
      → v.time_s < 2 ^ 64
      → let m' = published codec little ro v n m in
        (read_value m' n ≡ abcd codec v.true_val)
        × (read_q_state m' n ≡ q_state v)
        × (read_time little ro m' n ≡ v.time_s)
  read-published little io ro v n m f fine lo hi t = (
    slice-put_all (abcd codec v.true_val) m.registers (n * 4 - 4) (omega (arith, f)),
    ap get_q_state (
          slice-put_all_of_length (q_state_bits (q_state v)) m.input_bits (n * 2 - 2) 2
            (length-q_state_bits (q_state v)) (omega (arith, f)))
        ∙ get_q_state-q_state_bits (q_state v),
    ap (λ (bs : List ℕ). get_time_s little 0 (memory_registers little bs))
          (slice-put_all_of_length (wire_bytes little 8 v.time_s) m.input_bytes
            (2 * (n * 4 - 4 + ro * 2)) 8 (length-wire_bytes_time little v.time_s)
            (omega (arith, f)))
        ∙ get_time_s-wire_bytes little v.time_s 0 t,
  )

  -- When a driver whose tables have the sizes of `init` updates a registered variable whose channel
  -- lies behind the read-only integers and within the tables, the numbers of channels fit a byte and
  -- the time fits 64 bits, the call succeeds, and a master that then asks for the
  -- variable gets the value, the state and the time that the call left in it. The forced mark and
  -- the forced value of the variable are those of the tables.
  pub update_field_var-publishes :
      (v : IoVar F) (s : SlaveDrv) (m : Mapping) (a : IoAddr)
      → s.mapping ≡ some m
      → Fits s.num_io_vars s.num_ro_ints m
      → Dict.lookup ◌==◌ v.var_id s.field_vars ≡ some a
      → is_uninit s.state ≡ false
      → s.num_ro_ints < a.channel
      → a.channel ≤ s.num_ro_ints + s.num_io_vars
      → s.num_ro_ints + s.num_io_vars < 256
      → v.time_s < 2 ^ 64
      → let n = a.channel - s.num_ro_ints in
        let v' = refreshed codec n m v in
        (m' : Mapping) × (update_field_var codec v s
          ≡ some (true, v', record s { mapping = some m' }))
        × (read_value m' n ≡ abcd codec v.true_val)
        × (read_q_state m' n ≡ q_state v')
        × (read_time s.little s.num_ro_ints m' n ≡ v.time_s)
  unfolding update_field_var
  update_field_var-publishes v s m a e f found up lo hi small t =
      let n = a.channel - s.num_ro_ints in
      let v' = refreshed codec n m v in
      let number : num_var a.channel s.num_ro_ints ≡ n = omega arith in
      let good : refused n s.num_io_vars s.state ≡ false = ground arith in
      let (value, q, time) =
        read-published s.little s.num_io_vars s.num_ro_ints v' n m f (omega arith) (omega arith)
          (omega arith) t in
      (
        published codec s.little s.num_ro_ints v' n m,
        rw (found, update_field_var)
            (rw number (update_at-eq v n s m e f (omega arith) (omega arith) good)),
        value,
        q,
        time,
      )
