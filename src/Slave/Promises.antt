-- ===== src/Slave/Promises.antt =====
-- ModbusSlaveDrv.cpp keeps the promises that the image of the regulator relies on.
use turbine_governor.Base.{
  ℕ, ◌+◌, ◌-◌, ◌*◌, ◌≤◌, ◌≡◌, ◌∙◌, inl, inr, Bool, true, false, some, put_all, length-put_all,
  get_or, if◌then◌else◌, Bool-cases, Option-cases, ◌==◌, arith,
}
use turbine_governor.Base.Dict
use turbine_governor.Types.{IoAddr, QuState}
use turbine_governor.Types.IoVar.{IoVar}
use turbine_governor.Slave.State.{SlaveDrv, Mapping, Fits, Small}
use turbine_governor.Slave.Wire.{wire_bytes}
use turbine_governor.Slave.Access.{
  FloatCodec, is_uninit, is_com_error, refused, num_var, get_current_val, read, write, write_ro,
  update_at, update_field_var,
}
use turbine_governor.Slave.Bounds.{
  value_index-eq, get_float-eq, set_current-eq, set_ro_int-eq, abcd,
}
use turbine_governor.Slave.Publish.{update_field_var-IsReady}
use turbine_governor.Slave.Reach.{DrvInv}
use turbine_governor.Slave.Invariant.{
  with_mapping-DrvInv, update_field_var-DrvInv, update_field_var-Small,
}
use turbine_governor.Image.{SlaveOps}
use turbine_governor.Image.Keeps.{SlaveLaws}

-- A well formed driver with a configuration for which the sizes of the tables do not wrap.
abbrev pub SizedInv : SlaveDrv → Type 0
SizedInv s = DrvInv s × Small s.num_io_vars s.num_ro_ints

-- What an accepted call knows.
accepted :
    (n count : ℕ) (s : SlaveDrv)
    → refused n count s.state ≡ false
    → (1 ≤ n) × (n ≤ count) × (is_uninit s.state ≡ false)
accepted n count s h = ground arith

write_ro-eq :
    (x : ℕ) (a : IoAddr) (s : SlaveDrv) (m : Mapping)
    → s.mapping ≡ some m
    → Fits s.num_io_vars s.num_ro_ints m
    → Small s.num_io_vars s.num_ro_ints
    → refused a.channel s.num_ro_ints s.state ≡ false
    → write_ro x a s
      ≡ some (
        true,
        record s {
          mapping = some (record m {
            input_bytes =
                put_all m.input_bytes (2 * ((a.channel - 1) * 2)) (wire_bytes s.little 4 x);
          });
        },
      )
unfolding write_ro
write_ro-eq x a s m e f small good =
    let (lo, hi, up) = accepted a.channel s.num_ro_ints s good in
    rw (good, e, set_ro_int-eq s.little x a.channel m lo (omega (arith, f)), write_ro)

write_ro-SizedInv :
    (x : ℕ) (a : IoAddr) (s : SlaveDrv)
    → SizedInv s
    → (b : Bool) × (s' : SlaveDrv) × (write_ro x a s ≡ some (b, s')) × SizedInv s'
unfolding write_ro
write_ro-SizedInv x a s (i, small) = elim (Bool-cases (refused a.channel s.num_ro_ints s.state)) [
  | inl bad ↦ (false, s, rw (bad, write_ro), (i, small))
  | inr good ↦
      let (lo, hi, up) = accepted a.channel s.num_ro_ints s good in
      let (m, e, f) = i.tables up in
      (
        true,
        _,
        write_ro-eq x a s m e f small good,
        (
          with_mapping-DrvInv s _ i up (record {
            bits_len = f.bits_len;
            input_bits_len = f.input_bits_len;
            registers_len = f.registers_len;
            input_bytes_len =
                length-put_all (wire_bytes s.little 4 x) m.input_bytes (2 * ((a.channel - 1) * 2))
                ∙ f.input_bytes_len;
          }),
          small,
        ),
      )
]

module _ {F : Type 0} (codec : FloatCodec F) where
  write-eq :
      (v : IoVar F) (s : SlaveDrv) (m : Mapping)
      → s.mapping ≡ some m
      → Fits s.num_io_vars s.num_ro_ints m
      → Small s.num_io_vars s.num_ro_ints
      → let n = num_var v.addr.channel s.num_ro_ints in
        refused n s.num_io_vars s.state ≡ false
        → write codec v s
          ≡ some (
            true,
            record s {
              mapping = some (record m {
                registers = put_all m.registers (n * 4 - 4) (abcd codec v.true_val);
              });
            },
          )
  unfolding write
  write-eq v s m e f small good =
      let n = num_var v.addr.channel s.num_ro_ints in
      let (lo, hi, up) = accepted n s.num_io_vars s good in
      rw (good, e, set_current-eq codec v.true_val n m lo (omega arith) (omega (arith, f)), write)

  write-SizedInv :
      (v : IoVar F) (s : SlaveDrv)
      → SizedInv s
      → (b : Bool) × (s' : SlaveDrv) × (write codec v s ≡ some (b, s')) × SizedInv s'
  unfolding write
  write-SizedInv v s (i, small) =
      let n = num_var v.addr.channel s.num_ro_ints in
      elim (Bool-cases (refused n s.num_io_vars s.state)) [
        | inl bad ↦ (false, s, rw (bad, write), (i, small))
        | inr good ↦
            let (lo, hi, up) = accepted n s.num_io_vars s good in
            let (m, e, f) = i.tables up in
            (
              true,
              _,
              write-eq v s m e f small good,
              (
                with_mapping-DrvInv s _ i up (record {
                  bits_len = f.bits_len;
                  input_bits_len = f.input_bits_len;
                  registers_len =
                      length-put_all (abcd codec v.true_val) m.registers (n * 4 - 4)
                      ∙ f.registers_len;
                  input_bytes_len = f.input_bytes_len;
                }),
                small,
              ),
            )
      ]

  read-eq :
      (now : ℕ) (v : IoVar F) (s : SlaveDrv) (m : Mapping)
      → s.mapping ≡ some m
      → Fits s.num_io_vars s.num_ro_ints m
      → Small s.num_io_vars s.num_ro_ints
      → let n = num_var v.addr.channel s.num_ro_ints in
        refused n s.num_io_vars s.state ≡ false
        → read codec now v s
          ≡ some (
            true,
            record v {
              true_val =
                  codec.get_abcd
                    (get_or m.registers (n * 4 - 4) 0)
                    (get_or m.registers (n * 4 - 4 + 1) 0);
              own_q_state = if is_com_error s.state then QuState.com_error else QuState.ok;
              time_s = now;
            },
          )
  unfolding read get_current_val
  read-eq now v s m e f small good =
      let n = num_var v.addr.channel s.num_ro_ints in
      let (lo, hi, up) = accepted n s.num_io_vars s good in
      rw (
        good,
        e,
        value_index-eq n lo (omega arith),
        get_float-eq codec m.registers (n * 4 - 4) (omega (arith, f)),
        read,
        get_current_val,
      )

  read-returns :
      (now : ℕ) (v : IoVar F) (s : SlaveDrv)
      → SizedInv s
      → (b : Bool) × (v' : IoVar F) × (read codec now v s ≡ some (b, v'))
  unfolding read get_current_val
  read-returns now v s (i, small) =
      let n = num_var v.addr.channel s.num_ro_ints in
      elim (Bool-cases (refused n s.num_io_vars s.state)) [
        | inl bad ↦ (false, v, rw (bad, read))
        | inr good ↦
            let (lo, hi, up) = accepted n s.num_io_vars s good in
            let (m, e, f) = i.tables up in (true, _, read-eq now v s m e f small good)
      ]

  update_idle :
      (v : IoVar F) (s : SlaveDrv)
      → is_uninit s.state ≡ true
      → update_field_var codec v s ≡ some (false, v, s)
  unfolding update_field_var update_at
  update_idle v s idle = elim (Option-cases (Dict.lookup ◌==◌ v.var_id s.field_vars)) [
    | inl missing ↦ rw (missing, update_field_var)
    | inr (a, found) ↦
        let bad : refused (num_var a.channel s.num_ro_ints) s.num_io_vars s.state ≡ true =
          ground arith in
        rw (found, bad, update_field_var, update_at)
  ]

  update-returns :
      (v : IoVar F) (s : SlaveDrv)
      → SizedInv s
      → (b : Bool) × (v' : IoVar F) × (s' : SlaveDrv) × (update_field_var codec v s
          ≡ some (b, v', s'))
        × SizedInv s'
  update-returns v s (i, small) = elim (Bool-cases (is_uninit s.state)) [
    | inl idle ↦ (false, v, s, update_idle v s idle, (i, small))
    | inr up ↦
        let (b, v', t, e, _) = update_field_var-IsReady codec v s (i.tables up) small in
        (
          b,
          v',
          t,
          e,
          (
            update_field_var-DrvInv codec v v' s t b e i,
            update_field_var-Small codec v v' s t b e small,
          ),
        )
  ]

  -- The driver as the image sees it; each variable is read at a time of its own.
  abbrev pub modbus_slave : (IoVar F → ℕ) → SlaveOps SlaveDrv F
  modbus_slave now = record {
    read = λ v s. read codec (now v) v s;
    write = write codec;
    update_field_var = update_field_var codec;
    write_ro = write_ro;
  }

  -- In a well formed state of the driver, with a configuration for which the sizes of the tables do
  -- not wrap at 32 bits, every call of the image returns, without an access past the end of a table,
  -- and leaves such a state.
  pub modbus_slave-SlaveLaws : (now : IoVar F → ℕ) → SlaveLaws (modbus_slave now) SizedInv
  modbus_slave-SlaveLaws now = record {
    read_returns = λ v s i. read-returns (now v) v s i;
    write_returns = write-SizedInv;
    update_returns = update-returns;
    write_ro_returns = write_ro-SizedInv;
  }
