-- ===== src/Image/Exchange.antt =====
-- `init`, `updateInputs`, `updateOutputs` and `getFldErrors` of Regulator/src/IOImage.cpp, over the
-- two drivers.
use turbine_governor.Base.{ℕ, ◌+◌, Option, none, some, List, [], ◌∷◌, replicate, length, u8, ◌>>=◌}
use turbine_governor.Base.Int.{pos}
use turbine_governor.Base.Dict
use turbine_governor.Types.{IoAddr, QuState, no_addr, same_addr}
use turbine_governor.Types.Float.{FloatOps}
use turbine_governor.Types.IoVar.{IoVar, new_var, set_current_val}
use turbine_governor.AlarmManager.{AlarmManager, fld_in_vars, fld_out_vars}
use turbine_governor.Image.{
  Image, SlaveOps, FieldOps, place_of, set_cell, slv_in_vars, slv_out_vars,
}

-- The variables that `init` creates, in its order: identifier, channel of the slave, first value.
abbrev pub created : List (ℕ × ℕ × ℕ)
created =
    (2000000000, 39, 0)
    ∷ (2000000003, 42, 1)
    ∷ (2000000004, 43, 0)
    ∷ (2000000008, 47, 0)
    ∷ (2000000009, 48, 0)
    ∷ (2000000010, 49, 0)
    ∷ (2000000012, 68, 0)
    ∷ (2000000013, 69, 0)
    ∷ (1000000007, 129, 0)
    ∷ (1000000006, 128, 0)
    ∷ (1000000005, 127, 0)
    ∷ (1000000004, 126, 0)
    ∷ (1000000003, 125, 1)
    ∷ (1000000002, 124, 1)
    ∷ (1000000013, 135, 0)
    ∷ (1000000017, 139, 0)
    ∷ (1000000018, 140, 0)
    ∷ (1000000019, 141, 0)
    ∷ (3000000000, 148, 0)
    ∷ (3000000001, 149, 0)
    ∷ (3000000002, 150, 0)
    ∷ (3000000003, 151, 0)
    ∷ []

abbrev pub empty_image : {F : Type 0} → Image F
empty_image = record {
  field_in = replicate fld_in_vars none;
  field_out = replicate fld_out_vars none;
  slave_in = replicate slv_in_vars none;
  slave_out = replicate slv_out_vars none;
  field_addr_index = [];
}

module _ {S F : Type 0} (fl : FloatOps F) (slave : SlaveOps S F) where
  -- A variable of the image with its first value; what the constructor does not set is `junk`.
  abbrev pub made : (ℕ → IoVar F) → ℕ → ℕ → ℕ → IoVar F
  made junk id channel value =
      set_current_val (fl.of_int (pos value))
        (new_var (junk id) id (record no_addr { channel = channel }))

  unfoldable pub create_all : (ℕ → IoVar F) → List (ℕ × ℕ × ℕ) → Image F → S → Option (Image F × S)
  create_all junk [] img s = some (img, s)
  create_all junk ((id, channel, value) ∷ es) img s =
      slave.write (made junk id channel value) s >>= λ r.
      create_all junk es (set_cell (place_of id) (made junk id channel value) img) r.1

  unfoldable pub init : (ℕ → IoVar F) → S → Option (Image F × S)
  init junk s = create_all junk created empty_image s

module _ {S D F : Type 0} (slave : SlaveOps S F) (field : FieldOps D F) where
  -- The loop over the inputs of the field.
  unfoldable pub read_field : List (Option (IoVar F)) → D → S → Option (List (Option (IoVar F)) × S)
  read_field [] d s = some ([], s)
  read_field (none ∷ vs) d s = read_field vs d s >>= λ r. some (none ∷ r.0, r.1)
  read_field (some v ∷ vs) d s = slave.update_field_var (field.read v d) s >>= λ u.
      read_field vs d u.2 >>= λ r. some (some u.1 ∷ r.0, r.1)

  -- The loop over the inputs of the slave.
  unfoldable pub read_slave : List (Option (IoVar F)) → S → Option (List (Option (IoVar F)))
  read_slave [] s = some []
  read_slave (none ∷ vs) s = read_slave vs s >>= λ r. some (none ∷ r)
  read_slave (some v ∷ vs) s = slave.read v s >>= λ u. read_slave vs s >>= λ r. some (some u.1 ∷ r)

  abbrev pub update_q_states : List (Option (IoVar F)) → D → List (Option (IoVar F))
  update_q_states [] d = []
  update_q_states (none ∷ vs) d = none ∷ update_q_states vs d
  update_q_states (some v ∷ vs) d = some (field.update_q_state v d) ∷ update_q_states vs d

  unfoldable pub update_inputs : Image F → D → S → Option (Image F × S)
  update_inputs img d s = read_field img.field_in d s >>= λ r. read_slave img.slave_in r.1 >>= λ si.
      some (
        record img { field_in = r.0; slave_in = si; field_out = update_q_states img.field_out d },
        r.1,
      )

  unfoldable pub write_slave : List (Option (IoVar F)) → S → Option S
  write_slave [] s = some s
  write_slave (none ∷ vs) s = write_slave vs s
  write_slave (some v ∷ vs) s = slave.write v s >>= λ r. write_slave vs r.1

  -- The loop over the outputs of the field, with the new drivers.
  unfoldable pub write_field :
      List (Option (IoVar F)) → D → S → Option (List (Option (IoVar F)) × D × S)
  write_field [] d s = some ([], d, s)
  write_field (none ∷ vs) d s = write_field vs d s >>= λ r. some (none ∷ r.0, r.1, r.2)
  write_field (some v ∷ vs) d s = slave.update_field_var v s >>= λ u.
      write_field vs (field.write u.1 d) u.2 >>= λ r. some (some u.1 ∷ r.0, r.1, r.2)

  -- The words from channel `i` on.
  unfoldable pub write_words : ℕ → List ℕ → S → Option S
  write_words i [] s = some s
  write_words i (w ∷ ws) s =
      slave.write_ro w (record no_addr { channel = u8 i }) s >>= λ r. write_words (i + 1) ws r.1

  unfoldable pub update_outputs : AlarmManager → Image F → D → S → Option (Image F × D × S)
  update_outputs al img d s = write_slave img.slave_out s >>= λ s₁.
      write_field img.field_out d s₁ >>= λ r. write_words 1 al.logic_errors r.2 >>= λ s₂.
      write_words (1 + length al.logic_errors) al.field_q_states s₂ >>= λ s₃.
      some (record img { field_out = r.0 }, r.1, s₃)

  abbrev pub known_errors : List (IoAddr × ℕ) → List (IoAddr × QuState) → List (ℕ × QuState)
  known_errors index [] = []
  known_errors index ((a, q) ∷ es) = elim (Dict.lookup same_addr a index) [
    | none ↦ known_errors index es
    | some id ↦ (id, q) ∷ known_errors index es
  ]

  -- `getFldErrors`: what it inserts.
  unfoldable pub get_fld_errors : Image F → D → List (ℕ × QuState)
  get_fld_errors img d = known_errors img.field_addr_index (field.var_errors d)
