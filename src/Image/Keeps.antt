-- ===== src/Image/Keeps.antt =====
-- The exchange of Regulator/src/IOImage.cpp returns, and the image keeps its variables, over any
-- slave driver that keeps its promises.
use turbine_governor.Base.{
  ℕ, zero, suc, ◌+◌, ◌≡◌, refl, Bool, Option, none, some, List, [], ◌∷◌, length, get_or, u8,
}
use turbine_governor.Types.{IoAddr, no_addr}
use turbine_governor.Types.IoVar.{IoVar}
use turbine_governor.AlarmManager.{AlarmManager}
use turbine_governor.Image.{Image, SlaveOps, FieldOps, Place, place_of, cell, at}
use turbine_governor.Image.Cells.{Some, Has}
use turbine_governor.Image.Exchange.{
  read_field, read_slave, update_q_states, update_inputs, write_slave, write_field, write_words,
  update_outputs,
}

-- What the image relies on: in a good state of the slave driver each call returns, and leaves a
-- good state.
pub record SlaveLaws {S F : Type 0} (slave : SlaveOps S F) (Good : S → Type 0) : Type 0 where
  pub read_returns :
      (v : IoVar F) (s : S) → Good s → (b : Bool) × (v' : IoVar F) × (slave.read v s ≡ some (b, v'))
  pub write_returns :
      (v : IoVar F) (s : S)
      → Good s
      → (b : Bool) × (s' : S) × (slave.write v s ≡ some (b, s')) × Good s'
  pub update_returns :
      (v : IoVar F) (s : S)
      → Good s
      → (b : Bool) × (v' : IoVar F) × (s' : S) × (slave.update_field_var v s ≡ some (b, v', s'))
        × Good s'
  pub write_ro_returns :
      (x : ℕ) (a : IoAddr) (s : S)
      → Good s
      → (b : Bool) × (s' : S) × (slave.write_ro x a s ≡ some (b, s')) × Good s'

-- The same places of two arrays are filled.
abbrev pub SameShape : {F : Type 0} → List (Option (IoVar F)) → List (Option (IoVar F)) → Type 0
SameShape xs ys = (i : ℕ) → Some (get_or xs i none) → Some (get_or ys i none)

module _ {F : Type 0} where
  shape_none :
      (xs ys : List (Option (IoVar F))) → SameShape xs ys → SameShape (none ∷ xs) (none ∷ ys)
  shape_none xs ys h zero p = p
  shape_none xs ys h (suc i) p = h i p

  shape_some :
      (v w : IoVar F) (xs ys : List (Option (IoVar F)))
      → SameShape xs ys
      → SameShape (some v ∷ xs) (some w ∷ ys)
  shape_some v w xs ys h zero p = tt
  shape_some v w xs ys h (suc i) p = h i p

module _ {S D F : Type 0} (slave : SlaveOps S F) (field : FieldOps D F) (Good : S → Type 0)
    (laws : SlaveLaws slave Good) where
  read_field-returns :
      (vs : List (Option (IoVar F))) (d : D) (s : S)
      → Good s
      → (r : List (Option (IoVar F))) × (s' : S) × (read_field slave field vs d s ≡ some (r, s'))
        × Good s'
        × SameShape vs r
  unfolding read_field
  read_field-returns [] d s g = ([], s, refl, g, λ i p. p)
  read_field-returns (none ∷ vs) d s g =
      let (r, s', e, g', h) = read_field-returns vs d s g in
      (none ∷ r, s', rw (e, read_field), g', shape_none vs r h)
  read_field-returns (some v ∷ vs) d s g =
      let (b, v', s₁, u, g₁) = laws.update_returns (field.read v d) s g in
      let (r, s', e, g', h) = read_field-returns vs d s₁ g₁ in
      (some v' ∷ r, s', rw (u, read_field) (rw e), g', shape_some v v' vs r h)

  read_slave-returns :
      (vs : List (Option (IoVar F))) (s : S)
      → Good s
      → (r : List (Option (IoVar F))) × (read_slave slave field vs s ≡ some r) × SameShape vs r
  unfolding read_slave
  read_slave-returns [] s g = ([], refl, λ i p. p)
  read_slave-returns (none ∷ vs) s g =
      let (r, e, h) = read_slave-returns vs s g in (none ∷ r, rw (e, read_slave), shape_none vs r h)
  read_slave-returns (some v ∷ vs) s g =
      let (b, v', u) = laws.read_returns v s g in
      let (r, e, h) = read_slave-returns vs s g in
      (some v' ∷ r, rw (u, read_slave) (rw e), shape_some v v' vs r h)

  update_q_states-shape :
      (vs : List (Option (IoVar F))) (d : D) → SameShape vs (update_q_states slave field vs d)
  update_q_states-shape [] d = λ i p. p
  update_q_states-shape (none ∷ vs) d = shape_none vs _ (update_q_states-shape vs d)
  update_q_states-shape (some v ∷ vs) d = shape_some v _ vs _ (update_q_states-shape vs d)

  write_slave-returns :
      (vs : List (Option (IoVar F))) (s : S)
      → Good s
      → (s' : S) × (write_slave slave field vs s ≡ some s') × Good s'
  unfolding write_slave
  write_slave-returns [] s g = (s, refl, g)
  write_slave-returns (none ∷ vs) s g = write_slave-returns vs s g
  write_slave-returns (some v ∷ vs) s g =
      let (b, s₁, u, g₁) = laws.write_returns v s g in
      let (s', e, g') = write_slave-returns vs s₁ g₁ in (s', rw (u, write_slave) e, g')

  write_field-returns :
      (vs : List (Option (IoVar F))) (d : D) (s : S)
      → Good s
      → (r : List (Option (IoVar F))) × (d' : D) × (s' : S) × (write_field slave field vs d s
          ≡ some (r, d', s'))
        × Good s'
        × SameShape vs r
  unfolding write_field
  write_field-returns [] d s g = ([], d, s, refl, g, λ i p. p)
  write_field-returns (none ∷ vs) d s g =
      let (r, d', s', e, g', h) = write_field-returns vs d s g in
      (none ∷ r, d', s', rw (e, write_field), g', shape_none vs r h)
  write_field-returns (some v ∷ vs) d s g =
      let (b, v', s₁, u, g₁) = laws.update_returns v s g in
      let (r, d', s', e, g', h) = write_field-returns vs (field.write v' d) s₁ g₁ in
      (some v' ∷ r, d', s', rw (u, write_field) (rw e), g', shape_some v v' vs r h)

  write_words-returns :
      (ws : List ℕ) (i : ℕ) (s : S)
      → Good s
      → (s' : S) × (write_words slave field i ws s ≡ some s') × Good s'
  unfolding write_words
  write_words-returns [] i s g = (s, refl, g)
  write_words-returns (w ∷ ws) i s g =
      let (b, s₁, u, g₁) = laws.write_ro_returns w (record no_addr { channel = u8 i }) s g in
      let (s', e, g') = write_words-returns ws (i + 1) s₁ g₁ in (s', rw (u, write_words) e, g')

  -- Which variables are there is a matter of the four arrays.
  kept_by_shapes :
      (img img' : Image F)
      → SameShape img.field_in img'.field_in
      → SameShape img.field_out img'.field_out
      → SameShape img.slave_in img'.slave_in
      → SameShape img.slave_out img'.slave_out
      → (p : Place) → Some (cell img p)
      → Some (cell img' p)
  kept_by_shapes img img' a b c d (Place.in_field_in i) = a i
  kept_by_shapes img img' a b c d (Place.in_field_out i) = b i
  kept_by_shapes img img' a b c d (Place.in_slave_in i) = c i
  kept_by_shapes img img' a b c d (Place.in_slave_out i) = d i

  pub update_inputs-returns :
      (img : Image F) (d : D) (s : S)
      → Good s
      → (img' : Image F) × (s' : S) × (update_inputs slave field img d s ≡ some (img', s'))
        × Good s'
        × ((id : ℕ) → Has img id → Has img' id)
        × (img'.field_addr_index ≡ img.field_addr_index)
  unfolding update_inputs at
  update_inputs-returns img d s g =
      let (fi, s₁, e, g₁, h) = read_field-returns img.field_in d s g in
      let (si, e', h') = read_slave-returns img.slave_in s₁ g₁ in
      let img' = record img {
        field_in = fi;
        slave_in = si;
        field_out = update_q_states slave field img.field_out d;
      } in
      (
        img',
        s₁,
        rw (e, update_inputs) (rw e'),
        g₁,
        λ id.
            kept_by_shapes img img' h (update_q_states-shape img.field_out d) h' (λ i p. p)
              (place_of id),
        refl,
      )

  pub update_outputs-returns :
      (al : AlarmManager) (img : Image F) (d : D) (s : S)
      → Good s
      → (img' : Image F) × (d' : D) × (s' : S) × (update_outputs slave field al img d s
          ≡ some (img', d', s'))
        × Good s'
        × ((id : ℕ) → Has img id → Has img' id)
        × (img'.field_addr_index ≡ img.field_addr_index)
  unfolding update_outputs at
  update_outputs-returns al img d s g =
      let (s₁, e₁, g₁) = write_slave-returns img.slave_out s g in
      let (fo, d', s₂, e₂, g₂, h) = write_field-returns img.field_out d s₁ g₁ in
      let (s₃, e₃, g₃) = write_words-returns al.logic_errors 1 s₂ g₂ in
      let (s₄, e₄, g₄) = write_words-returns al.field_q_states (1 + length al.logic_errors) s₃ g₃ in
      let img' = record img { field_out = fo } in
      (
        img',
        d',
        s₄,
        rw (e₁, update_outputs) (rw e₂ (rw e₃ (rw e₄))),
        g₄,
        λ id. kept_by_shapes img img' (λ i p. p) h (λ i p. p) (λ i p. p) (place_of id),
        refl,
      )
