-- ===== src/Image/Start.antt =====
-- `init` of Regulator/src/IOImage.cpp creates every variable that the control uses.
use turbine_governor.Base.{
  ℕ, ◌<◌, ◌≡◌, refl, ◌∙◌, inl, inr, Bool, true, false, ◌||◌, ◌&&◌, Option, none, some, List, [],
  ◌∷◌, length, get_or, set, length-set, get_or-set_self, ltb, ltb→lt, ◌==◌, ==_iff, Bool-cases,
  arith,
}
use turbine_governor.Types.Float.{FloatOps}
use turbine_governor.Types.IoVar.{IoVar}
use turbine_governor.Image.{Image, SlaveOps, Place, place_of, cell, set_cell, at}
use turbine_governor.Image.Cells.{Some, Has, Some-set_cell}
use turbine_governor.Image.Exchange.{created, empty_image, made, create_all, init}
use turbine_governor.Image.Keeps.{SlaveLaws}
use turbine_governor.Control.Runs.{Ready}

-- The sizes of the arrays.
pub record Room {F : Type 0} (img : Image F) : Type 0 where
  pub field_in_len : length img.field_in ≡ 35
  pub field_out_len : length img.field_out ≡ 26
  pub slave_in_len : length img.slave_in ≡ 66
  pub slave_out_len : length img.slave_out ≡ 4

-- Whether a place is inside its array.
abbrev fits : Place → Bool
fits (Place.in_field_in i) = ltb i 35
fits (Place.in_field_out i) = ltb i 26
fits (Place.in_slave_in i) = ltb i 66
fits (Place.in_slave_out i) = ltb i 4

abbrev all_fit : List (ℕ × ℕ × ℕ) → Bool
all_fit [] = true
all_fit ((id, channel, value) ∷ es) = fits (place_of id) && all_fit es

abbrev is_created : ℕ → List (ℕ × ℕ × ℕ) → Bool
is_created id [] = false
is_created id ((k, channel, value) ∷ es) = k == id || is_created id es

module _ {F : Type 0} where
  Some-here :
      (xs : List (Option (IoVar F))) (i : ℕ) (v : IoVar F)
      → i < length xs
      → Some (get_or (set xs i (some v)) i none)
  Some-here xs i v h = rw (get_or-set_self xs i (some v) none h) tt

  here :
      (p : Place) (v : IoVar F) (img : Image F)
      → Room img
      → fits p ≡ true
      → Some (cell (set_cell p v img) p)
  here (Place.in_field_in i) v img r h =
      Some-here img.field_in i v (rw r.field_in_len (ltb→lt i 35 h))
  here (Place.in_field_out i) v img r h =
      Some-here img.field_out i v (rw r.field_out_len (ltb→lt i 26 h))
  here (Place.in_slave_in i) v img r h =
      Some-here img.slave_in i v (rw r.slave_in_len (ltb→lt i 66 h))
  here (Place.in_slave_out i) v img r h =
      Some-here img.slave_out i v (rw r.slave_out_len (ltb→lt i 4 h))

  set_cell-Room : (p : Place) (v : IoVar F) (img : Image F) → Room img → Room (set_cell p v img)
  set_cell-Room (Place.in_field_in i) v img r = record {
    field_in_len = length-set img.field_in i (some v) ∙ r.field_in_len;
    field_out_len = r.field_out_len;
    slave_in_len = r.slave_in_len;
    slave_out_len = r.slave_out_len;
  }
  set_cell-Room (Place.in_field_out i) v img r = record {
    field_in_len = r.field_in_len;
    field_out_len = length-set img.field_out i (some v) ∙ r.field_out_len;
    slave_in_len = r.slave_in_len;
    slave_out_len = r.slave_out_len;
  }
  set_cell-Room (Place.in_slave_in i) v img r = record {
    field_in_len = r.field_in_len;
    field_out_len = r.field_out_len;
    slave_in_len = length-set img.slave_in i (some v) ∙ r.slave_in_len;
    slave_out_len = r.slave_out_len;
  }
  set_cell-Room (Place.in_slave_out i) v img r = record {
    field_in_len = r.field_in_len;
    field_out_len = r.field_out_len;
    slave_in_len = r.slave_in_len;
    slave_out_len = length-set img.slave_out i (some v) ∙ r.slave_out_len;
  }

  index_kept :
      (p : Place) (v : IoVar F) (img : Image F)
      → (set_cell p v img).field_addr_index ≡ img.field_addr_index
  index_kept (Place.in_field_in i) v img = refl
  index_kept (Place.in_field_out i) v img = refl
  index_kept (Place.in_slave_in i) v img = refl
  index_kept (Place.in_slave_out i) v img = refl

  empty-Room : Room (empty_image {F = F})
  empty-Room = record {
    field_in_len = refl;
    field_out_len = refl;
    slave_in_len = refl;
    slave_out_len = refl;
  }

module _ {S F : Type 0} (fl : FloatOps F) (slave : SlaveOps S F) (Good : S → Type 0)
    (laws : SlaveLaws slave Good) where
  create_all-returns :
      (junk : ℕ → IoVar F) (es : List (ℕ × ℕ × ℕ)) (img : Image F) (s : S)
      → Good s
      → Room img
      → all_fit es ≡ true
      → (img' : Image F) × (s' : S) × (create_all fl slave junk es img s ≡ some (img', s'))
        × Good s'
        × ((id : ℕ) → Has img id → Has img' id)
        × ((id : ℕ) → is_created id es ≡ true → Has img' id)
        × (img'.field_addr_index ≡ img.field_addr_index)
  unfolding create_all at
  create_all-returns junk [] img s g r h = (img, s, refl, g, λ id p. p, λ id c. absurd (cc), refl)
  create_all-returns junk ((id, channel, value) ∷ es) img s g r h =
      let v = made fl slave junk id channel value in
      let next = set_cell (place_of id) v img in
      let (b, s₁, e₁, g₁) = laws.write_returns v s g in
      let first : fits (place_of id) ≡ true = ground arith in
      let others : all_fit es ≡ true = ground arith in
      let (img', s', e', g', keeps, makes, index) =
        create_all-returns junk es next s₁ g₁ (set_cell-Room (place_of id) v img r) others in
      (
        img',
        s',
        rw (e₁, create_all) e',
        g',
        λ k p. keeps k (Some-set_cell (place_of id) (place_of k) v img p),
        λ k c. elim (Bool-cases (id == k)) [
          | inl same ↦ keeps k (rw⁻¹ ((==_iff id k).0 same) (here (place_of id) v img r first))
          | inr other ↦ makes k (rw other at c)
        ],
        index ∙ index_kept (place_of id) v img,
      )

  -- Over a slave driver that keeps its promises, `init` returns an image that has every variable of
  -- the control; the index from field addresses to variables is empty.
  pub init-Ready :
      (junk : ℕ → IoVar F) (s : S)
      → Good s
      → (img : Image F) × (s' : S) × (init fl slave junk s ≡ some (img, s'))
        × Good s'
        × Ready img
        × (img.field_addr_index ≡ [])
  unfolding init place_of
  init-Ready junk s g =
      let (img, s', e, g', _, makes, index) =
        create_all-returns junk created empty_image s g empty-Room refl in
      (img, s', e, g', λ id u. makes id (ground arith), index)
