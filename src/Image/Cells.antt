-- ===== src/Image/Cells.antt =====
-- Which variables an image of IOImage.cpp has, and that stores keep them.
use turbine_governor.Base.{ℕ, zero, suc, ◌≡◌, refl, Option, none, some, List, [], ◌∷◌, get_or, set}
use turbine_governor.Types.IoVar.{IoVar, set_current_val, current_val}
use turbine_governor.Image.{Image, Place, place_of, cell, set_cell, at, value_at, store_at}

module _ {F : Type 0} where
  abbrev pub Some : Option (IoVar F) → Type 0
  Some none = ⊥
  Some (some v) = Unit

  abbrev pub Has : Image F → ℕ → Type 0
  Has img id = Some (at img id)

  -- A place that is filled stays filled when some place is filled.
  Some-set :
      (xs : List (Option (IoVar F))) (i j : ℕ) (v : IoVar F)
      → Some (get_or xs j none)
      → Some (get_or (set xs i (some v)) j none)
  Some-set [] i j v h = h
  Some-set (x ∷ xs) zero zero v h = tt
  Some-set (x ∷ xs) zero (suc j) v h = h
  Some-set (x ∷ xs) (suc i) zero v h = h
  Some-set (x ∷ xs) (suc i) (suc j) v h = Some-set xs i j v h

  pub Some-set_cell :
      (p q : Place) (v : IoVar F) (img : Image F)
      → Some (cell img q)
      → Some (cell (set_cell p v img) q)
  Some-set_cell (Place.in_field_in i) (Place.in_field_in j) v img h = Some-set img.field_in i j v h
  Some-set_cell (Place.in_field_in i) (Place.in_field_out j) v img h = h
  Some-set_cell (Place.in_field_in i) (Place.in_slave_in j) v img h = h
  Some-set_cell (Place.in_field_in i) (Place.in_slave_out j) v img h = h
  Some-set_cell (Place.in_field_out i) (Place.in_field_in j) v img h = h
  Some-set_cell (Place.in_field_out i) (Place.in_field_out j) v img h =
      Some-set img.field_out i j v h
  Some-set_cell (Place.in_field_out i) (Place.in_slave_in j) v img h = h
  Some-set_cell (Place.in_field_out i) (Place.in_slave_out j) v img h = h
  Some-set_cell (Place.in_slave_in i) (Place.in_field_in j) v img h = h
  Some-set_cell (Place.in_slave_in i) (Place.in_field_out j) v img h = h
  Some-set_cell (Place.in_slave_in i) (Place.in_slave_in j) v img h = Some-set img.slave_in i j v h
  Some-set_cell (Place.in_slave_in i) (Place.in_slave_out j) v img h = h
  Some-set_cell (Place.in_slave_out i) (Place.in_field_in j) v img h = h
  Some-set_cell (Place.in_slave_out i) (Place.in_field_out j) v img h = h
  Some-set_cell (Place.in_slave_out i) (Place.in_slave_in j) v img h = h
  Some-set_cell (Place.in_slave_out i) (Place.in_slave_out j) v img h =
      Some-set img.slave_out i j v h

  some_of : (o : Option (IoVar F)) → Some o → (v : IoVar F) × (o ≡ some v)
  some_of none h = absurd h
  some_of (some v) h = (v, refl)

  pub value_at-Has : (img : Image F) (id : ℕ) → Has img id → (x : F) × (value_at img id ≡ some x)
  unfolding value_at
  value_at-Has img id h = let (v, e) = some_of (at img id) h in (current_val v, rw (e, value_at))

  -- A store to a variable that is there succeeds, and the image keeps every variable.
  pub store_at-Has :
      (img : Image F) (id : ℕ) (x : F)
      → Has img id
      → (img' : Image F) × (store_at id x img ≡ some img')
        × ((k : ℕ) → Has img k → Has img' k)
        × (img'.field_addr_index ≡ img.field_addr_index)
  unfolding store_at at
  store_at-Has img id x h =
      let (v, e) = some_of (at img id) h in
      (
        set_cell (place_of id) (set_current_val x v) img,
        rw (e, store_at),
        λ k there. Some-set_cell (place_of id) (place_of k) (set_current_val x v) img there,
        index_kept (place_of id) (set_current_val x v),
      )
    where
      index_kept :
          (p : Place) (v : IoVar F) → (set_cell p v img).field_addr_index ≡ img.field_addr_index
      index_kept (Place.in_field_in i) v = refl
      index_kept (Place.in_field_out i) v = refl
      index_kept (Place.in_slave_in i) v = refl
      index_kept (Place.in_slave_out i) v = refl
