-- ===== src/Image.antt =====
-- Regulator/src/IOImage.cpp: the image of the inputs and outputs, which the control works on, and
-- its exchange with the two drivers.
pub mod Cells
pub mod Exchange
pub mod Keeps
pub mod Start
use turbine_governor.Base.{
  ℕ, ◌+◌, ◌-◌, Bool, Option, none, some, List, [], ◌∷◌, get_or, set, length, ltb, leb, ◌&&◌,
  if◌then◌else◌, ◌>>=◌,
}
use turbine_governor.Types.{DrvState, QuState, IoAddr}
use turbine_governor.Types.IoVar.{IoVar, set_current_val, current_val}

-- The two drivers as the image sees them: the abstract classes IOSlaveDrv and IOFieldDrv. `none` is
-- undefined behaviour inside a call.
pub record SlaveOps (S F : Type 0) : Type 0 where
  pub read : IoVar F → S → Option (Bool × IoVar F)
  pub write : IoVar F → S → Option (Bool × S)
  pub update_field_var : IoVar F → S → Option (Bool × IoVar F × S)
  pub write_ro : ℕ → IoAddr → S → Option (Bool × S)

pub record FieldOps (D F : Type 0) : Type 0 where
  pub read : IoVar F → D → IoVar F
  pub write : IoVar F → D → D
  pub update_q_state : IoVar F → D → IoVar F
  pub var_errors : D → List (IoAddr × QuState)

-- includes/RegIDS.h and includes/IDVarList.h
abbrev pub slv_in_vars : ℕ
slv_in_vars = 66

abbrev pub slv_out_vars : ℕ
slv_out_vars = 4

abbrev pub slv_in_low_range : ℕ
slv_in_low_range = 2000000000

abbrev pub slv_out_low_range : ℕ
slv_out_low_range = 3000000000

abbrev pub fld_out_low_range : ℕ
fld_out_low_range = 1000000000

-- The arrays of pointers, `none` for `nullptr`; and the index from addresses to identifiers.
pub record Image (F : Type 0) : Type 0 where
  pub field_in : List (Option (IoVar F))
  pub field_out : List (Option (IoVar F))
  pub slave_in : List (Option (IoVar F))
  pub slave_out : List (Option (IoVar F))
  pub field_addr_index : List (IoAddr × ℕ)

-- The array that an identifier belongs to, and the place in it.
pub data Place : Type 0 where
  in_field_in in_field_out in_slave_in in_slave_out : ℕ → Place

unfoldable pub place_of : ℕ → Place
place_of id =
    if ltb id fld_out_low_range
    then Place.in_field_in id
    else if ltb id slv_in_low_range
    then Place.in_field_out (id - fld_out_low_range)
    else if ltb id slv_out_low_range
    then Place.in_slave_in (id - slv_in_low_range)
    else Place.in_slave_out (id - slv_out_low_range)

module _ {F : Type 0} where
  -- `none` is the use of a null pointer, or a place past the end.
  abbrev pub cell : Image F → Place → Option (IoVar F)
  cell img (Place.in_field_in i) = get_or img.field_in i none
  cell img (Place.in_field_out i) = get_or img.field_out i none
  cell img (Place.in_slave_in i) = get_or img.slave_in i none
  cell img (Place.in_slave_out i) = get_or img.slave_out i none

  abbrev pub set_cell : Place → IoVar F → Image F → Image F
  set_cell (Place.in_field_in i) v img = record img { field_in = set img.field_in i (some v) }
  set_cell (Place.in_field_out i) v img = record img { field_out = set img.field_out i (some v) }
  set_cell (Place.in_slave_in i) v img = record img { slave_in = set img.slave_in i (some v) }
  set_cell (Place.in_slave_out i) v img = record img { slave_out = set img.slave_out i (some v) }

  unfoldable pub at : Image F → ℕ → Option (IoVar F)
  at img id = cell img (place_of id)

  -- `io[id].getCurrentVal()` and `io[id].setCurrentVal(x)`
  unfoldable pub value_at : Image F → ℕ → Option F
  value_at img id = at img id >>= λ v. some (current_val v)

  unfoldable pub store_at : ℕ → F → Image F → Option (Image F)
  store_at id x img = at img id >>= λ v. some (set_cell (place_of id) (set_current_val x v) img)
