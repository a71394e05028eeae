-- ===== src/Widgets/Position.antt =====
-- HMI/src/PositionCtrlWdg.cpp, and the positions of HMI/src/TurbineViewWdg.cpp: the ids that each one
-- reads and writes, its mode, and the values that its buttons write.
use turbine_governor.Base.{ℕ, zero, suc, ◌+◌, Bool, false, List, [], ◌∷◌, ◌==◌, if◌then◌else◌}
use turbine_governor.Base.Int.{pos, negsuc}
use turbine_governor.Types.{TurbType}
use turbine_governor.Types.Float.{FloatOps}

abbrev pub y_reg_auto : ℕ
y_reg_auto = 1000000010

-- The enabled buttons go with `is_manual`.
pub record PositionCtrl (F : Type 0) : Type 0 where
  pub read_id : ℕ
  pub write_id : ℕ
  pub is_manual : Bool
  pub min_limit : F
  pub max_limit : F
  pub last_speed_val : F

pub data Command : Type 0 where
  more much_more less much_less stop : Command

module _ {F : Type 0} (fl : FloatOps F) where
  -- The last value starts with what the memory holds.
  abbrev pub construct : F → ℕ → ℕ → PositionCtrl F
  construct junk read_id write_id = record {
    read_id = read_id;
    write_id = write_id;
    is_manual = false;
    min_limit = fl.of_int (negsuc 9);
    max_limit = fl.of_int (pos 10);
    last_speed_val = junk;
  }

  -- `varChanged`, without its texts.
  unfoldable pub var_changed : ℕ → F → PositionCtrl F → PositionCtrl F
  var_changed id x p =
      if id == p.read_id
      then p
      else if id == p.write_id
      then record p { last_speed_val = x }
      else if id == y_reg_auto
      then record p { is_manual = fl.eq x (fl.of_int (pos 0)) }
      else p

  abbrev pub at_most : F → F → F
  at_most limit x = if fl.lt limit x then limit else x

  abbrev pub at_least : F → F → F
  at_least limit x = if fl.lt x limit then limit else x

  -- The value that a button writes to the variable `write_id`.
  unfoldable pub clicked : Command → PositionCtrl F → F
  clicked Command.more p = at_most p.max_limit (fl.add p.last_speed_val (fl.of_int (pos 1)))
  clicked Command.much_more p = at_most p.max_limit (fl.add p.last_speed_val (fl.of_int (pos 5)))
  clicked Command.less p = at_least p.min_limit (fl.sub p.last_speed_val (fl.of_int (pos 1)))
  clicked Command.much_less p = at_least p.min_limit (fl.sub p.last_speed_val (fl.of_int (pos 5)))
  clicked Command.stop p = fl.of_int (pos 0)

-- The loop over the injectors of a Pelton turbine: `n` of them from `i` on.
abbrev pub injectors : ℕ → ℕ → ℕ → ℕ → List (ℕ × ℕ)
injectors zero i read_id write_id = []
injectors (suc n) i read_id write_id =
    (read_id + i, write_id + i) ∷ injectors n (i + 1) read_id write_id

-- `createPositionWdgs`: the ids that each position reads and writes.
abbrev pub create_position_wdgs : TurbType → ℕ → List (ℕ × ℕ)
create_position_wdgs TurbType.francis n = (29, 2000000060) ∷ []
create_position_wdgs TurbType.kaplan n = (29, 2000000060) ∷ (30, 2000000061) ∷ []
create_position_wdgs TurbType.pelton n = injectors n 0 29 2000000060
