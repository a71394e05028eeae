-- ===== src/Master/Access.antt =====
-- What the HMI reads from the master driver: `VarImage` of HMI/src/CommonHMITypes.h, `read` and
-- `getChangedVars` of ModbusMasterDrv.cpp.
use Prim.Native.String.{String}
use turbine_governor.Base.{ℕ, Bool, Option, none, some, List, [], if◌then◌else◌}
use turbine_governor.Base.Dict
use turbine_governor.Base.Int.{pos}
use turbine_governor.Types.{DrvState, QuState, IoAddr, same_addr}
use turbine_governor.Types.Float.{FloatOps}
use turbine_governor.Master.State.{MasterDrv, FieldData, ModbusData}

pub record VarImage (F : Type 0) : Type 0 where
  pub var_id : ℕ
  pub time_s : ℕ
  pub true_val : F
  pub forced_val : F
  pub egu_min : F
  pub egu_max : F
  pub q_state : QuState
  pub forced : Bool
  pub units : String

abbrev pub state_of : DrvState → QuState → QuState
state_of DrvState.com_error q = QuState.com_error
state_of _ q = q

module _ {F : Type 0} where
  abbrev pub current_val : VarImage F → F
  current_val v = if v.forced then v.forced_val else v.true_val

  -- `getCurrentValLin`, in percent of the range.
  unfoldable pub current_val_lin : FloatOps F → VarImage F → F
  current_val_lin o v =
      o.div (o.mul (o.sub (current_val v) v.egu_min) (o.of_int (pos 100)))
        (o.sub v.egu_max v.egu_min)

  unfoldable pub read_modbus_var : DrvState → ModbusData F → VarImage F → VarImage F
  read_modbus_var st x v = record v {
    true_val = x.current_val;
    time_s = x.time_s;
    q_state = state_of st x.q_state;
  }

  unfoldable pub read_field_var : DrvState → FieldData F → VarImage F → VarImage F
  read_field_var st x v = record v {
    true_val = x.true_val;
    forced_val = x.forced_val;
    forced = x.forced;
    time_s = x.time_s;
    q_state = state_of st x.q_state;
  }

  -- `read(VarImage &, IOAddr)`: none is the result `false`, which leaves the image as it was.
  unfoldable pub read_var : IoAddr → MasterDrv F → VarImage F → Option (VarImage F)
  unfolding Dict.lookup read_modbus_var read_field_var
  read_var a s v = elim (Dict.lookup same_addr a s.modbus_vars) [
    | some x ↦ some (read_modbus_var s.state x v)
    | none ↦ elim (Dict.lookup same_addr a s.field_vars) [
      | some x ↦ some (read_field_var s.state x v)
      | none ↦ none
    ]
  ]

  -- `read(std::uint32_t &, IOAddr)`
  unfoldable pub read_int : IoAddr → MasterDrv F → Option ℕ
  unfolding Dict.lookup
  read_int a s = elim (Dict.lookup same_addr a s.modbus_vars) [
    | some x ↦ some x.current_int
    | none ↦ none
  ]

  -- The set is moved out, which leaves an empty one.
  unfoldable pub get_changed_vars : MasterDrv F → List IoAddr × MasterDrv F
  get_changed_vars s = (s.changed_vars, record s { changed_vars = [] })
