-- ===== src/Master/State.antt =====
-- The state of `ModbusMasterDrv` (HMI/src/MasterDriver/ModbusMasterDrv.h).
use Prim.Native.String.{String}
use turbine_governor.Base.{ℕ, Bool, List}
use turbine_governor.Types.{DrvState, QuState, IoAddr}

pub record FieldData (F : Type 0) : Type 0 where
  pub time_s : ℕ
  pub true_val : F
  pub forced_val : F
  pub q_state : QuState
  pub forced : Bool
  pub force_change_detection : Bool

pub record ModbusData (F : Type 0) : Type 0 where
  pub time_s : ℕ
  pub current_val : F
  pub current_int : ℕ
  pub q_state : QuState
  pub force_change_detection : Bool

-- A request to write a value, or to force one. Its two callbacks are told apart by the events.
pub record WriteReq (F : Type 0) : Type 0 where
  pub addr : IoAddr
  pub force : Bool
  pub forced_val : Bool
  pub write_val : F
  pub write_time_out : ℕ
  pub time_s : ℕ

-- The iterators are positions in the maps. The queue of pending writes is a list with its top first.
-- The times to the next cycles are cut off at 0, below which the program does not tell them apart.
pub record MasterDrv (F : Type 0) : Type 0 where
  pub little : Bool
  pub field_vars : List (IoAddr × FieldData F)
  pub modbus_vars : List (IoAddr × ModbusData F)
  pub field_it : ℕ
  pub modbus_it : ℕ
  pub pending_writes : List (WriteReq F)
  pub changed_vars : List IoAddr
  pub num_io_vars : ℕ
  pub num_ro_ints : ℕ
  pub has_ctx : Bool
  pub connected : Bool
  pub com_errors : ℕ
  pub state : DrvState
  pub last_error : String
  pub millis_to_write_cycle : ℕ
  pub millis_to_read_cycle : ℕ
  pub in_write_cycle : Bool
  pub in_read_cycle : Bool

-- What the driver does besides: the callbacks of a request, those of the driver, and its sleeps.
pub data Event : Type 0 where
  succeeded : IoAddr → Event
  timed_out : IoAddr → Event
  com_error : Event
  recovered : Event
  slept : ℕ → Event
