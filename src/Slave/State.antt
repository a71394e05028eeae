-- ===== src/Slave/State.antt =====
-- The state of `ModbusSlaveDrv` (Regulator/src/SlaveDriver/ModbusSlaveDrv.h).
use Prim.Native.String.{String}
use turbine_governor.Base.{ℕ, ◌+◌, ◌*◌, ◌%◌, ◌<◌, ◌≡◌, Bool, Option, List, length}
use turbine_governor.Types.{DrvState, IoAddr}

-- `modbus_mapping_t`. The input registers are kept as the bytes of their memory, through which the
-- program writes them.
pub record Mapping : Type 0 where
  pub bits : List ℕ
  pub input_bits : List ℕ
  pub registers : List ℕ
  pub input_bytes : List ℕ

-- A socket that is not open is `none`, for -1.
pub record SlaveDrv : Type 0 where
  pub little : Bool
  pub field_vars : List (ℕ × IoAddr)
  pub server_ip : String
  pub port : ℕ
  pub num_io_vars : ℕ
  pub num_ro_ints : ℕ
  pub has_ctx : Bool
  pub mapping : Option Mapping
  pub server_sock : Option ℕ
  pub refset : List ℕ
  pub fdmax : ℕ
  pub num_connections : ℕ
  pub com_errors : ℕ
  pub drv_end : Bool
  pub state : DrvState
  pub last_error : String

-- A product of 32 bits.
abbrev pub word32 : ℕ → ℕ
word32 x = x % 4294967296

-- The sizes that `init` asks of `modbus_mapping_new_start_address`: products of 32 bits, that wrap.
pub record Fits (io ro : ℕ) (m : Mapping) : Type 0 where
  pub bits_len : length m.bits ≡ word32 io
  pub input_bits_len : length m.input_bits ≡ word32 (io * 2)
  pub registers_len : length m.registers ≡ word32 (io * 4)
  pub input_bytes_len : length m.input_bytes ≡ 2 * word32 (io * 4 + ro * 2)

-- The numbers of a configuration for which no product wraps.
abbrev pub Small : ℕ → ℕ → Type 0
Small io ro = io * 4 + ro * 2 < 4294967296
