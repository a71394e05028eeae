-- ===== src/Slave/Lifecycle.antt =====
-- The public operations of ModbusSlaveDrv.cpp that start and end its work: the constructor, `init`,
-- `start`, `stop`, `close`, and what they call.
use Prim.Native.String.{String}
use turbine_governor.Base.{
  ℕ, ◌+◌, ◌*◌, Bool, true, false, ◌&&◌, Option, none, some, List, [], ◌∷◌, ltb, ◌==◌, if◌then◌else◌,
  ◌>>=◌,
}
use turbine_governor.Types.{DrvState, IoAddr}
use turbine_governor.Slave.State.{Mapping, SlaveDrv, word32}
use turbine_governor.Slave.Access.{is_uninit, set_forced, coiloffset, dioffset, hroffset, iroffset}
use turbine_governor.Slave.Config.{Document, load_xml_config}
use turbine_governor.Slave.Server.{close_sockets}

-- The fields that the constructor does not set start with what the memory holds.
unfoldable pub construct_drv : SlaveDrv → Bool → SlaveDrv
construct_drv junk little = record junk {
  little = little;
  field_vars = [];
  has_ctx = false;
  mapping = none;
  server_sock = none;
  drv_end = false;
  state = DrvState.un_init;
}

unfoldable pub erase_drv_config : SlaveDrv → SlaveDrv
erase_drv_config s = record s {
  has_ctx = false;
  mapping = none;
  field_vars = [];
  num_io_vars = 0;
  num_ro_ints = 0;
  com_errors = 0;
}

-- The new state, and the sockets that are closed.
unfoldable pub close : SlaveDrv → SlaveDrv × List ℕ
unfolding close_sockets erase_drv_config
close s =
    if is_uninit s.state
    then (s, [])
    else let (t, closed) = close_sockets (record s { state = DrvState.un_init }) in
      (erase_drv_config t, closed)

-- `start`, by the state that the driver is in.
abbrev pub start_in : DrvState → SlaveDrv → Bool × SlaveDrv
start_in DrvState.un_init s = (false, s)
start_in DrvState.stopped s = (true, record s { state = DrvState.running })
start_in DrvState.running s = (true, s)
start_in DrvState.com_error s = (true, s)
start_in DrvState.var_error s = (true, s)

unfoldable pub start : SlaveDrv → Bool × SlaveDrv
start s = start_in s.state s

unfoldable pub stop : SlaveDrv → Bool × SlaveDrv × List ℕ
unfolding close_sockets
stop s =
    if is_uninit s.state
    then (false, s, [])
    else let (t, closed) = close_sockets s in
      (true, record t { state = DrvState.stopped; com_errors = 0 }, closed)

-- `initMapping` clears the forcing coil of every field variable, by the variable's channel.
unfoldable pub init_mapping : List (ℕ × IoAddr) → Mapping → Option Mapping
init_mapping [] m = some m
init_mapping ((id, a) ∷ vars) m = set_forced a.channel false m >>= λ m'. init_mapping vars m'

-- What libmodbus answers in `init`: whether there is a context, and the tables for so many coils, input
-- bits, holding registers and input registers.
pub record Modbus : Type 0 where
  pub new_tcp : Bool
  pub mapping_new : ℕ → ℕ → ℕ → ℕ → Option Mapping
  pub error_text : String

-- `MODBUS_TCP_DEFAULT_PORT`
abbrev modbus_tcp_default_port : ℕ
modbus_tcp_default_port = 502

abbrev pub with_default_port : SlaveDrv → SlaveDrv
with_default_port s = record s {
  port = if s.port == 4294967295 then modbus_tcp_default_port else s.port;
}

-- The end of `init`, for the tables that libmodbus returns.
abbrev pub init_mapped : Option Mapping → String → SlaveDrv → Option (Bool × SlaveDrv)
init_mapped none error s =
    some (false, record s { last_error = error; field_vars = []; has_ctx = false; mapping = none })
init_mapped (some m) error s = init_mapping s.field_vars m >>= λ m'.
    some (
      true,
      record s { has_ctx = true; mapping = some m'; state = DrvState.stopped; com_errors = 0 },
    )

-- The call of `modbus_mapping_new_start_address`.
unfoldable pub new_mapping : Modbus → SlaveDrv → Option Mapping
new_mapping lib s =
    lib.mapping_new (word32 (s.num_io_vars * coiloffset)) (word32 (s.num_io_vars * dioffset))
      (word32 (s.num_io_vars * hroffset)) (word32 (s.num_io_vars * iroffset + s.num_ro_ints * 2))

-- `init` once the configuration is read.
unfoldable pub init_loaded : Modbus → SlaveDrv → Option (Bool × SlaveDrv)
unfolding new_mapping
init_loaded lib s =
    let ready = init_mapped (new_mapping lib s) lib.error_text s in
    if ltb s.num_io_vars 1 && ltb s.num_ro_ints 1
    then some
        (false, record s { last_error = "El driver necesita al menos una variable en su mapa" })
    else if lib.new_tcp
    then ready
    else some (false, record s { last_error = lib.error_text; field_vars = []; has_ctx = false })

-- `none` is a write past the end of a table.
unfoldable pub init : String → Document → Modbus → SlaveDrv → Option (Bool × SlaveDrv)
unfolding load_xml_config
init path file lib s =
    let (ok, t) = load_xml_config path file s in
    if is_uninit s.state
    then (if ok
        then init_loaded lib (with_default_port t)
        else some (false, record t { last_error = "Error en archivo de configuracion" }))
    else some (false, record s { last_error = "Driver ya inicializado" })
