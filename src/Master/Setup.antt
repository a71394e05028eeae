-- ===== src/Master/Setup.antt =====
-- The configuration of the master driver: the constructor, `init`, `loadXMLConfig` and
-- `readXMLConfig` of ModbusMasterDrv.cpp. libmodbus gives a context or not.
use Prim.Native.String as Text
use Prim.Native.String.{String}
use turbine_governor.Base.{
  ℕ, ◌+◌, Bool, true, false, not, ◌||◌, Option, none, some, List, [], ◌∷◌, ltb, leb, ◌==◌, u32,
  if◌then◌else◌,
}
use turbine_governor.Base.Dict
use turbine_governor.Types.{DrvState, QuState, IoAddr, same_addr}
use turbine_governor.Xml.{Node, is_named, get_prop, atoi}
use turbine_governor.Slave.Config.{Document}
use turbine_governor.Master.State.{MasterDrv, FieldData, ModbusData}

-- The fields of the driver that only its configuration and libmodbus use.
pub record MasterConfig : Type 0 where
  pub server_ip : String
  pub port : ℕ

-- The two loops over the addresses to update.
unfoldable pub add_vars {ℓ} :
    {V : Type ℓ} → (IoAddr → Bool) → V → List IoAddr → List (IoAddr × V) → List (IoAddr × V)
unfolding Dict.insert_new
add_vars keep v [] m = m
add_vars keep v (a ∷ as_) m =
    add_vars keep v as_ (if keep a then Dict.insert_new same_addr a v m else m)

abbrev pub with_default_port : MasterConfig → MasterConfig
with_default_port c = if c.port == 4294967295 then record c { port = 502 } else c

abbrev pub is_un_init : DrvState → Bool
is_un_init DrvState.un_init = true
is_un_init _ = false

module _ {F : Type 0} where
  -- The fields that the constructor does not set start with what the memory holds.
  unfoldable pub construct_drv : MasterDrv F → Bool → MasterDrv F
  construct_drv junk little = record junk {
    little = little;
    field_vars = [];
    modbus_vars = [];
    pending_writes = [];
    changed_vars = [];
    has_ctx = false;
    connected = false;
    state = DrvState.un_init;
    last_error = "";
    in_write_cycle = false;
    in_read_cycle = false;
  }

  -- The attributes of the root in the order of the reads; those before a missing one are stored.
  unfoldable pub read_xml_config :
      Option Node → MasterConfig → MasterDrv F → Bool × MasterConfig × MasterDrv F
  unfolding atoi
  read_xml_config none c s = (false, c, s)
  read_xml_config (some root) c s =
      if not (is_named "MasterDriver" root) then (false, c, s) else elim (get_prop "IP" root) [
        | none ↦ (false, c, s)
        | some ip ↦ elim (get_prop "Port" root) [
          | none ↦ (false, record c { server_ip = ip }, s)
          | some port ↦
              let c' : MasterConfig = record { server_ip = ip; port = atoi 32 port } in
              elim (get_prop "NumROInts" root) [
                | none ↦ (false, c', s)
                | some ro ↦ elim (get_prop "NumIOVars" root) [
                  | none ↦ (false, c', record s { num_ro_ints = atoi 32 ro })
                  | some io ↦
                      (true, c', record s { num_ro_ints = atoi 32 ro; num_io_vars = atoi 32 io })
                ]
              ]
        ]
      ]

  unfoldable pub load_xml_config :
      String → Document → MasterConfig → MasterDrv F → Bool × MasterConfig × MasterDrv F
  unfolding read_xml_config
  load_xml_config path Document.no_parser c s =
      (false, c, record s { last_error = "No se pudo crear el parser xml." })
  load_xml_config path Document.unreadable c s = (
    false,
    c,
    record s { last_error = Text.◌++◌ "Fallo al parsear el archivo " (Text.◌++◌ path ".") },
  )
  load_xml_config path Document.invalid c s = (
    false,
    c,
    record s { last_error = Text.◌++◌ "Archivo " (Text.◌++◌ path " con formato invalido.") },
  )
  load_xml_config path (Document.tree root) c s = read_xml_config root c s

  -- `new ModbusData()` and `new FieldData()`, whose fields start at zero.
  abbrev pub new_modbus_data : F → ModbusData F
  new_modbus_data zero_val = record {
    time_s = 0;
    current_val = zero_val;
    current_int = 0;
    q_state = QuState.ok;
    force_change_detection = true;
  }

  abbrev pub new_field_data : F → FieldData F
  new_field_data zero_val = record {
    time_s = 0;
    true_val = zero_val;
    forced_val = zero_val;
    q_state = QuState.ok;
    forced = false;
    force_change_detection = true;
  }

  abbrev pub num_channels : MasterDrv F → ℕ
  num_channels s = u32 (s.num_io_vars + s.num_ro_ints)

  abbrev pub is_slave_channel : MasterDrv F → IoAddr → Bool
  is_slave_channel s a = not (ltb a.channel 1 || ltb (num_channels s) a.channel)

  abbrev pub is_field_channel : MasterDrv F → IoAddr → Bool
  is_field_channel s a = not (leb a.channel s.num_ro_ints || ltb (num_channels s) a.channel)

  -- The rest of `init`, from the configuration on.
  unfoldable pub init_loaded :
      F → List IoAddr → List IoAddr → Bool → String → MasterDrv F → Bool × MasterDrv F
  unfolding add_vars
  init_loaded zero_val slave_vars fld_vars has_context error_text s =
      if ltb (num_channels s) 1
      then (false, record s { last_error = "El driver necesita al menos una variable en su mapa" })
      else if not has_context
      then (
        false,
        record s { has_ctx = false; field_vars = []; modbus_vars = []; last_error = error_text },
      )
      else (
        true,
        record s {
          modbus_vars =
              add_vars (is_slave_channel s) (new_modbus_data zero_val) slave_vars s.modbus_vars;
          field_vars =
              add_vars (is_field_channel s) (new_field_data zero_val) fld_vars s.field_vars;
          has_ctx = true;
          state = DrvState.stopped;
          com_errors = 0;
          field_it = 0;
          modbus_it = 0;
        },
      )

  unfoldable pub init :
      String
      → Document
      → F
      → List IoAddr
      → List IoAddr
      → Bool
      → String
      → MasterConfig
      → MasterDrv F
      → Bool × MasterConfig × MasterDrv F
  unfolding load_xml_config init_loaded
  init path doc zero_val slave_vars fld_vars has_context error_text c s =
      if not (is_un_init s.state)
      then (false, c, record s { last_error = "Driver ya inicializado" })
      else (let (ok, c', t) = load_xml_config path doc c s in
          let (done, u) = init_loaded zero_val slave_vars fld_vars has_context error_text t in
          if ok then (done, with_default_port c', u) else (false, c', t))
