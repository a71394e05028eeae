-- ===== src/Field/Init.antt =====
-- The configuration and `init` of EthercatDrv.cpp over libxml and SOEM. `none` is undefined behaviour.
use Prim.Native.String as Text
use Prim.Native.String.{String}
use turbine_governor.Base.{
  ℕ, zero, suc, ◌+◌, ◌-◌, Bool, true, false, not, ◌&&◌, ◌||◌, Option, none, some, List, [],
  replicate, ◌==◌, if◌then◌else◌, ◌>>=◌,
}
use turbine_governor.Base.Dict
use turbine_governor.Types.{DrvState, IoAddr, no_addr, same_addr}
use turbine_governor.Types.Float.{FloatOps}
use turbine_governor.Xml.{Node, Nodes, is_named, children_of, get_prop, parse_xml_addr}
use turbine_governor.Slave.Config.{Document}
use turbine_governor.Field.Bus.{EcSlave, ec_state_operational}
use turbine_governor.Field.Kinds.{Device, DigitalDev}
use turbine_governor.Field.Factory.{Made, get_new_xml_device}
use turbine_governor.Field.Drive.{EthercatDrv, is_un_init, erase_drv_config}

-- What SOEM answers during `init`: `checked i` is the state of slave 0, which stands for all, after the
-- i-th check of the wait.
pub record Soem : Type 0 where
  pub has_interface : Bool
  pub has_slaves : Bool
  pub slave_count : ℕ
  pub slaves : ℕ → EcSlave
  pub is_safe_op : Bool
  pub checked : ℕ → ℕ

-- `do { … } while (trys-- && state != EC_STATE_OPERATIONAL)`: the number of checks, or none where the
-- rounds of the model do not suffice.
unfoldable pub wait_operational : (ℕ → ℕ) → ℕ → ℕ → ℕ → Option ℕ
wait_operational checked zero trys i = none
wait_operational checked (suc k) trys i =
    let rest = wait_operational checked k (trys - 1) (i + 1) in
    if trys == 0 || checked i == ec_state_operational then some (i + 1) else rest

abbrev pub wait_trys : ℕ
wait_trys = 200

-- The locals of the loop over the data of a variable.
pub record VarScan (F : Type 0) : Type 0 where
  pub ok : Bool
  pub addr : IoAddr
  pub has_addr : Bool
  pub has_type : Bool
  pub dev : Made F

abbrev pub is_null : {F : Type 0} → Made F → Bool
is_null Made.null = true
is_null _ = false

module _ {F : Type 0} where
  abbrev pub failed_with : String → EthercatDrv F → Bool × EthercatDrv F
  failed_with text s = (false, erase_drv_config (record s { last_error = text }))

  -- The rest of `init`, from SOEM on.
  unfoldable pub init_bus : Soem → EthercatDrv F → Option (Bool × EthercatDrv F)
  unfolding wait_operational
  init_bus soem s =
      if not soem.has_interface
      then some (failed_with "Interfaz de red invalida" s)
      else if not soem.has_slaves
      then some (failed_with "No se pudieron configurar los esclavos, ec_config_init" s)
      else if not soem.is_safe_op
      then some (failed_with "Los esclavos no pudieron cambiar a modo seguro operacional." s)
      else (wait_operational soem.checked (suc wait_trys) wait_trys 0 >>= λ n.
          if not (soem.checked (n - 1) == ec_state_operational)
          then some (failed_with "Los esclavos no pudieron cambiar a modo operacional." s)
          else some (
            true,
            record s {
              modules = record s.modules {
                slave_count = soem.slave_count;
                slaves = soem.slaves;
                com_trys = replicate soem.slave_count 0;
              };
              state = DrvState.stopped;
            },
          ))

module _ {F : Type 0} (fl : FloatOps F) (text_of : Node → Option String) (junk : DigitalDev F) where
  unfoldable pub scan_var_data : Node → VarScan F → VarScan F
  unfolding parse_xml_addr get_new_xml_device
  scan_var_data n v =
      let (ok, a) = parse_xml_addr n v.addr in
      let dev = get_new_xml_device text_of fl junk n in
      if not v.has_addr && is_named "Addr" n
      then record v { ok = ok; addr = a; has_addr = true }
      else if not v.has_type && is_named "VarType" n
      then record v { ok = not (is_null dev); dev = dev; has_type = true }
      else v

  unfoldable pub read_var_data : Nodes → VarScan F → VarScan F
  unfolding scan_var_data
  read_var_data Nodes.nil v = v
  read_var_data (Nodes.cons n rest) v =
      let after = read_var_data rest (scan_var_data n v) in
      if not v.ok || v.has_addr && v.has_type then v else after

  abbrev pub new_var_scan : VarScan F
  new_var_scan = record {
    ok = true;
    addr = no_addr;
    has_addr = false;
    has_type = false;
    dev = Made.null;
  }

  -- The devices after a variable, and whether it is good.
  unfoldable pub insert_dev :
      VarScan F → List (IoAddr × Device F) → Option (Bool × List (IoAddr × Device F))
  unfolding Dict.insert_new
  insert_dev v ds =
      if v.ok && v.has_addr && v.has_type
      then elim v.dev [
        | Made.null ↦ some (false, ds)
        | Made.undefined ↦ none
        | Made.made d ↦ some (true, Dict.insert_new same_addr v.addr d ds)
      ]
      else some (false, ds)

  unfoldable pub read_xml_vars :
      Nodes → List (IoAddr × Device F) → Option (Bool × List (IoAddr × Device F))
  unfolding read_var_data insert_dev
  read_xml_vars Nodes.nil ds = some (true, ds)
  read_xml_vars (Nodes.cons n rest) ds =
      if is_named "Var" n
      then (insert_dev (read_var_data (children_of n) new_var_scan) ds >>= λ (ok, es).
          if ok then read_xml_vars rest es else some (false, []))
      else read_xml_vars rest ds

  -- The loop of `readXMLConfig`, with whether a SlaveConfig and the Vars have been read.
  unfoldable pub read_children :
      Nodes → Bool → Bool → List (IoAddr × Device F) → Option (Bool × List (IoAddr × Device F))
  unfolding read_xml_vars
  read_children Nodes.nil has_cnf has_vars ds = some (true, ds)
  read_children (Nodes.cons n rest) has_cnf has_vars ds =
      if has_cnf && has_vars
      then some (true, ds)
      else if not has_cnf && is_named "SlaveConfig" n
      then read_children rest true has_vars ds
      else if not has_vars && is_named "Vars" n
      then (read_xml_vars (children_of n) ds >>= λ (ok, es).
          if ok then read_children rest has_cnf true es else some (false, es))
      else read_children rest has_cnf has_vars ds

  -- A root without the name of the interface makes a string of a null pointer.
  unfoldable pub read_xml_config : Option Node → EthercatDrv F → Option (Bool × EthercatDrv F)
  unfolding read_children
  read_xml_config none s = some (false, s)
  read_xml_config (some root) s =
      if not (is_named "FieldDriver" root)
      then some (false, s)
      else (get_prop "ifname" root >>= λ name.
          read_children (children_of root) false false s.devices >>= λ (ok, ds).
          some (ok, record s { if_name = name; devices = ds }))

  unfoldable pub load_xml_config : String → Document → EthercatDrv F → Option (Bool × EthercatDrv F)
  unfolding read_xml_config
  load_xml_config path Document.no_parser s =
      some (false, record s { last_error = "No se pudo crear el parser xml." })
  load_xml_config path Document.unreadable s = some (
    false,
    record s { last_error = Text.◌++◌ "Fallo al parsear el archivo " (Text.◌++◌ path ".") },
  )
  load_xml_config path Document.invalid s = some (
    false,
    record s { last_error = Text.◌++◌ "Archivo " (Text.◌++◌ path " con formato invalido.") },
  )
  load_xml_config path (Document.tree root) s = read_xml_config root s

  unfoldable pub init : String → Document → Soem → EthercatDrv F → Option (Bool × EthercatDrv F)
  unfolding load_xml_config init_bus
  init path doc soem s =
      if not (is_un_init s.state)
      then some (false, record s { last_error = "Driver ya inicializado" })
      else (load_xml_config path doc s >>= λ (ok, t).
          if ok
          then init_bus soem t
          else some (false, record t { last_error = "Error en archivo de configuracion" }))
