-- ===== src/Slave/Config.antt =====
-- The configuration of the slave driver: `loadXMLConfig`, `readXMLConfig` and `readXMLVars` of
-- ModbusSlaveDrv.cpp. They fill the driver's fields as they read, so a failure leaves the fields
-- that were read before it.
use Prim.Native.String as Text
use Prim.Native.String.{String}
use turbine_governor.Base.{
  ℕ, Bool, true, false, not, Option, none, some, List, [], ◌==◌, if◌then◌else◌,
}
use turbine_governor.Base.Dict
use turbine_governor.Types.{IoAddr, no_addr}
use turbine_governor.Xml.{Node, Nodes, is_named, children_of, get_prop, atoi, parse_xml_addr}
use turbine_governor.Slave.State.{SlaveDrv}

-- What libxml makes of the file: no parser, no tree, a tree that the DTD rejects, or a tree with
-- its root.
pub data Document : Type 0 where
  no_parser unreadable invalid : Document
  tree : Option Node → Document

-- The loop over the children of a `FieldVar`: whether the reading went well, whether there was an
-- address, and the address, which starts with zeros.
unfoldable pub read_addrs : Nodes → Bool → IoAddr → Bool × Bool × IoAddr
unfolding parse_xml_addr
read_addrs Nodes.nil found a = (true, found, a)
read_addrs (Nodes.cons n rest) found a =
    let (ok, b) = parse_xml_addr n a in
    let after = read_addrs rest true b in
    let skipped = read_addrs rest found a in
    if is_named "Addr" n then (if ok then after else (false, true, b)) else skipped

-- What one child of `FieldVars` does to the table. `return false` leaves the table as it is, `bOk =
-- false` clears it at the end.
pub data VarRead : Type 0 where
  ended : VarRead
  failed : VarRead
  read_on : List (ℕ × IoAddr) → VarRead

unfoldable pub read_var : Node → List (ℕ × IoAddr) → VarRead
unfolding read_addrs atoi
read_var n m = if not (is_named "FieldVar" n) then VarRead.read_on m else elim (get_prop "ID" n) [
  | none ↦ VarRead.ended
  | some id ↦
      let (ok, found, a) = read_addrs (children_of n) false no_addr in
      if ok
      then (if found
          then VarRead.read_on (Dict.insert_new ◌==◌ (atoi 32 id) a m)
          else VarRead.failed)
      else VarRead.failed
]

unfoldable pub read_vars : Nodes → List (ℕ × IoAddr) → Bool × List (ℕ × IoAddr)
read_vars Nodes.nil m = (true, m)
read_vars (Nodes.cons n rest) m = elim (read_var n m) [
  | VarRead.ended ↦ (false, m)
  | VarRead.failed ↦ (false, [])
  | VarRead.read_on m' ↦ read_vars rest m'
]

-- The loop over the children of the root.
unfoldable pub read_sections : Nodes → List (ℕ × IoAddr) → Bool × List (ℕ × IoAddr)
read_sections Nodes.nil m = (true, m)
read_sections (Nodes.cons n rest) m =
    let (ok, m') = read_vars (children_of n) m in
    let after = read_sections rest m' in
    let skipped = read_sections rest m in
    if is_named "FieldVars" n then (if ok then after else (false, m')) else skipped

-- The attributes of the root in the order of the reads.
unfoldable pub read_attributes : Node → SlaveDrv → Bool × SlaveDrv
unfolding atoi
read_attributes root s = elim (get_prop "IP" root) [
  | none ↦ (false, s)
  | some ip ↦
      let s₁ = record s { server_ip = ip } in
      elim (get_prop "Port" root) [
        | none ↦ (false, s₁)
        | some port ↦
            let s₂ = record s₁ { port = atoi 32 port } in
            elim (get_prop "NumROInts" root) [
              | none ↦ (false, s₂)
              | some ro ↦
                  let s₃ = record s₂ { num_ro_ints = atoi 32 ro } in
                  elim (get_prop "NumIOVars" root) [
                    | none ↦ (false, s₃)
                    | some io ↦ (true, record s₃ { num_io_vars = atoi 32 io })
                  ]
            ]
      ]
]

unfoldable pub read_xml_config : Option Node → SlaveDrv → Bool × SlaveDrv
read_xml_config none s = (false, s)
read_xml_config (some root) s =
    let (named, t) = read_attributes root s in
    let (ok, m) = read_sections (children_of root) t.field_vars in
    if not (is_named "SlaveDriver" root)
    then (false, s)
    else if named
    then (ok, record t { field_vars = m })
    else (false, t)

unfoldable pub load_xml_config : String → Document → SlaveDrv → Bool × SlaveDrv
load_xml_config path Document.no_parser s =
    (false, record s { last_error = "No se pudo crear el parser xml." })
load_xml_config path Document.unreadable s =
    (false, record s { last_error = Text.◌++◌ "Fallo al parsear el archivo " (Text.◌++◌ path ".") })
load_xml_config path Document.invalid s = (
  false,
  record s { last_error = Text.◌++◌ "Archivo " (Text.◌++◌ path " con formato invalido.") },
)
load_xml_config path (Document.tree root) s = read_xml_config root s
