-- ===== src/RegImage/Info.antt =====
-- The file of variables of the HMI: `parseRegIOInfo` and `parseXmlVar` of RegImage.cpp, over the tokens
-- that QXmlStreamReader gives before the first Invalid one. `to_uint` is toUInt of Qt.
use Prim.Native.String.{String}
use turbine_governor.Base.{
  ℕ, zero, suc, ◌%◌, Bool, true, false, not, ◌&&◌, ◌||◌, Option, none, some, List, [], ◌∷◌, ◌++◌,
  length, ◌==◌, if◌then◌else◌,
}
use turbine_governor.Base.Dict
use turbine_governor.Types.{IoAddr, no_addr, same_addr}
use turbine_governor.Xml.{Node, Nodes, same_text, get_prop}
use turbine_governor.Master.Reading.{has_addr}
use turbine_governor.RegImage.Image.{RegVar, RegImage}

abbrev pub Attrs : Type 0
Attrs = List (String × String)

pub data Token : Type 0 where
  start_element : String → Attrs → Token
  end_element end_document other : Token

abbrev pub attr : String → Attrs → Option String
attr key attrs = get_prop key (Node.element "" attrs Nodes.nil)

-- `readNextStartElement` of Qt: the start of an element, before the end of the one around it.
unfoldable pub read_next_start_element : List Token → Option (String × List Token)
read_next_start_element [] = none
read_next_start_element (Token.start_element name attrs ∷ ts) = some (name, ts)
read_next_start_element (Token.end_element ∷ ts) = none
read_next_start_element (Token.end_document ∷ ts) = none
read_next_start_element (Token.other ∷ ts) = read_next_start_element ts

-- The locals of the loop of `parseXmlVar`.
pub record Scan : Type 0 where
  pub use_text : String
  pub use_read : Bool
  pub addr : IoAddr
  pub addr_read : Bool

abbrev pub new_scan : Scan
new_scan = record { use_text = ""; use_read = false; addr = no_addr; addr_read = false }

abbrev pub is_use : String → Bool
is_use u = same_text u "NO" || same_text u "WO" || same_text u "RW"

abbrev pub byte_of : (String → ℕ) → String → ℕ
byte_of to_uint text = to_uint text % 256

abbrev pub note_use : Option String → Scan → Scan
note_use none v = v
note_use (some u) v = record v { use_text = u; use_read = is_use u || v.use_read }

abbrev pub note_addr : (String → ℕ) → Option String → Option String → Option String → Scan → Scan
note_addr to_uint (some h) (some m) (some c) v = record v {
  addr = record v.addr {
    header = byte_of to_uint h;
    mod_no = byte_of to_uint m;
    channel = byte_of to_uint c;
  };
  addr_read = true;
}
note_addr to_uint h m c v = v

unfoldable pub note_token : (String → ℕ) → Token → Scan → Scan
note_token to_uint (Token.start_element name attrs) v =
    if same_text name "HMI"
    then note_use (attr "Use" attrs) v
    else if same_text name "RemAddr"
    then note_addr to_uint (attr "Head" attrs) (attr "Mod" attrs) (attr "Ch" attrs) v
    else v
note_token to_uint t v = v

-- The loop of `parseXmlVar`, and the tokens that it leaves. It reads one token more than it needs.
unfoldable pub scan_var : (String → ℕ) → List Token → Scan → Scan × List Token
unfolding note_token
scan_var to_uint [] v = (v, [])
scan_var to_uint (t ∷ ts) v =
    let rest = scan_var to_uint ts (note_token to_uint t v) in
    if v.use_read && v.addr_read then (v, ts) else rest

abbrev pub insert_addr : IoAddr → List IoAddr → List IoAddr
insert_addr a set = if has_addr a set then set else a ∷ set

-- The image with the two sets of variables to update.
pub record Parsed (F : Type 0) : Type 0 where
  pub image : RegImage F
  pub slave_to_update : List IoAddr
  pub field_to_update : List IoAddr

abbrev pub insert_if : Bool → IoAddr → List IoAddr → List IoAddr
insert_if on a set = if on then insert_addr a set else set

abbrev pub vars_of : Option (String × List Token) → Option (List Token)
vars_of none = none
vars_of (some (name, ts)) = if same_text name "Vars" then some ts else none

abbrev pub info_of : Option (String × List Token) → Option (List Token)
unfolding read_next_start_element
info_of none = none
info_of (some (name, ts)) =
    if same_text name "RegIOInfo" then vars_of (read_next_start_element ts) else none

module _ {F : Type 0} where
  abbrev pub delete_reg_vars : RegImage F → RegImage F
  delete_reg_vars s = record s { vars = []; slave_vars = []; field_vars = [] }

  unfoldable pub add_var : Bool → String → RegVar F → Parsed F → Parsed F
  unfolding Dict.insert_new
  add_var is_field use_text v p =
      let s = p.image in
      let place = length s.reg_vars in
      let t : RegImage F = record s {
        reg_vars = s.reg_vars ++ (v ∷ []);
        vars = Dict.insert_new same_addr v.addr place s.vars;
      } in
      if is_field
      then record p {
        image = record t { field_vars = Dict.insert_new ◌==◌ v.var_id place s.field_vars };
        field_to_update = insert_if (same_text use_text "RW") v.addr p.field_to_update;
      }
      else record p {
        image = record t { slave_vars = Dict.insert_new ◌==◌ v.var_id place s.slave_vars };
        slave_to_update = insert_if (same_text use_text "RW") v.addr p.slave_to_update;
      }

  -- A variable from its ID and its FR on; the bounds of a new RegVar are what the memory holds.
  abbrev pub parse_scanned : F → ℕ → Bool → Scan → Parsed F → Bool × Parsed F
  parse_scanned junk id is_field v p =
      if v.use_read && v.addr_read && not (same_text v.use_text "NO")
      then (
        true,
        add_var is_field v.use_text
            (record {
              var_id = id;
              egu_min = junk;
              egu_max = junk;
              addr = v.addr;
              units = "";
              tag = "";
              desc = "";
            })
            p,
      )
      else (false, p)

  unfoldable pub parse_xml_var :
      (String → ℕ) → F → Attrs → List Token → Parsed F → Bool × Parsed F × List Token
  unfolding scan_var add_var
  parse_xml_var to_uint junk attrs ts p = elim (attr "ID" attrs) [
    | none ↦ (false, p, ts)
    | some id ↦ elim (attr "FR" attrs) [
      | none ↦ (false, p, ts)
      | some fr ↦
          if not (same_text fr "F") && not (same_text fr "R")
          then (false, p, ts)
          else (let (v, rest) = scan_var to_uint ts new_scan in
              let (ok, q) = parse_scanned junk (to_uint id) (same_text fr "F") v p in (ok, q, rest))
    ]
  ]

  abbrev pub failed : Parsed F → Bool × Parsed F
  failed p = (false, record p { image = delete_reg_vars p.image })

  -- The loop of `parseRegIOInfo`. One round more than there are tokens is enough.
  unfoldable pub read_vars : ℕ → (String → ℕ) → F → List Token → Parsed F → Option (Bool × Parsed F)
  unfolding parse_xml_var
  read_vars zero to_uint junk ts p = none
  read_vars (suc k) to_uint junk [] p = some (true, p)
  read_vars (suc k) to_uint junk (Token.start_element name attrs ∷ ts) p =
      let (ok, q, rest) = parse_xml_var to_uint junk attrs ts p in
      let after = read_vars k to_uint junk rest q in
      let past = read_vars k to_uint junk ts p in
      if same_text name "Var" then (if ok then after else some (failed q)) else past
  read_vars (suc k) to_uint junk (t ∷ ts) p = read_vars k to_uint junk ts p

  -- None is a file that does not open.
  unfoldable pub parse_reg_io_info :
      Option (List Token) → (String → ℕ) → F → Parsed F → Option (Bool × Parsed F)
  unfolding read_vars
  parse_reg_io_info none to_uint junk p = some (false, p)
  parse_reg_io_info (some ts) to_uint junk p = elim (info_of (read_next_start_element ts)) [
    | none ↦ some (failed p)
    | some us ↦ read_vars (suc (length us)) to_uint junk us p
  ]
