-- ===== src/Xml.antt =====
-- The configuration files: the tree that libxml returns, `xmlGetProp`, `xmlStrcmp`, the C function
-- `atoi`, and the readers of addresses that DeviceFactory.cpp and ModbusSlaveDrv.cpp both declare.
use Prim.Native.String as Text
use Prim.Native.String.{String}
use Prim.Native.Nat.{Ordering}
use Prim.Native.Char.{code}
use turbine_governor.Base.{
  ℕ, ◌+◌, ◌-◌, ◌*◌, ◌%◌, ◌^◌, Bool, true, false, ◌||◌, ◌&&◌, Option, none, some, List, [], ◌∷◌, leb,
  ◌==◌, if◌then◌else◌,
}
use turbine_governor.Types.{IoAddr}

abbrev pub same_text : String → String → Bool
same_text a b = elim (Text.compare a b) [ Ordering.eq ↦ true | _ ↦ false ]

mutual
  -- An element with its attributes and its children.
  pub data Node : Type 0 where
    element : String → List (String × String) → Nodes → Node

  pub data Nodes : Type 0 where
    nil : Nodes
    cons : Node → Nodes → Nodes

abbrev pub is_named : String → Node → Bool
is_named name (Node.element n attrs children) = same_text n name

abbrev pub children_of : Node → Nodes
children_of (Node.element n attrs children) = children

abbrev prop_in : String → List (String × String) → Option String
prop_in key [] = none
prop_in key ((k, v) ∷ rest) = if same_text k key then some v else prop_in key rest

abbrev pub get_prop : String → Node → Option String
get_prop key (Node.element n attrs children) = prop_in key attrs

abbrev is_space : ℕ → Bool
is_space c = c == 32 || (leb 9 c && leb c 13)

abbrev is_digit : ℕ → Bool
is_digit c = leb 48 c && leb c 57

abbrev digits : ℕ → String → ℕ
digits acc Text.[] = acc
digits acc (Text.◌∷◌ c s) =
    let rest = digits (acc * 10 + (code c - 48)) s in if is_digit (code c) then rest else acc

-- A negative number in words of `w` bits.
abbrev negated : ℕ → ℕ → ℕ
negated w n = (2 ^ w - n % 2 ^ w) % 2 ^ w

-- `atoi`, converted to an unsigned type of `w` bits: spaces, a sign, digits up to the first other
-- character, and 0 where there is none. A number past the range of `int` is left to C.
unfoldable pub atoi : ℕ → String → ℕ
atoi w Text.[] = 0
atoi w (Text.◌∷◌ c s) =
    let rest = atoi w s in
    if is_space (code c)
    then rest
    else if code c == 45
    then negated w (digits 0 s)
    else if code c == 43
    then digits 0 s % 2 ^ w
    else digits 0 (Text.◌∷◌ c s) % 2 ^ w

-- `parseXML8bitIntAttr`
unfoldable pub parse_xml8bit_int_attr : Node → String → Option ℕ
unfolding atoi
parse_xml8bit_int_attr node attr = elim (get_prop attr node) [
  | none ↦ none
  | some s ↦ some (atoi 8 s)
]

-- `parseXMLAddr`: an attribute that is missing leaves its field and the later ones as they were.
unfoldable pub parse_xml_addr : Node → IoAddr → Bool × IoAddr
unfolding parse_xml8bit_int_attr
parse_xml_addr node a = elim (parse_xml8bit_int_attr node "Head") [
  | none ↦ (false, a)
  | some h ↦ elim (parse_xml8bit_int_attr node "Mod") [
    | none ↦ (false, record a { header = h })
    | some m ↦ elim (parse_xml8bit_int_attr node "Ch") [
      | none ↦ (false, record a { header = h; mod_no = m })
      | some c ↦ elim (parse_xml8bit_int_attr node "Prec") [
        | none ↦ (false, record a { header = h; mod_no = m; channel = c })
        | some p ↦ (true, record { header = h; mod_no = m; channel = c; num_bits = p })
      ]
    ]
  ]
]
