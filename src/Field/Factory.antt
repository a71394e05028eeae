-- ===== src/Field/Factory.antt =====
-- The devices of a configuration file: DeviceFactory.cpp, and `readXMLConfig` and `readXMLVars` of
-- EthercatDrv.cpp. A reader that gives a null pointer gives `none`; a reader of a device that makes
-- one without a defined value gives `undefined`. `text_of` is xmlNodeListGetString of a node's children.
use Prim.Native.String.{String}
use turbine_governor.Base.{ℕ, Bool, true, false, ◌&&◌, Option, none, some, if◌then◌else◌, ◌>>=◌}
use turbine_governor.Types.{IoAddr, no_addr}
use turbine_governor.Types.Float.{FloatOps}
use turbine_governor.Xml.{
  Node, Nodes, is_named, same_text, children_of, get_prop, atoi, parse_xml_addr,
}
use turbine_governor.Field.Devices.{StatusWord, new_device}
use turbine_governor.Field.Kinds.{
  BitRepr, Device, DigitalDev, ControlWord, with_sign, get_bit_repr, analog_parameters_ok,
  control_word_ok, new_digital_dev,
}
use turbine_governor.Field.Access.{new_analog_dev}

pub data Made (F : Type 0) : Type 0 where
  null undefined : Made F
  made : Device F → Made F

-- The address of a node, where all of its attributes are there.
abbrev pub addr_of : Node → IoAddr → Option IoAddr
unfolding parse_xml_addr
addr_of node a = let (ok, b) = parse_xml_addr node a in if ok then some b else none

-- The locals of the loop over a StatusWord.
pub record StatusScan : Type 0 where
  pub word : StatusWord
  pub has_addr : Bool
  pub has_under : Bool
  pub has_over : Bool

-- The locals of the loop over an AnalogDev.
pub record AnalogScan : Type 0 where
  pub word : StatusWord
  pub bit_repr : BitRepr
  pub num_bits : ℕ
  pub has_status : Bool
  pub has_repr : Bool

abbrev pub no_status : StatusWord
no_status = record { addr = no_addr; under_range_bit = 0; over_range_bit = 0 }

module _ (text_of : Node → Option String) where
  abbrev pub byte_text : Node → Option ℕ
  unfolding atoi
  byte_text node = text_of node >>= λ t. some (atoi 8 t)

  abbrev pub scan_status : Node → StatusScan → Option StatusScan
  scan_status node v =
      if is_named "Addr" node
      then (addr_of node v.word.addr >>= λ a.
          some (record v { word = record v.word { addr = a }; has_addr = true }))
      else if is_named "UnderRangeBit" node
      then (byte_text node >>= λ b.
          some (record v { word = record v.word { under_range_bit = b }; has_under = true }))
      else if is_named "OverRangeBit" node
      then (byte_text node >>= λ b.
          some (record v { word = record v.word { over_range_bit = b }; has_over = true }))
      else some v

  unfoldable pub read_status : Nodes → StatusScan → Option StatusScan
  read_status Nodes.nil v = some v
  read_status (Nodes.cons n rest) v = scan_status n v >>= λ w. read_status rest w

  unfoldable pub scan_analog : Node → AnalogScan → Option AnalogScan
  unfolding read_status atoi
  scan_analog node v =
      if is_named "StatusWord" node
      then (read_status (children_of node)
            (record { word = v.word; has_addr = false; has_under = false; has_over = false })
          >>= λ w.
              if w.has_addr && w.has_under && w.has_over
              then some (record v { word = w.word; has_status = true })
              else none)
      else if is_named "BitRepr" node
      then (get_prop "Type" node >>= λ t. get_prop "NumBits" node >>= λ n.
          some (record v { bit_repr = get_bit_repr t; num_bits = atoi 8 n; has_repr = true }))
      else some v

  unfoldable pub read_analog_params : Nodes → AnalogScan → Option AnalogScan
  unfolding scan_analog
  read_analog_params Nodes.nil v = some v
  read_analog_params (Nodes.cons n rest) v = scan_analog n v >>= λ w. read_analog_params rest w

  -- The control word, with whether its address and its bit have been read.
  unfoldable pub read_control :
      Nodes → ControlWord → Bool → Bool → Option (ControlWord × Bool × Bool)
  read_control Nodes.nil c has_addr has_bit = some (c, has_addr, has_bit)
  read_control (Nodes.cons n rest) c has_addr has_bit =
      if is_named "Addr" n
      then (addr_of n c.addr >>= λ a. read_control rest (record c { addr = a }) true has_bit)
      else if is_named "SetBit" n
      then (byte_text n >>= λ b. read_control rest (record c { set_bit = b }) has_addr true)
      else read_control rest c has_addr has_bit

  -- The first control word whose parameters are good, from the parameters of a PulseDev; `c` is what
  -- the words before have left in it.
  unfoldable pub find_control : Nodes → ControlWord → Option ControlWord
  unfolding read_control
  find_control Nodes.nil c = none
  find_control (Nodes.cons n rest) c =
      if is_named "ControlWord" n
      then (read_control (children_of n) c false false >>= λ (d, has_addr, has_bit).
          if has_addr && has_bit && control_word_ok d then some d else find_control rest d)
      else find_control rest c

  unfoldable pub find_pulse_measure : Nodes → Option ℕ
  unfolding atoi
  find_pulse_measure Nodes.nil = none
  find_pulse_measure (Nodes.cons n rest) =
      if is_named "PulseMeasure" n
      then (text_of n >>= λ t. some (atoi 32 t))
      else find_pulse_measure rest

  module _ {F : Type 0} (fl : FloatOps F) (junk : DigitalDev F) where
    abbrev pub made_analog : Option AnalogScan → Made F
    unfolding new_analog_dev
    made_analog none = Made.null
    made_analog (some v) =
        if v.has_status && v.has_repr && analog_parameters_ok v.word v.bit_repr v.num_bits
        then elim (new_analog_dev fl v.word v.bit_repr v.num_bits) [
          | none ↦ Made.undefined
          | some d ↦ Made.made (Device.analog d)
        ]
        else Made.null

    abbrev pub made_pulse : Option ControlWord → Made F
    made_pulse none = Made.null
    made_pulse (some c) = Made.made (Device.pulse (record { dev = new_device; control_b = c }))

    abbrev pub made_digital : Option ℕ → Made F
    made_digital none = Made.null
    made_digital (some n) = Made.made (Device.digital (new_digital_dev junk (with_sign 32 n)))

    unfoldable pub made_of_type : Option String → Nodes → Made F
    unfolding find_pulse_measure read_analog_params find_control
    made_of_type none params = Made.null
    made_of_type (some t) params =
        if same_text t "DigitalDev"
        then made_digital (find_pulse_measure params)
        else if same_text t "AnalogDev"
        then made_analog (
            read_analog_params params (record {
              word = no_status;
              bit_repr = BitRepr.invalid;
              num_bits = 0;
              has_status = false;
              has_repr = false;
            }))
        else if same_text t "PulseDev"
        then made_pulse (find_control params (record { addr = no_addr; set_bit = 0 }))
        else Made.null

    unfoldable pub get_new_xml_device : Node → Made F
    unfolding made_of_type
    get_new_xml_device node = made_of_type (get_prop "Type" node) (children_of node)
