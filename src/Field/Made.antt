-- ===== src/Field/Made.antt =====
-- What DeviceFactory.cpp promises of the devices that it makes.
use Prim.Native.String.{String}
use turbine_governor.Base.{
  ℕ, ◌≡◌, refl, inl, inr, true, false, ◌&&◌, Option, none, some, Bool-cases, Option-cases, arith,
}
use turbine_governor.Types.Float.{FloatOps}
use turbine_governor.Xml.{Node, Nodes, same_text, is_named, children_of, get_prop}
use turbine_governor.Field.Devices.{status_word_ok, new_device}
use turbine_governor.Field.Kinds.{
  Device, DigitalDev, ControlWord, is_valid, analog_parameters_ok, control_word_ok,
}
use turbine_governor.Field.Access.{new_analog_dev, limits}
use turbine_governor.Field.Factory.{
  Made, AnalogScan, read_control, find_control, find_pulse_measure, made_analog, made_pulse,
  made_digital, made_of_type, get_new_xml_device,
}

-- A device that is made is not in error, and its parameters are in range: of an analog one the bits of
-- the status word and the representation, of a pulse one the bit that is set.
abbrev pub IsGood : {F : Type 0} → Made F → Type 0
IsGood Made.null = Unit
IsGood Made.undefined = Unit
IsGood (Made.made (Device.digital d)) = d.dev ≡ new_device
IsGood (Made.made (Device.analog d)) =
    (status_word_ok d.status_w ≡ true) × (is_valid d.bit_repr ≡ true) × (d.dev ≡ new_device)
IsGood (Made.made (Device.pulse d)) = (control_word_ok d.control_b ≡ true) × (d.dev ≡ new_device)

module _ (text_of : Node → Option String) where
  FindsGood : Option ControlWord → Type 0
  FindsGood none = Unit
  FindsGood (some c) = control_word_ok c ≡ true

  find_control-FindsGood : (ns : Nodes) (c : ControlWord) → FindsGood (find_control text_of ns c)
  unfolding find_control FindsGood
  find_control-FindsGood Nodes.nil c = tt
  find_control-FindsGood (Nodes.cons n rest) c = elim (Bool-cases (is_named "ControlWord" n)) [
    | inr other ↦ rw (other) (find_control-FindsGood rest c)
    | inl word ↦ elim (Option-cases (read_control text_of (children_of n) c false false)) [
      | inl e ↦ rw (word, e) tt
      | inr ((d, has_addr, has_bit), e) ↦
          elim (Bool-cases (has_addr && has_bit && control_word_ok d)) [
            | inl good ↦ rw (word, e, good) (ground arith)
            | inr bad ↦ rw (word, e, bad) (find_control-FindsGood rest d)
          ]
    ]
  ]

  module _ {F : Type 0} (fl : FloatOps F) (junk : DigitalDev F) where
    made_pulse-IsGood :
        (o : Option ControlWord) → FindsGood o → IsGood (made_pulse text_of fl junk o)
    unfolding FindsGood
    made_pulse-IsGood none h = tt
    made_pulse-IsGood (some c) h = (h, refl)

    made_digital-IsGood : (o : Option ℕ) → IsGood (made_digital text_of fl junk o)
    made_digital-IsGood none = tt
    made_digital-IsGood (some n) = refl

    made_analog-IsGood : (o : Option AnalogScan) → IsGood (made_analog text_of fl junk o)
    unfolding new_analog_dev
    made_analog-IsGood none = tt
    made_analog-IsGood (some v) =
        elim (Bool-cases
          (v.has_status && v.has_repr && analog_parameters_ok v.word v.bit_repr v.num_bits)) [
            | inr bad ↦ rw bad tt
            | inl good ↦ elim (Option-cases (limits fl v.bit_repr v.num_bits)) [
              | inl e ↦ rw (good, e) tt
              | inr (l, e) ↦ rw (good, e) (ground arith, ground arith, refl)
            ]
          ]

    made_of_type-IsGood :
        (o : Option String) (params : Nodes) → IsGood (made_of_type text_of fl junk o params)
    unfolding made_of_type
    made_of_type-IsGood none params = tt
    made_of_type-IsGood (some t) params = elim (Bool-cases (same_text t "DigitalDev")) [
      | inl digital ↦ rw digital (made_digital-IsGood (find_pulse_measure text_of params))
      | inr other ↦ elim (Bool-cases (same_text t "AnalogDev")) [
        | inl analog ↦ rw (other, analog) (made_analog-IsGood _)
        | inr rest ↦ elim (Bool-cases (same_text t "PulseDev")) [
          | inl pulse ↦
              rw (other, rest, pulse) (made_pulse-IsGood _ (find_control-FindsGood params _))
          | inr nothing ↦ rw (other, rest, nothing) tt
        ]
      ]
    ]

    -- Whatever the node of the configuration file, and the texts that libxml gives of its children: a
    -- device that `getNewXMLDevice` makes is not in error and has its parameters in range.
    pub get_new_xml_device-IsGood : (node : Node) → IsGood (get_new_xml_device text_of fl junk node)
    unfolding get_new_xml_device
    get_new_xml_device-IsGood node = made_of_type-IsGood (get_prop "Type" node) (children_of node)
