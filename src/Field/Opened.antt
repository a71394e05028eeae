-- ===== src/Field/Opened.antt =====
-- `init` of EthercatDrv.cpp begins with the devices and the map of failed variables in agreement.
use Prim.Native.String.{String}
use turbine_governor.Base.{
  ◌≡◌, inl, inr, Bool, false, not, Option, none, some, [], ◌==◌, Bool-cases, suc, ◌-◌,
}
use turbine_governor.Base.DictLaws
use turbine_governor.Types.Float.{FloatOps}
use turbine_governor.Xml.{Node, is_named, children_of, get_prop}
use turbine_governor.Slave.Config.{Document}
use turbine_governor.Field.Errors.{Unique}
use turbine_governor.Field.Bus.{ec_state_operational}
use turbine_governor.Field.Kinds.{DigitalDev}
use turbine_governor.Field.Drive.{EthercatDrv, is_un_init}
use turbine_governor.Field.Init.{
  Soem, read_children, read_xml_config, load_xml_config, init_bus, init, wait_operational,
  wait_trys,
}
use turbine_governor.Field.Agree.{Every, some-Every, bind-Every}
use turbine_governor.Field.Begins.{Fresh, empty_Fresh, read_children-Fresh}
use turbine_governor.Field.Rounds.{Consistent}

module _ {F : Type 0} where
  unfoldable pub Began : EthercatDrv F → Type 0
  Began s = Fresh s.devices × (s.var_errors ≡ [])

  abbrev BeganAfter : Bool × EthercatDrv F → Type 0
  BeganAfter r = Began r.1

  pub Began-Consistent : (s : EthercatDrv F) → Began s → Consistent s
  unfolding Began Consistent Fresh Unique DictLaws.Unique
  Began-Consistent s ((all, unique), e) = rw e (all, tt, unique)

  init_bus-Began : (soem : Soem) (s : EthercatDrv F) → Began s → Every BeganAfter (init_bus soem s)
  unfolding init_bus Began
  init_bus-Began soem s (h, e) = elim (Bool-cases (not soem.has_interface)) [
    | inl a ↦ rw a (some-Every BeganAfter _ (empty_Fresh F, e))
    | inr a ↦ elim (Bool-cases (not soem.has_slaves)) [
      | inl b ↦ rw (a, b) (some-Every BeganAfter _ (empty_Fresh F, e))
      | inr b ↦ elim (Bool-cases (not soem.is_safe_op)) [
        | inl c ↦ rw (a, b, c) (some-Every BeganAfter _ (empty_Fresh F, e))
        | inr c ↦
            rw (a, b, c)
              (bind-Every BeganAfter (wait_operational soem.checked (suc wait_trys) wait_trys 0) _
                (λ n eq. elim (Bool-cases (not (soem.checked (n - 1) == ec_state_operational))) [
                  | inl d ↦ rw d (some-Every BeganAfter _ (empty_Fresh F, e))
                  | inr d ↦ rw d (some-Every BeganAfter _ (h, e))
                ]))
      ]
    ]
  ]

  module _ (fl : FloatOps F) (text_of : Node → Option String) (junk : DigitalDev F) where
    read_xml_config-Began :
        (root : Option Node) (s : EthercatDrv F)
        → Began s
        → Every BeganAfter (read_xml_config fl text_of junk root s)
    unfolding read_xml_config Began Every
    read_xml_config-Began none s h = some-Every BeganAfter (false, s) h
    read_xml_config-Began (some root) s (h, none_failed) =
        elim (Bool-cases (not (is_named "FieldDriver" root))) [
          | inl other ↦ rw other (some-Every BeganAfter (false, s) (h, none_failed))
          | inr good ↦ rw good (
              bind-Every BeganAfter (get_prop "ifname" root) _ (λ name e.
                bind-Every BeganAfter
                  (read_children fl text_of junk (children_of root) false false s.devices) _
                  (λ (ok, ds) e'.
                    some-Every BeganAfter (ok, record s { if_name = name; devices = ds })
                      (
                        read_children-Fresh fl text_of junk (children_of root) false false s.devices
                            h (ok, ds) e',
                        none_failed,
                      ))))
        ]

    load_xml_config-Began :
        (path : String) (doc : Document) (s : EthercatDrv F)
        → Began s
        → Every BeganAfter (load_xml_config fl text_of junk path doc s)
    unfolding load_xml_config Began
    load_xml_config-Began path Document.no_parser s h = some-Every BeganAfter _ h
    load_xml_config-Began path Document.unreadable s h = some-Every BeganAfter _ h
    load_xml_config-Began path Document.invalid s h = some-Every BeganAfter _ h
    load_xml_config-Began path (Document.tree root) s h = read_xml_config-Began root s h

    pub init-Began :
        (path : String) (doc : Document) (soem : Soem) (s : EthercatDrv F)
        → Began s
        → Every BeganAfter (init fl text_of junk path doc soem s)
    unfolding init Began Every
    init-Began path doc soem s h = elim (Bool-cases (not (is_un_init s.state))) [
      | inl ready ↦ rw ready (some-Every BeganAfter _ h)
      | inr new ↦ rw new (
          bind-Every BeganAfter (load_xml_config fl text_of junk path doc s) _ (λ (ok, t) e.
            let h' : Began t = load_xml_config-Began path doc s h (ok, t) e in
            elim (Bool-cases ok) [
              | inl good ↦ rw good (init_bus-Began soem t h')
              | inr bad ↦ rw bad (some-Every BeganAfter _ h')
            ]))
    ]
