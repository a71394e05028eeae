-- ===== src/Field/Begins.antt =====
-- The devices that `init` of EthercatDrv.cpp makes, and the empty map of failed variables.
use Prim.Native.String.{String}
use turbine_governor.Base.{
  ◌≡◌, refl, inl, inr, Bool, true, false, not, ◌&&◌, ◌||◌, Option, none, some, List, [], ◌∷◌,
  Bool-cases,
}
use turbine_governor.Base.Dict
use turbine_governor.Base.DictLaws
use turbine_governor.Types.{IoAddr, same_addr}
use turbine_governor.Types.Addr.{same_addr-IsSame}
use turbine_governor.Types.Float.{FloatOps}
use turbine_governor.Xml.{Node, Nodes, is_named, children_of}
use turbine_governor.Field.Errors.{Unique, find}
use turbine_governor.Field.Devices.{EtherDevice, Recorded, new_device}
use turbine_governor.Field.Kinds.{Device, DigitalDev}
use turbine_governor.Field.Factory.{Made}
use turbine_governor.Field.Made.{IsGood, get_new_xml_device-IsGood}
use turbine_governor.Field.Init.{
  VarScan, scan_var_data, read_var_data, new_var_scan, insert_dev, read_xml_vars, read_children,
}
use turbine_governor.Field.Agree.{Agrees, Every, some-Every, bind-Every}
use turbine_governor.Field.Service.{AllAgree}

new_device-Recorded : (a : IoAddr) (dev : EtherDevice) → dev ≡ new_device → Recorded a dev []
unfolding Recorded Unique DictLaws.Unique find Dict.lookup
new_device-Recorded a dev e = rw e (refl, refl, tt)

-- Devices that have not been in error, each at its own address.
unfoldable pub Fresh : {F : Type 0} → List (IoAddr × Device F) → Type 0
Fresh ds = AllAgree ds [] × DictLaws.Unique same_addr ds

abbrev pub FreshAfter : {F : Type 0} → Bool × List (IoAddr × Device F) → Type 0
FreshAfter r = Fresh r.1

pub empty_Fresh : (F : Type 0) → Fresh {F = F} []
unfolding Fresh AllAgree DictLaws.Unique
empty_Fresh F = (tt, tt)

module _ {F : Type 0} where
  good-Agrees : (a : IoAddr) (d : Device F) → IsGood (Made.made d) → Agrees a d []
  good-Agrees a (Device.digital d) e = (new_device-Recorded a d.dev e, rw e refl)
  good-Agrees a (Device.analog d) (_, _, e) = new_device-Recorded a d.dev e
  good-Agrees a (Device.pulse d) (_, e) = (new_device-Recorded a d.dev e, rw e refl)

  insert_new-AllAgree :
      (a : IoAddr) (d : Device F) (ds : List (IoAddr × Device F))
      → Agrees a d []
      → AllAgree ds []
      → AllAgree (Dict.insert_new same_addr a d ds) []
  unfolding AllAgree Dict.insert_new
  insert_new-AllAgree a d [] h all = (h, tt)
  insert_new-AllAgree a d ((b, e) ∷ ds) h (here, later) = elim (Bool-cases (same_addr b a)) [
    | inl known ↦ rw known (here, later)
    | inr other ↦ rw other (here, insert_new-AllAgree a d ds h later)
  ]

  insert_new-Fresh :
      (a : IoAddr) (d : Device F) (ds : List (IoAddr × Device F))
      → Agrees a d []
      → Fresh ds
      → Fresh (Dict.insert_new same_addr a d ds)
  unfolding Fresh
  insert_new-Fresh a d ds h (all, unique) = (
    insert_new-AllAgree a d ds h all,
    DictLaws.insert_new-Unique same_addr same_addr-IsSame a d ds unique,
  )

module _ {F : Type 0} (fl : FloatOps F) (text_of : Node → Option String) (junk : DigitalDev F) where
  scan_var_data-IsGood :
      (n : Node) (v : VarScan F) → IsGood v.dev → IsGood (scan_var_data fl text_of junk n v).dev
  unfolding scan_var_data
  scan_var_data-IsGood n v h = elim (Bool-cases (not v.has_addr && is_named "Addr" n)) [
    | inl addr ↦ rw addr h
    | inr other ↦ elim (Bool-cases (not v.has_type && is_named "VarType" n)) [
      | inl type ↦ rw (other, type) (get_new_xml_device-IsGood text_of fl junk n)
      | inr rest ↦ rw (other, rest) h
    ]
  ]

  read_var_data-IsGood :
      (ns : Nodes) (v : VarScan F) → IsGood v.dev → IsGood (read_var_data fl text_of junk ns v).dev
  unfolding read_var_data
  read_var_data-IsGood Nodes.nil v h = h
  read_var_data-IsGood (Nodes.cons n rest) v h =
      elim (Bool-cases (not v.ok || v.has_addr && v.has_type)) [
        | inl done ↦ rw done h
        | inr more ↦ rw more (
            read_var_data-IsGood rest (scan_var_data fl text_of junk n v)
              (scan_var_data-IsGood n v h))
      ]

  insert_dev-Fresh :
      (v : VarScan F) (ds : List (IoAddr × Device F))
      → IsGood v.dev
      → Fresh ds
      → Every FreshAfter (insert_dev fl text_of junk v ds)
  unfolding insert_dev Fresh Every
  insert_dev-Fresh v ds good h = elim (Bool-cases (v.ok && v.has_addr && v.has_type)) [
    | inr bad ↦ rw bad (some-Every FreshAfter (false, ds) h)
    | inl done ↦ rw done (made v.dev good)
  ]
    where
      made :
          (m : Made F)
          → IsGood m
          → Every FreshAfter (elim m [
            | Made.null ↦ some (false, ds)
            | Made.undefined ↦ none
            | Made.made d ↦ some (true, Dict.insert_new same_addr v.addr d ds)
          ])
      made Made.null g = some-Every FreshAfter (false, ds) h
      made Made.undefined g = λ r e. absurd (cc)
      made (Made.made d) g =
          some-Every FreshAfter (true, Dict.insert_new same_addr v.addr d ds)
            (insert_new-Fresh v.addr d ds (good-Agrees v.addr d g) h)

  read_xml_vars-Fresh :
      (ns : Nodes) (ds : List (IoAddr × Device F))
      → Fresh ds
      → Every FreshAfter (read_xml_vars fl text_of junk ns ds)
  unfolding read_xml_vars Every
  read_xml_vars-Fresh Nodes.nil ds h = some-Every FreshAfter (true, ds) h
  read_xml_vars-Fresh (Nodes.cons n rest) ds h = elim (Bool-cases (is_named "Var" n)) [
    | inr other ↦ rw other (read_xml_vars-Fresh rest ds h)
    | inl var ↦ rw var (
        bind-Every FreshAfter
          (insert_dev fl text_of junk
            (read_var_data fl text_of junk (children_of n) (new_var_scan fl text_of junk)) ds)
          _
          (λ (ok, es) e.
            let h' : Fresh es =
              insert_dev-Fresh
                (read_var_data fl text_of junk (children_of n) (new_var_scan fl text_of junk)) ds
                (read_var_data-IsGood (children_of n) (new_var_scan fl text_of junk) tt) h (ok, es)
                e in
            elim (Bool-cases ok) [
              | inl good ↦ rw good (read_xml_vars-Fresh rest es h')
              | inr bad ↦ rw bad (some-Every FreshAfter (false, []) (empty_Fresh F))
            ]))
  ]

  pub read_children-Fresh :
      (ns : Nodes) (has_cnf has_vars : Bool) (ds : List (IoAddr × Device F))
      → Fresh ds
      → Every FreshAfter (read_children fl text_of junk ns has_cnf has_vars ds)
  unfolding read_children Every
  read_children-Fresh Nodes.nil has_cnf has_vars ds h = some-Every FreshAfter (true, ds) h
  read_children-Fresh (Nodes.cons n rest) has_cnf has_vars ds h =
      elim (Bool-cases (has_cnf && has_vars)) [
        | inl both ↦ rw both (some-Every FreshAfter (true, ds) h)
        | inr more ↦ elim (Bool-cases (not has_cnf && is_named "SlaveConfig" n)) [
          | inl cnf ↦ rw (more, cnf) (read_children-Fresh rest true has_vars ds h)
          | inr no_cnf ↦ elim (Bool-cases (not has_vars && is_named "Vars" n)) [
            | inr other ↦ rw (more, no_cnf, other) (read_children-Fresh rest has_cnf has_vars ds h)
            | inl vars ↦
                rw (more, no_cnf, vars)
                  (bind-Every FreshAfter (read_xml_vars fl text_of junk (children_of n) ds) _
                    (λ (ok, es) e.
                      let h' : Fresh es = read_xml_vars-Fresh (children_of n) ds h (ok, es) e in
                      elim (Bool-cases ok) [
                        | inl good ↦ rw good (read_children-Fresh rest has_cnf true es h')
                        | inr bad ↦ rw bad (some-Every FreshAfter (false, es) h')
                      ]))
          ]
        ]
      ]
