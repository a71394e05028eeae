-- ===== src/Master/Ready.antt =====
-- What `init` of ModbusMasterDrv.cpp leaves.
use Prim.Native.String.{String}
use turbine_governor.Base.{
  ◌≡◌, refl, ap, sym, ◌∙◌, Bool, true, false, ◌&&◌, ◌||◌, ◌⊎◌, inl, inr, Option, none, some, List,
  [], ◌∷◌, if◌then◌else◌, Bool-cases, true-false, arith, ltb, leb,
}
use turbine_governor.Base.Dict
use turbine_governor.Base.DictLaws.{or_else, lookup-insert_new_else}
use turbine_governor.Types.{DrvState, IoAddr, same_addr}
use turbine_governor.Types.Addr.{same_addr-IsSame}
use turbine_governor.Xml.{Node}
use turbine_governor.Slave.Config.{Document}
use turbine_governor.Master.State.{MasterDrv}
use turbine_governor.Master.Reading.{has_addr}
use turbine_governor.Master.Setup.{
  MasterConfig, add_vars, is_slave_channel, is_field_channel, new_modbus_data, new_field_data, init,
  init_loaded, load_xml_config, read_xml_config, num_channels, is_un_init,
}

or_else-none {ℓ} : {A : Type ℓ} (o : Option A) → o ≡ or_else o none
or_else-none none = refl
or_else-none (some x) = refl

-- Adding the address, or not, and then the others.
added {ℓ} :
    {V : Type ℓ} (x : Option V) (v : V) (here later kept : Bool)
    → or_else (or_else x (if here then some v else none)) (if later && kept then some v else none)
        ≡ or_else x (if (here || later) && kept then some v else none)
      ⊎ (here ≡ true) × (kept ≡ false)
added (some x) v here later kept = inl refl
added none v true later true = inl refl
added none v true later false = inr (refl, refl)
added none v false later kept = inl (ground arith)

not_added {ℓ} :
    {V : Type ℓ} (x : Option V) (v : V) (here later kept : Bool)
    → (here ≡ true → kept ≡ false)
    → or_else x (if later && kept then some v else none)
      ≡ or_else x (if (here || later) && kept then some v else none)
not_added x v true later true h = absurd (true-false (h refl))
not_added x v true true false h = refl
not_added x v true false false h = refl
not_added x v false later kept h = refl

pub lookup-add_vars {ℓ} :
    {V : Type ℓ} (keep : IoAddr → Bool) (v : V) (as_ : List IoAddr) (m : List (IoAddr × V))
    (a : IoAddr)
    → Dict.lookup same_addr a (add_vars keep v as_ m)
      ≡ or_else (Dict.lookup same_addr a m) (if has_addr a as_ && keep a then some v else none)
unfolding add_vars
lookup-add_vars keep v [] m a = or_else-none (Dict.lookup same_addr a m)
lookup-add_vars keep v (b ∷ as_) m a = elim (Bool-cases (keep b)) [
  | inl on ↦
      lookup-add_vars keep v as_ (if keep b then Dict.insert_new same_addr b v m else m) a
      ∙ rw on (
          ap (λ o. or_else o (if has_addr a as_ && keep a then some v else none))
            (lookup-insert_new_else same_addr same_addr-IsSame b a v m)
          ∙ elim (added (Dict.lookup same_addr a m) v (same_addr b a) (has_addr a as_) (keep a)) [
            | inl e ↦ e
            | inr (here, off) ↦
                absurd (true-false (sym on ∙ ap keep (same_addr-IsSame.sound b a here) ∙ off))
          ])
  | inr off ↦
      lookup-add_vars keep v as_ (if keep b then Dict.insert_new same_addr b v m else m) a
      ∙ rw off (
          not_added (Dict.lookup same_addr a m) v (same_addr b a) (has_addr a as_) (keep a)
            (λ here. sym (ap keep (same_addr-IsSame.sound b a here)) ∙ off))
]

un_init_of : (st : DrvState) → is_un_init st ≡ true → st ≡ DrvState.un_init
un_init_of DrvState.un_init e = refl
un_init_of DrvState.running e = absurd (cc)
un_init_of DrvState.stopped e = absurd (cc)
un_init_of DrvState.com_error e = absurd (cc)
un_init_of DrvState.var_error e = absurd (cc)

lookup-add_vars_empty :
    {V : Type 0} (keep : IoAddr → Bool) (v : V) (as_ : List IoAddr) (m : List (IoAddr × V))
    (a : IoAddr)
    → m ≡ []
    → Dict.lookup same_addr a (add_vars keep v as_ m)
      ≡ (if has_addr a as_ && keep a then some v else none)
unfolding Dict.lookup
lookup-add_vars_empty keep v as_ m a e =
    lookup-add_vars keep v as_ m a
    ∙ ap
        (λ l.
          or_else (Dict.lookup same_addr a l) (if has_addr a as_ && keep a then some v else none))
        e

module _ {F : Type 0} where
  -- The tables and the state after the configuration file has been read.
  read_xml_config_keeps :
      (root : Option Node) (c : MasterConfig) (s : MasterDrv F)
      → ((read_xml_config root c s).2.modbus_vars ≡ s.modbus_vars)
        × ((read_xml_config root c s).2.field_vars ≡ s.field_vars)
        × ((read_xml_config root c s).2.state ≡ s.state)
  unfolding read_xml_config
  read_xml_config_keeps none c s = (refl, refl, refl)
  read_xml_config_keeps (some root) c s = ground arith

  load_xml_config_keeps :
      (path : String) (doc : Document) (c : MasterConfig) (s : MasterDrv F)
      → ((load_xml_config path doc c s).2.modbus_vars ≡ s.modbus_vars)
        × ((load_xml_config path doc c s).2.field_vars ≡ s.field_vars)
        × ((load_xml_config path doc c s).2.state ≡ s.state)
  unfolding load_xml_config
  load_xml_config_keeps path Document.no_parser c s = (refl, refl, refl)
  load_xml_config_keeps path Document.unreadable c s = (refl, refl, refl)
  load_xml_config_keeps path Document.invalid c s = (refl, refl, refl)
  load_xml_config_keeps path (Document.tree root) c s = read_xml_config_keeps root c s

  -- The driver is ready to start, with the variables to update whose channel is in its map.
  unfoldable pub IsReady : F → List IoAddr → List IoAddr → MasterDrv F → Type 0
  IsReady z slave_vars fld_vars u =
      (u.state ≡ DrvState.stopped)
      × (u.has_ctx ≡ true)
      × (leb 1 (num_channels u) ≡ true)
      × ((a : IoAddr)
          → Dict.lookup same_addr a u.modbus_vars ≡ (
              if has_addr a slave_vars && is_slave_channel u a
              then some (new_modbus_data z)
              else none))
      × ((a : IoAddr)
          → Dict.lookup same_addr a u.field_vars ≡ (
              if has_addr a fld_vars && is_field_channel u a
              then some (new_field_data z)
              else none))

  init_loaded_cases :
      (z : F) (slave_vars fld_vars : List IoAddr) (ctx : Bool) (text : String) (s : MasterDrv F)
      → s.modbus_vars ≡ []
      → s.field_vars ≡ []
      → ((init_loaded z slave_vars fld_vars ctx text s).0 ≡ true)
          × IsReady z slave_vars fld_vars (init_loaded z slave_vars fld_vars ctx text s).1
        ⊎ ((init_loaded z slave_vars fld_vars ctx text s).0 ≡ false)
          × ((init_loaded z slave_vars fld_vars ctx text s).1.state ≡ s.state)
  unfolding init_loaded IsReady
  init_loaded_cases z slave_vars fld_vars ctx text s none_m none_f =
      elim (Bool-cases (ltb (num_channels s) 1)) [
        | inl few ↦ inr (rw few, rw few)
        | inr some_ ↦ elim (Bool-cases ctx) [
          | inr no_ctx ↦ inr (rw (some_, no_ctx), rw (some_, no_ctx))
          | inl has ↦ inl (
            rw (some_, has),
            rw (some_, has)
                (
                  refl,
                  refl,
                  ground arith,
                  λ a.
                      lookup-add_vars_empty (is_slave_channel s) (new_modbus_data z) slave_vars
                        s.modbus_vars a none_m,
                  λ a.
                      lookup-add_vars_empty (is_field_channel s) (new_field_data z) fld_vars
                        s.field_vars a none_f,
                ),
          )
        ]
      ]

  -- `init` of a driver without variables, with any file, any answer of libmodbus, in any state: either
  -- it returns true, the driver was not initialised and is now stopped, with a context, a map that is
  -- not empty, and exactly the variables to update whose channel is in the map, each with fresh data;
  -- or it returns false and the state is as it was.
  pub init_cases :
      (path : String) (doc : Document) (z : F) (slave_vars fld_vars : List IoAddr) (ctx : Bool)
      (text : String) (c : MasterConfig) (s : MasterDrv F)
      → s.modbus_vars ≡ []
      → s.field_vars ≡ []
      → ((init path doc z slave_vars fld_vars ctx text c s).0 ≡ true)
          × (s.state ≡ DrvState.un_init)
          × IsReady z slave_vars fld_vars (init path doc z slave_vars fld_vars ctx text c s).2
        ⊎ ((init path doc z slave_vars fld_vars ctx text c s).0 ≡ false)
          × ((init path doc z slave_vars fld_vars ctx text c s).2.state ≡ s.state)
  unfolding init
  init_cases path doc z slave_vars fld_vars ctx text c s none_m none_f =
      let (m, f, st) = load_xml_config_keeps path doc c s in
      elim (Bool-cases (is_un_init s.state)) [
        | inr busy ↦ inr (rw busy, rw busy)
        | inl fresh ↦ elim (Bool-cases (load_xml_config path doc c s).0) [
          | inr bad ↦ inr (rw (fresh, bad), rw (fresh, bad) st)
          | inl good ↦
              elim (init_loaded_cases z slave_vars fld_vars ctx text
                (load_xml_config path doc c s).2 (m ∙ none_m) (f ∙ none_f)) [
                  | inl (done, is_ready) ↦
                      inl
                        (rw (fresh, good) done, un_init_of s.state fresh, rw (fresh, good) is_ready)
                  | inr (failed, same) ↦ inr (rw (fresh, good) failed, rw (fresh, good) (same ∙ st))
                ]
        ]
      ]
