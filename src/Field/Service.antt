-- ===== src/Field/Service.antt =====
-- The devices of EthercatDrv.cpp and the map of failed variables, over the rounds of the thread.
use turbine_governor.Base.{
  ℕ, ◌≡◌, refl, sym, ◌∙◌, inl, inr, false, none, some, List, [], ◌∷◌, if-true, if-false, Bool-cases,
}
use turbine_governor.Base.Dict
use turbine_governor.Base.DictLaws
use turbine_governor.Types.{IoAddr, same_addr}
use turbine_governor.Types.Addr.{same_addr-IsSame}
use turbine_governor.Field.Bytes.{IoMap}
use turbine_governor.Field.Errors.{find, Unique}
use turbine_governor.Field.Devices.{VarErrors, Recorded}
use turbine_governor.Field.Kinds.{Clocks, Device}
use turbine_governor.Field.Drive.{update_device, update_devices}
use turbine_governor.Field.Agree.{Agrees, OthersKept, Every, some-Every, bind-Every}
use turbine_governor.Field.Updates.{update_device-Every, DeviceUpdated}

module _ {F : Type 0} where
  Agrees-cong :
      (a : IoAddr) (d : Device F) (old new : VarErrors)
      → find a new ≡ find a old
      → Unique new
      → Agrees a d old
      → Agrees a d new
  unfolding Recorded
  Agrees-cong a (Device.digital d) old new e u ((found, error, _), state) =
      ((e ∙ found, error, u), state)
  Agrees-cong a (Device.analog d) old new e u (found, error, _) = (e ∙ found, error, u)
  Agrees-cong a (Device.pulse d) old new e u ((found, error, _), state) =
      ((e ∙ found, error, u), state)

  Agrees-Unique : (a : IoAddr) (d : Device F) (errs : VarErrors) → Agrees a d errs → Unique errs
  unfolding Recorded
  Agrees-Unique a (Device.digital d) errs ((_, _, u), _) = u
  Agrees-Unique a (Device.analog d) errs (_, _, u) = u
  Agrees-Unique a (Device.pulse d) errs ((_, _, u), _) = u

  -- All devices agree with the map.
  unfoldable pub AllAgree : List (IoAddr × Device F) → VarErrors → Type 0
  AllAgree [] errs = Unit
  AllAgree ((a, d) ∷ ds) errs = Agrees a d errs × AllAgree ds errs

  pub absent_head :
      (a b : IoAddr) (d : Device F) (ds : List (IoAddr × Device F))
      → Dict.lookup same_addr a ((b, d) ∷ ds) ≡ none
      → (same_addr b a ≡ false) × (Dict.lookup same_addr a ds ≡ none)
  unfolding Dict.lookup
  absent_head a b d ds e = elim (Bool-cases (same_addr b a)) [
    | inl here ↦
        absurd
          (some_none (sym (if-true (same_addr b a) (some d) (Dict.lookup same_addr a ds) here) ∙ e))
    | inr other ↦
        (other, sym (if-false (same_addr b a) (some d) (Dict.lookup same_addr a ds) other) ∙ e)
  ]
    where
      some_none : some d ≡ none → ⊥
      some_none e = cc

  -- An address that no device of the list has changes nothing for the list.
  all-cong :
      (a : IoAddr) (ds : List (IoAddr × Device F)) (old new : VarErrors)
      → Dict.lookup same_addr a ds ≡ none
      → OthersKept a old new
      → Unique new
      → AllAgree ds old
      → AllAgree ds new
  unfolding AllAgree
  all-cong a [] old new e kept u h = tt
  all-cong a ((b, d) ∷ ds) old new e kept u (here, later) =
      let (other, e') = absent_head a b d ds e in
      let apart : same_addr a b ≡ false =
        DictLaws.same_other same_addr same_addr-IsSame b a other in
      (Agrees-cong b d old new (kept.others b apart) u here, all-cong a ds old new e' kept u later)

  pub record DevicesUpdated (ds : List (IoAddr × Device F)) (errs : VarErrors)
      (r : List (IoAddr × Device F) × VarErrors) : Type 0 where
    pub agree : AllAgree r.0 r.1
    pub unique : Unique r.1
    pub distinct : DictLaws.Unique same_addr r.0
    pub keys : (c : IoAddr) → Dict.lookup same_addr c ds ≡ none → Dict.lookup same_addr c r.0 ≡ none
    pub kept : (c : IoAddr) → Dict.lookup same_addr c ds ≡ none → find c r.1 ≡ find c errs

  module _ (millis : ℕ → F) (now : Clocks) (failed : List ℕ) (io : IoMap) where
    join :
        (a : IoAddr) (d e : Device F) (ds es : List (IoAddr × Device F))
        (errs new1 new2 : VarErrors)
        → Dict.lookup same_addr a ds ≡ none
        → DeviceUpdated millis now failed io a errs (e, new1)
        → DevicesUpdated ds new1 (es, new2)
        → DevicesUpdated ((a, d) ∷ ds) errs ((a, e) ∷ es, new2)
    unfolding AllAgree DictLaws.Unique Dict.lookup
    join a d e ds es errs new1 new2 absent (agree, kept) rest = record {
      agree = (Agrees-cong a e new1 new2 (rest.kept a absent) rest.unique agree, rest.agree);
      unique = rest.unique;
      distinct = (rest.keys a absent, rest.distinct);
      keys = λ c none_c.
          let (other, later) = absent_head c a d ds none_c in
          if-false (same_addr a c) (some e) (Dict.lookup same_addr c es) other ∙ rest.keys c later;
      kept = λ c none_c.
          let (other, later) = absent_head c a d ds none_c in
          rest.kept c later ∙ kept.others c other;
    }

    pub update_devices-Every :
        (ds : List (IoAddr × Device F)) (errs : VarErrors)
        → DictLaws.Unique same_addr ds
        → AllAgree ds errs
        → Unique errs
        → Every (DevicesUpdated ds errs) (update_devices millis now failed io ds errs)
    unfolding update_devices AllAgree DictLaws.Unique Every
    update_devices-Every [] errs distinct h u =
        some-Every (DevicesUpdated [] errs) ([], errs)
          (record { agree = tt; unique = u; distinct = tt; keys = λ c e. e; kept = λ c e. refl })
    update_devices-Every ((a, d) ∷ ds) errs (absent, distinct) (here, later) u =
        bind-Every (DevicesUpdated ((a, d) ∷ ds) errs) (update_device millis now failed io a d errs)
          _
          (λ (e, new1) eq.
            let done : DeviceUpdated millis now failed io a errs (e, new1) =
              update_device-Every millis now failed io a errs d here (e, new1) eq in
            let u1 : Unique new1 = Agrees-Unique a e new1 done.0 in
            bind-Every (DevicesUpdated ((a, d) ∷ ds) errs)
              (update_devices millis now failed io ds new1) _
              (λ (es, new2) eq2.
                let rest : DevicesUpdated ds new1 (es, new2) =
                  update_devices-Every ds new1 distinct
                    (all-cong a ds errs new1 absent done.1 u1 later) u1 (es, new2) eq2 in
                some-Every (DevicesUpdated ((a, d) ∷ ds) errs) ((a, e) ∷ es, new2)
                  (join a d e ds es errs new1 new2 absent done rest)))
