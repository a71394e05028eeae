-- ===== src/RegImage/Inits.antt =====
-- `init` of RegImage.cpp leaves no null pointer in the maps.
use mathlib.Core.Path.{subst}
use turbine_governor.Base.{
  ℕ, ◌≡◌, refl, ap, sym, ◌∙◌, inl, inr, Bool, true, false, Option, none, some, List, [], get_elem?,
  set, length-set, ◌==◌, ◌>>=◌, Bool-cases,
}
use turbine_governor.Base.Dict
use turbine_governor.Base.Int.{ℤ, pos}
use turbine_governor.Types.{IoAddr}
use turbine_governor.Master.State.{MasterDrv}
use turbine_governor.Master.Setup.{MasterConfig, init}
use turbine_governor.RegImage.Image.{RegVar, RegImage}
use turbine_governor.RegImage.Info.{Parsed}
use turbine_governor.RegImage.Setup.{
  Outside, Started, change_at, change_slave_var, change_field_var, name_units, init_driver,
  init_parsed, init_image, with_ints,
}
use turbine_governor.RegImage.Places.{Below, InPlace, parse_reg_io_info-ends}

module _ {F : Type 0} where
  -- What holds of the image that a computation returns.
  abbrev Keeps : Option (RegImage F) → Type 0
  Keeps o = (t : RegImage F) → o ≡ some t → InPlace t

  bind-Keeps :
      (o : Option (RegImage F)) (f : RegImage F → Option (RegImage F))
      → Keeps o
      → ((s : RegImage F) → InPlace s → Keeps (f s))
      → Keeps (o >>= f)
  bind-Keeps none f h k t e = absurd (cc)
  bind-Keeps (some s) f h k t e = k s (h s refl) t e

  abbrev some_or : RegImage F → Option (RegImage F) → RegImage F
  some_or d none = d
  some_or d (some s) = s

  some-Keeps : (s : RegImage F) → InPlace s → Keeps (some s)
  some-Keeps s h t e = subst InPlace (ap (some_or s) e) h

  bind-set-Keeps :
      (o : Option (RegVar F)) (p : ℕ) (f : RegVar F → RegVar F) (s : RegImage F)
      → InPlace s
      → Keeps (o >>= λ v. some (record s { reg_vars = set s.reg_vars p (f v) }))
  bind-set-Keeps none p f s h = λ t e. absurd (cc)
  bind-set-Keeps (some v) p f s h = some-Keeps _ (record {
    all_vars = rw (length-set s.reg_vars p (f v)) h.all_vars;
    all_slave = rw (length-set s.reg_vars p (f v)) h.all_slave;
    all_field = rw (length-set s.reg_vars p (f v)) h.all_field;
  })

  change_at-Keeps :
      (o : Option ℕ) (f : RegVar F → RegVar F) (s : RegImage F)
      → InPlace s
      → Keeps (change_at o f s)
  change_at-Keeps none f s h = λ t e. absurd (cc)
  change_at-Keeps (some p) f s h = bind-set-Keeps (get_elem? s.reg_vars p) p f s h

  change_slave_var-Keeps :
      (id : ℕ) (f : RegVar F → RegVar F) (s : RegImage F)
      → InPlace s
      → Keeps (change_slave_var id f s)
  unfolding change_slave_var
  change_slave_var-Keeps id f s h = change_at-Keeps (Dict.lookup ◌==◌ id s.slave_vars) f s h

  change_field_var-Keeps :
      (id : ℕ) (f : RegVar F → RegVar F) (s : RegImage F)
      → InPlace s
      → Keeps (change_field_var id f s)
  unfolding change_field_var
  change_field_var-Keeps id f s h = change_at-Keeps (Dict.lookup ◌==◌ id s.field_vars) f s h

  name_units-Keeps : (of_int : ℤ → F) (s : RegImage F) → InPlace s → Keeps (name_units of_int s)
  unfolding name_units
  name_units-Keeps of_int s h = bind-Keeps _ _ (change_slave_var-Keeps _ _ s h) (λ s1 h1.
      bind-Keeps _ _ (change_slave_var-Keeps _ _ s1 h1) (λ s2 h2.
        bind-Keeps _ _ (change_slave_var-Keeps _ _ s2 h2) (λ s3 h3.
          bind-Keeps _ _ (change_field_var-Keeps _ _ s3 h3) (λ s4 h4.
            bind-Keeps _ _ (change_field_var-Keeps _ _ s4 h4) (λ s5 h5.
              bind-Keeps _ _ (change_field_var-Keeps _ _ s5 h5) (λ s6 h6.
                bind-Keeps _ _ (change_slave_var-Keeps _ _ s6 h6)
                  (λ s7 h7. change_slave_var-Keeps _ _ s7 h7)))))))

  init_driver-InPlace :
      (out : Outside) (z : F) (slave_set field_set : List IoAddr) (c : MasterConfig)
      (m : MasterDrv F) (s : RegImage F)
      → InPlace s
      → InPlace (init_driver out z slave_set field_set c m s).image
  unfolding init_driver Below
  init_driver-InPlace out z slave_set field_set c m s h =
      elim (Bool-cases
        (init out.master_path out.master_doc z (with_ints s slave_set) field_set out.has_context
          out.error_text c m).0) [
            | inl ok ↦
                rw (ok, init_driver)
                  (record {
                    all_vars = h.all_vars;
                    all_slave = h.all_slave;
                    all_field = h.all_field;
                  })
            | inr no_ ↦
                rw (no_, init_driver) (record { all_vars = tt; all_slave = tt; all_field = tt })
          ]

  abbrev started_or : Started F → Option (Started F) → Started F
  started_or d none = d
  started_or d (some r) = r

  init_named-InPlace :
      (o : Option (RegImage F)) (f : RegImage F → Started F) (r : Started F)
      → Keeps o
      → ((s : RegImage F) → InPlace s → InPlace (f s).image)
      → (o >>= λ t. some (f t)) ≡ some r
      → InPlace r.image
  init_named-InPlace none f r h k e = absurd (cc)
  init_named-InPlace (some s) f r h k e =
      subst (λ x. InPlace x.image) (ap (started_or r) e) (k s (h s refl))

  init_parsed-InPlace :
      (out : Outside) (of_int : ℤ → F) (c : MasterConfig) (m : MasterDrv F) (q : Bool × Parsed F)
      (r : Started F)
      → InPlace q.1.image
      → init_parsed out of_int c m q ≡ some r
      → InPlace r.image
  unfolding init_parsed
  init_parsed-InPlace out of_int c m (false, p) r h e =
      subst (λ x. InPlace x.image) (ap (started_or r) e) h
  init_parsed-InPlace out of_int c m (true, p) r h e =
      init_named-InPlace (name_units of_int p.image)
        (init_driver out (of_int (pos 0)) p.slave_to_update p.field_to_update c m) r
        (name_units-Keeps of_int p.image h)
        (init_driver-InPlace out (of_int (pos 0)) p.slave_to_update p.field_to_update c m) e

  pub init_image-InPlace :
      (out : Outside) (of_int : ℤ → F) (junk : F) (c : MasterConfig) (m : MasterDrv F)
      (s : RegImage F) (r : Started F)
      → InPlace s
      → init_image out of_int junk c m s ≡ some r
      → InPlace r.image
  unfolding init_image
  init_image-InPlace out of_int junk c m s r h e =
      let (q, parsed, hq) =
        parse_reg_io_info-ends out.info out.to_uint junk
          (record { image = s; slave_to_update = []; field_to_update = [] }) h in
      init_parsed-InPlace out of_int c m q r hq
        (sym (ap (λ o. o >>= init_parsed out of_int c m) parsed) ∙ e)
