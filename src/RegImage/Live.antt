-- ===== src/RegImage/Live.antt =====
-- The image of RegImage.cpp after `init`: `updateImage` returns.
use turbine_governor.Base.{
  ℕ, ◌<◌, ◌≡◌, refl, inl, inr, ◌&&◌, Option, none, some, List, [], ◌∷◌, ◌++◌, length, get_elem?,
  get_or, get_elem?-eq, ◌==◌, leb, ltb, if◌then◌else◌, Bool-cases, Option-cases, arith,
}
use turbine_governor.Base.Dict
use turbine_governor.Base.Int.{ℤ, pos}
use turbine_governor.Types.{IoAddr, same_addr}
use turbine_governor.Master.State.{MasterDrv}
use turbine_governor.Master.Reading.{has_addr}
use turbine_governor.Master.Access.{VarImage, read_var, read_int, get_changed_vars}
use turbine_governor.RegImage.Image.{
  RegVar, RegImage, Signal, new_var_updated, announce, announce_int, announce_var, io_ints,
  blank_image, update_var, update_vars, update_image, serve, is_running,
}
use turbine_governor.RegImage.Places.{InPlace, lookup-Below}

module _ {F : Type 0} where
  pub found :
      (xs : List (RegVar F)) (p : ℕ) → p < length xs → (v : RegVar F) × (get_elem? xs p ≡ some v)
  found [] p h = absurd (omega arith)
  found (x ∷ xs) p h = (get_or (x ∷ xs) p x, get_elem?-eq (x ∷ xs) p x h)

  abbrev Done : Option (RegImage F × List (Signal F)) → Type 0
  Done o = (r : RegImage F × List (Signal F)) × (o ≡ some r) × InPlace r.0

  announce-InPlace :
      (a : IoAddr) (signal : Signal F) (s : RegImage F)
      → InPlace s
      → InPlace (announce a signal s).0
  unfolding new_var_updated
  announce-InPlace a signal s h = elim (Option-cases s.last_var_changes) [
    | inl e ↦ rw (e, new_var_updated) h
    | inr (noted, e) ↦
        elim (Bool-cases
          (length (if has_addr a noted then noted else a ∷ noted) == s.vars_to_update)) [
            | inl all_ ↦
                rw (e, all_, new_var_updated)
                  (record {
                    all_vars = h.all_vars;
                    all_slave = h.all_slave;
                    all_field = h.all_field;
                  })
            | inr not_all ↦
                rw (e, not_all, new_var_updated)
                  (record {
                    all_vars = h.all_vars;
                    all_slave = h.all_slave;
                    all_field = h.all_field;
                  })
          ]
  ]

  announce_int-InPlace :
      (o : Option ℕ) (a : IoAddr) (s : RegImage F) → InPlace s → InPlace (announce_int o a s).0
  announce_int-InPlace none a s h = h
  announce_int-InPlace (some val) a s h =
      announce-InPlace a (Signal.ro_int_changed val a.channel) s h

  announce_var-InPlace :
      (o : Option (VarImage F)) (a : IoAddr) (s : RegImage F)
      → InPlace s
      → InPlace (announce_var o a s).0
  announce_var-InPlace none a s h = h
  announce_var-InPlace (some image) a s h = announce-InPlace a (Signal.var_changed image) s h

  update_var-Done :
      (z : F) (a : IoAddr) (m : MasterDrv F) (s : RegImage F)
      → InPlace s
      → Done (update_var z a m s)
  unfolding update_var
  update_var-Done z a m s h =
      elim (Bool-cases (ltb 0 (io_ints s) && leb 1 a.channel && leb a.channel (io_ints s))) [
        | inl int ↦ rw (int, update_var) (_, refl, announce_int-InPlace (read_int a m) a s h)
        | inr var ↦ elim (Option-cases (Dict.lookup same_addr a s.vars)) [
          | inl e ↦ rw (var, e, update_var) ((s, []), refl, h)
          | inr (p, e) ↦
              let (v, at_p) =
                found s.reg_vars p
                  (lookup-Below same_addr a (length s.reg_vars) s.vars p h.all_vars e) in
              rw (var, e, update_var, at_p)
                (_, refl, announce_var-InPlace (read_var a m (blank_image z v)) a s h)
        ]
      ]

  update_vars-Done :
      (z : F) (as_ : List IoAddr) (m : MasterDrv F) (s : RegImage F)
      → InPlace s
      → Done (update_vars z as_ m s)
  unfolding update_vars
  update_vars-Done z [] m s h = ((s, []), refl, h)
  update_vars-Done z (a ∷ as_) m s h =
      let ((t, signals), e, h') = update_var-Done z a m s h in
      let ((u, more), e', h'') = update_vars-Done z as_ m t h' in
      ((u, signals ++ more), rw (e, e') refl, h'')

  pub update_image-Done :
      (of_int : ℤ → F) (now : ℕ) (s : RegImage F) (m : MasterDrv F)
      → InPlace s
      → (t : RegImage F) × (m' : MasterDrv F) × (signals : List (Signal F)) × (update_image of_int
            now s m
          ≡ some (t, m', signals))
        × InPlace t
  unfolding update_image
  update_image-Done of_int now s m h = elim (Bool-cases (is_running m.state)) [
    | inr off ↦ (s, m, [], rw off refl, h)
    | inl on ↦
        let (left, m') = serve of_int now s.buttons.uncompleted m in
        let (changes, m'') = get_changed_vars m' in
        let s' : RegImage F = record s { buttons = record s.buttons { uncompleted = left } } in
        let ((t, signals), e, h') =
          update_vars-Done (of_int (pos 0)) changes m'' s'
            (record { all_vars = h.all_vars; all_slave = h.all_slave; all_field = h.all_field }) in
        (t, m'', signals, rw (on, e) refl, h')
  ]
