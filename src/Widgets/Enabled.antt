-- ===== src/Widgets/Enabled.antt =====
-- When the buttons of HMI/src/ControlWdg.cpp are enabled, and where a set point goes.
use turbine_governor.Base.{
  ℕ, ◌≡◌, refl, inl, inr, Bool, true, not, ◌&&◌, ◌||◌, Option, none, some, List, [], ◌∷◌, ltb, ◌==◌,
  Bool-cases, arith,
}
use turbine_governor.Types.Float.{FloatOps}
use turbine_governor.Widgets.Panel.{
  Panel, Lamp, indicator, update_sp_display_txt, update_sp_state, update_reg_change_buttons,
  set_reg_state, set_loc, light, var_changed, sp_target, y_reg_state, y_reg_loc,
}

module _ {F : Type 0} where
  -- The input of the set point, its button and the types of regulation are enabled exactly in the
  -- states that take them, with the regulator in remote; the limits are those of the target.
  pub record IsConsistent (p : Panel F) : Type 0 where
    pub sp : p.sp_enabled ≡ (ltb 5 p.last_reg_st && not p.reg_in_loc)
    pub types : p.types_enabled ≡ (ltb 5 p.last_reg_st && not p.reg_in_loc)
    pub limits : (p.sp_enabled && ltb p.last_reg_st 8) ≡ true → p.sp_limits_of ≡ sp_target p

  set_reg_state-IsConsistent : (st : ℕ) (p : Panel F) → IsConsistent (set_reg_state st p)
  unfolding set_reg_state update_sp_state update_sp_display_txt update_reg_change_buttons
  set_reg_state-IsConsistent st p = record {
    sp = refl;
    types = ground arith;
    limits = λ e. ground arith;
  }

  set_loc-IsConsistent : (b : Bool) (p : Panel F) → IsConsistent (set_loc b p)
  unfolding set_loc update_sp_state update_reg_change_buttons
  set_loc-IsConsistent b p = record { sp = refl; types = ground arith; limits = λ e. ground arith }

  light-IsConsistent :
      (o : Option Lamp) (id : ℕ) (p : Panel F) → IsConsistent p → IsConsistent (light o id p)
  unfolding light
  light-IsConsistent none id p h = h
  light-IsConsistent (some lamp) id p h = record { sp = h.sp; types = h.types; limits = h.limits }

  module _ (fl : FloatOps F) (as_bool : F → Bool) where
    var_changed-IsConsistent :
        (id : ℕ) (x : F) (p : Panel F)
        → IsConsistent p
        → IsConsistent (var_changed fl as_bool id x p)
    unfolding var_changed update_sp_display_txt
    var_changed-IsConsistent id x p h = elim (Bool-cases (id == y_reg_state)) [
      | inl e ↦ rw e (set_reg_state-IsConsistent (fl.to_unsigned 32 x) p)
      | inr a ↦ elim (Bool-cases (id == y_reg_loc)) [
        | inl e ↦ rw (a, e) (set_loc-IsConsistent (as_bool x) p)
        | inr b ↦ elim (Bool-cases (id == 1000000017)) [
          | inl e ↦ rw (a, b, e) (record { sp = h.sp; types = h.types; limits = h.limits })
          | inr c ↦ elim (Bool-cases (id == 1000000018)) [
            | inl e ↦ rw (a, b, c, e) (record { sp = h.sp; types = h.types; limits = h.limits })
            | inr d ↦ elim (Bool-cases (id == 1000000019)) [
              | inl e ↦
                  rw (a, b, c, d, e) (record { sp = h.sp; types = h.types; limits = h.limits })
              | inr f ↦ rw (a, b, c, d, f) (light-IsConsistent (indicator id (as_bool x)) id p h)
            ]
          ]
        ]
      ]
    ]

    -- The changes of a list of variables, in turn.
    unfoldable pub all_changed : List (ℕ × F) → Panel F → Panel F
    unfolding var_changed
    all_changed [] p = p
    all_changed ((id, x) ∷ changes) p = all_changed changes (var_changed fl as_bool id x p)

    all_changed-IsConsistent :
        (changes : List (ℕ × F)) (p : Panel F)
        → IsConsistent p
        → IsConsistent (all_changed changes p)
    unfolding all_changed
    all_changed-IsConsistent [] p h = h
    all_changed-IsConsistent ((id, x) ∷ changes) p h =
        all_changed-IsConsistent changes (var_changed fl as_bool id x p)
          (var_changed-IsConsistent id x p h)

    first-IsConsistent :
        (id : ℕ) (x : F) (p : Panel F)
        → (id == y_reg_state || id == y_reg_loc) ≡ true
        → IsConsistent (var_changed fl as_bool id x p)
    unfolding var_changed
    first-IsConsistent id x p e = elim (Bool-cases (id == y_reg_state)) [
      | inl st ↦ rw st (set_reg_state-IsConsistent (fl.to_unsigned 32 x) p)
      | inr other ↦
          let loc : (id == y_reg_loc) ≡ true = ground arith in
          rw (other, loc) (set_loc-IsConsistent (as_bool x) p)
    ]

    -- Whatever the widget held before, from the first change of the regulator's state or place on,
    -- after any changes: the input of the set point and the choice of the type of regulation are
    -- enabled exactly when the state is above 5 and the regulator in remote, and, in a state that
    -- RegState has, an enabled input has the limits of the variable that `on_cmdSendSP_clicked` writes.
    pub all_changed-enabled :
        (p : Panel F) (id : ℕ) (x : F) (changes : List (ℕ × F))
        → (id == y_reg_state || id == y_reg_loc) ≡ true
        → let q = all_changed ((id, x) ∷ changes) p in
          (q.sp_enabled ≡ (ltb 5 q.last_reg_st && not q.reg_in_loc))
          × (q.types_enabled ≡ (ltb 5 q.last_reg_st && not q.reg_in_loc))
          × ((not (q.sp_enabled && ltb q.last_reg_st 8) || q.sp_limits_of == sp_target q) ≡ true)
    unfolding all_changed
    all_changed-enabled p id x changes e =
        let h =
          all_changed-IsConsistent changes (var_changed fl as_bool id x p)
            (first-IsConsistent id x p e) in
        let q = all_changed changes (var_changed fl as_bool id x p) in
        (
          h.sp,
          h.types,
          elim (Bool-cases (q.sp_enabled && ltb q.last_reg_st 8)) [
            | inl on ↦ rw on (ground (arith, h.limits on))
            | inr off ↦ rw off refl
          ],
        )
