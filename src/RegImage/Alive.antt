-- ===== src/RegImage/Alive.antt =====
-- The image of RegImage.cpp over its life: `init`, then calls of the widgets, passes of the timer and
-- callbacks of the driver in any order.
use mathlib.Core.Path.{subst}
use turbine_governor.Base.{
  ℕ, ◌≡◌, refl, ap, sym, ◌∙◌, inl, inr, Bool, true, false, Option, none, some, List, [], ◌∷◌,
  length, get_elem?, ◌==◌, Bool-cases, Option-cases,
}
use turbine_governor.Base.Dict
use turbine_governor.Base.Int.{ℤ}
use turbine_governor.Types.{IoAddr, same_addr}
use turbine_governor.Master.State.{MasterDrv}
use turbine_governor.Master.Queue.{write, force}
use turbine_governor.Master.Setup.{MasterConfig}
use turbine_governor.RegImage.Buttons.{driver_write_time_out}
use turbine_governor.RegImage.Image.{
  RegVar, RegImage, Signal, write_var, force_var, write_button, write_var_as_button, update_image,
  on_write_time_out, on_write_success, default_write_timeout,
}
use turbine_governor.RegImage.Setup.{Outside, Started, init_image, construct_image}
use turbine_governor.RegImage.Places.{Below, InPlace, lookup-Below}
use turbine_governor.RegImage.Live.{found, update_image-Done}
use turbine_governor.RegImage.Inits.{init_image-InPlace}

the {ℓ} : {A : Type ℓ} → A → Option A → A
the d none = d
the d (some a) = a

-- Two results of a computation are one.
one_result {ℓ} : {A : Type ℓ} (o : Option A) (a b : A) → o ≡ some a → o ≡ some b → a ≡ b
unfolding the
one_result o a b e f = ap (the a) (sym e ∙ f)

module _ {F : Type 0} where
  -- The driver changes between the calls as it likes.
  pub data InUse (of_int : ℤ → F) : RegImage F → Type 0 where
    started :
        (out : Outside) (junk : F) (memory : RegImage F) (c : MasterConfig) (m : MasterDrv F)
        (r : Started F)
        → init_image out of_int junk c m (construct_image memory) ≡ some r
        → r.ok ≡ true
        → InUse of_int r.image
    updated :
        {s : RegImage F}
        → InUse of_int s
        → (now : ℕ) (m m' : MasterDrv F) (t : RegImage F) (signals : List (Signal F))
        → update_image of_int now s m ≡ some (t, m', signals)
        → InUse of_int t
    pressed :
        {s : RegImage F}
        → InUse of_int s
        → (id : ℕ) (val ok : Bool) (now : ℕ) (m m' : MasterDrv F) (t : RegImage F)
        → write_var_as_button of_int id val now s m ≡ some (ok, t, m')
        → InUse of_int t
    timed_out :
        {s : RegImage F}
        → InUse of_int s
        → (a : IoAddr) (t : RegImage F) (signals : List (Signal F))
        → on_write_time_out a s ≡ some (t, signals)
        → InUse of_int t
    succeeded :
        {s : RegImage F} → InUse of_int s → (a : IoAddr) → InUse of_int (on_write_success a s)

  module _ (s : RegImage F) (h : InPlace s) where
    slave_var :
        (id p : ℕ)
        → Dict.lookup ◌==◌ id s.slave_vars ≡ some p
        → (v : RegVar F) × (get_elem? s.reg_vars p ≡ some v)
    slave_var id p e =
        found s.reg_vars p (lookup-Below ◌==◌ id (length s.reg_vars) s.slave_vars p h.all_slave e)

    field_var :
        (id p : ℕ)
        → Dict.lookup ◌==◌ id s.field_vars ≡ some p
        → (v : RegVar F) × (get_elem? s.reg_vars p ≡ some v)
    field_var id p e =
        found s.reg_vars p (lookup-Below ◌==◌ id (length s.reg_vars) s.field_vars p h.all_field e)

    write_var-Returns :
        (id : ℕ) (x : F) (now : ℕ) (m : MasterDrv F)
        → (r : Bool × MasterDrv F) × (write_var id x now s m ≡ some r)
    unfolding write_var
    write_var-Returns id x now m = elim (Option-cases (Dict.lookup ◌==◌ id s.slave_vars)) [
      | inl e ↦ ((false, m), rw (e, write_var) refl)
      | inr (p, e) ↦
          let (v, at_p) = slave_var id p e in
          (write x v.addr default_write_timeout now m, rw (e, write_var, at_p) refl)
    ]

    force_var-Returns :
        (id : ℕ) (x : F) (on : Bool) (now : ℕ) (m : MasterDrv F)
        → (r : Bool × MasterDrv F) × (force_var id x on now s m ≡ some r)
    unfolding force_var
    force_var-Returns id x on now m = elim (Option-cases (Dict.lookup ◌==◌ id s.field_vars)) [
      | inl e ↦ ((false, m), rw (e, force_var) refl)
      | inr (p, e) ↦
          let (v, at_p) = field_var id p e in
          (force x v.addr on default_write_timeout now m, rw (e, force_var, at_p) refl)
    ]

    write_var_as_button-Returns :
        (of_int : ℤ → F) (id : ℕ) (val : Bool) (now : ℕ) (m : MasterDrv F)
        → (r : Bool × RegImage F × MasterDrv F) × (write_var_as_button of_int id val now s m
            ≡ some r)
          × InPlace r.1
    unfolding write_var_as_button write_button
    write_var_as_button-Returns of_int id val now m =
        elim (Option-cases (Dict.lookup ◌==◌ id s.slave_vars)) [
          | inl e ↦ ((false, s, m), rw (e, write_var_as_button) refl, h)
          | inr (p, e) ↦
              let (v, at_p) = slave_var id p e in
              (
                write_button of_int v.addr val now s m,
                rw (e, write_var_as_button, at_p) refl,
                record { all_vars = h.all_vars; all_slave = h.all_slave; all_field = h.all_field },
              )
        ]

    on_write_time_out-Returns :
        (a : IoAddr)
        → (r : RegImage F × List (Signal F)) × (on_write_time_out a s ≡ some r) × InPlace r.0
    unfolding on_write_time_out
    on_write_time_out-Returns a = elim (Option-cases (Dict.lookup same_addr a s.vars)) [
      | inl e ↦ ((s, []), rw (e, on_write_time_out) refl, h)
      | inr (p, e) ↦
          let (v, at_p) =
            found s.reg_vars p
              (lookup-Below same_addr a (length s.reg_vars) s.vars p h.all_vars e) in
          elim (Bool-cases (driver_write_time_out a s.buttons).0) [
            | inl signals ↦ (
              (
                record s { buttons = (driver_write_time_out a s.buttons).1 },
                Signal.write_error v.var_id ∷ [],
              ),
              rw (e, on_write_time_out, signals, at_p) refl,
              record { all_vars = h.all_vars; all_slave = h.all_slave; all_field = h.all_field },
            )
            | inr quiet ↦ (
              (record s { buttons = (driver_write_time_out a s.buttons).1 }, []),
              rw (e, on_write_time_out, quiet) refl,
              record { all_vars = h.all_vars; all_slave = h.all_slave; all_field = h.all_field },
            )
          ]
    ]

  construct_image-InPlace : (memory : RegImage F) → InPlace (construct_image memory)
  unfolding Below
  construct_image-InPlace memory = record { all_vars = tt; all_slave = tt; all_field = tt }

  InUse-InPlace : (of_int : ℤ → F) (s : RegImage F) → InUse of_int s → InPlace s
  unfolding on_write_success
  InUse-InPlace of_int _ (InUse.started out junk memory c m r e ok) =
      init_image-InPlace out of_int junk c m (construct_image memory) r
        (construct_image-InPlace memory) e
  InUse-InPlace of_int _ (InUse.updated {s = s} u now m m' t signals e) =
      let (t', m'', signals', e', h) =
        update_image-Done of_int now s m (InUse-InPlace of_int s u) in
      subst (λ r. InPlace r.0)
        (one_result (update_image of_int now s m) (t', m'', signals') (t, m', signals) e' e) h
  InUse-InPlace of_int _ (InUse.pressed {s = s} u id val ok now m m' t e) =
      let (r, e', h) =
        write_var_as_button-Returns s (InUse-InPlace of_int s u) of_int id val now m in
      subst (λ x. InPlace x.1)
        (one_result (write_var_as_button of_int id val now s m) r (ok, t, m') e' e) h
  InUse-InPlace of_int _ (InUse.timed_out {s = s} u a t signals e) =
      let (r, e', h) = on_write_time_out-Returns s (InUse-InPlace of_int s u) a in
      subst (λ x. InPlace x.0) (one_result (on_write_time_out a s) r (t, signals) e' e) h
  InUse-InPlace of_int _ (InUse.succeeded {s = s} u a) =
      let h = InUse-InPlace of_int s u in
      record { all_vars = h.all_vars; all_slave = h.all_slave; all_field = h.all_field }

  -- Once `init` has returned true, in every state that presses of buttons, passes of `updateImage` and
  -- callbacks of the driver lead to, with any state of the driver at each of them: `updateImage`,
  -- `writeVar`, `forceVar`, `writeVarAsButton` and the callback of a time out return, without an access
  -- through a null pointer.
  pub InUse-never_stuck :
      (of_int : ℤ → F) (s : RegImage F)
      → InUse of_int s
      → (id now : ℕ) (x : F) (on : Bool) (a : IoAddr) (m : MasterDrv F)
      → ((r : RegImage F × MasterDrv F × List (Signal F)) × (update_image of_int now s m ≡ some r))
        × ((r : Bool × MasterDrv F) × (write_var id x now s m ≡ some r))
        × ((r : Bool × MasterDrv F) × (force_var id x on now s m ≡ some r))
        × ((r : Bool × RegImage F × MasterDrv F) × (write_var_as_button of_int id on now s m
              ≡ some r))
        × ((r : RegImage F × List (Signal F)) × (on_write_time_out a s ≡ some r))
  InUse-never_stuck of_int s u id now x on a m =
      let h = InUse-InPlace of_int s u in
      let (t, m', signals, e, _) = update_image-Done of_int now s m h in
      let (r, e', _) = write_var_as_button-Returns s h of_int id on now m in
      let (q, e'', _) = on_write_time_out-Returns s h a in
      (
        ((t, m', signals), e),
        write_var-Returns s h id x now m,
        force_var-Returns s h id x on now m,
        (r, e'),
        (q, e''),
      )
