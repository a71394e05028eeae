-- ===== src/Control/Cycle.antt =====
-- A cycle of Regulator/src/Control.cpp always returns, moves between the states of the control, and
-- touches the alarms for the trip and the reset only.
use turbine_governor.Base.{
  ℕ, ◌≡◌, refl, ap, ◌∙◌, inl, inr, Bool, true, false, not, some, [], ◌==◌, ◌||◌, ◌&&◌,
  if◌then◌else◌, Bool-cases, ==_iff, arith,
}
use turbine_governor.Types.Float.{FloatOps}
use turbine_governor.AlarmManager.{AlarmManager, set_alarm, clear_alarms, al_tripext}
use turbine_governor.Image.{value_at}
use turbine_governor.Image.Cells.{value_at-Has}
use turbine_governor.Control.Effects.{
  World, ask, tell, alarm, get_state, put_state, ◌>>=◌, ◌>>◌, when,
}
use turbine_governor.Control.{
  hmsm_reg_str, hmsm_reg_trip, hmsm_reg_alrep, hmsm_reg_spok, hmsm_reg_pwreg, hmsm_reg_opreg,
  zr_reg_pwsp, zr_reg_opsp, sah_tur_ovs, sahh_tur_ovs, sis_tur_sync, sis_tur_exc, sis_tur_brk,
  sis_tur_n0, zc_reg_pwsp, zc_reg_opsp, zc_reg_ssp, y_reg_state, se_reg_f1, se_reg_f2, se_reg_f3,
  int_float, above, of_bool, is_value, start_order, check_trip, next_speed, show_speed, speed_up,
  regulate_power, regulate_opening, regulate, publish_state, update_control,
}
use turbine_governor.Control.Runs.{
  used, is_used, Ready, Sound, Runs, Runs-done, Runs-bind, Runs-seq, Runs-if, Runs-weaken, Runs-ask,
  Runs-tell, Runs-get, Runs-put,
}

-- The states that a cycle may leave the control in. There is no way back to 0.
abbrev pub follows : ℕ → ℕ → Bool
follows s t =
    if s == 0
    then t == 0 || t == 1 || t == 4 || t == 6
    else if s == 1
    then t == 1 || t == 4 || t == 6
    else if s == 4
    then t == 4 || t == 6
    else (s == 6 || s == 7) && (t == 6 || t == 7)

-- The states of the control.
abbrev pub is_state : ℕ → Bool
is_state s = s == 0 || s == 1 || s == 4 || s == 6 || s == 7

module _ {F : Type 0} (fl : FloatOps F) where
  -- What the values of the trip and of the reset do to the alarms.
  abbrev pub alarms_after : F → F → AlarmManager → AlarmManager
  alarms_after trip reset al =
      if is_value fl 0 trip
      then set_alarm al_tripext al
      else if is_value fl 1 reset
      then clear_alarms al
      else al

  abbrev pub state_after : F → ℕ → ℕ
  state_after start s = if s == 0 && is_value fl 1 start then 1 else s

  start_order-eq :
      (w : World F) (x : F)
      → value_at w.image hmsm_reg_str ≡ some x
      → start_order fl w.i_state w ≡ some (tt, record w { i_state = state_after x w.i_state })
  unfolding ◌>>=◌ ask put_state
  start_order-eq w x e = elim (Bool-cases (w.i_state == 0)) [
    | inr other ↦ rw other
    | inl idle ↦ elim (Bool-cases (is_value fl 1 x)) [
      | inl on ↦ rw (idle, e, on)
      | inr off ↦ rw (idle, e, off)
    ]
  ]

  check_trip-eq :
      (w : World F) (x y : F)
      → value_at w.image hmsm_reg_trip ≡ some x
      → value_at w.image hmsm_reg_alrep ≡ some y
      → check_trip fl w ≡ some (tt, record w { alarms = alarms_after x y w.alarms })
  unfolding ◌>>=◌ ask alarm
  check_trip-eq w x y e h = elim (Bool-cases (is_value fl 0 x)) [
    | inl trip ↦ rw (e, trip)
    | inr good ↦ elim (Bool-cases (is_value fl 1 y)) [
      | inl reset ↦ rw (e, good, h, reset)
      | inr keep ↦ rw (e, good, h, keep)
    ]
  ]

  module _ {s : ℕ} {al : AlarmManager} where
    show_speed-Runs : (x : F) → Runs (Sound s al) (show_speed fl x) (λ _. Sound s al)
    show_speed-Runs x =
        Runs-seq _ _
          (Runs-seq _ _
            (Runs-seq _ _
              (Runs-seq _ _
                (Runs-seq _ _
                  (Runs-seq _ _ (Runs-tell se_reg_f1 _ refl) (Runs-tell se_reg_f2 _ refl))
                  (Runs-tell se_reg_f3 _ refl))
                (Runs-tell sis_tur_n0 _ refl))
              (Runs-tell sis_tur_brk _ refl))
            (Runs-tell sis_tur_exc _ refl))
          (Runs-tell sis_tur_sync _ refl)

    -- A write that goes with a change of state.
    switch :
        (b : Bool) (id t : ℕ) (x : F)
        → is_used id used ≡ true
        → Runs (Sound s al) (when b (tell id x >> put_state t)) (λ _. Sound (if b then t else s) al)
    switch true id t x u = Runs-seq _ _ (Runs-tell id x u) (Runs-put t)
    switch false id t x u = Runs-done tt

  speed_up-Runs :
      (s : ℕ) (al : AlarmManager)
      → (s == 1 || s == 4) ≡ true
      → Runs (Sound s al) (speed_up fl) (λ _ w. (t : ℕ) × (follows s t ≡ true) × Sound t al w)
  speed_up-Runs s al h = Runs-bind _ _ (Runs-ask se_reg_f1 refl) (λ old. after (next_speed fl old))
    where
      after :
          (x : F)
          → Runs
              (Sound s al)
              (show_speed fl x
                >> when (above fl x 59) (tell zc_reg_ssp (int_float fl 60) >> put_state 4)
                >> tell sah_tur_ovs (of_bool fl (not (above fl x 62)))
                >> tell sahh_tur_ovs (of_bool fl (not (above fl x 70)))
                >> when (above fl x 65) (tell zc_reg_pwsp (int_float fl 50) >> put_state 6))
              (λ _ w. (t : ℕ) × (follows s t ≡ true) × Sound t al w)
      after x =
          Runs-weaken _
            (Runs-seq _ _
              (Runs-seq _ _
                (Runs-seq _ _
                  (Runs-seq _ _ (show_speed-Runs x) (switch (above fl x 59) zc_reg_ssp 4 _ refl))
                  (Runs-tell sah_tur_ovs _ refl))
                (Runs-tell sahh_tur_ovs _ refl))
              (switch (above fl x 65) zc_reg_pwsp 6 _ refl))
            (λ _ w p. (_, ground arith, p))

  stays :
      (s t : ℕ) (al : AlarmManager)
      → follows s t ≡ true
      → (w : World F) → Sound t al w
      → (t : ℕ) × (follows s t ≡ true) × Sound t al w
  stays s t al h w p = (t, h, p)

  regulate_power-Runs :
      (al : AlarmManager)
      → Runs (Sound 6 al) (regulate_power fl) (λ _ w. (t : ℕ) × (follows 6 t ≡ true) × Sound t al w)
  regulate_power-Runs al = Runs-bind _ _ (Runs-ask hmsm_reg_opreg refl) (λ x.
      Runs-if (is_value fl 1 x) _ _ (Runs-weaken _ (Runs-put 7) (λ _ w p. (7, refl, p))) (
        Runs-weaken _
          (Runs-bind _ _ (Runs-ask hmsm_reg_spok refl) (λ y.
            Runs-if (is_value fl 1 y) _ _
              (Runs-bind _ _ (Runs-ask zr_reg_pwsp refl) (λ z. Runs-tell zc_reg_pwsp z refl))
              (Runs-done tt)))
          (λ _ w p. (6, refl, p))))

  regulate_opening-Runs :
      (al : AlarmManager)
      → Runs
          (Sound 7 al)
          (regulate_opening fl)
          (λ _ w. (t : ℕ) × (follows 7 t ≡ true) × Sound t al w)
  regulate_opening-Runs al = Runs-bind _ _ (Runs-ask hmsm_reg_pwreg refl) (λ x.
      Runs-if (is_value fl 1 x) _ _ (Runs-weaken _ (Runs-put 6) (λ _ w p. (6, refl, p))) (
        Runs-weaken _
          (Runs-bind _ _ (Runs-ask zr_reg_opsp refl) (λ z. Runs-tell zc_reg_opsp z refl))
          (λ _ w p. (7, refl, p))))

  regulate-Runs :
      (s : ℕ) (al : AlarmManager)
      → is_state s ≡ true
      → Runs (Sound s al) (regulate fl s) (λ _ w. (t : ℕ) × (follows s t ≡ true) × Sound t al w)
  regulate-Runs s al h = elim (Bool-cases (s == 1 || s == 4)) [
    | inl up ↦ rw up (speed_up-Runs s al up)
    | inr b ↦ elim (Bool-cases (s == 6)) [
      | inl six ↦ let e : s ≡ 6 = (==_iff s 6).0 six in rw e (regulate_power-Runs al)
      | inr c ↦ elim (Bool-cases (s == 7)) [
        | inl seven ↦ let e : s ≡ 7 = (==_iff s 7).0 seven in rw e (regulate_opening-Runs al)
        | inr d ↦
            let e : s ≡ 0 = ground arith in
            rw e (Runs-weaken _ (Runs-done tt) (λ _ w p. (0, refl, p)))
      ]
    ]
  ]

  publish_state-Runs :
      (s : ℕ) (al : AlarmManager) → Runs (Sound s al) (publish_state fl) (λ _. Sound s al)
  publish_state-Runs s al = Runs-bind _ _ Runs-get (λ n w p. Runs-tell y_reg_state _ refl w p.1)

  from_state-Runs :
      (s : ℕ) (al : AlarmManager)
      → is_state s ≡ true
      → Runs
          (Sound s al)
          (get_state >>= λ n. regulate fl n)
          (λ _ w. (t : ℕ) × (follows s t ≡ true) × Sound t al w)
  from_state-Runs s al h = Runs-bind _ _ Runs-get (λ n w p. rw p.0 (regulate-Runs s al h w p.1))

  state_after-is_state : (x : F) (s : ℕ) → is_state s ≡ true → is_state (state_after x s) ≡ true
  state_after-is_state x s h = ground arith

  follows-state_after :
      (x : F) (s t : ℕ)
      → is_state s ≡ true
      → follows (state_after x s) t ≡ true
      → follows s t ≡ true
  follows-state_after x s t h f = ground arith

  follows-is_state : (s t : ℕ) → is_state s ≡ true → follows s t ≡ true → is_state t ≡ true
  follows-is_state s t h f = ground arith

  before_regulation :
      (w : World F) (a b c : F)
      → value_at w.image hmsm_reg_str ≡ some a
      → value_at w.image hmsm_reg_trip ≡ some b
      → value_at w.image hmsm_reg_alrep ≡ some c
      → ((get_state >>= λ s. start_order fl s) >> check_trip fl) w
        ≡ some
            (tt, record w { i_state = state_after a w.i_state; alarms = alarms_after b c w.alarms })
  unfolding ◌>>◌ ◌>>=◌ get_state
  before_regulation w a b c e f g =
      rw (start_order-eq w a e, ◌>>◌, ◌>>=◌)
        (check_trip-eq (record w { i_state = state_after a w.i_state }) b c f g)

  -- On an image that has the variables of the control and no index of addresses, a cycle of the control always returns: it
  -- uses no null pointer. The image keeps these variables; the state of the control moves by
  -- `follows`, so it never returns to 0; and the alarms change in two ways only: the external trip is
  -- raised while the trip signal is 0, and else all alarms are cleared while the reset signal is 1.
  pub update_control-returns :
      (w : World F) (trip reset : F)
      → Ready w.image
      → w.image.field_addr_index ≡ []
      → is_state w.i_state ≡ true
      → value_at w.image hmsm_reg_trip ≡ some trip
      → value_at w.image hmsm_reg_alrep ≡ some reset
      → (w' : World F) × (update_control fl w ≡ some (tt, w'))
        × Ready w'.image
        × (follows w.i_state w'.i_state ≡ true)
        × (is_state w'.i_state ≡ true)
        × (w'.alarms ≡ alarms_after trip reset w.alarms)
        × (w'.image.field_addr_index ≡ [])
  unfolding update_control ◌>>◌
  update_control-returns w b c ready none_indexed h f g =
      let (a, e) = value_at-Has w.image hmsm_reg_str (ready hmsm_reg_str refl) in
      let s = state_after a w.i_state in
      let al = alarms_after b c w.alarms in
      let w₁ = record w { i_state = s; alarms = al } in
      let (_, w₂, e₂, (t, next, p₂)) =
        from_state-Runs s al (state_after-is_state a w.i_state h) w₁ (record {
          ready = ready;
          no_index = none_indexed;
          in_state = refl;
          same_alarms = refl;
        }) in
      let (_, w₃, e₃, p₃) = publish_state-Runs t al w₂ p₂ in
      let moved : follows w.i_state w₃.i_state ≡ true =
        ap (follows w.i_state) p₃.in_state ∙ follows-state_after a w.i_state t h next in
      (
        w₃,
        rw (before_regulation w a b c e f g, e₂, e₃, update_control, ◌>>◌),
        p₃.ready,
        moved,
        follows-is_state w.i_state w₃.i_state h moved,
        p₃.same_alarms,
        p₃.no_index,
      )
