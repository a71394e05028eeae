-- ===== src/Control/Runs.antt =====
-- Rules for the effects of Regulator/src/Control.cpp: an action that is started where its variables
-- are there returns, and ends in a world of which a predicate holds.
use turbine_governor.Base.{
  ℕ, ◌≡◌, refl, ap, ◌∙◌, Bool, true, false, some, List, [], ◌∷◌, ◌==◌, ◌||◌, if◌then◌else◌,
}
use turbine_governor.AlarmManager.{AlarmManager}
use turbine_governor.Image.{Image}
use turbine_governor.Image.Cells.{Has, value_at-Has, store_at-Has}
use turbine_governor.Control.Effects.{
  World, Act, done, ask, tell, alarm, get_state, put_state, ◌>>=◌, ◌>>◌,
}
use turbine_governor.Control.{
  hmsm_reg_str, hmsm_reg_trip, hmsm_reg_alrep, hmsm_reg_spok, hmsm_reg_pwreg, hmsm_reg_opreg,
  zr_reg_pwsp, zr_reg_opsp, sah_tur_ovs, sahh_tur_ovs, sis_tur_sync, sis_tur_exc, sis_tur_brk,
  sis_tur_n0, zc_reg_pwsp, zc_reg_opsp, zc_reg_ssp, y_reg_state, se_reg_f1, se_reg_f2, se_reg_f3,
}

-- The identifiers that the control uses.
abbrev pub used : List ℕ
used =
    hmsm_reg_str ∷ hmsm_reg_trip ∷ hmsm_reg_alrep ∷ hmsm_reg_spok ∷ hmsm_reg_pwreg ∷ hmsm_reg_opreg
    ∷ zr_reg_pwsp ∷ zr_reg_opsp ∷ sah_tur_ovs ∷ sahh_tur_ovs ∷ sis_tur_sync ∷ sis_tur_exc
    ∷ sis_tur_brk ∷ sis_tur_n0 ∷ zc_reg_pwsp ∷ zc_reg_opsp ∷ zc_reg_ssp ∷ y_reg_state ∷ se_reg_f1
    ∷ se_reg_f2 ∷ se_reg_f3 ∷ []

abbrev pub is_used : ℕ → List ℕ → Bool
is_used id [] = false
is_used id (x ∷ xs) = x == id || is_used id xs

module _ {F : Type 0} where
  -- The image has every variable that the control uses.
  abbrev pub Ready : Image F → Type 0
  Ready img = (id : ℕ) → is_used id used ≡ true → Has img id

  pub record Sound (s : ℕ) (al : AlarmManager) (w : World F) : Type 0 where
    pub ready : Ready w.image
    pub no_index : w.image.field_addr_index ≡ []
    pub in_state : w.i_state ≡ s
    pub same_alarms : w.alarms ≡ al

  -- Started where `P` holds, the action returns, and ends where `Q` holds.
  abbrev pub Runs : {A : Type 0} → (World F → Type 0) → Act F A → (A → World F → Type 0) → Type 0
  Runs {A} P m Q = (w : World F) → P w → (a : A) × (w' : World F) × (m w ≡ some (a, w')) × Q a w'

  module _ {P : World F → Type 0} where
    pub Runs-done : {A : Type 0} (a : A) → Runs P (done a) (λ _. P)
    Runs-done a w p = (a, w, refl, p)

    pub Runs-bind :
        {A B : Type 0} {Q : A → World F → Type 0} {R : B → World F → Type 0} (m : Act F A)
        (f : A → Act F B)
        → Runs P m Q
        → ((a : A) → Runs (Q a) (f a) R)
        → Runs P (m >>= f) R
    unfolding ◌>>=◌
    Runs-bind m f h k w p =
        let (a, w', e, q) = h w p in let (b, w'', e', r) = k a w' q in (b, w'', rw (e, ◌>>=◌) e', r)

    pub Runs-seq :
        {B : Type 0} {Q : World F → Type 0} {R : B → World F → Type 0} (m : Act F Unit)
        (k : Act F B)
        → Runs P m (λ _. Q)
        → Runs Q k R
        → Runs P (m >> k) R
    unfolding ◌>>◌
    Runs-seq m k h h' w p =
        let (a, w', e, q) = h w p in let (b, w'', e', r) = h' w' q in (b, w'', rw (e, ◌>>◌) e', r)

    pub Runs-if :
        {A : Type 0} {Q : A → World F → Type 0} (b : Bool) (m k : Act F A)
        → Runs P m Q
        → Runs P k Q
        → Runs P (if b then m else k) Q
    Runs-if true m k h h' = h
    Runs-if false m k h h' = h'

    pub Runs-weaken :
        {A : Type 0} {Q R : A → World F → Type 0} (m : Act F A)
        → Runs P m Q
        → ((a : A) (w : World F) → Q a w → R a w)
        → Runs P m R
    Runs-weaken m h k w p = let (a, w', e, q) = h w p in (a, w', e, k a w' q)

  module _ {s : ℕ} {al : AlarmManager} where
    pub Runs-ask : (id : ℕ) → is_used id used ≡ true → Runs (Sound s al) (ask id) (λ _. Sound s al)
    unfolding ask
    Runs-ask id u w p =
        let (x, e) = value_at-Has w.image id (p.ready id u) in (x, w, rw (e, ask), p)

    pub Runs-tell :
        (id : ℕ) (x : F) → is_used id used ≡ true → Runs (Sound s al) (tell id x) (λ _. Sound s al)
    unfolding tell
    Runs-tell id x u w p =
        let (img, e, kept, index) = store_at-Has w.image id x (p.ready id u) in
        (
          tt,
          record w { image = img },
          rw (e, tell),
          record {
            ready = λ k v. kept k (p.ready k v);
            no_index = index ∙ p.no_index;
            in_state = p.in_state;
            same_alarms = p.same_alarms;
          },
        )

    pub Runs-alarm :
        (f : AlarmManager → AlarmManager) → Runs (Sound s al) (alarm f) (λ _. Sound s (f al))
    unfolding alarm
    Runs-alarm f w p = (
      tt,
      _,
      refl,
      record {
        ready = p.ready;
        no_index = p.no_index;
        in_state = p.in_state;
        same_alarms = ap f p.same_alarms;
      },
    )

    pub Runs-get : Runs (Sound s al) get_state (λ n w. (n ≡ s) × Sound s al w)
    unfolding get_state
    Runs-get w p = (w.i_state, w, refl, (p.in_state, p))

    pub Runs-put : (t : ℕ) → Runs (Sound s al) (put_state t) (λ _. Sound t al)
    unfolding put_state
    Runs-put t w p = (
      tt,
      _,
      refl,
      record {
        ready = p.ready;
        no_index = p.no_index;
        in_state = refl;
        same_alarms = p.same_alarms;
      },
    )
