-- ===== src/Field/Starts.antt =====
-- `init` of EthercatDrv.cpp: the end of its wait, and the first rounds after it.
use Prim.Native.String.{String}
use mathlib.Core.Path.{subst}
use turbine_governor.Base.{
  ℕ, zero, suc, ◌+◌, ◌-◌, ◌*◌, ◌≤◌, ◌<◌, ◌≡◌, refl, ap, sym, ◌∙◌, ◌⊎◌, inl, inr, Bool, true, false,
  Option, none, some, length, length-replicate, ◌==◌, Bool-cases, true-false, Option-cases, arith,
}
use turbine_governor.Types.{DrvState}
use turbine_governor.Types.Float.{FloatOps}
use turbine_governor.Xml.{Node}
use turbine_governor.Slave.Config.{Document}
use turbine_governor.Field.Bus.{ec_state_operational, check_slaves_wkc}
use turbine_governor.Field.Scan.{uses_trys}
use turbine_governor.Field.Checks.{check_slaves_wkc-past_end}
use turbine_governor.Field.Kinds.{DigitalDev}
use turbine_governor.Field.Drive.{EthercatDrv, Exchange, is_un_init, loop_round, start}
use turbine_governor.Field.Init.{Soem, wait_operational, wait_trys, load_xml_config, init_bus, init}

Ends : (ℕ → ℕ) → ℕ → ℕ → Option ℕ → Type 0
Ends checked trys i o =
    (n : ℕ) × (o ≡ some n)
    × (i + 1 ≤ n)
    × (n ≤ i + trys + 1)
    × ((n ≡ i + trys + 1) ⊎ ((checked (n - 1) == ec_state_operational) ≡ true))

wait_operational-Ends :
    (checked : ℕ → ℕ) (k trys i : ℕ)
    → trys < k
    → Ends checked trys i (wait_operational checked k trys i)
unfolding wait_operational Ends
wait_operational-Ends checked zero trys i enough = absurd (omega arith)
wait_operational-Ends checked (suc k) trys i enough = elim (Bool-cases (trys == 0)) [
  | inl last ↦ rw last (i + 1, refl, omega arith, omega arith, inl (ground arith))
  | inr more ↦ elim (Bool-cases (checked i == ec_state_operational)) [
    | inl good ↦
        let back : i + 1 - 1 ≡ i = omega arith in
        rw (more, good)
          (i + 1, refl, omega arith, omega arith, inr (ap (λ j. checked j == 8) back ∙ good))
    | inr bad ↦
        let some_ : 1 ≤ trys = ground arith in
        let (n, e, least, most, why) =
          wait_operational-Ends checked k (trys - 1) (i + 1) (omega arith) in
        rw (more, bad)
          (
            n,
            e,
            omega arith,
            omega arith,
            elim why [ inl all_ ↦ inl (omega arith) | inr good ↦ inr good ],
          )
  ]
]

-- Whatever the modules do, the wait of `init` for the operational state ends: after at least one check
-- and at most 201, with the modules operational at the last check unless it is the 201st.
pub wait_operational-ends :
    (checked : ℕ → ℕ)
    → (n : ℕ) × (wait_operational checked (suc wait_trys) wait_trys 0 ≡ some n)
      × (1 ≤ n)
      × (n ≤ 201)
      × ((n ≡ 201) ⊎ ((checked (n - 1) == ec_state_operational) ≡ true))
unfolding Ends
wait_operational-ends checked =
    wait_operational-Ends checked (suc wait_trys) wait_trys 0 (omega arith)

module _ {F : Type 0} where
  -- The tries of a driver that `init` has made.
  Ready : Soem → Bool × EthercatDrv F → Type 0
  Ready soem (ok, t) =
      (ok ≡ false)
      ⊎ ((length t.modules.com_trys ≡ soem.slave_count)
          × (t.modules.slave_count ≡ soem.slave_count)
          × (t.state ≡ DrvState.stopped))

  ReadyIf : Soem → Option (Bool × EthercatDrv F) → Type 0
  ReadyIf soem none = Unit
  ReadyIf soem (some r) = Ready soem r

  init_bus-Ready : (soem : Soem) (s : EthercatDrv F) → ReadyIf soem (init_bus soem s)
  unfolding init_bus ReadyIf Ready
  init_bus-Ready soem s = elim (Bool-cases soem.has_interface) [
    | inr no_ ↦ rw no_ (inl refl)
    | inl a ↦ elim (Bool-cases soem.has_slaves) [
      | inr no_ ↦ rw (a, no_) (inl refl)
      | inl b ↦ elim (Bool-cases soem.is_safe_op) [
        | inr no_ ↦ rw (a, b, no_) (inl refl)
        | inl c ↦
            let (n, e, _, _, _) = wait_operational-ends soem.checked in
            elim (Bool-cases (soem.checked (n - 1) == ec_state_operational)) [
              | inr no_ ↦ rw (a, b, c, e, no_) (inl refl)
              | inl d ↦ rw (a, b, c, e, d) (inr (length-replicate soem.slave_count 0, refl, refl))
            ]
      ]
    ]
  ]

  module _ (fl : FloatOps F) (text_of : Node → Option String) (junk : DigitalDev F) where
    init-Ready :
        (path : String) (doc : Document) (soem : Soem) (s : EthercatDrv F)
        → ReadyIf soem (init fl text_of junk path doc soem s)
    unfolding init ReadyIf Ready
    init-Ready path doc soem s = elim (Bool-cases (is_un_init s.state)) [
      | inr busy ↦ rw busy (inl refl)
      | inl fresh ↦ elim (Option-cases (load_xml_config fl text_of junk path doc s)) [
        | inl e ↦ rw (fresh, e) tt
        | inr ((ok, t), e) ↦ elim (Bool-cases ok) [
          | inr bad ↦ rw (fresh, e, bad) (inl refl)
          | inl good ↦ rw (fresh, e, good) (init_bus-Ready soem t)
        ]
      ]
    ]

    -- After `init` and `start` of a driver with at least one module, the first round in which too few
    -- modules take part goes past the end of mSlavesComTrys, whenever the state of the last module is
    -- OPERATIONAL or SAFE_OP, with an error or without.
    pub init-loop_round_past_end :
        (path : String) (doc : Document) (soem : Soem) (s t : EthercatDrv F) (millis : ℕ → F)
        (x : Exchange)
        → init fl text_of junk path doc soem s ≡ some (true, t)
        → 1 ≤ soem.slave_count
        → soem.slave_count < 256
        → x.bus.work_counter < x.bus.outputs_wkc * 2 + x.bus.inputs_wkc
        → uses_trys (x.bus.read_state soem.slave_count) ≡ true
        → loop_round millis x (start t).1 ≡ none
    unfolding loop_round start Ready ReadyIf
    init-loop_round_past_end path doc soem s t millis x e some_ small few uses =
        elim (subst (ReadyIf soem) e (init-Ready path doc soem s)) [
          | inl no_ ↦ absurd (true-false no_)
          | inr (trys, count, stopped) ↦
              let past : check_slaves_wkc x.bus t.modules ≡ none =
                check_slaves_wkc-past_end x.bus t.modules few (trys ∙ sym count)
                  (omega (arith, count)) (omega (arith, count))
                  (ap (λ k. uses_trys (x.bus.read_state k)) count ∙ uses) in
              rw (stopped, past) refl
        ]
