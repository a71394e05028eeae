-- ===== src/Field/Checks.antt =====
-- The loop of `checkSlavesWKC` of EthercatDrv.cpp over all slaves.
use turbine_governor.Base.{
  ℕ, zero, suc, ◌+◌, ◌-◌, ◌*◌, ◌≤◌, ◌<◌, ◌≡◌, refl, ap, sym, ◌∙◌, inl, inr, true, false, ◌||◌,
  Option, none, some, ltb, ◌==◌, length, get_or, if◌then◌else◌, Bool-cases, true-false, arith,
}
use turbine_governor.Field.Bus.{
  Bus, EcSlave, Modules, has, recover_state, check_slave, check_from, read_states, check_slaves_wkc,
}
use turbine_governor.Field.Scan.{uses_trys, fails, marked, Others, Turn, check_slave-Turn}

marked_later : (i j : ℕ) (s t : Modules) → Others i s t → (j ≡ i → ⊥) → marked j t ≡ marked j s
marked_later i j s t o apart = rw (o.slaves j apart, o.errors j apart, o.trys j apart) refl

-- The marks after the turns of k slaves from i on.
Marks : ℕ → ℕ → Modules → Option Modules → Type 0
Marks k i s o =
    (t : Modules) × (o ≡ some t)
    × ((j : ℕ) → i ≤ j → j < i + k → has j t.module_errors ≡ marked j s)
    × ((j : ℕ) → j < i → has j t.module_errors ≡ has j s.module_errors)

module _ (bus : Bus) where
  check_from-Marks :
      (k i : ℕ) (s : Modules)
      → ((j : ℕ) → i ≤ j → j < i + k → uses_trys (s.slaves j).state ≡ true → j < length s.com_trys)
      → i + k ≤ 256
      → Marks k i s (check_from bus k i s)
  unfolding check_from Marks Turn
  check_from-Marks zero i s room small =
      (s, refl, λ j low high. absurd (omega arith), λ j low. refl)
  check_from-Marks (suc k) i s room small =
      let (t, e, here, o) =
        check_slave-Turn bus i s (room i (omega arith) (omega arith)) (omega arith) in
      let (u, e', later, before) =
        check_from-Marks k (i + 1) t
          (λ j low high uses.
            let same : t.slaves j ≡ s.slaves j = o.slaves j (λ q. omega arith) in
            omega (
              arith,
              room j (omega arith) (omega arith)
                  (ap (λ (x : EcSlave). uses_trys x.state) (sym same) ∙ uses),
              o.room,
            ))
          (omega arith) in
      (
        u,
        rw (e, e') refl,
        λ j low high. elim (Bool-cases (j == i)) [
          | inl same ↦ let q : j ≡ i = ground arith in rw q (before i (omega arith) ∙ here)
          | inr other ↦
              let apart : j ≡ i → ⊥ = λ q. ground arith in
              later j (ground arith) (omega arith) ∙ marked_later i j s t o apart
        ],
        λ j low. before j (omega arith) ∙ o.errors j (λ q. omega arith),
      )

  -- With mSlavesComTrys as `init` makes it, one entry for each slave, a check of a round in which too few
  -- slaves took part returns, where the state of the last slave is not OPERATIONAL, and not SAFE_OP
  -- with an error or without; and then each slave, below 256, has the mark of a failed module exactly
  -- as its state says: not if it is operational; else if it was marked before, or its state is not
  -- SAFE_OP, with an error or without, or it has been tried twice before.
  pub check_slaves_wkc-marks :
      (s : Modules) (j : ℕ)
      → bus.work_counter < bus.outputs_wkc * 2 + bus.inputs_wkc
      → length s.com_trys ≡ s.slave_count
      → uses_trys (bus.read_state s.slave_count) ≡ false
      → s.slave_count < 256
      → 1 ≤ j
      → j ≤ s.slave_count
      → (t : Modules) × (check_slaves_wkc bus s ≡ some t)
        × (has j t.module_errors ≡ (
            if bus.read_state j == 8
            then false
            else has j s.module_errors || fails (bus.read_state j) (get_or s.com_trys j 0)))
  unfolding check_slaves_wkc Marks
  check_slaves_wkc-marks s j few room last small least most =
      let low : ltb bus.work_counter (bus.outputs_wkc * 2 + bus.inputs_wkc) ≡ true = ground arith in
      let (t, e, marks, _) =
        check_from-Marks s.slave_count 1 (read_states bus s)
          (λ i low high uses. elim (Bool-cases (i == s.slave_count)) [
            | inl end ↦
                let at_end : i ≡ s.slave_count = ground arith in
                absurd
                  (true-false (sym uses ∙ ap (λ n. uses_trys (bus.read_state n)) at_end ∙ last))
            | inr inside ↦ ground arith
          ])
          (omega arith) in
      (t, rw low e, marks j least (omega arith))

  check_slave-stuck :
      (i : ℕ) (s : Modules)
      → length s.com_trys ≤ i
      → uses_trys (s.slaves i).state ≡ true
      → check_slave bus i s ≡ none
  unfolding check_slave recover_state
  check_slave-stuck i s past uses =
      let off : ltb i (length s.com_trys) ≡ false = ground arith in
      elim (Bool-cases ((s.slaves i).state == 8)) [
        | inl good ↦ rw (good, off) refl
        | inr bad ↦ elim (Bool-cases ((s.slaves i).state == 20)) [
          | inl error ↦ rw (bad, error, off) refl
          | inr fine ↦
              let safe : ((s.slaves i).state == 4) ≡ true = ground arith in
              rw (bad, fine, safe, off) refl
        ]
      ]

  check_from-stuck :
      (k i : ℕ) (s : Modules)
      → i + k ≡ length s.com_trys
      → i + k ≤ 256
      → uses_trys (s.slaves (i + k)).state ≡ true
      → check_from bus (suc k) i s ≡ none
  unfolding check_from Turn
  check_from-stuck zero i s room small uses =
      let here : i ≡ i + 0 = omega arith in
      rw (check_slave-stuck i s (omega arith) (ap (λ j. uses_trys (s.slaves j).state) here ∙ uses))
        refl
  check_from-stuck (suc k) i s room small uses =
      let (t, e, _, o) = check_slave-Turn bus i s (λ uses_. omega arith) (omega arith) in
      let last : i + 1 + k ≡ i + suc k = omega arith in
      let same : t.slaves (i + 1 + k) ≡ s.slaves (i + suc k) =
        ap t.slaves last ∙ o.slaves (i + suc k) (λ q. omega arith) in
      rw e (
        check_from-stuck k (i + 1) t (omega (arith, o.room)) (omega arith)
          (ap (λ x. uses_trys x.state) same ∙ uses))

  -- With mSlavesComTrys as `init` makes it, one entry for each of at least one slave, a check of a
  -- round in which too few slaves took part goes past its end, whenever the state of the last slave is
  -- OPERATIONAL or SAFE_OP, with an error or without.
  pub check_slaves_wkc-past_end :
      (s : Modules)
      → bus.work_counter < bus.outputs_wkc * 2 + bus.inputs_wkc
      → length s.com_trys ≡ s.slave_count
      → 1 ≤ s.slave_count
      → s.slave_count < 256
      → uses_trys (bus.read_state s.slave_count) ≡ true
      → check_slaves_wkc bus s ≡ none
  unfolding check_slaves_wkc
  check_slaves_wkc-past_end s few room some_ small uses =
      let low : ltb bus.work_counter (bus.outputs_wkc * 2 + bus.inputs_wkc) ≡ true = ground arith in
      let n : s.slave_count ≡ suc (s.slave_count - 1) = omega arith in
      let m : 1 + (s.slave_count - 1) ≡ s.slave_count = omega arith in
      rw low (
        ap (λ k. check_from bus k 1 (read_states bus s)) n
        ∙ check_from-stuck (s.slave_count - 1) 1 (read_states bus s) (m ∙ sym room) (omega arith)
            (ap (λ k. uses_trys (bus.read_state k)) m ∙ uses))
