-- ===== src/AlarmsWdg/Alarms.antt =====
-- The alarms that HMI/src/AlarmsWdg.cpp shows are those that the regulator has set.
use native.Mathlib.Nat.{pow-suc, one-le-pow}
use mathlib.Core.List.{append-nil}
use turbine_governor.Base.{
  bit-complement, ℕ, zero, suc, ◌+◌, ◌-◌, ◌*◌, ◌/◌, ◌%◌, ◌^◌, ◌≤◌, ◌<◌, bit_and, bit_xor, min, Bool,
  false, not, ◌&&◌, ◌||◌, ◌≡◌, refl, ap, sym, ◌∙◌, inl, inr, Bool-cases, ltb→lt, List, [], ◌∷◌,
  not32, ltb, leb, ◌==◌, bit, bit-lt, bit-bit_and, bit-bit_xor, pow-bit_and, arith,
}
use turbine_governor.AlarmManager.{AlarmManager, is_alarm_set, set_alarm}
use turbine_governor.AlarmManager.Words.{IsWf, word, is_alarm_set-eq-bit}
use turbine_governor.AlarmManager.Raise.{raised_by, is_alarm_set-set_alarm}
use turbine_governor.AlarmsWdg.{
  AlarmsWdg, marked_alarms, append_logic_errors_rep, logic_error_int_changed,
  gen_logic_errors_report,
}

abbrev pub listed : ℕ → List ℕ → Bool
listed a [] = false
listed a (x ∷ xs) = x == a || listed a xs

half-pow : (i : ℕ) → i < 31 → 2 ^ (31 - i) / 2 ≡ 2 ^ (31 - (i + 1))
half-pow i h = rw split (omega (arith, pow-suc 2 (31 - (i + 1))))
  where
    split : 31 - i ≡ suc (31 - (i + 1))
    split = omega arith

empty_bit : (b p : ℕ) → b < 2 → 1 ≤ p → (b * p == 0) ≡ not (b == 1)
empty_bit zero p h q = ground arith
empty_bit (suc zero) p h q = ground arith
empty_bit (suc (suc b)) p h q = absurd (omega arith)

-- The loop from alarm `i` on lists the alarms whose bits are set.
listed-marked_alarms :
    (left i a mask w : ℕ)
    → i + left ≤ 32
    → (0 < left → mask ≡ 2 ^ (31 - i))
    → listed a (marked_alarms left i mask w) ≡ (leb i a && ltb a (i + left) && bit (31 - a) w == 1)
unfolding marked_alarms
listed-marked_alarms zero i a mask w h m = ground arith
listed-marked_alarms (suc left) i a mask w h m = rw (m (omega arith)) (
    rw
      (
        pow-bit_and (31 - i) w,
        empty_bit (bit (31 - i) w) (2 ^ (31 - i)) (bit-lt _ _) (one-le-pow _ _ (omega arith)),
      )
      (ground (
        arith,
        listed-marked_alarms left (i + 1) a (2 ^ (31 - i) / 2) w (omega arith)
            (λ l. half-pow i (omega arith)),
        at_a,
      )))
  where
    at_a : i ≡ a → bit (31 - i) w ≡ bit (31 - a) w
    at_a e = rw e

-- The report of a word lists the alarms below NUM_ALARMS whose bits are set.
listed-append_logic_errors_rep :
    (a w : ℕ) → listed a (append_logic_errors_rep w 0) ≡ (ltb a 21 && bit (31 - a) w == 1)
unfolding append_logic_errors_rep
listed-append_logic_errors_rep a w =
    ground (arith, listed-marked_alarms 21 0 a (2 ^ 31) w (omega arith) (λ l. refl))

is_alarm_set-past : (s : AlarmManager) (a : ℕ) → 21 ≤ a → is_alarm_set s a ≡ false
unfolding is_alarm_set
is_alarm_set-past s a h = ground arith

-- Which bits are new, as a fact about two bits.
fresh_of_bits :
    (x y : ℕ) (r : Bool)
    → x < 2
    → y < 2
    → (x == 1) ≡ (r || y == 1)
    → (min ((x + y) % 2) (1 - y) == 1) ≡ (r && not (y == 1))
fresh_of_bits x y r p q h = ground arith

abbrev pub one_word_wdg : ℕ → List ℕ → AlarmsWdg
one_word_wdg w states = record { logic_errors = w ∷ []; field_st = states }

-- The HMI that holds the regulator's alarm word reports alarm `a` as active exactly when the
-- regulator has it set.
pub listed-gen_logic_errors_report :
    (s : AlarmManager) (states : List ℕ) (a : ℕ)
    → listed a (gen_logic_errors_report (one_word_wdg (word s) states)) ≡ is_alarm_set s a
unfolding gen_logic_errors_report
listed-gen_logic_errors_report s states a =
    rw append-nil (listed-append_logic_errors_rep a (word s) ∙ in_word)
  where
    in_word : (ltb a 21 && bit (31 - a) (word s) == 1) ≡ is_alarm_set s a
    in_word = ground (arith, is_alarm_set-eq-bit s a, is_alarm_set-past s a)

-- When the regulator raises alarm `e` and the HMI then receives the new word, the log gets exactly
-- the alarms that this adds and that were not set before.
pub listed-logic_error_int_changed :
    (s : AlarmManager) (states : List ℕ) (e a : ℕ)
    → IsWf s
    → e < 21
    → word s < 2 ^ 32
    → listed a (logic_error_int_changed (one_word_wdg (word s) states) (word (set_alarm e s)) 1).1
      ≡ (ltb a 21 && raised_by e a && not (is_alarm_set s a))
unfolding logic_error_int_changed
listed-logic_error_int_changed s states e a v he small =
    listed-append_logic_errors_rep a fresh ∙ told
  where
    new : ℕ
    new = word (set_alarm e s)

    fresh : ℕ
    fresh = bit_and (bit_xor new (word s)) (not32 (word s))

    fresh_bit :
        bit (31 - a) fresh
        ≡ min ((bit (31 - a) new + bit (31 - a) (word s)) % 2) (1 - bit (31 - a) (word s))
    fresh_bit = rw (
      bit-bit_and (31 - a) (bit_xor new (word s)) (not32 (word s)),
      bit-bit_xor (31 - a) new (word s),
      bit-complement 32 (31 - a) (word s) small (omega arith),
    )

    at_known : a < 21 → (bit (31 - a) fresh == 1) ≡ (raised_by e a && not (is_alarm_set s a))
    at_known h =
        rw (fresh_bit, is_alarm_set-eq-bit s a h)
          (fresh_of_bits (bit (31 - a) new) (bit (31 - a) (word s)) (raised_by e a) (bit-lt _ _)
            (bit-lt _ _)
            (sym (is_alarm_set-eq-bit (set_alarm e s) a h)
              ∙ is_alarm_set-set_alarm s e a v he h
              ∙ ap (λ b. raised_by e a || b) (is_alarm_set-eq-bit s a h)))

    told :
        (ltb a 21 && bit (31 - a) fresh == 1)
        ≡ (ltb a 21 && raised_by e a && not (is_alarm_set s a))
    told = elim (Bool-cases (ltb a 21)) [
      | inl known ↦ rw known (at_known (ltb→lt a 21 known))
      | inr past ↦ rw past
    ]
