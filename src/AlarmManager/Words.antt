-- ===== src/AlarmManager/Words.antt =====
-- The alarm words of Regulator/src/AlarmManager.cpp, bit by bit.
use native.Mathlib.Nat.{one-le-pow}
use turbine_governor.Base.{
  ℕ, zero, suc, ◌-◌, ◌*◌, ◌/◌, ◌%◌, ◌^◌, ◌≤◌, ◌<◌, ◌≡◌, refl, ◌||◌, bit_and, bit_or, max, arith,
  length, get_or, ltb, ◌==◌, if◌then◌else◌, bit, bit-lt, bit-bit_or, bit-pow, bit_and-pow,
  get_or-set_self, length-set,
}
use turbine_governor.AlarmManager.{
  AlarmManager, construct, set_alarm_bit, is_alarm_set, alarm_levels,
}

-- The words that the constructor allocates, with the levels of Alarms.h.
pub record IsWf (s : AlarmManager) : Type 0 where
  pub one_word : length s.logic_errors ≡ 1
  pub four_words : length s.field_q_states ≡ 4
  pub known_levels : s.levels ≡ alarm_levels

pub construct-IsWf : (junk junk' : ℕ → ℕ) → IsWf (construct junk junk')
unfolding construct
construct-IsWf junk junk' = record { one_word = refl; four_words = refl; known_levels = refl }

-- The alarm word.
abbrev pub word : AlarmManager → ℕ
word s = get_or s.logic_errors 0 0

positive_bit : (b p : ℕ) → b < 2 → 1 ≤ p → ltb 0 (b * p) ≡ (b == 1)
positive_bit zero p h q = ground arith
positive_bit (suc zero) p h q = ground arith
positive_bit (suc (suc b)) p h q = absurd (omega arith)

low_div : (e : ℕ) → e < 32 → e / 32 ≡ 0
low_div e h = omega arith

low_mod : (e : ℕ) → e < 32 → e % 32 ≡ e
low_mod e h = omega arith

-- Alarm `a` is bit 31 - a of the word.
pub is_alarm_set-eq-bit :
    (s : AlarmManager) (a : ℕ) → a < 21 → is_alarm_set s a ≡ (bit (31 - a) (word s) == 1)
unfolding is_alarm_set
is_alarm_set-eq-bit s a h = ground (arith, at_word)
  where
    small : a < 32
    small = omega arith

    at_word :
        ltb 0 (bit_and (get_or s.logic_errors (a / 32) 0) (2 ^ (31 - a % 32)))
        ≡ (bit (31 - a) (word s) == 1)
    at_word =
        rw (low_div a small, low_mod a small, bit_and-pow (31 - a) (word s))
          (positive_bit (bit (31 - a) (word s)) (2 ^ (31 - a)) (bit-lt _ _)
            (one-le-pow _ _ (omega arith)))

pub word-set_alarm_bit :
    (s : AlarmManager) (e : ℕ)
    → e < 32
    → 0 < length s.logic_errors
    → word (set_alarm_bit e s) ≡ bit_or (word s) (2 ^ (31 - e))
unfolding set_alarm_bit
word-set_alarm_bit s e h l = rw (low_div e h, low_mod e h) (get_or-set_self s.logic_errors 0 _ 0 l)

bit-or-one_bit :
    (x a e : ℕ)
    → x < 2
    → a < 32
    → e < 32
    → (max x (if 31 - a == 31 - e then 1 else 0) == 1) ≡ (a == e || x == 1)
bit-or-one_bit x a e b h k = ground arith

-- Setting one bit raises one alarm and keeps the others.
pub is_alarm_set-set_alarm_bit :
    (s : AlarmManager) (e a : ℕ)
    → 0 < length s.logic_errors
    → e < 21
    → a < 21
    → is_alarm_set (set_alarm_bit e s) a ≡ (a == e || is_alarm_set s a)
is_alarm_set-set_alarm_bit s e a l he ha =
    rw
      (
        is_alarm_set-eq-bit (set_alarm_bit e s) a ha,
        is_alarm_set-eq-bit s a ha,
        word-set_alarm_bit s e (omega arith) l,
        bit-bit_or (31 - a) (word s) (2 ^ (31 - e)),
        bit-pow (31 - a) (31 - e),
      )
      (bit-or-one_bit (bit (31 - a) (word s)) a e (bit-lt _ _) (omega arith) (omega arith))

-- A write of one bit keeps the shape of the state.
pub set_alarm_bit-IsWf : (s : AlarmManager) (e : ℕ) → IsWf s → IsWf (set_alarm_bit e s)
unfolding set_alarm_bit
set_alarm_bit-IsWf s e v = record {
  one_word = omega (
    arith,
    v.one_word,
    length-set {0} s.logic_errors (e / 32)
        (bit_or (get_or s.logic_errors (e / 32) 0) (2 ^ (31 - e % 32))),
  );
  four_words = v.four_words;
  known_levels = v.known_levels;
}
