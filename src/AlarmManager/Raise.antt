-- ===== src/AlarmManager/Raise.antt =====
-- `setAlarm`, `clearAlarms` and `isAlarmSet` of Regulator/src/AlarmManager.cpp against sets of
-- alarms.
use Prim.Native.Nat.{bit_and-bitwise}
use turbine_governor.Base.{
  ℕ, Bool-cases, inl, inr, ◌/◌, ◌%◌, ◌-◌, ◌^◌, ◌<◌, ◌≡◌, Bool, true, false, not, ◌&&◌, ◌||◌, arith,
  length, get_or, leb, ◌==◌, if◌then◌else◌, get_or-replicate,
}
use turbine_governor.AlarmManager.{
  AlarmManager, clear_alarms, set_alarm, set_alarm_bit, is_alarm_set, alarm_levels,
}
use turbine_governor.AlarmManager.Words.{IsWf, is_alarm_set-set_alarm_bit, set_alarm_bit-IsWf}

-- The alarms of level 1, which trip the turbine, by the table of Alarms.h.
abbrev pub is_major : ℕ → Bool
is_major e = get_or alarm_levels e 0 == 1

-- What one call of `setAlarm` is to add: the alarm, the summary of its level, and the internal
-- trip for every major alarm but the external trip.
abbrev pub raised_by : ℕ → ℕ → Bool
raised_by e a = a == e || (if is_major e then a == 2 || (not (0 == e) && a == 1) else a == 3)

-- For every alarm number below NUM_ALARMS, `setAlarm` adds the alarms of `raised_by` to those that
-- `isAlarmSet` reports, and neither adds nor removes another.
pub is_alarm_set-set_alarm :
    (s : AlarmManager) (e a : ℕ)
    → IsWf s
    → e < 21
    → a < 21
    → is_alarm_set (set_alarm e s) a ≡ (raised_by e a || is_alarm_set s a)
unfolding set_alarm
is_alarm_set-set_alarm s e a v he ha = rw v.known_levels (
    ground (
      arith,
      has_word s v,
      has_word own own_wf,
      has_word major major_wf,
      is_alarm_set-set_alarm_bit s e a,
      is_alarm_set-set_alarm_bit own 2 a,
      is_alarm_set-set_alarm_bit own 3 a,
      is_alarm_set-set_alarm_bit major 1 a,
    ))
  where
    has_word : (t : AlarmManager) → IsWf t → 0 < length t.logic_errors
    has_word t w = omega (arith, w.one_word)

    own : AlarmManager
    own = set_alarm_bit e s

    own_wf : IsWf own
    own_wf = set_alarm_bit-IsWf s e v

    major : AlarmManager
    major = set_alarm_bit 2 own

    major_wf : IsWf major
    major_wf = set_alarm_bit-IsWf own 2 own_wf

pub set_alarm-IsWf : (s : AlarmManager) (e : ℕ) → IsWf s → IsWf (set_alarm e s)
unfolding set_alarm
set_alarm-IsWf s e v = elim (Bool-cases (leb 21 e)) [
  | inl past ↦ rw past v
  | inr fits ↦ rw fits (summaries (get_or s.levels e 0 == 1) (0 == e))
]
  where
    own : IsWf (set_alarm_bit e s)
    own = set_alarm_bit-IsWf s e v

    major : IsWf (set_alarm_bit 2 (set_alarm_bit e s))
    major = set_alarm_bit-IsWf (set_alarm_bit e s) 2 own

    summaries :
        (b c : Bool)
        → IsWf (
            if b
            then (if c
                then set_alarm_bit 2 (set_alarm_bit e s)
                else set_alarm_bit 1 (set_alarm_bit 2 (set_alarm_bit e s)))
            else set_alarm_bit 3 (set_alarm_bit e s))
    summaries true true = major
    summaries true false = set_alarm_bit-IsWf _ 1 major
    summaries false c = set_alarm_bit-IsWf _ 3 own

-- After `clearAlarms` no alarm is set, whatever the words held before.
pub is_alarm_set-clear_alarms : (s : AlarmManager) (a : ℕ) → is_alarm_set (clear_alarms s) a ≡ false
unfolding clear_alarms is_alarm_set
is_alarm_set-clear_alarms s a =
    rw (get_or-replicate {A = ℕ} (length s.logic_errors) (a / 32) 0)
      (ground (arith, bit_and-bitwise 0 (2 ^ (31 - a % 32))))
