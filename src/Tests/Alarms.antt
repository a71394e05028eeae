-- ===== src/Tests/Alarms.antt =====
-- The alarm words of Regulator/src/AlarmManager.cpp and their display in HMI/src/AlarmsWdg.cpp, on
-- concrete words.
use turbine_governor.Base.{◌≡◌, refl, true, false, [], arith}
use turbine_governor.AlarmManager.{AlarmManager, construct, set_alarm, is_alarm_set, clear_alarms}
use turbine_governor.AlarmManager.Words.{construct-IsWf, word}
use turbine_governor.AlarmManager.Raise.{is_alarm_set-set_alarm, is_alarm_set-clear_alarms}
use turbine_governor.AlarmsWdg.{logic_error_int_changed, gen_logic_errors_report}
use turbine_governor.AlarmsWdg.Alarms.{
  listed, one_word_wdg, listed-logic_error_int_changed, listed-gen_logic_errors_report,
}

-- A regulator whose memory held ones.
abbrev dirty : AlarmManager
dirty = construct (λ i. 4294967295) (λ i. 4294967295)

-- Before `clearAlarms` it reports alarms that nobody raised.
dirty_reports : is_alarm_set dirty 7 ≡ true
unfolding is_alarm_set construct
dirty_reports = refl

-- A regulator whose memory held zeros.
abbrev clean : AlarmManager
clean = construct (λ i. 0) (λ i. 0)

is_alarm_set-set_alarm_example : is_alarm_set (set_alarm 7 clean) 1 ≡ true
is_alarm_set-set_alarm_example =
    is_alarm_set-set_alarm clean 7 1 (construct-IsWf (λ i. 0) (λ i. 0)) (omega arith) (omega arith)

is_alarm_set-clear_alarms_example : is_alarm_set (clear_alarms dirty) 7 ≡ false
is_alarm_set-clear_alarms_example = is_alarm_set-clear_alarms dirty 7

listed-gen_logic_errors_report_example :
    listed 7 (gen_logic_errors_report (one_word_wdg (word clean) [])) ≡ is_alarm_set clean 7
listed-gen_logic_errors_report_example = listed-gen_logic_errors_report clean [] 7

listed-logic_error_int_changed_example :
    listed 2 (logic_error_int_changed (one_word_wdg (word clean) []) (word (set_alarm 7 clean)) 1).1
    ≡ true
unfolding construct is_alarm_set
listed-logic_error_int_changed_example =
    listed-logic_error_int_changed clean [] 7 2 (construct-IsWf (λ i. 0) (λ i. 0)) (omega arith)
      (omega arith)
