-- ===== src/Tests/RtMeasurer.antt =====
-- The measures of HMI/src/RTMeasurer.cpp: a buffer of two values and three time outs.
use turbine_governor.Base.{
  ℕ, ◌≡◌, refl, true, false, ◌==◌, if◌then◌else◌, some, none, List, [], ◌∷◌, arith,
}
use turbine_governor.RtMeasurer.{
  Timer, RtMeasurer, create_measure, slot, take_all, take_measure, time_out, get_measures,
}
use turbine_governor.RtMeasurer.Sampling.{taken, grow}
use turbine_governor.RtMeasurer.Recent.{Run, given, get_measures-Run}

abbrev clock : Timer
clock = record { rate = 100; measure_ids = 0 ∷ []; active = true }

abbrev measurer : List ℕ → ℕ → RtMeasurer ℕ
measurer buffer total = record {
  measures = record { buffer = buffer; buffer_size = 2; total_measures = total } ∷ [];
  timers = clock ∷ [];
}

abbrev always : ℕ → ℕ → ℕ
always val id = val

abbrev sizes : ℕ → ℕ
sizes j = if j == 0 then 2 else 0

abbrev history : ℕ → List ℕ
history =
    given (some clock) (always 9)
      (given (some clock) (always 8) (given (some clock) (always 7) (λ j. [])))

three_values : Run (measurer (8 ∷ 9 ∷ []) 3) sizes history
unfolding create_measure slot take_all take_measure time_out
three_values =
    let made : Run (measurer [] 0) sizes (λ j. []) =
      Run.started (Run.created Run.constructed 2 100) in
    let one : Run (measurer (7 ∷ []) 1) sizes (given (some clock) (always 7) (λ j. [])) =
      Run.timed_out made 0 (always 7) refl in
    let two : Run (measurer (7 ∷ 8 ∷ []) 2) sizes
        (given (some clock) (always 8) (given (some clock) (always 7) (λ j. []))) =
      Run.timed_out one 0 (always 8) refl in
    Run.timed_out two 0 (always 9) refl

-- A measure that does not exist sets no list.
no_measure : get_measures 1 (measurer (8 ∷ 9 ∷ []) 3) ≡ (0, none)
unfolding get_measures
no_measure = refl

-- The timer of a rate that comes after `startMeasures` is not started.
late_timer :
    (create_measure 5 20 (measurer [] 0)).1.timers
    ≡ clock ∷ record { rate = 20; measure_ids = 1 ∷ []; active = false } ∷ []
unfolding create_measure
late_timer = refl

get_measures-Run_example :
    (get_measures 0 (measurer (8 ∷ 9 ∷ []) 3) ≡ (3, some (8 ∷ 9 ∷ [])))
    × ((t : RtMeasurer ℕ) × (time_out 0 (always 4) (measurer (8 ∷ 9 ∷ []) 3) ≡ some t))
unfolding given taken grow
get_measures-Run_example = get_measures-Run three_values 0 0 (always 4) (omega arith)
