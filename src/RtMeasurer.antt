-- ===== src/RtMeasurer.antt =====
-- HMI/src/RTMeasurer.cpp: the measures that timers take for the plots. A measure's function is
-- outside; what it returns at a time out comes in as `samples`. `none` is an access past the vector
-- of measures. A timer that does not exist or is not active does not time out.
use turbine_governor.Base.{
  ℕ, zero, suc, ◌+◌, Bool, true, false, Option, none, some, List, [], ◌∷◌, ◌++◌, map, get_elem?,
  set, length, ltb, ◌==◌, u32, if◌then◌else◌, ◌>>=◌,
}
pub mod Sampling
pub mod Recent

pub record Measure (F : Type 0) : Type 0 where
  pub buffer : List F
  pub buffer_size : ℕ
  pub total_measures : ℕ

pub record Timer : Type 0 where
  pub rate : ℕ
  pub measure_ids : List ℕ
  pub active : Bool

pub record RtMeasurer (F : Type 0) : Type 0 where
  pub measures : List (Measure F)
  pub timers : List Timer

abbrev pub construct : {F : Type 0} → RtMeasurer F
construct = record { measures = []; timers = [] }

abbrev pub new_measure : {F : Type 0} → ℕ → Measure F
new_measure size = record { buffer = []; buffer_size = size; total_measures = 0 }

-- The measure joins the timer of its rate, or a new one.
abbrev pub add_to_timer : ℕ → ℕ → List Timer → List Timer
add_to_timer id rate [] = record { rate = rate; measure_ids = id ∷ []; active = false } ∷ []
add_to_timer id rate (t ∷ ts) =
    if t.rate == rate
    then record t { measure_ids = t.measure_ids ++ (id ∷ []) } ∷ ts
    else t ∷ add_to_timer id rate ts

abbrev pub switch : Bool → Timer → Timer
switch on t = record t { active = on }

abbrev pub pop_front : {F : Type 0} → List F → List F
pop_front [] = []
pop_front (x ∷ xs) = xs

module _ {F : Type 0} where
  unfoldable pub create_measure : ℕ → ℕ → RtMeasurer F → ℕ × RtMeasurer F
  create_measure size rate s = (
    length s.measures,
    record {
      measures = s.measures ++ (new_measure size ∷ []);
      timers = add_to_timer (length s.measures) rate s.timers;
    },
  )

  abbrev pub start_measures : RtMeasurer F → RtMeasurer F
  start_measures s = record s { timers = map (switch true) s.timers }

  abbrev pub stop_measures : RtMeasurer F → RtMeasurer F
  stop_measures s = record s { timers = map (switch false) s.timers }

  -- One turn of the loop in the slot of a timer.
  unfoldable pub take_measure : F → Measure F → Measure F
  take_measure val m =
      let pushed = m.buffer ++ (val ∷ []) in
      record {
        buffer = if ltb m.buffer_size (length pushed) then pop_front pushed else pushed;
        buffer_size = m.buffer_size;
        total_measures = u32 (m.total_measures + 1);
      }

  unfoldable pub take_all : (ℕ → F) → List ℕ → List (Measure F) → Option (List (Measure F))
  take_all samples [] ms = some ms
  take_all samples (id ∷ ids) ms =
      get_elem? ms id >>= λ m. take_all samples ids (set ms id (take_measure (samples id) m))

  -- The slot of a timer: the function that `createMeasure` connects to its time out.
  unfoldable pub slot : Option Timer → (ℕ → F) → RtMeasurer F → Option (RtMeasurer F)
  slot none samples s = some s
  slot (some t) samples s =
      if t.active
      then (take_all samples t.measure_ids s.measures >>= λ ms. some (record s { measures = ms }))
      else some s

  unfoldable pub time_out : ℕ → (ℕ → F) → RtMeasurer F → Option (RtMeasurer F)
  time_out place samples s = slot (get_elem? s.timers place) samples s

  -- The total, and the list that the call sets, if it does.
  abbrev pub measured : Option (Measure F) → ℕ × Option (List F)
  measured none = (0, none)
  measured (some m) = (m.total_measures, some m.buffer)

  unfoldable pub get_measures : ℕ → RtMeasurer F → ℕ × Option (List F)
  get_measures id s = measured (get_elem? s.measures id)
