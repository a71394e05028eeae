-- ===== src/RtMeasurer/Recent.antt =====
-- Histories of the object of HMI/src/RTMeasurer.cpp: what `getMeasures` returns after any calls and
-- time outs.
use turbine_governor.Base.{
  ℕ, zero, suc, ◌+◌, ◌-◌, ◌<◌, ◌≡◌, refl, ap, sym, ap₂, ◌∙◌, Bool, true, false, inl, inr,
  Bool-cases, Option, some, none, List, [], ◌∷◌, ◌++◌, map, All, get_elem?, get_elem?-eq, get_or,
  length, length-append, ◌==◌, u32, if◌then◌else◌, arith,
}
use turbine_governor.RtMeasurer.{
  Measure, Timer, RtMeasurer, construct, new_measure, add_to_timer, switch, create_measure,
  start_measures, stop_measures, slot, time_out, measured, get_measures,
}
use turbine_governor.RtMeasurer.Sampling.{
  last_of, IsRecent, Sampled, taken, take_all-Sampled, skip_nil,
}

-- The measures of a timer exist.
abbrev InRange : ℕ → Timer → Type 0
InRange n t = All (λ id. id < n) t.measure_ids

All-weaken : (n : ℕ) (ids : List ℕ) → All (λ id. id < n) ids → All (λ id. id < n + 1) ids
All-weaken n [] ok = ok
All-weaken n (id ∷ ids) (lt, ok) = (omega arith, All-weaken n ids ok)

All-last :
    (n : ℕ) (ids : List ℕ) → All (λ id. id < n) ids → All (λ id. id < n + 1) (ids ++ (n ∷ []))
All-last n [] ok = (omega arith, ok)
All-last n (id ∷ ids) (lt, ok) = (omega arith, All-last n ids ok)

timers-weaken : (n : ℕ) (ts : List Timer) → All (InRange n) ts → All (InRange (n + 1)) ts
timers-weaken n [] ok = ok
timers-weaken n (t ∷ ts) (here, ok) = (All-weaken n t.measure_ids here, timers-weaken n ts ok)

add_to_timer-InRange :
    (n rate : ℕ) (ts : List Timer)
    → All (InRange n) ts
    → All (InRange (n + 1)) (add_to_timer n rate ts)
add_to_timer-InRange n rate [] ok = ((omega arith, ok), ok)
add_to_timer-InRange n rate (t ∷ ts) (here, ok) = elim (Bool-cases (t.rate == rate)) [
  | inl same ↦ rw same (All-last n t.measure_ids here, timers-weaken n ts ok)
  | inr other ↦ rw other (All-weaken n t.measure_ids here, add_to_timer-InRange n rate ts ok)
]

switch-InRange :
    (n : ℕ) (on : Bool) (ts : List Timer)
    → All (InRange n) ts
    → All (InRange n) (map (switch on) ts)
switch-InRange n on [] ok = ok
switch-InRange n on (t ∷ ts) (here, ok) = (here, switch-InRange n on ts ok)

timer-InRange :
    (n place : ℕ) (ts : List Timer) (t : Timer)
    → All (InRange n) ts
    → get_elem? ts place ≡ some t
    → InRange n t
timer-InRange n place [] t ok e = absurd (cc)
timer-InRange n zero (u ∷ ts) t (here, ok) e = let same : u ≡ t = cc in rw (sym same) here
timer-InRange n (suc place) (u ∷ ts) t (here, ok) e = timer-InRange n place ts t ok e

get_or-append_old :
    {A : Type 0}
    → (xs ys : List A) (i : ℕ) (d : A) → i < length xs
    → get_or (xs ++ ys) i d ≡ get_or xs i d
get_or-append_old [] ys i d h = absurd (omega arith)
get_or-append_old (x ∷ xs) ys zero d h = refl
get_or-append_old (x ∷ xs) ys (suc i) d h = get_or-append_old xs ys i d (omega arith)

get_or-append_new :
    {A : Type 0} → (xs : List A) (x d : A) → get_or (xs ++ (x ∷ [])) (length xs) d ≡ x
get_or-append_new [] x d = refl
get_or-append_new (y ∷ xs) x d = get_or-append_new xs x d

module _ {F : Type 0} where
  -- What the measures have been given after the slot of a timer.
  unfoldable pub given : Option Timer → (ℕ → F) → (ℕ → List F) → ℕ → List F
  given none samples h = h
  given (some t) samples h = if t.active then taken samples t.measure_ids h else h

  -- The object after any calls and time outs, with the sizes that `createMeasure` got and the values
  -- that each measure was given.
  pub data Run : RtMeasurer F → (ℕ → ℕ) → (ℕ → List F) → Type 0 where
    constructed : Run construct (λ j. 0) (λ j. [])
    created :
        {s : RtMeasurer F} {sizes : ℕ → ℕ} {h : ℕ → List F}
        → Run s sizes h
        → (size rate : ℕ)
        → Run
            (create_measure size rate s).1
            (λ j. if j == length s.measures then size else sizes j)
            h
    started :
        {s : RtMeasurer F} {sizes : ℕ → ℕ} {h : ℕ → List F}
        → Run s sizes h
        → Run (start_measures s) sizes h
    stopped :
        {s : RtMeasurer F} {sizes : ℕ → ℕ} {h : ℕ → List F}
        → Run s sizes h
        → Run (stop_measures s) sizes h
    timed_out :
        {s t : RtMeasurer F} {sizes : ℕ → ℕ} {h : ℕ → List F}
        → Run s sizes h
        → (place : ℕ) (samples : ℕ → F) → time_out place samples s ≡ some t
        → Run t sizes (given (get_elem? s.timers place) samples h)

  unfoldable RunInv : RtMeasurer F → (ℕ → ℕ) → (ℕ → List F) → Type 0
  RunInv s sizes h = Sampled sizes s.measures h × All (InRange (length s.measures)) s.timers

  create_measure-Sampled :
      (size : ℕ) (sizes : ℕ → ℕ) (ms : List (Measure F)) (h : ℕ → List F)
      → Sampled sizes ms h
      → Sampled (λ j. if j == length ms then size else sizes j) (ms ++ (new_measure size ∷ [])) h
  unfolding Sampled IsRecent
  create_measure-Sampled size sizes ms h (recent, nothing) = (
    λ j lt. elim (Bool-cases (j == length ms)) [
      | inl new ↦
          let e : j ≡ length ms = ground arith in
          let empty : h j ≡ [] = nothing j (omega arith) in
          rw (new, empty, e, get_or-append_new ms (new_measure size) (new_measure 0))
            (refl, sym (skip_nil (0 - size)), refl)
      | inr old ↦
          let before : j < length ms = ground (arith, length-append ms (new_measure size ∷ [])) in
          rw (old, get_or-append_old ms (new_measure size ∷ []) j (new_measure 0) before)
            (recent j before)
    ],
    λ j past. nothing j (omega (arith, length-append ms (new_measure size ∷ []))),
  )

  slot-RunInv :
      (o : Option Timer) (samples : ℕ → F) (s : RtMeasurer F) (sizes : ℕ → ℕ) (h : ℕ → List F)
      → ((u : Timer) → o ≡ some u → InRange (length s.measures) u)
      → RunInv s sizes h
      → (t : RtMeasurer F) × (slot o samples s ≡ some t) × RunInv t sizes (given o samples h)
  unfolding RunInv slot given
  slot-RunInv none samples s sizes h there inv = (s, refl, inv)
  slot-RunInv (some u) samples s sizes h there (sampled, ok) = elim (Bool-cases u.active) [
    | inl on ↦
        let (ns, e, same, new) =
          take_all-Sampled samples sizes u.measure_ids s.measures h (there u refl) sampled in
        (record s { measures = ns }, rw (on, e), (rw on new, rw same ok))
    | inr off ↦ (s, rw off, (rw off sampled, ok))
  ]

  Run-RunInv :
      {s : RtMeasurer F} {sizes : ℕ → ℕ} {h : ℕ → List F} → Run s sizes h → RunInv s sizes h
  unfolding RunInv Sampled create_measure time_out
  Run-RunInv constructed = ((λ j lt. absurd (omega arith), λ j past. refl), tt)
  Run-RunInv (created {s = s} {sizes = sizes} {h = h} run size rate) =
      let (sampled, ok) = Run-RunInv run in
      let longer : length s.measures + 1 ≡ length (s.measures ++ (new_measure size ∷ [])) =
        omega (arith, length-append s.measures (new_measure size ∷ [])) in
      (
        create_measure-Sampled size sizes s.measures h sampled,
        rw (sym longer) (add_to_timer-InRange (length s.measures) rate s.timers ok),
      )
  Run-RunInv (started {s = s} run) =
      let (sampled, ok) = Run-RunInv run in
      (sampled, switch-InRange (length s.measures) true s.timers ok)
  Run-RunInv (stopped {s = s} run) =
      let (sampled, ok) = Run-RunInv run in
      (sampled, switch-InRange (length s.measures) false s.timers ok)
  Run-RunInv (timed_out {s = s} {t = t} {sizes = sizes} {h = h} run place samples e) =
      let (sampled, ok) = Run-RunInv run in
      let (u, returned, inv) =
        slot-RunInv (get_elem? s.timers place) samples s sizes h
          (λ v there. timer-InRange (length s.measures) place s.timers v ok there) (sampled, ok) in
      let same : u ≡ t = cc in rw (sym same) inv

  -- After any calls and time outs, `getMeasures` of a measure that exists returns the last values
  -- that it was given, as many as its size, and how many it was given in all, modulo 2 ^ 32; and the
  -- next time out of any timer returns, without an access past the measures.
  pub get_measures-Run :
      {s : RtMeasurer F} {sizes : ℕ → ℕ} {h : ℕ → List F}
      → Run s sizes h
      → (id place : ℕ) (samples : ℕ → F) → id < length s.measures
      → (get_measures id s ≡ (u32 (length (h id)), some (last_of (sizes id) (h id))))
        × ((t : RtMeasurer F) × (time_out place samples s ≡ some t))
  unfolding RunInv Sampled IsRecent get_measures time_out
  get_measures-Run {s = s} {sizes = sizes} {h = h} run id place samples lt =
      let (sampled, ok) = Run-RunInv run in
      let (size, buffer, total) = sampled.0 id lt in
      let (t, returned, inv) =
        slot-RunInv (get_elem? s.timers place) samples s sizes h
          (λ v there. timer-InRange (length s.measures) place s.timers v ok there) (sampled, ok) in
      (
        ap measured (get_elem?-eq s.measures id (new_measure 0) lt)
            ∙ ap₂ (λ n b. (n, some b)) total (buffer),
        (t, returned),
      )
