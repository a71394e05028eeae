-- ===== src/Field/Pulses.antt =====
-- The pulses that DigitalDev.cpp measures, and the words of EtherDevice.cpp.
use mathlib.Core.Path.{subst}
use turbine_governor.Base.{
  ℕ, ◌-◌, ◌^◌, ◌≤◌, ◌<◌, ◌≡◌, refl, ap, sym, ◌∙◌, inl, inr, Bool, true, false, ◌&&◌, Option, List,
  [], ◌∷◌, ◌++◌, leb, ltb, ◌==◌, slice, put_all, Bool-cases, arith,
}
use turbine_governor.Base.Int.{pos}
use turbine_governor.Slave.Wire.{memory_of, value_of}
use turbine_governor.Field.Kinds.{
  BitRepr, Clocks, DigitalDev, measure_pulse, is_opt, is_size, int_of_bytes, word_of_int,
}

module _ {F : Type 0} (millis : ℕ → F) where
  -- `updateDevice` for a list of samples: the clocks and the value of each.
  unfoldable pub measure_all : List (Clocks × ℕ) → DigitalDev F → DigitalDev F
  unfolding measure_pulse
  measure_all [] d = d
  measure_all ((now, val) ∷ samples) d = measure_all samples (measure_pulse millis now val d)

  -- All samples have the level of the pulse.
  abbrev pub all_on : Option Bool → List (Clocks × ℕ) → Bool
  all_on opt [] = true
  all_on opt ((now, val) ∷ samples) = is_opt opt val && all_on opt samples

  measure_all-on :
      (samples : List (Clocks × ℕ)) (d : DigitalDev F)
      → d.pulse_end_time < d.pulse_start_time
      → all_on d.pulse_measure_opt samples ≡ true
      → measure_all samples d ≡ d
  unfolding measure_all measure_pulse
  measure_all-on [] d busy on = refl
  measure_all-on ((now, val) ∷ samples) d busy on =
      let now_on : is_opt d.pulse_measure_opt val ≡ true = ground arith in
      let later : all_on d.pulse_measure_opt samples ≡ true = ground arith in
      let no_ : leb d.pulse_start_time d.pulse_end_time ≡ false = ground arith in
      let yes_ : ltb d.pulse_end_time d.pulse_start_time ≡ true = ground arith in
      rw (now_on, no_, yes_) (measure_all-on samples d busy later)

  measure_all-append :
      (samples more : List (Clocks × ℕ)) (d : DigitalDev F)
      → measure_all (samples ++ more) d ≡ measure_all more (measure_all samples d)
  unfolding measure_all
  measure_all-append [] more d = refl
  measure_all-append ((now, val) ∷ samples) more d =
      measure_all-append samples more (measure_pulse millis now val d)

  pulse_starts :
      (now : Clocks) (val : ℕ) (d : DigitalDev F)
      → d.pulse_start_time ≤ d.pulse_end_time
      → is_opt d.pulse_measure_opt val ≡ true
      → measure_pulse millis now val d ≡ record d { pulse_start_time = now.steady }
  unfolding measure_pulse
  pulse_starts now val d idle on =
      let yes_ : leb d.pulse_start_time d.pulse_end_time ≡ true = ground arith in rw (on, yes_) refl

  pulse_ends :
      (now : Clocks) (val : ℕ) (d : DigitalDev F)
      → d.pulse_end_time < d.pulse_start_time
      → is_opt d.pulse_measure_opt val ≡ false
      → measure_pulse millis now val d ≡ record d {
        pulse_end_time = now.steady;
        pulse_dur = millis (now.steady - d.pulse_start_time);
        pulse_time_s = now.ms_epoch;
      }
  unfolding measure_pulse
  pulse_ends now val d busy off =
      let no_ : leb d.pulse_start_time d.pulse_end_time ≡ false = ground arith in
      let yes_ : ltb d.pulse_end_time d.pulse_start_time ≡ true = ground arith in
      rw (off, no_, yes_) refl

  -- A pulse that a device without one running sees: after samples of which the first and any number
  -- after it have the level of the pulse, and the last has not, with the first later than the end of
  -- the pulse before, the duration is that from the first sample to the last, its time is that of the
  -- last, and no pulse is running, if the steady clock does not go back.
  pub measure_all-pulse :
      (first last : Clocks) (v w : ℕ) (samples : List (Clocks × ℕ)) (d : DigitalDev F)
      → d.pulse_start_time ≤ d.pulse_end_time
      → d.pulse_end_time < first.steady
      → first.steady ≤ last.steady
      → is_opt d.pulse_measure_opt v ≡ true
      → all_on d.pulse_measure_opt samples ≡ true
      → is_opt d.pulse_measure_opt w ≡ false
      → let e = measure_all ((first, v) ∷ (samples ++ ((last, w) ∷ []))) d in
        (e.pulse_dur ≡ millis (last.steady - first.steady))
        × (e.pulse_time_s ≡ last.ms_epoch)
        × (e.pulse_start_time ≤ e.pulse_end_time)
  unfolding measure_all
  measure_all-pulse first last v w samples d idle fresh forward on all_ off =
      let busy : DigitalDev F = record d { pulse_start_time = first.steady } in
      let whole : measure_all ((first, v) ∷ (samples ++ ((last, w) ∷ []))) d ≡ record busy {
        pulse_end_time = last.steady;
        pulse_dur = millis (last.steady - first.steady);
        pulse_time_s = last.ms_epoch;
      } =
        ap (measure_all (samples ++ ((last, w) ∷ []))) (pulse_starts first v d idle on)
        ∙ measure_all-append samples ((last, w) ∷ []) busy
        ∙ ap (measure_all ((last, w) ∷ [])) (measure_all-on samples busy fresh all_)
        ∙ pulse_ends last w busy fresh off in
      (
        ap (λ e. e.pulse_dur) whole,
        ap (λ e. e.pulse_time_s) whole,
        subst (λ e. e.pulse_start_time ≤ e.pulse_end_time) (sym whole) forward,
      )

-- A word of k bytes, written to the start of a word of four and read from there.
abbrev again : Bool → ℕ → ℕ → ℕ
again little k x = value_of little (
    slice
      (memory_of little 4
        (value_of little (put_all (memory_of little 4 0) 0 (memory_of little k x))))
      0 k)

again8 : (little : Bool) (x : ℕ) → x < 256 → again little 1 x ≡ x
unfolding put_all
again8 true x small = omega arith
again8 false x small = omega arith

again16 : (little : Bool) (x : ℕ) → x < 65536 → again little 2 x ≡ x
unfolding put_all
again16 true x small = omega arith
again16 false x small = omega arith

again32 : (little : Bool) (x : ℕ) → x < 4294967296 → again little 4 x ≡ x
unfolding put_all
again32 true x small = omega arith
again32 false x small = omega arith

-- The bytes of a word of n bits that `convertFloat` makes of an integer below 2^n are what `convertBytes`
-- reads as the unsigned integer, in both orders of bytes.
pub int_of_bytes-word_of_int :
    (little : Bool) (x n : ℕ)
    → is_size n ≡ true
    → x < 2 ^ n
    → int_of_bytes little (word_of_int little x n) BitRepr.unsigned n ≡ pos x
unfolding int_of_bytes word_of_int
int_of_bytes-word_of_int little x n size fits = elim (Bool-cases (n == 8)) [
  | inl e ↦ at_size 8 (ground arith) (λ h. ap pos (again8 little x h))
  | inr e ↦ elim (Bool-cases (n == 16)) [
    | inl e' ↦ at_size 16 (ground arith) (λ h. ap pos (again16 little x h))
    | inr e' ↦ at_size 32 (ground arith) (λ h. ap pos (again32 little x h))
  ]
]
  where
    at_size :
        (k : ℕ)
        → n ≡ k
        → (x < 2 ^ k → int_of_bytes little (word_of_int little x k) BitRepr.unsigned k ≡ pos x)
        → int_of_bytes little (word_of_int little x n) BitRepr.unsigned n ≡ pos x
    at_size k q h = rw q (h (rw (sym q) fits))
