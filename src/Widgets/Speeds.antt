-- ===== src/Widgets/Speeds.antt =====
-- The speeds that the buttons of HMI/src/PositionCtrlWdg.cpp write.
use turbine_governor.Base.{ℕ, ◌≡◌, inl, inr, false, Bool-cases}
use turbine_governor.Base.Int.{pos}
use turbine_governor.Types.Float.{FloatOps}
use turbine_governor.Widgets.Position.{PositionCtrl, Command, clicked, at_most, at_least}

-- What is asked of the floats: no one is below itself, and adding or taking a whole number does not
-- pass a bound on the other side.
pub record IsOrdered {F : Type 0} (fl : FloatOps F) : Type 0 where
  pub irreflexive : (x : F) → fl.lt x x ≡ false
  pub grows : (x m : F) (n : ℕ) → fl.lt x m ≡ false → fl.lt (fl.add x (fl.of_int (pos n))) m ≡ false
  pub shrinks :
      (x m : F) (n : ℕ) → fl.lt m x ≡ false → fl.lt m (fl.sub x (fl.of_int (pos n))) ≡ false

-- A value within the limits of a position.
abbrev pub InLimits : {F : Type 0} → FloatOps F → PositionCtrl F → F → Type 0
InLimits fl p x = (fl.lt x p.min_limit ≡ false) × (fl.lt p.max_limit x ≡ false)

module _ {F : Type 0} (fl : FloatOps F) (laws : IsOrdered fl) (p : PositionCtrl F)
    (apart : fl.lt p.max_limit p.min_limit ≡ false) where
  at_most-InLimits :
      (x : F) → fl.lt x p.min_limit ≡ false → InLimits fl p (at_most fl p.max_limit x)
  at_most-InLimits x above = elim (Bool-cases (fl.lt p.max_limit x)) [
    | inl over ↦ rw over (apart, laws.irreflexive p.max_limit)
    | inr fine ↦ rw fine (above, fine)
  ]

  at_least-InLimits :
      (x : F) → fl.lt p.max_limit x ≡ false → InLimits fl p (at_least fl p.min_limit x)
  at_least-InLimits x below = elim (Bool-cases (fl.lt x p.min_limit)) [
    | inl under ↦ rw under (laws.irreflexive p.min_limit, apart)
    | inr fine ↦ rw fine (fine, below)
  ]

  -- When the last speed of a position and zero are within its limits, every button writes a speed
  -- within them.
  pub clicked-InLimits :
      (c : Command)
      → InLimits fl p p.last_speed_val
      → InLimits fl p (fl.of_int (pos 0))
      → InLimits fl p (clicked fl c p)
  unfolding clicked
  clicked-InLimits Command.more (low, high) zero_in =
      at_most-InLimits _ (laws.grows p.last_speed_val p.min_limit 1 low)
  clicked-InLimits Command.much_more (low, high) zero_in =
      at_most-InLimits _ (laws.grows p.last_speed_val p.min_limit 5 low)
  clicked-InLimits Command.less (low, high) zero_in =
      at_least-InLimits _ (laws.shrinks p.last_speed_val p.max_limit 1 high)
  clicked-InLimits Command.much_less (low, high) zero_in =
      at_least-InLimits _ (laws.shrinks p.last_speed_val p.max_limit 5 high)
  clicked-InLimits Command.stop (low, high) zero_in = zero_in
