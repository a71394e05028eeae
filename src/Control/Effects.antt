-- ===== src/Control/Effects.antt =====
-- The effects of Regulator/src/Control.cpp: reads and writes of the image, calls of the alarm
-- manager, and the state of the control, in a monad that undefined behaviour ends.
use turbine_governor.Base.{ℕ, Bool, Option, none, some, if◌then◌else◌}
use turbine_governor.AlarmManager.{AlarmManager}
use turbine_governor.Image.{Image, value_at, store_at}

pub record World (F : Type 0) : Type 0 where
  pub image : Image F
  pub alarms : AlarmManager
  pub i_state : ℕ

abbrev pub Act : Type 0 → Type 0 → Type 0
Act F A = World F → Option (A × World F)

module _ {F : Type 0} where
  abbrev pub done : {A : Type 0} → A → Act F A
  done a w = some (a, w)

  abbrev after : {A B : Type 0} → Option (A × World F) → (A → Act F B) → Option (B × World F)
  after none f = none
  after (some (a, w)) f = f a w

  infixl 5 ◌>>=◌ ◌>>◌
  unfoldable pub ◌>>=◌ : {A B : Type 0} → Act F A → (A → Act F B) → Act F B
  (m >>= f) w = after (m w) f

  unfoldable pub ◌>>◌ : {B : Type 0} → Act F Unit → Act F B → Act F B
  (m >> k) w = after (m w) (λ u. k)

  abbrev pub when : Bool → Act F Unit → Act F Unit
  when b m = if b then m else done tt

  abbrev asked : World F → Option F → Option (F × World F)
  asked w none = none
  asked w (some x) = some (x, w)

  abbrev told : World F → Option (Image F) → Option (Unit {0} × World F)
  told w none = none
  told w (some img) = some (tt, record w { image = img })

  unfoldable pub ask : ℕ → Act F F
  ask id w = asked w (value_at w.image id)

  unfoldable pub tell : ℕ → F → Act F Unit
  tell id x w = told w (store_at id x w.image)

  unfoldable pub alarm : (AlarmManager → AlarmManager) → Act F Unit
  alarm f w = some (tt, record w { alarms = f w.alarms })

  unfoldable pub get_state : Act F ℕ
  get_state w = some (w.i_state, w)

  unfoldable pub put_state : ℕ → Act F Unit
  put_state s w = some (tt, record w { i_state = s })
