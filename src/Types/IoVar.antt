-- ===== src/Types/IoVar.antt =====
-- Regulator/src/CommonRegTypes.h: `IOVar`, a variable of the regulator's image.
use turbine_governor.Base.{ℕ, Bool, false, if◌then◌else◌}
use turbine_governor.Types.{QuState, IoAddr}

-- A time stamp is its 64-bit pattern.
pub record IoVar (F : Type 0) : Type 0 where
  pub var_id : ℕ
  pub time_s : ℕ
  pub true_val : F
  pub forced_val : F
  pub egu_min : F
  pub egu_max : F
  pub hw_min : F
  pub hw_max : F
  pub addr : IoAddr
  pub pulse_dur : F
  pub pulse_time_s : ℕ
  pub own_q_state : QuState
  pub forced : Bool

module _ {F : Type 0} where
  -- `getCurrentVal`
  abbrev pub current_val : IoVar F → F
  current_val v = if v.forced then v.forced_val else v.true_val

  -- `setCurrentVal` writes the true value, also of a forced variable.
  abbrev pub set_current_val : F → IoVar F → IoVar F
  set_current_val x v = record v { true_val = x }

  -- `getQState`
  abbrev pub q_state : IoVar F → QuState
  q_state v = if v.forced then QuState.ok else v.own_q_state

  abbrev pub set_q_state : QuState → IoVar F → IoVar F
  set_q_state q v = record v { own_q_state = q }

  -- The constructor sets these fields; the others start with what the memory holds.
  abbrev pub new_var : IoVar F → ℕ → IoAddr → IoVar F
  new_var junk id a = record junk {
    var_id = id;
    addr = a;
    own_q_state = QuState.ok;
    forced = false;
  }
