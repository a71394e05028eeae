-- ===== src/Tests/Regulator.antt =====
-- The regulator of Regulator/src, started over a driver with a small configuration.
use turbine_governor.Base.{
  ℕ, ◌+◌, ◌-◌, ◌*◌, ◌/◌, ◌≡◌, refl, true, some, List, [], ◌∷◌, ltb, ◌==◌, arith,
}
use turbine_governor.Base.Int.{pos, negsuc}
use turbine_governor.Types.{DrvState}
use turbine_governor.Types.Float.{FloatOps}
use turbine_governor.Types.IoVar.{IoVar}
use turbine_governor.AlarmManager.{construct}
use turbine_governor.Slave.State.{SlaveDrv}
use turbine_governor.Slave.Lifecycle.{construct_drv}
use turbine_governor.Slave.Access.{write}
use turbine_governor.Slave.Promises.{SizedInv, modbus_slave, modbus_slave-SlaveLaws}
use turbine_governor.Image.{Image, FieldOps, value_at, at, place_of, set_cell}
use turbine_governor.Image.Keeps.{SlaveLaws}
use turbine_governor.Image.Exchange.{created, empty_image, made, create_all, init}
use turbine_governor.Image.Start.{init-Ready}
use turbine_governor.Control.{update_control}
use turbine_governor.Control.Effects.{World}
use turbine_governor.Control.Runs.{Ready}
use turbine_governor.Control.Cycle.{is_state, follows, alarms_after, update_control-returns}
use turbine_governor.Regulator.{Regulator, DriverStates, cycle, boot}
use turbine_governor.Regulator.Cycles.{Reached, Reached-RegInv}
use turbine_governor.Regulator.Running.{Moment, cycle-never_stuck}
use turbine_governor.Tests.Slave.{words, junk_var, ready, ready-DrvInv}

-- Whole numbers in the place of floats.
abbrev pub wholes : FloatOps ℕ
wholes = record {
  lt = ltb;
  eq = ◌==◌;
  add = ◌+◌;
  sub = ◌-◌;
  mul = ◌*◌;
  div = ◌/◌;
  of_int = λ z. elim z [ pos n ↦ n | negsuc n ↦ 0 ];
  of_ratio = ◌/◌;
  to_unsigned = λ w x. x;
}

-- Every variable is read at the time 0.
abbrev at_zero : IoVar ℕ → ℕ
at_zero v = 0

ready-SizedInv : SizedInv ready
ready-SizedInv = (ready-DrvInv, omega arith)

-- A field driver without devices.
abbrev no_field : FieldOps Unit ℕ
no_field = record {
  read = λ v d. v;
  write = λ v d. d;
  update_q_state = λ v d. v;
  var_errors = λ d. [];
}

abbrev states : DriverStates SlaveDrv Unit
states = record { of_slave = λ s. s.state; of_field = λ d. DrvState.un_init }

abbrev junk : ℕ → IoVar ℕ
junk id = junk_var

-- The variables that `init` creates, in an image.
abbrev filled : List (ℕ × ℕ × ℕ) → Image ℕ → Image ℕ
filled [] img = img
filled ((id, channel, value) ∷ es) img =
    filled es
      (set_cell (place_of id) (made wholes (modbus_slave words at_zero) junk id channel value) img)

abbrev started : Regulator SlaveDrv Unit ℕ
started = record {
  world = record {
    image = filled created empty_image;
    alarms = construct (λ i. 0) (λ i. 0);
    i_state = 0;
  };
  slave = ready;
  field = tt;
}

boots :
    boot wholes
      (modbus_slave words at_zero)
      no_field
      states
      junk
      (construct (λ i. 0) (λ i. 0))
      tt
      ready
    ≡ some started
unfolding boot init create_all write construct_drv
boots = refl

cycle-never_stuck_example :
    (r' : Regulator SlaveDrv Unit ℕ) × (cycle wholes
        (modbus_slave words at_zero)
        no_field
        states
        started
      ≡ some r')
    × SizedInv r'.slave
    × (is_state r'.world.i_state ≡ true)
    × (r'.world.alarms.last_fld_errors ≡ [])
cycle-never_stuck_example = cycle-never_stuck wholes words at_zero no_field states started (
    Reached.booted (at_zero, no_field) junk (λ i. 0) (λ i. 0) tt ready started ready-SizedInv boots)

modbus_slave-SlaveLaws_example : SlaveLaws (modbus_slave words at_zero) SizedInv
modbus_slave-SlaveLaws_example = modbus_slave-SlaveLaws words at_zero

init-Ready_example :
    (img : Image ℕ) × (s : SlaveDrv) × (init wholes (modbus_slave words at_zero) junk ready
      ≡ some (img, s))
    × SizedInv s
    × Ready img
    × (img.field_addr_index ≡ [])
init-Ready_example =
    init-Ready wholes (modbus_slave words at_zero) SizedInv (modbus_slave-SlaveLaws words at_zero)
      junk ready ready-SizedInv

started-Ready : Ready started.world.image
started-Ready =
    (Reached-RegInv wholes (λ (c : Moment Unit ℕ). modbus_slave words c.0) (λ c. c.1) states
      SizedInv (λ c. modbus_slave-SlaveLaws words c.0) started
      (Reached.booted (at_zero, no_field) junk (λ i. 0) (λ i. 0) tt ready started ready-SizedInv
        boots)).ready

-- The values that the image starts with: no start order, no trip, no reset.
update_control-returns_example :
    (w' : World ℕ) × (update_control wholes started.world ≡ some (tt, w'))
    × Ready w'.image
    × (follows 0 w'.i_state ≡ true)
    × (is_state w'.i_state ≡ true)
    × (w'.alarms ≡ alarms_after wholes 1 0 started.world.alarms)
    × (w'.image.field_addr_index ≡ [])
unfolding value_at at place_of
update_control-returns_example =
    update_control-returns wholes started.world 1 0 started-Ready refl refl refl refl
