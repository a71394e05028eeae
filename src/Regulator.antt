-- ===== src/Regulator.antt =====
-- Regulator/src/main.cpp: the start of the regulator and its cycle, which reads the inputs, checks
-- the drivers, runs the control and writes the outputs.
pub mod Cycles
pub mod Running
use turbine_governor.Base.{ℕ, Option, none, some, List, [], ◌∷◌, ◌>>=◌}
use turbine_governor.Types.{DrvState}
use turbine_governor.Types.Float.{FloatOps}
use turbine_governor.Types.IoVar.{IoVar}
use turbine_governor.AlarmManager.{AlarmManager, check_driver_errors}
use turbine_governor.Image.{Image, SlaveOps, FieldOps}
use turbine_governor.Image.Exchange.{init, update_inputs, update_outputs, get_fld_errors}
use turbine_governor.Control.{update_control}
use turbine_governor.Control.Effects.{World}

-- The objects of `main`, with the two drivers.
pub record Regulator (S D F : Type 0) : Type 0 where
  pub world : World F
  pub slave : S
  pub field : D

-- The states of the drivers as the alarm manager reads them.
pub record DriverStates (S D : Type 0) : Type 0 where
  pub of_slave : S → DrvState
  pub of_field : D → DrvState

module _ {S D F : Type 0} (fl : FloatOps F) (slave : SlaveOps S F) (field : FieldOps D F)
    (states : DriverStates S D) where
  -- `checkDriverErrors` on the image and the drivers.
  unfoldable pub check_errors : Regulator S D F → Option (Regulator S D F)
  check_errors r =
      check_driver_errors (states.of_field r.field) (states.of_slave r.slave)
        (get_fld_errors slave field r.world.image r.field) r.world.alarms
      >>= λ al. some (record r { world = record r.world { alarms = al } })

  unfoldable pub inputs : Regulator S D F → Option (Regulator S D F)
  inputs r = update_inputs slave field r.world.image r.field r.slave >>= λ i.
      some (record r { world = record r.world { image = i.0 }; slave = i.1 })

  unfoldable pub control : Regulator S D F → Option (Regulator S D F)
  control r = update_control fl r.world >>= λ w. some (record r { world = w.1 })

  unfoldable pub outputs : Regulator S D F → Option (Regulator S D F)
  outputs r = update_outputs slave field r.world.alarms r.world.image r.field r.slave >>= λ o.
      some (record r { world = record r.world { image = o.0 }; field = o.1; slave = o.2 })

  -- The body of the loop of `main`.
  unfoldable pub cycle : Regulator S D F → Option (Regulator S D F)
  cycle r = inputs r >>= check_errors >>= control >>= outputs

  -- The regulator after the initialisation of the image, when both drivers are ready.
  unfoldable pub boot : (ℕ → IoVar F) → AlarmManager → D → S → Option (Regulator S D F)
  boot junk al d s = init fl slave junk s >>= λ i.
      some (record {
        world = record { image = i.0; alarms = al; i_state = 0 };
        slave = i.1;
        field = d;
      })
