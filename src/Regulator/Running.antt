-- ===== src/Regulator/Running.antt =====
-- The regulator of Regulator/src/main.cpp over its Modbus driver.
use turbine_governor.Base.{ℕ, ◌≡◌, true, some, []}
use turbine_governor.Types.Float.{FloatOps}
use turbine_governor.Types.IoVar.{IoVar}
use turbine_governor.Slave.State.{SlaveDrv}
use turbine_governor.Slave.Access.{FloatCodec}
use turbine_governor.Slave.Promises.{SizedInv, modbus_slave, modbus_slave-SlaveLaws}
use turbine_governor.Image.{FieldOps}
use turbine_governor.Control.Cycle.{is_state}
use turbine_governor.Regulator.{Regulator, DriverStates, cycle}
use turbine_governor.Regulator.Cycles.{Reached, Reached-RegInv, cycle-returns}

-- What differs from cycle to cycle: the time at which each variable is read, and the field.
abbrev pub Moment : Type 0 → Type 0 → Type 0
Moment D F = (IoVar F → ℕ) × FieldOps D F

-- Over the Modbus driver, with a configuration for which the sizes of its tables do not wrap at 32
-- bits, from every state that the regulator reaches, with whatever times the clock gives and the field
-- driver answers in each cycle, and whatever the threads of the drivers, the masters and driver
-- failures do between the cycles, the next cycle returns: it uses no null pointer and passes the end
-- of no array or table. The slave driver is then well formed, the control in one of its five states,
-- and the map of failed field variables empty.
pub cycle-never_stuck :
    {D F : Type 0} (fl : FloatOps F) (codec : FloatCodec F) (now : IoVar F → ℕ)
    (field : FieldOps D F) (states : DriverStates SlaveDrv D) (r : Regulator SlaveDrv D F)
    → Reached fl
        (λ (c : Moment D F). modbus_slave codec c.0)
        (λ c. c.1)
        states
        SizedInv
        (λ c. modbus_slave-SlaveLaws codec c.0)
        r
    → (r' : Regulator SlaveDrv D F) × (cycle fl (modbus_slave codec now) field states r ≡ some r')
      × SizedInv r'.slave
      × (is_state r'.world.i_state ≡ true)
      × (r'.world.alarms.last_fld_errors ≡ [])
cycle-never_stuck {D} {F} fl codec now field states r reached =
    let slave = modbus_slave codec now in
    let laws = modbus_slave-SlaveLaws codec now in
    let v =
      Reached-RegInv fl (λ (c : Moment D F). modbus_slave codec c.0) (λ c. c.1) states SizedInv
        (λ c. modbus_slave-SlaveLaws codec c.0) r reached in
    let (r', e, v') = cycle-returns fl slave field states SizedInv laws r v in
    (r', e, v'.good, v'.in_state, v'.no_errors.none_known)
