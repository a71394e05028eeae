-- ===== src/Master/Loop.antt =====
-- The life cycle and the thread of ModbusMasterDrv.cpp.
use Prim.Native.String.{String}
use turbine_governor.Base.{
  ℕ, ◌-◌, ◌*◌, Bool, true, false, ◌||◌, List, [], ◌∷◌, ◌++◌, ◌==◌, min, if◌then◌else◌,
}
use turbine_governor.Types.{DrvState}
use turbine_governor.Types.Float.{FloatOps}
use turbine_governor.Slave.Access.{FloatCodec}
use turbine_governor.Slave.Server.{count_error, com_error_min_timeout}
use turbine_governor.Master.State.{MasterDrv, WriteReq, Event}
use turbine_governor.Master.Queue.{WriteAnswers, clean_write_requests, process_next_write}
use turbine_governor.Master.Reading.{ReadAnswers, process_next_read}

-- The answers of the network and of the clocks in one round: `elapsed` is what has passed since the
-- last round, `now` the time of the system.
pub record MasterNet : Type 0 where
  pub connects : Bool
  pub elapsed : ℕ
  pub now : ℕ
  pub reading : ReadAnswers
  pub writing : WriteAnswers
  pub error_text : String

abbrev pub delay_between_writes : ℕ
delay_between_writes = 20

module _ {F : Type 0} where
  unfoldable pub close_connection : MasterDrv F → MasterDrv F
  close_connection s = record s { connected = false }

  unfoldable pub create_connection : MasterNet → MasterDrv F → Bool × MasterDrv F
  create_connection net s =
      if s.connected
      then (true, s)
      else if net.connects
      then (true, record s { connected = true; com_errors = 0 })
      else (false, record s { last_error = net.error_text })

  unfoldable pub erase_drv_config : MasterDrv F → MasterDrv F
  erase_drv_config s = record s {
    has_ctx = false;
    field_vars = [];
    modbus_vars = [];
    field_it = 0;
    modbus_it = 0;
    num_io_vars = 0;
    num_ro_ints = 0;
    com_errors = 0;
  }

  abbrev pub shut : MasterDrv F → ℕ → MasterDrv F × List Event
  shut s now = let (t, events) = clean_write_requests true now s in (close_connection t, events)

  abbrev pub close_in : DrvState → ℕ → MasterDrv F → MasterDrv F × List Event
  close_in DrvState.un_init now s = (s, [])
  close_in _ now s =
      let (t, events) = shut (record s { state = DrvState.un_init }) now in
      (erase_drv_config t, events)

  unfoldable pub close : ℕ → MasterDrv F → MasterDrv F × List Event
  close now s = close_in s.state now s

  abbrev pub start_in : DrvState → MasterDrv F → Bool × MasterDrv F
  start_in DrvState.un_init s = (false, s)
  start_in DrvState.stopped s = (
    true,
    record s { state = DrvState.running; millis_to_write_cycle = 0; millis_to_read_cycle = 0 },
  )
  start_in _ s = (true, s)

  unfoldable pub start : MasterDrv F → Bool × MasterDrv F
  start s = start_in s.state s

  abbrev pub stop_in : DrvState → ℕ → MasterDrv F → MasterDrv F × List Event
  stop_in DrvState.un_init now s = (s, [])
  stop_in DrvState.stopped now s = (s, [])
  stop_in _ now s =
      let (t, events) = shut s now in
      (record t { state = DrvState.stopped; com_errors = 0 }, events)

  unfoldable pub stop : ℕ → MasterDrv F → MasterDrv F × List Event
  stop now s = stop_in s.state now s

  -- The timers of a round: both cycles may begin.
  abbrev pub tick : ℕ → MasterDrv F → MasterDrv F
  tick elapsed s = record s {
    millis_to_write_cycle =
        if s.in_write_cycle then s.millis_to_write_cycle else s.millis_to_write_cycle - elapsed;
    in_write_cycle = s.in_write_cycle || s.millis_to_write_cycle - elapsed == 0;
    millis_to_read_cycle =
        if s.in_read_cycle then s.millis_to_read_cycle else s.millis_to_read_cycle - elapsed;
    in_read_cycle = s.in_read_cycle || s.millis_to_read_cycle - elapsed == 0;
  }

  -- A failure of the cycle leads to the state for errors.
  abbrev pub checked : Bool × MasterDrv F × List Event → MasterDrv F × List Event
  checked (true, s, events) = (s, events)
  checked (false, s, events) = (record s { state = DrvState.com_error }, events)

  abbrev pub next_write :
      List (WriteReq F) → MasterNet → MasterDrv F → Bool × MasterDrv F × List Event
  next_write [] net s =
      (true, record s { in_write_cycle = false; millis_to_write_cycle = delay_between_writes }, [])
  next_write _ net s = process_next_write net.writing net.now s

  -- What follows a try to connect, in the case `Running` and in the case `COMError`.
  abbrev pub connected_or_failed : Bool × MasterDrv F → MasterDrv F × List Event
  connected_or_failed (true, s) = (s, [])
  connected_or_failed (false, s) = (record s { state = DrvState.com_error }, [])

  abbrev pub recovered_or_waits : ℕ → Bool × MasterDrv F → MasterDrv F × List Event
  recovered_or_waits now (true, s) = (record s { state = DrvState.running }, Event.recovered ∷ [])
  recovered_or_waits now (false, s) =
      let n = count_error s.com_errors in
      let (t, events) = clean_write_requests false now (record s { com_errors = n }) in
      (
        t,
        (if s.com_errors == 0 then Event.com_error ∷ [] else [])
            ++ (events ++ (Event.slept (com_error_min_timeout * n) ∷ [])),
      )

  abbrev pub loop_com_error : MasterNet → MasterDrv F → MasterDrv F × List Event
  loop_com_error net s =
      if s.connected
      then (close_connection s, [])
      else recovered_or_waits net.now (create_connection net s)

module _ {F : Type 0} (fl : FloatOps F) (codec : FloatCodec F) where
  abbrev pub next_read : MasterNet → MasterDrv F → Bool × MasterDrv F × List Event
  next_read net s = let (ok, t) = process_next_read fl codec net.reading s in (ok, t, [])

  -- A round of a connected driver, after the timers. Writes come before reads.
  abbrev pub run_cycles : MasterNet → MasterDrv F → MasterDrv F × List Event
  run_cycles net s =
      if s.in_write_cycle
      then checked (next_write s.pending_writes net s)
      else if s.in_read_cycle
      then checked (next_read net s)
      else (s, Event.slept (min s.millis_to_write_cycle s.millis_to_read_cycle) ∷ [])

  abbrev pub loop_running : MasterNet → MasterDrv F → MasterDrv F × List Event
  loop_running net s =
      if s.connected
      then run_cycles net (tick net.elapsed s)
      else connected_or_failed (create_connection net s)

  abbrev pub loop_in : DrvState → MasterNet → MasterDrv F → MasterDrv F × List Event
  loop_in DrvState.stopped net s = (s, [])
  loop_in DrvState.un_init net s = (s, [])
  loop_in DrvState.running net s = loop_running net s
  loop_in DrvState.com_error net s = loop_com_error net s
  loop_in DrvState.var_error net s = (record s { state = DrvState.com_error }, [])

  -- One round of the loop of the thread.
  unfoldable pub loop_round : MasterNet → MasterDrv F → MasterDrv F × List Event
  loop_round net s = loop_in s.state net s
