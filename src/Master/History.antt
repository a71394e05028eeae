-- ===== src/Master/History.antt =====
-- The books of requests through whole histories of ModbusMasterDrv.cpp: calls of the HMI, and rounds
-- of the driver's thread.
use turbine_governor.Base.{
  ℕ, ◌+◌, ◌*◌, ◌≡◌, refl, ap, ◌∙◌, inl, inr, Bool, true, false, ◌&&◌, Option, none, some, List, [],
  ◌∷◌, ◌++◌, ltb, ◌==◌, if◌then◌else◌, length, get_elem?, Bool-cases, arith,
}
use turbine_governor.Types.{DrvState, IoAddr, same_addr}
use turbine_governor.Types.Float.{FloatOps}
use turbine_governor.Slave.Access.{FloatCodec}
use turbine_governor.Slave.Server.{count_error}
use turbine_governor.Master.State.{MasterDrv, WriteReq, Event, FieldData, ModbusData}
use turbine_governor.Master.Queue.{
  clean, clean_write_requests, push, accepts, request, write, force,
}
use turbine_governor.Master.Reading.{
  ReadAnswers, process_next_read, read_field_var, read_modbus_var, finish_reads, or_finish, at_ends,
  field_read, modbus_read,
}
use turbine_governor.Master.Loop.{
  MasterNet, close_connection, create_connection, erase_drv_config, close, close_in, start,
  start_in, stop, stop_in, tick, checked, next_write, connected_or_failed, recovered_or_waits,
  loop_com_error, next_read, run_cycles, loop_running, loop_in, loop_round,
}
use turbine_governor.Master.Accounts.{
  one_if, answered, answered-append, waiting, waiting-push, clean-accounts, Balanced,
  process_next_write-accounts, shut-accounts, create_connection-pending,
}

announced : (a : IoAddr) (b : Bool) → answered a (if b then Event.com_error ∷ [] else []) ≡ 0
announced a true = refl
announced a false = refl

module _ {F : Type 0} where
  finish_reads-pending : (s : MasterDrv F) → (finish_reads s).1.pending_writes ≡ s.pending_writes
  finish_reads-pending s = elim (Bool-cases (at_ends s)) [ inl end ↦ rw end | inr more ↦ rw more ]

  or_finish-pending : (r : Bool × MasterDrv F) → (or_finish r).1.pending_writes ≡ r.1.pending_writes
  or_finish-pending (true, s) = refl
  or_finish-pending (false, s) = finish_reads-pending s

  checked-Balanced :
      (a : IoAddr) (s : MasterDrv F) (r : Bool × MasterDrv F × List Event)
      → waiting a r.1.pending_writes + answered a r.2 ≡ waiting a s.pending_writes
      → Balanced a s (checked r)
  checked-Balanced a s (true, t, es) h = h
  checked-Balanced a s (false, t, es) h = h

  next_write-accounts :
      (a : IoAddr) (rs : List (WriteReq F)) (net : MasterNet) (s : MasterDrv F)
      → s.pending_writes ≡ rs
      → let r = next_write rs net s in
        waiting a r.1.pending_writes + answered a r.2 ≡ waiting a s.pending_writes
  next_write-accounts a [] net s e = omega arith
  next_write-accounts a (r ∷ rs) net s e = process_next_write-accounts net.writing net.now a s

  connected_or_failed-Balanced :
      (a : IoAddr) (s : MasterDrv F) (r : Bool × MasterDrv F)
      → r.1.pending_writes ≡ s.pending_writes
      → Balanced a s (connected_or_failed r)
  connected_or_failed-Balanced a s (true, t) e = rw e (omega arith)
  connected_or_failed-Balanced a s (false, t) e = rw e (omega arith)

  -- Whichever branch is taken.
  Balanced-if :
      (a : IoAddr) (s : MasterDrv F) (b : Bool) (r q : MasterDrv F × List Event)
      → Balanced a s r
      → Balanced a s q
      → Balanced a s (if b then r else q)
  Balanced-if a s true r q h k = h
  Balanced-if a s false r q h k = k

  recovered_or_waits-Balanced :
      (a : IoAddr) (now : ℕ) (s : MasterDrv F) (r : Bool × MasterDrv F)
      → r.1.pending_writes ≡ s.pending_writes
      → Balanced a s (recovered_or_waits now r)
  unfolding clean_write_requests
  recovered_or_waits-Balanced a now s (true, t) e = rw e (omega arith)
  recovered_or_waits-Balanced a now s (false, t) e =
      let told = if t.com_errors == 0 then Event.com_error ∷ [] else [] in
      let (kept, old) = clean false now t.pending_writes in
      let slept = Event.slept (500 * count_error t.com_errors) ∷ [] in
      let books : waiting a kept + answered a (told ++ (old ++ slept))
          ≡ waiting a s.pending_writes =
        omega (
          arith,
          answered-append a told (old ++ slept),
          answered-append a old slept,
          announced a (t.com_errors == 0),
          clean-accounts false now a t.pending_writes,
          ap (waiting a) e,
        ) in
      books

  com_error-Balanced :
      (a : IoAddr) (net : MasterNet) (s : MasterDrv F) → Balanced a s (loop_com_error net s)
  unfolding close_connection
  com_error-Balanced a net s = Balanced-if a s s.connected _ _ (omega arith) (
      recovered_or_waits-Balanced a net.now s (create_connection net s)
        (create_connection-pending net s))

module _ {F : Type 0} (fl : FloatOps F) (codec : FloatCodec F) where
  read_field_var-pending :
      (o : Option (IoAddr × FieldData F)) (net : ReadAnswers) (s : MasterDrv F)
      → (read_field_var fl codec o net s).1.pending_writes ≡ s.pending_writes
  read_field_var-pending none net s = refl
  read_field_var-pending (some (a, d)) net s = elim (Bool-cases (field_read net)) [
    | inl ok ↦ rw ok
    | inr bad ↦ rw bad
  ]

  read_modbus_var-pending :
      (o : Option (IoAddr × ModbusData F)) (net : ReadAnswers) (s : MasterDrv F)
      → (read_modbus_var fl codec o net s).1.pending_writes ≡ s.pending_writes
  read_modbus_var-pending none net s = refl
  read_modbus_var-pending (some (a, d)) net s = elim (Bool-cases (modbus_read net)) [
    | inl ok ↦ rw ok
    | inr bad ↦ rw bad
  ]

  process_next_read-pending :
      (net : ReadAnswers) (s : MasterDrv F)
      → (process_next_read fl codec net s).1.pending_writes ≡ s.pending_writes
  unfolding process_next_read
  process_next_read-pending net s = elim (Bool-cases (ltb s.field_it (length s.field_vars))) [
    | inl field ↦
        let r = read_field_var fl codec (get_elem? s.field_vars s.field_it) net s in
        rw field
          (or_finish-pending r ∙ read_field_var-pending (get_elem? s.field_vars s.field_it) net s)
    | inr past ↦ elim (Bool-cases (ltb s.modbus_it (length s.modbus_vars))) [
      | inl modbus ↦
          let r = read_modbus_var fl codec (get_elem? s.modbus_vars s.modbus_it) net s in
          rw (past, modbus)
            (or_finish-pending r
              ∙ read_modbus_var-pending (get_elem? s.modbus_vars s.modbus_it) net s)
      | inr end ↦ rw (past, end) (finish_reads-pending s)
    ]
  ]

  run_cycles-Balanced :
      (a : IoAddr) (net : MasterNet) (s : MasterDrv F) → Balanced a s (run_cycles fl codec net s)
  run_cycles-Balanced a net s =
      Balanced-if a s s.in_write_cycle _ _
        (checked-Balanced a s (next_write s.pending_writes net s)
          (next_write-accounts a s.pending_writes net s refl))
        (Balanced-if a s s.in_read_cycle _ _
          (checked-Balanced a s (next_read fl codec net s)
            (omega (arith, ap (waiting a) (process_next_read-pending net.reading s))))
          (omega arith))

  loop_running-Balanced :
      (a : IoAddr) (net : MasterNet) (s : MasterDrv F) → Balanced a s (loop_running fl codec net s)
  loop_running-Balanced a net s =
      Balanced-if a s s.connected _ _ (run_cycles-Balanced a net (tick net.elapsed s)) (
        connected_or_failed-Balanced a s (create_connection net s)
          (create_connection-pending net s))

  loop_in-Balanced :
      (st : DrvState) (a : IoAddr) (net : MasterNet) (s : MasterDrv F)
      → Balanced a s (loop_in fl codec st net s)
  loop_in-Balanced DrvState.stopped a net s = omega arith
  loop_in-Balanced DrvState.un_init a net s = omega arith
  loop_in-Balanced DrvState.running a net s = loop_running-Balanced a net s
  loop_in-Balanced DrvState.com_error a net s = com_error-Balanced a net s
  loop_in-Balanced DrvState.var_error a net s = omega arith

  loop_round-Balanced :
      (a : IoAddr) (net : MasterNet) (s : MasterDrv F) → Balanced a s (loop_round fl codec net s)
  unfolding loop_round
  loop_round-Balanced a net s = loop_in-Balanced s.state a net s

-- What the HMI and the thread do, in any order. The times of the system come with each call.
pub data Call (F : Type 0) : Type 0 where
  write_call : F → IoAddr → ℕ → ℕ → Call F
  force_call : F → IoAddr → Bool → ℕ → ℕ → Call F
  start_call : Call F
  stop_call close_call : ℕ → Call F
  round : MasterNet → Call F

module _ {F : Type 0} (fl : FloatOps F) (codec : FloatCodec F) where
  -- The state after a call, its events, and how many requests to `a` it accepts.
  unfoldable pub call : Call F → MasterDrv F → MasterDrv F × List Event
  call (Call.write_call x b t now) s = ((write x b t now s).1, [])
  call (Call.force_call x b on t now) s = ((force x b on t now s).1, [])
  call Call.start_call s = ((start s).1, [])
  call (Call.stop_call now) s = stop now s
  call (Call.close_call now) s = close now s
  call (Call.round net) s = loop_round fl codec net s

  unfoldable pub accepted : IoAddr → Call F → MasterDrv F → ℕ
  accepted a (Call.write_call x b t now) s = one_if ((write x b t now s).0 && same_addr b a)
  accepted a (Call.force_call x b on t now) s = one_if ((force x b on t now s).0 && same_addr b a)
  accepted a _ s = 0

  request-accounts :
      (a : IoAddr) (r : WriteReq F) (s : MasterDrv F)
      → let q = request r s in
        waiting a q.1.pending_writes
        ≡ one_if (q.0 && same_addr r.addr a) + waiting a s.pending_writes
  request-accounts a r s = by_guard (accepts r.addr s)
    where
      by_guard :
          (b : Bool)
          → let q : Bool × MasterDrv F =
              if b
              then (true, record s { pending_writes = push r s.pending_writes })
              else (false, s) in
            waiting a q.1.pending_writes
            ≡ one_if (q.0 && same_addr r.addr a) + waiting a s.pending_writes
      by_guard true = waiting-push a r s.pending_writes
      by_guard false = omega arith

  stop_in-Balanced :
      (st : DrvState) (now : ℕ) (a : IoAddr) (s : MasterDrv F) → Balanced a s (stop_in st now s)
  stop_in-Balanced DrvState.un_init now a s = omega arith
  stop_in-Balanced DrvState.stopped now a s = omega arith
  stop_in-Balanced DrvState.running now a s = shut-accounts now a s
  stop_in-Balanced DrvState.com_error now a s = shut-accounts now a s
  stop_in-Balanced DrvState.var_error now a s = shut-accounts now a s

  close_in-Balanced :
      (st : DrvState) (now : ℕ) (a : IoAddr) (s : MasterDrv F) → Balanced a s (close_in st now s)
  unfolding erase_drv_config clean_write_requests close_connection
  close_in-Balanced DrvState.un_init now a s = omega arith
  close_in-Balanced DrvState.stopped now a s = clean-accounts true now a s.pending_writes
  close_in-Balanced DrvState.running now a s = clean-accounts true now a s.pending_writes
  close_in-Balanced DrvState.com_error now a s = clean-accounts true now a s.pending_writes
  close_in-Balanced DrvState.var_error now a s = clean-accounts true now a s.pending_writes

  pub close-Balanced : (now : ℕ) (a : IoAddr) (s : MasterDrv F) → Balanced a s (close now s)
  unfolding close
  close-Balanced now a s = close_in-Balanced s.state now a s

  start_in-pending :
      (st : DrvState) (s : MasterDrv F) → (start_in st s).1.pending_writes ≡ s.pending_writes
  start_in-pending DrvState.un_init s = refl
  start_in-pending DrvState.stopped s = refl
  start_in-pending DrvState.running s = refl
  start_in-pending DrvState.com_error s = refl
  start_in-pending DrvState.var_error s = refl

  pub call-accounts :
      (a : IoAddr) (c : Call F) (s : MasterDrv F)
      → let r = call c s in
        waiting a r.0.pending_writes + answered a r.1 ≡ accepted a c s + waiting a s.pending_writes
  unfolding call accepted write force start stop close
  call-accounts a (Call.write_call x b t now) s = omega (arith, request-accounts a _ s)
  call-accounts a (Call.force_call x b on t now) s = omega (arith, request-accounts a _ s)
  call-accounts a Call.start_call s = omega (arith, ap (waiting a) (start_in-pending s.state s))
  call-accounts a (Call.stop_call now) s = omega (arith, stop_in-Balanced s.state now a s)
  call-accounts a (Call.close_call now) s = omega (arith, close_in-Balanced s.state now a s)
  call-accounts a (Call.round net) s = omega (arith, loop_round-Balanced fl codec a net s)
