-- ===== src/Master/Reads.antt =====
-- The tries and the read cycle of ModbusMasterDrv.cpp.
use turbine_governor.Base.{
  ◌+◌, ◌<◌, ◌≡◌, refl, ap, ◌∙◌, true, false, ◌&&◌, List, [], length, ltb, ◌==◌, if-true, if-false,
  arith,
}
use turbine_governor.Types.{DrvState}
use turbine_governor.Types.Float.{FloatOps}
use turbine_governor.Slave.Access.{FloatCodec}
use turbine_governor.Master.State.{MasterDrv, Event}
use turbine_governor.Master.Reading.{
  ReadAnswers, field_trys, field_read, modbus_trys, modbus_read, at_ends, process_next_read,
}
use turbine_governor.Master.Loop.{
  MasterNet, close_connection, tick, checked, run_cycles, loop_in, loop_round,
}

-- When the first two tries to read the values fail, a variable of the slave is read exactly when the
-- third try goes through, but a field variable is given up even then.
pub third_try :
    (net : ReadAnswers)
    → net.values_ok 0 ≡ false
    → net.values_ok 1 ≡ false
    → (modbus_read net ≡ net.values_ok 2) × (field_read net ≡ false)
unfolding modbus_read field_read modbus_trys field_trys
third_try net a b = (ground arith, ground arith)

module _ {F : Type 0} (fl : FloatOps F) (codec : FloatCodec F) where
  -- The driver at the end of a read cycle.
  abbrev rewound : MasterDrv F → MasterDrv F
  rewound s = record s {
    in_read_cycle = false;
    millis_to_read_cycle = 10;
    field_it = 0;
    modbus_it = 0;
  }

  ends_cycle :
      (net : ReadAnswers) (s : MasterDrv F)
      → s.field_it ≡ length s.field_vars
      → s.modbus_it ≡ length s.modbus_vars
      → 0 < length s.field_vars + length s.modbus_vars
      → process_next_read fl codec net s ≡ (false, rewound s)
  unfolding process_next_read
  ends_cycle net s fe me some_vars =
      let a : ltb s.field_it (length s.field_vars) ≡ false = ground arith in
      let b : ltb s.modbus_it (length s.modbus_vars) ≡ false = ground arith in
      let c : at_ends s ≡ true = ground arith in
      let d : (length s.field_vars == 0 && length s.modbus_vars == 0) ≡ false = ground arith in
      if-false (ltb s.field_it (length s.field_vars)) _ _ a
      ∙ if-false (ltb s.modbus_it (length s.modbus_vars)) _ _ b
      ∙ if-true (at_ends s) _ _ c
      ∙ ap (λ x. (x, rewound s)) d

  last_round :
      (net : MasterNet) (s : MasterDrv F)
      → s.in_read_cycle ≡ true
      → s.in_write_cycle ≡ false
      → s.field_it ≡ length s.field_vars
      → s.modbus_it ≡ length s.modbus_vars
      → 0 < length s.field_vars + length s.modbus_vars
      → run_cycles fl codec net s ≡ (record (rewound s) { state = DrvState.com_error }, [])
  last_round net s reads writes fe me some_vars =
      if-false s.in_write_cycle _ _ writes
      ∙ if-true s.in_read_cycle _ _ reads
      ∙ ap (λ r. checked (r.0, r.1, [])) (ends_cycle net.reading s fe me some_vars)

  -- A read cycle over at least one variable ends in a lost connection. Once the last variable is
  -- read, the next read of the running, connected driver leaves the data, the changed variables and the
  -- waiting writes as they are but sets the state for failed communication, and the round after it closes the connection.
  pub read_cycle-disconnects :
      (net net' : MasterNet) (s : MasterDrv F)
      → s.state ≡ DrvState.running
      → s.connected ≡ true
      → s.in_read_cycle ≡ true
      → s.in_write_cycle ≡ false
      → net.elapsed < s.millis_to_write_cycle
      → s.field_it ≡ length s.field_vars
      → s.modbus_it ≡ length s.modbus_vars
      → 0 < length s.field_vars + length s.modbus_vars
      → let t = (loop_round fl codec net s).0 in
        (t.state ≡ DrvState.com_error)
        × (t.in_read_cycle ≡ false)
        × (t.connected ≡ true)
        × (t.field_vars ≡ s.field_vars)
        × (t.modbus_vars ≡ s.modbus_vars)
        × (t.changed_vars ≡ s.changed_vars)
        × (t.pending_writes ≡ s.pending_writes)
        × ((loop_round fl codec net' t).0.connected ≡ false)
  unfolding loop_round close_connection
  read_cycle-disconnects net net' s st up reads writes early fe me some_vars =
      let u = tick net.elapsed s in
      let e : loop_round fl codec net s ≡ (record (rewound u) { state = DrvState.com_error }, []) =
        ap (λ x. loop_in fl codec x net s) st
        ∙ if-true s.connected _ _ up
        ∙ last_round net u (ground arith) (ground arith) fe me some_vars in
      rw (e, loop_round)
        (
          refl,
          refl,
          up,
          refl,
          refl,
          refl,
          refl,
          ap (λ (r : MasterDrv F × List Event). r.0.connected) (if-true s.connected _ _ up),
        )
