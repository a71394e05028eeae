-- ===== src/Master/Reading.antt =====
-- The reads of ModbusMasterDrv.cpp: `processRead` for a field variable and for a variable of the
-- slave, `processNextRead`, and what the HMI reads from the driver.
use Prim.Native.String.{String}
use turbine_governor.Base.{
  ℕ, zero, suc, ◌+◌, Bool, true, false, not, ◌&&◌, ◌||◌, Option, none, some, List, [], ◌∷◌, get_or,
  set, length, get_elem?, leb, ltb, ◌==◌, if◌then◌else◌,
}
use turbine_governor.Types.{QuState, IoAddr, same_addr, qu_code}
use turbine_governor.Types.Float.{FloatOps}
use turbine_governor.Slave.Access.{FloatCodec}
use turbine_governor.Slave.Wire.{get_time_s, get_int, get_q_state}
use turbine_governor.Master.State.{MasterDrv, FieldData, ModbusData}
use turbine_governor.Master.Queue.{max_transmission_trys}

-- How the server answers the tries to read a variable, and what it sends when it does. A variable
-- of the slave has one request, `values_ok`.
pub record ReadAnswers : Type 0 where
  pub values_ok : ℕ → Bool
  pub times_ok : ℕ → Bool
  pub q_state_ok : ℕ → Bool
  pub forced_ok : ℕ → Bool
  pub values : List ℕ
  pub times : List ℕ
  pub q_state : List ℕ
  pub forced : ℕ
  pub now : ℕ
  pub error_text : String

-- The loop over the tries for a field variable: the number of tries that it leaves.
unfoldable pub field_trys : ReadAnswers → ℕ → ℕ → Bool → Bool → Bool → Bool → ℕ
field_trys net zero n v t q f = n + 1
field_trys net (suc left) n v t q f =
    let v' = v || net.values_ok n in
    let t' = t || v' && net.times_ok n in
    let q' = q || v' && t' && net.q_state_ok n in
    let f' = f || v' && t' && q' && net.forced_ok n in
    let rest = field_trys net left (n + 1) v' t' q' f' in
    if ltb n max_transmission_trys && (not v || not t || not q || not f) then rest else n + 1

unfoldable pub field_read : ReadAnswers → Bool
unfolding field_trys
field_read net = not (leb (max_transmission_trys + 1) (field_trys net 4 0 false false false false))

-- `while(iNumTrys++ < MAX_TRANSMISSION_TRYS && modbus_read_...(...) == -1)`
unfoldable pub modbus_trys : ReadAnswers → ℕ → ℕ → ℕ
modbus_trys net zero n = n + 1
modbus_trys net (suc left) n =
    let rest = modbus_trys net left (n + 1) in
    if ltb n max_transmission_trys && not (net.values_ok n) then rest else n + 1

unfoldable pub modbus_read : ReadAnswers → Bool
unfolding modbus_trys
modbus_read net = not (leb (max_transmission_trys + 1) (modbus_trys net 4 0))

abbrev pub has_addr : IoAddr → List IoAddr → Bool
has_addr a [] = false
has_addr a (b ∷ bs) = same_addr b a || has_addr a bs

-- `musChangedVars.insert`
abbrev pub note_change : Bool → IoAddr → List IoAddr → List IoAddr
note_change changed a noted = if changed && not (has_addr a noted) then a ∷ noted else noted

abbrev same_state : QuState → QuState → Bool
same_state p q = qu_code p == qu_code q

abbrev differ : Bool → Bool → Bool
differ true b = not b
differ false b = b

abbrev pub delay_between_reads : ℕ
delay_between_reads = 10

module _ {F : Type 0} where
  abbrev pub at_ends : MasterDrv F → Bool
  at_ends s = leb (length s.field_vars) s.field_it && leb (length s.modbus_vars) s.modbus_it

  -- The end of `processNextRead`, where no variable was read.
  abbrev pub finish_reads : MasterDrv F → Bool × MasterDrv F
  finish_reads s =
      if at_ends s
      then (
        length s.field_vars == 0 && length s.modbus_vars == 0,
        record s {
          in_read_cycle = false;
          millis_to_read_cycle = delay_between_reads;
          field_it = 0;
          modbus_it = 0;
        },
      )
      else (false, s)

  abbrev pub or_finish : Bool × MasterDrv F → Bool × MasterDrv F
  or_finish (true, s) = (true, s)
  or_finish (false, s) = finish_reads s

module _ {F : Type 0} (fl : FloatOps F) (codec : FloatCodec F) where
  abbrev float_at : List ℕ → ℕ → F
  float_at regs i = codec.get_abcd (get_or regs i 0) (get_or regs (i + 1) 0)

  -- The data of a field variable after a read.
  unfoldable pub new_field_data : Bool → ReadAnswers → FieldData F → FieldData F × Bool
  new_field_data little net d =
      let x = float_at net.values 0 in
      let y = float_at net.values 2 in
      let q = get_q_state net.q_state in
      let on = leb 1 net.forced in
      let changed =
        d.force_change_detection
        || not (fl.eq x d.true_val)
        || not (fl.eq d.forced_val y)
        || not (same_state q d.q_state)
        || differ d.forced on in
      (
        record {
          time_s = get_time_s little d.time_s net.times;
          true_val = x;
          forced_val = y;
          q_state = q;
          forced = on;
          force_change_detection = d.force_change_detection && not changed;
        },
        changed,
      )

  -- The data of a variable of the slave, a read-only integer or a value.
  unfoldable pub new_modbus_data : Bool → Bool → ReadAnswers → ModbusData F → ModbusData F × Bool
  new_modbus_data little is_int net d =
      let x = get_int little net.values in
      let y = float_at net.values 0 in
      let changed_int =
        d.force_change_detection
        || not (x == d.current_int)
        || not (same_state d.q_state QuState.ok) in
      let changed_val =
        d.force_change_detection
        || not (fl.eq d.current_val y)
        || not (same_state d.q_state QuState.ok) in
      if is_int
      then (
        record {
          time_s = net.now;
          current_val = d.current_val;
          current_int = x;
          q_state = QuState.ok;
          force_change_detection = d.force_change_detection && not changed_int;
        },
        changed_int,
      )
      else (
        record {
          time_s = net.now;
          current_val = y;
          current_int = d.current_int;
          q_state = QuState.ok;
          force_change_detection = d.force_change_detection && not changed_val;
        },
        changed_val,
      )

  -- `processRead` on the field variable at the iterator, and the step of the iterator.
  abbrev pub read_field_var :
      Option (IoAddr × FieldData F) → ReadAnswers → MasterDrv F → Bool × MasterDrv F
  read_field_var none net s = (false, s)
  read_field_var (some (a, d)) net s =
      let (d', changed) = new_field_data s.little net d in
      if field_read net
      then (
        true,
        record s {
          field_vars = set s.field_vars s.field_it (a, d');
          changed_vars = note_change changed a s.changed_vars;
          field_it = s.field_it + 1;
        },
      )
      else (false, record s { last_error = net.error_text })

  abbrev pub read_modbus_var :
      Option (IoAddr × ModbusData F) → ReadAnswers → MasterDrv F → Bool × MasterDrv F
  read_modbus_var none net s = (false, s)
  read_modbus_var (some (a, d)) net s =
      let is_int = leb 1 a.channel && leb a.channel s.num_ro_ints in
      let (d', changed) = new_modbus_data s.little is_int net d in
      if modbus_read net
      then (
        true,
        record s {
          modbus_vars = set s.modbus_vars s.modbus_it (a, d');
          changed_vars = note_change changed a s.changed_vars;
          modbus_it = s.modbus_it + 1;
        },
      )
      else (false, record s { last_error = net.error_text })

  unfoldable pub process_next_read : ReadAnswers → MasterDrv F → Bool × MasterDrv F
  process_next_read net s =
      if ltb s.field_it (length s.field_vars)
      then or_finish (read_field_var (get_elem? s.field_vars s.field_it) net s)
      else if ltb s.modbus_it (length s.modbus_vars)
      then or_finish (read_modbus_var (get_elem? s.modbus_vars s.modbus_it) net s)
      else finish_reads s
