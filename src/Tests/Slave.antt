-- ===== src/Tests/Slave.antt =====
-- The driver of ModbusSlaveDrv.cpp, run on a small configuration.
use mathlib.Core.Option.{some-injective}
use turbine_governor.Base.{
  ℕ, ◌+◌, ◌*◌, ◌/◌, ◌%◌, ◌≤◌, ◌<◌, ◌≡◌, refl, Bool, true, false, none, some, List, [], ◌∷◌, arith,
  ltb, leb, if◌then◌else◌, replicate, length-replicate,
}
use turbine_governor.Base.Dict
use turbine_governor.Types.{DrvState, QuState, IoAddr, no_addr}
use turbine_governor.Types.IoVar.{IoVar, new_var}
use turbine_governor.Xml.{Node, Nodes}
use turbine_governor.Slave.State.{SlaveDrv, Mapping, Fits}
use turbine_governor.Slave.Wire.{
  get_int, get_time_s, wire_bytes, memory_registers, get_int-wire_bytes, get_time_s-wire_bytes,
  get_int-wire_bytes_mixed,
}
use turbine_governor.Slave.Access.{FloatCodec, refused, num_var, set_forced, update_field_var}
use turbine_governor.Slave.Publish.{
  refused_iff, update_field_var-publishes, read_value, read_q_state, read_time,
}
use turbine_governor.Slave.Bounds.{refreshed, abcd}
use turbine_governor.Slave.Config.{
  Document, read_xml_config, read_attributes, read_sections, read_vars, read_var,
}
use turbine_governor.Slave.Lifecycle.{
  Modbus, construct_drv, start, init, new_mapping, init_loaded, init_mapping,
}
use turbine_governor.Slave.Server.{
  fd_isset, Net, Received, Selected, process_pending_requests, loop_round, close_sockets, gives_up,
}
use turbine_governor.Slave.Connections.{ServerInv}
use turbine_governor.Slave.Serve.{AcceptsFresh, process_pending_requests-ServerInv}
use turbine_governor.Slave.Reach.{DrvInv}
use turbine_governor.Slave.Setup.{Allocates}
use turbine_governor.Slave.Outage.{
  outage, rounds, calls, close_sockets-closes_all, gives_up_iff, times,
}
use turbine_governor.Slave.Invariant.{Step, Reach, Reach-DrvInv, update_field_var-returns}

-- A number of 32 bits in the place of a float.
abbrev pub words : FloatCodec ℕ
words = record { get_abcd = λ a b. a * 65536 + b; set_abcd = λ x. (x / 65536, x % 65536) }

abbrev pub junk_var : IoVar ℕ
junk_var = record {
  var_id = 0;
  time_s = 5;
  true_val = 70000;
  forced_val = 0;
  egu_min = 0;
  egu_max = 0;
  hw_min = 0;
  hw_max = 0;
  addr = no_addr;
  pulse_dur = 0;
  pulse_time_s = 0;
  own_q_state = QuState.ok;
  forced = false;
}

abbrev var : IoVar ℕ
var = new_var junk_var 7 no_addr

abbrev pub tables : ℕ → ℕ → ℕ → ℕ → Mapping
tables a b c d = record {
  bits = replicate a 0;
  input_bits = replicate b 0;
  registers = replicate c 0;
  input_bytes = replicate (2 * d) 0;
}

-- The tables for two variables and one read-only integer.
abbrev pub zeros : Mapping
zeros = tables 2 4 8 10

zeros-Fits : Fits 2 1 zeros
zeros-Fits = record {
  bits_len = refl;
  input_bits_len = refl;
  registers_len = refl;
  input_bytes_len = refl;
}

abbrev lib : Modbus
lib = record {
  new_tcp = true;
  mapping_new = λ a b c d. some (tables a b c d);
  error_text = "error";
}

lib-Allocates : Allocates lib
lib-Allocates = record {
  holds = λ a b c d m e. rw⁻¹ (some-injective _ _ e) (record {
    coils_len = length-replicate a 0;
    bits_len = length-replicate b 0;
    holding_len = length-replicate c 0;
    bytes_len = length-replicate (2 * d) 0;
  });
}

-- The descriptor that no socket of a list has: one more than the largest.
abbrev past : List ℕ → ℕ
past [] = 0
past (x ∷ xs) = if leb (past xs) x then x + 1 else past xs

-- One variable, 7, on channel 2, behind one read-only integer.
abbrev config : Document
config = Document.tree (
    some (
      Node.element "SlaveDriver"
        (("IP", "10.0.0.1") ∷ ("Port", "1502") ∷ ("NumROInts", "1") ∷ ("NumIOVars", "2") ∷ [])
        (Nodes.cons
          (Node.element "FieldVars" [] (
            Nodes.cons
              (Node.element "FieldVar" (("ID", "7") ∷ []) (
                Nodes.cons
                  (Node.element "Addr"
                    (("Head", "0") ∷ ("Mod", "0") ∷ ("Ch", "2") ∷ ("Prec", "16") ∷ []) Nodes.nil)
                  Nodes.nil))
              Nodes.nil))
          Nodes.nil)))

abbrev pub memory : SlaveDrv
memory = record {
  little = true;
  field_vars = [];
  server_ip = "";
  port = 0;
  num_io_vars = 9;
  num_ro_ints = 9;
  has_ctx = true;
  mapping = none;
  server_sock = none;
  refset = [];
  fdmax = 77;
  num_connections = 3;
  com_errors = 88;
  drv_end = true;
  state = DrvState.running;
  last_error = "";
}

abbrev pub fresh : SlaveDrv
fresh = construct_drv memory true

abbrev pub address : IoAddr
address = record { header = 0; mod_no = 0; channel = 2; num_bits = 16 }

abbrev pub ready : SlaveDrv
ready = record fresh {
  field_vars = (7, address) ∷ [];
  server_ip = "10.0.0.1";
  port = 1502;
  num_ro_ints = 1;
  num_io_vars = 2;
  has_ctx = true;
  mapping = some zeros;
  state = DrvState.stopped;
  com_errors = 0;
}

init_reads_config : init "slave.xml" config lib fresh ≡ some (true, ready)
unfolding init construct_drv read_xml_config read_attributes read_sections read_vars read_var
    init_loaded new_mapping init_mapping Dict.insert_new set_forced
init_reads_config = refl

-- A network with a server on descriptor 3 and a master that asks for a connection and then leaves.
abbrev net : Net
net = record {
  listen = some 3;
  selected = Selected.ready;
  readable = λ fd. true;
  accept = λ xs. if ltb (past xs) 1024 then some (past xs) else none;
  listener_after = λ xs srv. some srv;
  receive = λ fd. Received.broken;
  reply_ok = λ fd i. true;
  error_text = "down";
}

abbrev down : Net
down = record net { listen = none }

serving : ServerInv 3 (record ready {
  server_sock = some 3;
  refset = 5 ∷ 3 ∷ [];
  fdmax = 5;
  num_connections = 1;
  state = DrvState.running;
})
serving = record {
  server_open = refl;
  server_in = refl;
  distinct = (refl, (refl, tt));
  bounded = (omega arith, (omega arith, tt));
  counted = refl;
  few = omega arith;
}

abbrev served : SlaveDrv
served = record ready {
  server_sock = some 3;
  refset = 5 ∷ 3 ∷ [];
  fdmax = 5;
  num_connections = 1;
  state = DrvState.running;
}

abbrev lost : SlaveDrv
lost = record ready { state = DrvState.com_error }

fd_isset-past : (xs : List ℕ) (n : ℕ) → past xs ≤ n → fd_isset n xs ≡ false
fd_isset-past [] n h = refl
fd_isset-past (x ∷ xs) n h = ground (arith, fd_isset-past xs n)

net-AcceptsFresh : AcceptsFresh net
net-AcceptsFresh = record { fresh = fresh_fd; small = small_fd; keeps = λ xs srv. refl }
  where
    fresh_fd : (xs : List ℕ) (fd : ℕ) → net.accept xs ≡ some fd → fd_isset fd xs ≡ false
    fresh_fd xs fd e = ground (arith, fd_isset-past xs fd)

    small_fd : (xs : List ℕ) (fd : ℕ) → net.accept xs ≡ some fd → fd < 1024
    small_fd xs fd e = ground arith

running_reached : Reach words (loop_round net (start ready).1).0
running_reached =
    Reach.stepped _ _
      (Reach.stepped _ _
        (Reach.stepped _ _ (Reach.built memory true)
          (Step.inited "slave.xml" config lib true ready lib-Allocates init_reads_config))
        Step.started)
      (Step.looped net net-AcceptsFresh)

Reach-DrvInv_example : DrvInv (loop_round net (start ready).1).0
Reach-DrvInv_example = Reach-DrvInv words (loop_round net (start ready).1).0 running_reached

update_field_var-returns_example :
    (b : Bool) × (v' : IoVar ℕ) × (t : SlaveDrv) × (update_field_var words var
        (loop_round net (start ready).1).0
      ≡ some (b, v', t))
    × DrvInv t
unfolding loop_round start construct_drv
update_field_var-returns_example =
    update_field_var-returns words var (loop_round net (start ready).1).0 running_reached refl
      (omega arith)

process_pending_requests-ServerInv_example : ServerInv 3 (process_pending_requests net served)
process_pending_requests-ServerInv_example =
    process_pending_requests-ServerInv net 3 served net-AcceptsFresh serving

close_sockets-closes_all_example : times 5 (close_sockets served).1 ≡ 1
close_sockets-closes_all_example = (close_sockets-closes_all 3 5 served serving).0

outage_example : calls (rounds (down ∷ down ∷ []) lost).1 ≡ 1
unfolding construct_drv
outage_example = (outage (down ∷ down ∷ []) lost (refl, (refl, tt)) refl refl (omega arith)).3

gives_up_iff_example : gives_up Received.request (λ i. leb 3 i) ≡ true
gives_up_iff_example = (gives_up_iff (λ i. leb 3 i)).1 (refl, refl, refl)

refused_iff_example : refused (num_var 2 1) 2 DrvState.running ≡ false
refused_iff_example =
    (refused_iff 2 2 1 DrvState.running (omega arith) (omega arith)).1
      (omega arith, omega arith, refl)

update_field_var-publishes_example :
    let v' = refreshed words 1 zeros var in
    (m' : Mapping) × (update_field_var words var ready
      ≡ some (true, v', record ready { mapping = some m' }))
    × (read_value m' 1 ≡ abcd words 70000)
    × (read_q_state m' 1 ≡ QuState.ok)
    × (read_time true 1 m' 1 ≡ 5)
unfolding construct_drv Dict.lookup
update_field_var-publishes_example =
    update_field_var-publishes words var ready zeros address refl zeros-Fits refl refl (omega arith)
      (omega arith) (omega arith) (omega arith)

-- A configuration of 2^30 variables, for which there are no holding registers.
abbrev wrapped : SlaveDrv
wrapped = record ready {
  num_io_vars = 1073741824;
  mapping = some (record { bits = []; input_bits = []; registers = []; input_bytes = [] });
}

get_int-wire_bytes_example :
    get_int true (memory_registers true (wire_bytes true 4 305419896)) ≡ 305419896
get_int-wire_bytes_example = get_int-wire_bytes true 305419896 (omega arith)

get_time_s-wire_bytes_example :
    get_time_s true 9 (memory_registers true (wire_bytes true 8 81985529216486895))
    ≡ 81985529216486895
get_time_s-wire_bytes_example = get_time_s-wire_bytes true 81985529216486895 9 (omega arith)

get_int-wire_bytes_mixed_example : get_int false (memory_registers true (wire_bytes true 4 1)) ≡ 256
get_int-wire_bytes_mixed_example = get_int-wire_bytes_mixed 1 (omega arith)

pub ready-DrvInv : DrvInv ready
ready-DrvInv = Reach-DrvInv words ready (
    Reach.stepped _ _ (Reach.built memory true)
      (Step.inited "slave.xml" config lib true ready lib-Allocates init_reads_config))
