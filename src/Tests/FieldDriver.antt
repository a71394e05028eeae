-- ===== src/Tests/FieldDriver.antt =====
-- The driver of Regulator/src/FieldDriver/EthercatDrv.cpp and its devices, run on small configurations.
use Prim.Native.String.{String}
use turbine_governor.Base.{
  ℕ, suc, ◌+◌, ◌-◌, ◌≤◌, ◌≡◌, ◌⊎◌, refl, true, false, ◌||◌, Option, none, some, [], ◌∷◌, ◌++◌,
  get_or, ◌==◌, arith, if◌then◌else◌,
}
use turbine_governor.Base.Int.{pos}
use turbine_governor.Types.{IoAddr, DrvState, QuState, no_addr, same_addr}
use turbine_governor.Types.IoVar.{IoVar}
use turbine_governor.Xml.{Node, Nodes, parse_xml_addr, atoi}
use turbine_governor.Slave.Config.{Document}
use turbine_governor.Field.Devices.{new_device}
use turbine_governor.Field.Bus.{Bus, Modules, has, check_slaves_wkc, ec_state_operational}
use turbine_governor.Field.Scan.{fails}
use turbine_governor.Field.Checks.{check_slaves_wkc-marks}
use turbine_governor.Field.Kinds.{BitRepr, Clocks, Device, DigitalDev, int_of_bytes, word_of_int}
use turbine_governor.Field.Factory.{get_new_xml_device, made_of_type, find_pulse_measure}
use turbine_governor.Field.Drive.{EthercatDrv, Exchange, start, loop_round, get_var_errors}
use turbine_governor.Base.Dict
use turbine_governor.Field.Errors.{find}
use turbine_governor.Field.Reached.{Served, Served-agrees}
use turbine_governor.Field.Init.{
  Soem, wait_operational, wait_trys, init, init_bus, load_xml_config, read_xml_config,
  read_xml_vars, read_var_data, insert_dev, scan_var_data, read_children,
}
use turbine_governor.Field.Starts.{wait_operational-ends, init-loop_round_past_end}
use turbine_governor.Field.Pulses.{measure_all, measure_all-pulse, int_of_bytes-word_of_int}
use turbine_governor.Tests.Regulator.{wholes}

-- Two slaves of which only the first answers.
abbrev bus : Bus
bus = record {
  outputs_wkc = 2;
  inputs_wkc = 2;
  work_counter = 3;
  read_state = λ i. if i == 1 then 8 else 4;
  reconfigured = λ i. false;
  reconfigured_state = λ i. 0;
  checked_state = λ i. 0;
  recovered = λ i. false;
  recovered_state = λ i. 0;
}

abbrev slaves : Modules
slaves = record {
  slave_count = 2;
  slaves = λ i. record { state = 8; is_lost = false };
  module_errors = 1 ∷ [];
  com_trys = 0 ∷ 2 ∷ [];
}

-- The first slave lost its synchronisation, the second is lost.
abbrev lost_bus : Bus
lost_bus = record bus { read_state = λ i. if i == 1 then 4 else 0 }

check_slaves_wkc-marks_example :
    (t : Modules) × (check_slaves_wkc lost_bus slaves ≡ some t)
    × (has 1 t.module_errors ≡ (
        if lost_bus.read_state 1 == 8
        then false
        else has 1 slaves.module_errors
          || fails (lost_bus.read_state 1) (get_or slaves.com_trys 1 0)))
check_slaves_wkc-marks_example =
    check_slaves_wkc-marks lost_bus slaves 1 (omega arith) refl refl (omega arith) (omega arith)
      (omega arith)

abbrev soem : Soem
soem = record {
  has_interface = true;
  has_slaves = true;
  slave_count = 2;
  slaves = slaves.slaves;
  is_safe_op = true;
  checked = λ i. if i == 3 then 8 else 4;
}

wait_operational-ends_example :
    (n : ℕ) × (wait_operational soem.checked (suc wait_trys) wait_trys 0 ≡ some n)
    × (1 ≤ n)
    × (n ≤ 201)
    × ((n ≡ 201) ⊎ ((soem.checked (n - 1) == ec_state_operational) ≡ true))
wait_operational-ends_example = wait_operational-ends soem.checked

abbrev junk : DigitalDev ℕ
junk = record {
  dev = new_device;
  pulse_measure_opt = some true;
  pulse_start_time = 0;
  pulse_end_time = 0;
  pulse_dur = 0;
  pulse_time_s = 0;
}

abbrev no_text : Node → Option String
no_text n = none

abbrev config : Document
config = Document.tree (some (Node.element "FieldDriver" (("ifname", "eth0") ∷ []) Nodes.nil))

abbrev drv : EthercatDrv ℕ
drv = record {
  state = DrvState.un_init;
  devices = [];
  var_errors = [];
  modules = slaves;
  io = record { little = true; inputs = []; outputs = [] };
  if_name = "";
  last_error = "";
}

abbrev ready_drv : EthercatDrv ℕ
ready_drv = record drv {
  state = DrvState.stopped;
  modules = record slaves { com_trys = 0 ∷ 0 ∷ [] };
  if_name = "eth0";
}

init_eq : init wholes no_text junk "field.xml" config soem drv ≡ some (true, ready_drv)
unfolding init init_bus load_xml_config read_xml_config read_children wait_operational
init_eq = refl

abbrev exchange : Exchange
exchange = record { inputs = []; bus = bus; clocks = record { steady = 1; ms_epoch = 2 } }

init-loop_round_past_end_example : loop_round (λ n. n) exchange (start ready_drv).1 ≡ none
init-loop_round_past_end_example =
    init-loop_round_past_end wholes no_text junk "field.xml" config soem drv ready_drv (λ n. n)
      exchange init_eq (omega arith) (omega arith) (omega arith) refl

-- A pulse of three samples at 10, 12 and 17.
abbrev at_time : ℕ → Clocks
at_time n = record { steady = n; ms_epoch = n + 1000 }

measure_all-pulse_example :
    let e =
      measure_all
        (λ n. n)
        ((at_time 10, 1) ∷ (((at_time 12, 1) ∷ []) ++ ((at_time 17, 0) ∷ [])))
        junk in
    (e.pulse_dur ≡ 7) × (e.pulse_time_s ≡ 1017) × (e.pulse_start_time ≤ e.pulse_end_time)
measure_all-pulse_example =
    measure_all-pulse (λ n. n) (at_time 10) (at_time 17) 1 0 ((at_time 12, 1) ∷ []) junk
      (omega arith) (omega arith) (omega arith) refl refl refl

int_of_bytes-word_of_int_example :
    int_of_bytes false (word_of_int false 513 16) BitRepr.unsigned 16 ≡ pos 513
int_of_bytes-word_of_int_example = int_of_bytes-word_of_int false 513 16 refl (omega arith)

abbrev variable : IoVar ℕ
variable = record {
  var_id = 5;
  time_s = 0;
  true_val = 7;
  forced_val = 0;
  egu_min = 0;
  egu_max = 100;
  hw_min = 0;
  hw_max = 1000;
  addr = no_addr;
  pulse_dur = 0;
  pulse_time_s = 0;
  own_q_state = QuState.ok;
  forced = false;
}

abbrev running_drv : EthercatDrv ℕ
running_drv = record ready_drv { state = DrvState.running }

-- A configuration with a digital device of the second slave.
abbrev digital_addr : IoAddr
digital_addr = record { header = 0; mod_no = 2; channel = 0; num_bits = 8 }

abbrev digital_var : Node
digital_var = Node.element "Var" [] (
    Nodes.cons
      (Node.element "Addr" (("Head", "0") ∷ ("Mod", "2") ∷ ("Ch", "0") ∷ ("Prec", "8") ∷ [])
        Nodes.nil)
      (Nodes.cons
        (Node.element "VarType" (("Type", "DigitalDev") ∷ [])
          (Nodes.cons (Node.element "PulseMeasure" [] Nodes.nil) Nodes.nil))
        Nodes.nil))

abbrev digital_config : Document
digital_config = Document.tree (
    some (
      Node.element "FieldDriver" (("ifname", "eth0") ∷ [])
        (Nodes.cons (Node.element "Vars" [] (Nodes.cons digital_var Nodes.nil)) Nodes.nil)))

abbrev text_two : Node → Option String
text_two n = some "2"

abbrev digital : DigitalDev ℕ
digital = record junk { dev = new_device }

abbrev digital_drv : EthercatDrv ℕ
digital_drv = record ready_drv { devices = (digital_addr, Device.digital digital) ∷ [] }

digital_drv_eq :
    init wholes text_two junk "field.xml" digital_config soem drv ≡ some (true, digital_drv)
unfolding init init_bus load_xml_config read_xml_config read_children wait_operational read_xml_vars
    read_var_data insert_dev scan_var_data get_new_xml_device made_of_type find_pulse_measure
    parse_xml_addr atoi Dict.insert_new
digital_drv_eq = refl

-- The second slave is lost.
abbrev lost_exchange : Exchange
lost_exchange = record exchange { bus = record bus { read_state = λ i. if i == 1 then 8 else 0 } }

unfoldable failed_drv : EthercatDrv ℕ
unfolding loop_round start
failed_drv = elim (loop_round (λ n. n) lost_exchange (start digital_drv).1) [
  | none ↦ drv
  | some r ↦ r.0
]

failed_drv_eq : loop_round (λ n. n) lost_exchange (start digital_drv).1 ≡ some (failed_drv, true)
unfolding loop_round start failed_drv
failed_drv_eq = refl

abbrev failed_digital : Device ℕ
failed_digital =
    Device.digital
      (record digital { dev = record { in_error = true; last_q_state = QuState.com_error } })

lookup_failed : Dict.lookup same_addr digital_addr failed_drv.devices ≡ some failed_digital
unfolding loop_round start failed_drv Dict.lookup
lookup_failed = refl

Served-agrees_example : find digital_addr (get_var_errors failed_drv) ≡ some QuState.com_error
Served-agrees_example =
    Served-agrees wholes text_two junk (λ n. n) failed_drv digital_addr failed_digital
      (Served.exchanged lost_exchange true _ failed_drv
        (Served.started digital_drv
          (Served.opened "field.xml" digital_config soem drv digital_drv refl refl digital_drv_eq))
        failed_drv_eq)
      lookup_failed
