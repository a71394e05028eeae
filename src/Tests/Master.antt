-- ===== src/Tests/Master.antt =====
-- The Modbus master of HMI/src/MasterDriver/ModbusMasterDrv.cpp, run on small configurations.
use turbine_governor.Base.{ℕ, ◌+◌, ◌≡◌, refl, true, false, List, [], ◌∷◌, leb, arith}
use turbine_governor.Types.{DrvState, QuState, IoAddr}
use turbine_governor.Master.State.{MasterDrv, FieldData}
use turbine_governor.Master.Queue.{
  WriteAnswers, sent, write_trys, push, clean, clean_write_requests, process_next_write, write,
}
use turbine_governor.Master.Reading.{ReadAnswers, field_read, modbus_read}
use turbine_governor.Master.Loop.{MasterNet, close, loop_round}
use turbine_governor.Master.Accounts.{answered}
use turbine_governor.Master.History.{Call, call}
use turbine_governor.Master.Answers.{run, accepted_in, close-answers_all}
use turbine_governor.Master.Reads.{third_try, read_cycle-disconnects}
use turbine_governor.Tests.Slave.{words}
use turbine_governor.Tests.Regulator.{wholes}

-- A server that answers from the third try on.
abbrev late : ReadAnswers
late = record {
  values_ok = λ i. leb 2 i;
  times_ok = λ i. true;
  q_state_ok = λ i. true;
  forced_ok = λ i. true;
  values = 0 ∷ 7 ∷ 0 ∷ 0 ∷ [];
  times = 0 ∷ 0 ∷ 0 ∷ 0 ∷ [];
  q_state = 0 ∷ 0 ∷ [];
  forced = 0;
  now = 1;
  error_text = "late";
}

abbrev prompt : ReadAnswers
prompt = record late { values_ok = λ i. true }

abbrev writes : WriteAnswers
writes = record { bit_ok = λ i. true; registers_ok = λ i. true; error_text = "" }

abbrev net : MasterNet
net = record {
  connects = true;
  elapsed = 1;
  now = 1;
  reading = prompt;
  writing = writes;
  error_text = "";
}

abbrev address : IoAddr
address = record { header = 0; mod_no = 0; channel = 2; num_bits = 16 }

abbrev data_of : FieldData ℕ
data_of = record {
  time_s = 0;
  true_val = 7;
  forced_val = 0;
  q_state = QuState.ok;
  forced = false;
  force_change_detection = false;
}

-- A driver with one field variable, that it has just read.
abbrev pub reader : MasterDrv ℕ
reader = record {
  little = true;
  field_vars = (address, data_of) ∷ [];
  modbus_vars = [];
  field_it = 1;
  modbus_it = 0;
  pending_writes = [];
  changed_vars = [];
  num_io_vars = 2;
  num_ro_ints = 1;
  has_ctx = true;
  connected = true;
  com_errors = 0;
  state = DrvState.running;
  last_error = "";
  millis_to_write_cycle = 20;
  millis_to_read_cycle = 0;
  in_write_cycle = false;
  in_read_cycle = true;
}

third_try_example : (modbus_read late ≡ true) × (field_read late ≡ false)
third_try_example = third_try late refl refl

read_cycle-disconnects_example :
    let t = (loop_round wholes words net reader).0 in
    (t.state ≡ DrvState.com_error)
    × (t.in_read_cycle ≡ false)
    × (t.connected ≡ true)
    × (t.field_vars ≡ reader.field_vars)
    × (t.modbus_vars ≡ reader.modbus_vars)
    × (t.changed_vars ≡ reader.changed_vars)
    × (t.pending_writes ≡ reader.pending_writes)
    × ((loop_round wholes words net t).0.connected ≡ false)
read_cycle-disconnects_example =
    read_cycle-disconnects wholes words net net reader refl refl refl refl (omega arith) refl refl
      (omega arith)

-- Two writes, one of which a round sends; the closing of the driver times the other out.
abbrev history : List (Call ℕ)
history =
    Call.write_call 5 address 100 0
    ∷ Call.write_call 6 address 200 0
    ∷ Call.round (record net { elapsed = 30 })
    ∷ []

close-answers_all_example :
    answered address (run wholes words history reader).1
      + answered address (close 9 (run wholes words history reader).0).1
    ≡ accepted_in wholes words address history reader
unfolding run call write loop_round process_next_write clean_write_requests clean push sent
    write_trys
close-answers_all_example = close-answers_all wholes words address history reader 9 refl refl
