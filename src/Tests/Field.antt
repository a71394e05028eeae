-- ===== src/Tests/Field.antt =====
-- The bytes of the field in Regulator/src/FieldDriver/EthercatDrv.cpp, on two small modules.
use turbine_governor.Base.{
  ℕ, ◌≡◌, refl, true, false, some, none, poke_all, put_all, [], ◌∷◌, inl, inr, arith,
}
use turbine_governor.Types.{IoAddr, QuState}
use turbine_governor.Field.Errors.{find, Unique, new_var_error}
use turbine_governor.Field.Devices.{
  StatusWord, EtherDevice, VarErrors, new_device, get_var_q_state, state_of_word, note_state,
  update_analog, update_pulse, Recorded,
}
use turbine_governor.Field.Failures.{update_analog-Recorded}
use turbine_governor.Field.Bytes.{IoMap, write_io, read_device, write_bytes, read_bytes, put_bits}
use turbine_governor.Field.Signals.{IsBitSignal, Apart}
use turbine_governor.Field.Echo.{IsOutputBits, IsOther, echo, write_io-read_device}

abbrev signal : ℕ → ℕ → ℕ → IoAddr
signal mod_no channel num_bits = record {
  header = 0;
  mod_no = mod_no;
  channel = channel;
  num_bits = num_bits;
}

abbrev modules : IoMap
modules = record {
  little = true;
  inputs = (0 ∷ []) ∷ (0 ∷ 0 ∷ 0 ∷ 0 ∷ []) ∷ [];
  outputs = (255 ∷ []) ∷ (1 ∷ 2 ∷ 3 ∷ 4 ∷ []) ∷ [];
}

-- Channel 0 is the highest bit of the first byte.
write_first :
    write_io (signal 1 0 1) 0 modules
    ≡ some (true, record modules { outputs = (127 ∷ []) ∷ (1 ∷ 2 ∷ 3 ∷ 4 ∷ []) ∷ [] })
unfolding write_io write_bytes put_bits
write_first = refl

write_word :
    write_io (signal 2 16 16) 513 modules
    ≡ some (true, record modules { outputs = (255 ∷ []) ∷ (1 ∷ 2 ∷ 1 ∷ 2 ∷ []) ∷ [] })
unfolding write_io write_bytes poke_all
write_word = refl

read_word : read_device (signal 2 16 16) (echo modules) ≡ some (true, 1027)
unfolding read_device read_bytes put_all
read_word = refl

-- Three bytes: reported as written, nothing stored.
write_three : write_io (signal 2 0 24) 513 modules ≡ some (true, modules)
unfolding write_io write_bytes poke_all
write_three = refl

-- Bits that cross the end of the byte: a shift by a negative number.
write_across : write_io (signal 2 6 4) 1 modules ≡ none
unfolding write_io write_bytes poke_all
write_across = refl

write_no_module : write_io (signal 3 0 1) 1 modules ≡ some (false, modules)
unfolding write_io
write_no_module = refl

first_bits : IsOutputBits modules (signal 1 2 3)
unfolding IsOutputBits IsBitSignal
first_bits = (omega arith, omega arith, (omega arith, omega arith, omega arith, omega arith))

last_bits : IsOutputBits modules (signal 1 5 2)
unfolding IsOutputBits IsBitSignal
last_bits = (omega arith, omega arith, (omega arith, omega arith, omega arith, omega arith))

distinct : IsOther (signal 1 2 3) (signal 1 5 2)
unfolding IsOther Apart
distinct = inr (inl (omega arith))

write_io-read_device_example :
    (t : IoMap) × (write_io (signal 1 2 3) 5 modules ≡ some (true, t))
    × (read_device (signal 1 2 3) (echo t) ≡ some (true, 5))
    × (read_device (signal 1 5 2) (echo t) ≡ read_device (signal 1 5 2) (echo modules))
write_io-read_device_example =
    write_io-read_device modules (signal 1 2 3) (signal 1 5 2) 5 first_bits last_bits distinct
      (omega arith) (omega arith)

-- An analog signal of module 1 whose status word is in module 2: bit 3 under range, bit 4 over range.
abbrev status : StatusWord
status = record { addr = signal 2 0 8; under_range_bit = 3; over_range_bit = 4 }

abbrev in_range_of : ℕ → IoMap
in_range_of word = record modules { inputs = (0 ∷ []) ∷ (word ∷ 0 ∷ 0 ∷ 0 ∷ []) ∷ [] }

abbrev failed : EtherDevice
failed = record { in_error = true; last_q_state = QuState.com_error }

over :
    update_analog [] status (in_range_of 8) (signal 1 0 16) new_device []
    ≡ some (
      record { in_error = true; last_q_state = QuState.over_range },
      (signal 1 0 16, QuState.over_range) ∷ [],
    )
unfolding update_analog get_var_q_state read_device read_bytes put_all state_of_word note_state
    new_var_error
over = refl

lost :
    update_pulse (1 ∷ []) (signal 1 0 16) new_device []
    ≡ (failed, (signal 1 0 16, QuState.com_error) ∷ [])
unfolding update_pulse new_var_error
lost = refl

failed-Recorded : Recorded (signal 1 0 16) failed ((signal 1 0 16, QuState.com_error) ∷ [])
unfolding Recorded find Unique
failed-Recorded = (refl, refl, (refl, tt))

update_analog-Recorded_example :
    (e : EtherDevice) × (new : VarErrors) × (update_analog [] status
        (in_range_of 16)
        (signal 1 0 16)
        failed
        ((signal 1 0 16, QuState.com_error) ∷ [])
      ≡ some (e, new))
    × Recorded (signal 1 0 16) e new
    × (e.last_q_state ≡ QuState.under_range)
    × (find (signal 1 16 16) new ≡ none)
unfolding get_var_q_state read_device read_bytes put_all state_of_word find
update_analog-Recorded_example =
    update_analog-Recorded [] status (in_range_of 16) (signal 1 0 16) (signal 1 16 16) failed
      ((signal 1 0 16, QuState.com_error) ∷ []) QuState.under_range failed-Recorded refl refl
