-- ===== src/Field/Kinds.antt =====
-- The devices: DigitalDev.cpp, AnalogDev.cpp, PulseDev.cpp and EtherDevice.cpp of the field driver.
-- `none` is undefined behaviour. A clock is a number of its ticks.
use Prim.Native.String.{String}
use turbine_governor.Base.{
  ℕ, ◌-◌, ◌/◌, ◌%◌, ◌^◌, Bool, true, false, not, ◌&&◌, ◌||◌, Option, none, some, List, u8, slice,
  put_all, leb, ltb, ◌==◌, if◌then◌else◌, ◌>>=◌,
}
use turbine_governor.Base.Int.{ℤ, pos, negsuc}
use turbine_governor.Types.{IoAddr}
use turbine_governor.Xml.{same_text}
use turbine_governor.Slave.Wire.{memory_of, value_of}
use turbine_governor.Field.Bytes.{IoMap, read_device, write_io}
use turbine_governor.Field.Devices.{
  EtherDevice, StatusWord, VarErrors, status_word_ok, new_device, is_module_ok, update_pulse,
}

pub data BitRepr : Type 0 where
  signed unsigned half_signed invalid : BitRepr

abbrev pub get_bit_repr : String → BitRepr
get_bit_repr text =
    if same_text text "Unsigned"
    then BitRepr.unsigned
    else if same_text text "HalfSigned"
    then BitRepr.half_signed
    else if same_text text "Signed"
    then BitRepr.signed
    else BitRepr.invalid

abbrev pub is_valid : BitRepr → Bool
is_valid BitRepr.invalid = false
is_valid _ = true

abbrev pub is_unsigned : BitRepr → Bool
is_unsigned BitRepr.unsigned = true
is_unsigned _ = false

-- A word of n bits as a number with sign.
abbrev pub with_sign : ℕ → ℕ → ℤ
with_sign n x = if ltb x (2 ^ (n - 1)) then pos x else negsuc (2 ^ n - 1 - x)

-- The sizes that `convertBytes` and `convertFloat` know.
abbrev pub is_size : ℕ → Bool
is_size n = n == 8 || n == 16 || n == 32

-- The integer that `convertBytes` reads from the start of the memory of its argument.
unfoldable pub int_of_bytes : Bool → ℕ → BitRepr → ℕ → ℤ
int_of_bytes little val repr num_bits =
    let x = value_of little (slice (memory_of little 4 val) 0 (num_bits / 8)) in
    if not (is_size num_bits)
    then pos 0
    else if is_unsigned repr
    then pos x
    else with_sign num_bits x

-- The word whose first bytes are an integer, as `convertFloat` makes it.
unfoldable pub word_of_int : Bool → ℕ → ℕ → ℕ
word_of_int little x num_bits =
    if is_size num_bits
    then value_of little (put_all (memory_of little 4 0) 0 (memory_of little (num_bits / 8) x))
    else 0

-- `writeIO` with its wait: `sent` is whether the next exchange comes in time.
abbrev pub write_device_sync : IoAddr → ℕ → Bool → IoMap → Option (Bool × IoMap)
write_device_sync a val sent s = write_io a val s >>= λ (ok, t). some (ok && sent, t)

pub record ControlWord : Type 0 where
  pub addr : IoAddr
  pub set_bit : ℕ

abbrev pub control_word_ok : ControlWord → Bool
control_word_ok c =
    ltb 0 c.addr.num_bits
    && leb c.addr.num_bits 32
    && c.addr.num_bits % 8 == 0
    && not (c.addr.num_bits == 24)
    && leb c.set_bit (c.addr.num_bits - 1)

abbrev pub analog_parameters_ok : StatusWord → BitRepr → ℕ → Bool
analog_parameters_ok w repr num_bits =
    is_valid repr
    && num_bits % 8 == 0
    && not (num_bits == 24)
    && ltb 0 num_bits
    && leb num_bits 32
    && status_word_ok w

-- The options of the measure of pulses: none is -1, which stands for no measure.
abbrev pub clamp_pulse_opt : ℤ → Option Bool
clamp_pulse_opt (pos n) = some (not (n == 0))
clamp_pulse_opt (negsuc n) = none

pub record DigitalDev (F : Type 0) : Type 0 where
  pub dev : EtherDevice
  pub pulse_measure_opt : Option Bool
  pub pulse_start_time : ℕ
  pub pulse_end_time : ℕ
  pub pulse_dur : F
  pub pulse_time_s : ℕ

pub record AnalogDev (F : Type 0) : Type 0 where
  pub dev : EtherDevice
  pub status_w : StatusWord
  pub bit_repr : BitRepr
  pub min_repr_limit : F
  pub max_repr_limit : F

pub record PulseDev : Type 0 where
  pub dev : EtherDevice
  pub control_b : ControlWord

pub data Device (F : Type 0) : Type 0 where
  digital : DigitalDev F → Device F
  analog : AnalogDev F → Device F
  pulse : PulseDev → Device F

-- What the clocks give at one point: the steady one and the milliseconds since the epoch.
pub record Clocks : Type 0 where
  pub steady : ℕ
  pub ms_epoch : ℕ

-- Whether a byte that is read, as an `int8_t`, is the option.
abbrev pub is_opt : Option Bool → ℕ → Bool
is_opt none val = u8 val == 255
is_opt (some false) val = u8 val == 0
is_opt (some true) val = u8 val == 1

abbrev pub is_no_measure : Option Bool → Bool
is_no_measure none = true
is_no_measure (some b) = false

module _ {F : Type 0} where
  -- The clocks start at zero, the duration and its time with what the memory holds.
  abbrev pub new_digital_dev : DigitalDev F → ℤ → DigitalDev F
  new_digital_dev junk opt = record junk {
    dev = new_device;
    pulse_measure_opt = clamp_pulse_opt opt;
    pulse_start_time = 0;
    pulse_end_time = 0;
  }

  -- `updateDevice` of DigitalDev from the errors on; `millis` is the duration of a number of ticks.
  unfoldable pub measure_pulse : (ℕ → F) → Clocks → ℕ → DigitalDev F → DigitalDev F
  measure_pulse millis now val d =
      if leb d.pulse_start_time d.pulse_end_time && is_opt d.pulse_measure_opt val
      then record d { pulse_start_time = now.steady }
      else if ltb d.pulse_end_time d.pulse_start_time && not (is_opt d.pulse_measure_opt val)
      then record d {
        pulse_end_time = now.steady;
        pulse_dur = millis (now.steady - d.pulse_start_time);
        pulse_time_s = now.ms_epoch;
      }
      else d

  -- The errors of the device are those of PulseDev.
  unfoldable pub update_digital :
      (ℕ → F)
      → Clocks
      → List ℕ
      → IoMap
      → IoAddr
      → DigitalDev F
      → VarErrors
      → Option (DigitalDev F × VarErrors)
  unfolding measure_pulse update_pulse
  update_digital millis now modules s a d errs =
      let (e, new) = update_pulse modules a d.dev errs in
      let d' : DigitalDev F = record d { dev = e } in
      if not (is_module_ok modules a) || is_no_measure d.pulse_measure_opt
      then some (d', new)
      else (read_device a s >>= λ (ok, val).
          some (if ok then measure_pulse millis now val d' else d', new))
