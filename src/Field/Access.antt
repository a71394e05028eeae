-- ===== src/Field/Access.antt =====
-- `read` and `write` of the devices of the field driver, and the constructor of AnalogDev.cpp.
use turbine_governor.Base.{
  ℕ, ◌+◌, ◌-◌, ◌^◌, Bool, true, false, not, ◌||◌, Option, none, some, u8, ltb, if◌then◌else◌, ◌>>=◌,
}
use turbine_governor.Base.Int.{pos, negsuc}
use turbine_governor.Types.{IoAddr}
use turbine_governor.Types.Float.{FloatOps}
use turbine_governor.Types.IoVar.{IoVar, current_val}
use turbine_governor.Field.Bytes.{IoMap, read_device, write_io}
use turbine_governor.Field.Devices.{StatusWord, new_device}
use turbine_governor.Field.Kinds.{
  BitRepr, Device, DigitalDev, AnalogDev, PulseDev, Clocks, int_of_bytes, word_of_int,
  write_device_sync,
}

-- The address of the bit that PulseDev sets.
abbrev pub set_addr : PulseDev → IoAddr
set_addr d = record d.control_b.addr {
  channel = u8 (d.control_b.addr.channel + d.control_b.set_bit);
  num_bits = 1;
}

module _ {F : Type 0} (fl : FloatOps F) where
  abbrev is_le : F → F → Bool
  is_le x y = fl.lt x y || fl.eq x y

  abbrev pub convert_bytes : Bool → ℕ → BitRepr → ℕ → F
  convert_bytes little val repr num_bits = fl.of_int (int_of_bytes little val repr num_bits)

  abbrev pub convert_float : Bool → F → ℕ → ℕ
  convert_float little x num_bits = word_of_int little (fl.to_unsigned num_bits x) num_bits

  abbrev pub scale_value : F → F → F → F → F → F
  scale_value dest_min dest_max origin_min origin_max x =
      fl.add
        (fl.mul (fl.div (fl.sub x origin_min) (fl.sub origin_max origin_min))
          (fl.sub dest_max dest_min))
        dest_min

  -- The limits of a representation in words of n bits; with 32 bits the shift passes the range of int.
  unfoldable pub limits : BitRepr → ℕ → Option (F × F)
  limits repr n =
      let half : ℕ = 2 ^ (n - 1) in
      if not (ltb n 32) then none else elim repr [
        | BitRepr.unsigned ↦ some (fl.of_int (pos 0), fl.of_int (pos (2 ^ n - 1)))
        | BitRepr.signed ↦ some (
          fl.sub (fl.of_int (pos 0)) (fl.of_int (pos half)),
          fl.sub (fl.of_int (pos half)) (fl.of_int (pos 1)),
        )
        | BitRepr.half_signed ↦
            some (fl.of_int (pos 0), fl.sub (fl.of_int (pos half)) (fl.of_int (pos 1)))
        | BitRepr.invalid ↦ some (fl.of_int (pos 1), fl.of_int (negsuc 0))
      ]

  unfoldable pub new_analog_dev : StatusWord → BitRepr → ℕ → Option (AnalogDev F)
  unfolding limits
  new_analog_dev w repr n = limits repr n >>= λ (low, high). some (record {
    dev = new_device;
    status_w = w;
    bit_repr = repr;
    min_repr_limit = low;
    max_repr_limit = high;
  })

  unfoldable pub read_digital : Clocks → IoMap → DigitalDev F → IoVar F → Option (Bool × IoVar F)
  read_digital now s d v = read_device v.addr s >>= λ (ok, val). some (
      if ok
      then (
        true,
        record v {
          true_val = fl.of_int (pos (if ltb 0 val then 1 else 0));
          time_s = now.ms_epoch;
          pulse_dur = d.pulse_dur;
          pulse_time_s = d.pulse_time_s;
          own_q_state = d.dev.last_q_state;
        },
      )
      else (false, v))

  unfoldable pub write_digital : IoVar F → IoMap → Option (Bool × IoMap)
  write_digital v s = write_io v.addr (if fl.lt (fl.of_int (pos 0)) (current_val v) then 1 else 0) s

  unfoldable pub read_analog : Clocks → IoMap → AnalogDev F → IoVar F → Option (Bool × IoVar F)
  read_analog now s d v =
      if fl.lt v.hw_min d.min_repr_limit
        || fl.lt d.max_repr_limit v.hw_max
        || is_le v.hw_max v.hw_min
      then some (false, v)
      else (read_device v.addr s >>= λ (ok, val). some (
          if ok
          then (
            true,
            record v {
              true_val =
                  scale_value v.egu_min v.egu_max v.hw_min v.hw_max
                    (convert_bytes s.little val d.bit_repr v.addr.num_bits);
              time_s = now.ms_epoch;
              own_q_state = d.dev.last_q_state;
            },
          )
          else (false, v)))

  unfoldable pub write_analog : IoVar F → IoMap → Option (Bool × IoMap)
  write_analog v s =
      if is_le v.hw_max v.hw_min || is_le v.egu_max v.egu_min
      then some (false, s)
      else write_io v.addr
          (convert_float s.little
            (scale_value v.hw_min v.hw_max v.egu_min v.egu_max (current_val v)) v.addr.num_bits)
          s

  unfoldable pub read_pulse : Clocks → IoMap → PulseDev → IoVar F → Option (Bool × IoVar F)
  read_pulse now s d v = read_device v.addr s >>= λ (ok, val). some (
      if ok
      then (
        true,
        record v {
          true_val = convert_bytes s.little val BitRepr.unsigned v.addr.num_bits;
          time_s = now.ms_epoch;
          own_q_state = d.dev.last_q_state;
        },
      )
      else (false, v))

  -- `sent` and `cleared` are whether the exchanges after the set bit and after the cleared one come in
  -- time.
  unfoldable pub write_pulse : Bool → Bool → PulseDev → IoVar F → IoMap → Option (Bool × IoMap)
  write_pulse sent cleared d v s =
      write_io v.addr (convert_float s.little (current_val v) v.addr.num_bits) s >>= λ (ok, t).
      if not ok
      then some (false, t)
      else (write_device_sync (set_addr d) 1 sent t >>= λ (set_ok, u).
          if set_ok then write_device_sync (set_addr d) 0 cleared u else some (false, u))

  unfoldable pub read_dev : Clocks → IoMap → Device F → IoVar F → Option (Bool × IoVar F)
  unfolding read_digital read_analog read_pulse
  read_dev now s (Device.digital d) v = read_digital now s d v
  read_dev now s (Device.analog d) v = read_analog now s d v
  read_dev now s (Device.pulse d) v = read_pulse now s d v

  unfoldable pub write_dev : Bool → Bool → Device F → IoVar F → IoMap → Option (Bool × IoMap)
  unfolding write_digital write_analog write_pulse
  write_dev sent cleared (Device.digital d) v s = write_digital v s
  write_dev sent cleared (Device.analog d) v s = write_analog v s
  write_dev sent cleared (Device.pulse d) v s = write_pulse sent cleared d v s
