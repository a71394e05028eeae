-- ===== src/Field/Updates.antt =====
-- `updateDevices` of EthercatDrv.cpp keeps every device in agreement with the map of failed variables.
use turbine_governor.Base.{
  ℕ, inl, inr, Bool, not, ◌||◌, some, List, if◌then◌else◌, Bool-cases, arith,
}
use turbine_governor.Types.{IoAddr, QuState}
use turbine_governor.Field.Bytes.{IoMap, read_device}
use turbine_governor.Field.Devices.{
  StatusWord, EtherDevice, VarErrors, Recorded, is_module_ok, get_var_q_state, update_pulse,
  update_analog, note_state,
}
use turbine_governor.Field.Kinds.{
  Clocks, Device, DigitalDev, update_digital, measure_pulse, is_no_measure,
}
use turbine_governor.Field.Drive.{update_device}
use turbine_governor.Field.Agree.{
  Simple, Agrees, OthersKept, Updated, update_pulse-Updated, note_state-agrees,
  note_state-OthersKept, Every, some-Every, bind-Every,
}

module _ {F : Type 0} (millis : ℕ → F) (now : Clocks) (failed : List ℕ) (io : IoMap) (a : IoAddr)
    (errs : VarErrors) where
  measured-Simple :
      (ok : Bool) (val : ℕ) (d : DigitalDev F) (new : VarErrors)
      → Simple a d.dev new
      → Simple a (if ok then measure_pulse millis now val d else d).dev new
  unfolding measure_pulse
  measured-Simple ok val d new h = ground (arith, h)

  abbrev DigitalUpdated : DigitalDev F × VarErrors → Type 0
  DigitalUpdated (d, new) = Simple a d.dev new × OthersKept a errs new

  update_digital-Every :
      (d : DigitalDev F)
      → Simple a d.dev errs
      → Every DigitalUpdated (update_digital millis now failed io a d errs)
  unfolding update_digital Updated
  update_digital-Every d h =
      let (simple, kept) = update_pulse-Updated failed a errs d.dev.in_error d.dev.last_q_state h in
      let (e, new) = update_pulse failed a d.dev errs in
      let d' : DigitalDev F = record d { dev = e } in
      elim (Bool-cases (not (is_module_ok failed a) || is_no_measure d.pulse_measure_opt)) [
        | inl done ↦ rw done (some-Every DigitalUpdated (d', new) (simple, kept))
        | inr more ↦ rw more (
            bind-Every DigitalUpdated (read_device a io) _ (λ (ok, val) e'.
              some-Every DigitalUpdated _ (measured-Simple ok val d' new simple, kept)))
      ]

  abbrev AnalogUpdated : EtherDevice × VarErrors → Type 0
  AnalogUpdated (e, new) = Recorded a e new × OthersKept a errs new

  update_analog-Every :
      (w : StatusWord) (d : EtherDevice)
      → Recorded a d errs
      → Every AnalogUpdated (update_analog failed w io a d errs)
  unfolding update_analog
  update_analog-Every w d h =
      bind-Every AnalogUpdated
        (if is_module_ok failed a then get_var_q_state w io else some QuState.com_error) _
        (λ q e.
          some-Every AnalogUpdated (note_state q a d errs)
            (note_state-agrees failed a errs q d h, note_state-OthersKept failed a errs q d h))

  abbrev pub DeviceUpdated : Device F × VarErrors → Type 0
  DeviceUpdated (d, new) = Agrees a d new × OthersKept a errs new

  pub update_device-Every :
      (d : Device F)
      → Agrees a d errs
      → Every DeviceUpdated (update_device millis now failed io a d errs)
  unfolding update_device Updated Every
  update_device-Every (Device.digital d) h =
      bind-Every DeviceUpdated (update_digital millis now failed io a d errs) _ (λ (d', new) e.
        some-Every DeviceUpdated (Device.digital d', new) (update_digital-Every d h (d', new) e))
  update_device-Every (Device.analog d) h =
      bind-Every DeviceUpdated (update_analog failed d.status_w io a d.dev errs) _ (λ (e, new) eq.
        some-Every DeviceUpdated (Device.analog (record d { dev = e }), new)
          (update_analog-Every d.status_w d.dev h (e, new) eq))
  update_device-Every (Device.pulse d) h =
      some-Every DeviceUpdated _
        (update_pulse-Updated failed a errs d.dev.in_error d.dev.last_q_state h)
