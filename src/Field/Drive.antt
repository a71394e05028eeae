-- ===== src/Field/Drive.antt =====
-- The field driver: the life cycle, the rounds of the thread, the accesses and `init` of
-- EthercatDrv.cpp, over SOEM and libxml. `none` is undefined behaviour.
use Prim.Native.String.{String}
use turbine_governor.Base.{
  ℕ, Bool, true, false, not, ◌&&◌, ◌||◌, Option, none, some, List, [], ◌∷◌, length, ◌==◌,
  if◌then◌else◌, ◌>>=◌,
}
use turbine_governor.Base.Dict
use turbine_governor.Types.{DrvState, QuState, IoAddr, same_addr}
use turbine_governor.Types.Float.{FloatOps}
use turbine_governor.Types.IoVar.{IoVar, set_q_state}
use turbine_governor.Field.Bytes.{IoMap}
use turbine_governor.Field.Devices.{EtherDevice, VarErrors, update_analog, update_pulse}
use turbine_governor.Field.Bus.{Bus, Modules, check_slaves_wkc}
use turbine_governor.Field.Kinds.{Device, Clocks, update_digital}
use turbine_governor.Field.Access.{read_dev, write_dev}

pub record EthercatDrv (F : Type 0) : Type 0 where
  pub state : DrvState
  pub devices : List (IoAddr × Device F)
  pub var_errors : VarErrors
  pub modules : Modules
  pub io : IoMap
  pub if_name : String
  pub last_error : String

-- One exchange with the modules: the inputs that come back, what SOEM does in the check, the clocks.
pub record Exchange : Type 0 where
  pub inputs : List (List ℕ)
  pub bus : Bus
  pub clocks : Clocks

abbrev pub is_off : DrvState → Bool
is_off DrvState.stopped = true
is_off DrvState.un_init = true
is_off _ = false

abbrev pub is_un_init : DrvState → Bool
is_un_init DrvState.un_init = true
is_un_init _ = false

abbrev pub is_com_error : DrvState → Bool
is_com_error DrvState.com_error = true
is_com_error _ = false

abbrev pub is_var_error : DrvState → Bool
is_var_error DrvState.var_error = true
is_var_error _ = false

abbrev pub is_stopped : DrvState → Bool
is_stopped DrvState.stopped = true
is_stopped _ = false

abbrev pub is_empty {ℓ} : {A : Type ℓ} → List A → Bool
is_empty [] = true
is_empty (x ∷ xs) = false

module _ {F : Type 0} where
  abbrev pub erase_drv_config : EthercatDrv F → EthercatDrv F
  erase_drv_config s = record s { devices = [] }

  unfoldable pub close : EthercatDrv F → Bool × EthercatDrv F
  close s =
      if is_un_init s.state
      then (true, s)
      else (true, erase_drv_config (record s { state = DrvState.un_init }))

  unfoldable pub start : EthercatDrv F → Bool × EthercatDrv F
  start s =
      if is_un_init s.state
      then (false, s)
      else if is_stopped s.state
      then (true, record s { state = DrvState.running })
      else (true, s)

  unfoldable pub stop : EthercatDrv F → Bool × EthercatDrv F
  stop s = if is_un_init s.state then (false, s) else (true, record s { state = DrvState.stopped })

  abbrev pub with_dev : (EtherDevice × VarErrors) → (EtherDevice → Device F) → Device F × VarErrors
  with_dev (e, errs) make = (make e, errs)

  unfoldable pub update_device :
      (ℕ → F)
      → Clocks
      → List ℕ
      → IoMap
      → IoAddr
      → Device F
      → VarErrors
      → Option (Device F × VarErrors)
  unfolding update_digital update_analog update_pulse
  update_device millis now failed io a (Device.digital d) errs =
      update_digital millis now failed io a d errs >>= λ (e, new). some (Device.digital e, new)
  update_device millis now failed io a (Device.analog d) errs =
      update_analog failed d.status_w io a d.dev errs >>= λ r.
      some (with_dev r (λ e. Device.analog (record d { dev = e })))
  update_device millis now failed io a (Device.pulse d) errs =
      some (with_dev (update_pulse failed a d.dev errs) (λ e. Device.pulse (record d { dev = e })))

  unfoldable pub update_devices :
      (ℕ → F)
      → Clocks
      → List ℕ
      → IoMap
      → List (IoAddr × Device F)
      → VarErrors
      → Option (List (IoAddr × Device F) × VarErrors)
  unfolding update_device
  update_devices millis now failed io [] errs = some ([], errs)
  update_devices millis now failed io ((a, d) ∷ ds) errs =
      update_device millis now failed io a d errs >>= λ (e, errs1).
      update_devices millis now failed io ds errs1 >>= λ (es, errs2). some ((a, e) ∷ es, errs2)

  -- The end of a round: the driver, and whether the error callback is called.
  abbrev pub note_errors : EthercatDrv F → EthercatDrv F × Bool
  note_errors s =
      if not (is_empty s.modules.module_errors) || not (is_empty s.var_errors)
      then (record s { state = DrvState.var_error }, not (is_var_error s.state))
      else (record s { state = DrvState.running }, false)

  -- A round of the thread. While the driver is off, the thread waits.
  unfoldable pub loop_round : (ℕ → F) → Exchange → EthercatDrv F → Option (EthercatDrv F × Bool)
  unfolding check_slaves_wkc update_devices
  loop_round millis x s =
      if is_off s.state
      then some (s, false)
      else (check_slaves_wkc x.bus s.modules >>= λ m.
          let t : EthercatDrv F = record s {
            io = record s.io { inputs = x.inputs };
            modules = m;
          } in
          if length m.module_errors == m.slave_count
          then some (record t { state = DrvState.com_error }, not (is_com_error s.state))
          else (update_devices millis x.clocks m.module_errors t.io t.devices t.var_errors
              >>= λ (ds, errs). some (note_errors (record t { devices = ds; var_errors = errs }))))

  abbrev pub get_var_errors : EthercatDrv F → VarErrors
  get_var_errors s = s.var_errors

  module _ (fl : FloatOps F) where
    abbrev pub com_error_if : Bool → Bool × IoVar F → Bool × IoVar F
    com_error_if failed (ok, v) = (ok, if ok && failed then set_q_state QuState.com_error v else v)

    unfoldable pub read : Clocks → IoVar F → EthercatDrv F → Option (Bool × IoVar F)
    unfolding Dict.lookup read_dev
    read now v s =
        if is_un_init s.state
        then some (false, v)
        else elim (Dict.lookup same_addr v.addr s.devices) [
          | none ↦ some (false, v)
          | some d ↦ read_dev fl now s.io d v >>= λ r. some (com_error_if (is_com_error s.state) r)
        ]

    unfoldable pub write : Bool → Bool → IoVar F → EthercatDrv F → Option (Bool × EthercatDrv F)
    unfolding Dict.lookup write_dev
    write sent cleared v s =
        if is_un_init s.state
        then some (false, s)
        else elim (Dict.lookup same_addr v.addr s.devices) [
          | none ↦ some (false, s)
          | some d ↦
              write_dev fl sent cleared d v s.io >>= λ (ok, io). some (ok, record s { io = io })
        ]

  abbrev pub current_q_state : Device F → QuState
  current_q_state (Device.digital d) = d.dev.last_q_state
  current_q_state (Device.analog d) = d.dev.last_q_state
  current_q_state (Device.pulse d) = d.dev.last_q_state

  unfoldable pub update_q_state : IoVar F → EthercatDrv F → IoVar F
  unfolding Dict.lookup
  update_q_state v s =
      if is_un_init s.state then v else elim (Dict.lookup same_addr v.addr s.devices) [
        | none ↦ v
        | some d ↦
            set_q_state (if is_com_error s.state then QuState.com_error else current_q_state d) v
      ]
