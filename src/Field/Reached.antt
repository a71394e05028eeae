-- ===== src/Field/Reached.antt =====
-- The map of failed variables of EthercatDrv.cpp, from `init` on.
use Prim.Native.String.{String}
use mathlib.Core.Path.{subst}
use turbine_governor.Base.{
  ℕ, ◌≡◌, ap, sym, ◌∙◌, inl, inr, Bool, true, false, not, Option, none, some, List, [], ◌∷◌, ◌==◌,
  if◌then◌else◌, if-true, if-false, Bool-cases, Option-cases, arith,
}
use turbine_governor.Base.Dict
use turbine_governor.Base.DictLaws
use turbine_governor.Types.{IoAddr, QuState, qu_code, same_addr}
use turbine_governor.Types.Addr.{same_addr-IsSame}
use turbine_governor.Types.Float.{FloatOps}
use turbine_governor.Types.IoVar.{IoVar}
use turbine_governor.Xml.{Node}
use turbine_governor.Slave.Config.{Document}
use turbine_governor.Field.Errors.{find}
use turbine_governor.Field.Devices.{EtherDevice, Recorded, VarErrors, entry}
use turbine_governor.Field.Kinds.{Device, DigitalDev}
use turbine_governor.Field.Access.{write_dev}
use turbine_governor.Field.Drive.{
  EthercatDrv, Exchange, is_un_init, is_stopped, start, stop, close, loop_round, write,
  current_q_state, get_var_errors,
}
use turbine_governor.Field.Init.{Soem, init}
use turbine_governor.Field.Agree.{the, Agrees, Every, some-Every, bind-Every}
use turbine_governor.Field.Service.{AllAgree}
use turbine_governor.Field.Begins.{empty_Fresh}
use turbine_governor.Field.Rounds.{Consistent, loop_round-Consistent}
use turbine_governor.Field.Opened.{Began, Began-Consistent, init-Began}

-- The entry that a device with this state has in the map of failed variables.
abbrev pub failed_state : QuState → Option QuState
failed_state q = if qu_code q == 0 then none else some q

entry-eq :
    (d : EtherDevice)
    → d.in_error ≡ not (qu_code d.last_q_state == 0)
    → entry d ≡ failed_state d.last_q_state
entry-eq d e = ground (arith, e)

module _ {F : Type 0} where
  abbrev ConsistentAfter : Bool × EthercatDrv F → Type 0
  ConsistentAfter r = Consistent r.1

  write-Consistent :
      (fl : FloatOps F) (sent cleared : Bool) (v : IoVar F) (s : EthercatDrv F)
      → Consistent s
      → Every ConsistentAfter (write fl sent cleared v s)
  unfolding write Consistent
  write-Consistent fl sent cleared v s h = elim (Bool-cases (is_un_init s.state)) [
    | inl off ↦ rw off (some-Every ConsistentAfter (false, s) h)
    | inr on ↦ elim (Option-cases (Dict.lookup same_addr v.addr s.devices)) [
      | inl e ↦ rw (on, e) (some-Every ConsistentAfter (false, s) h)
      | inr (d, e) ↦
          rw (on, e)
            (bind-Every ConsistentAfter (write_dev fl sent cleared d v s.io) _
              (λ (ok, io) eq. some-Every ConsistentAfter (ok, record s { io = io }) h))
    ]
  ]

  start-Consistent : (s : EthercatDrv F) → Consistent s → Consistent (start s).1
  unfolding start Consistent
  start-Consistent s h = elim (Bool-cases (is_un_init s.state)) [
    | inl off ↦ rw off h
    | inr on ↦ elim (Bool-cases (is_stopped s.state)) [
      | inl st ↦ rw (on, st) h
      | inr st ↦ rw (on, st) h
    ]
  ]

  stop-Consistent : (s : EthercatDrv F) → Consistent s → Consistent (stop s).1
  unfolding stop Consistent
  stop-Consistent s h = elim (Bool-cases (is_un_init s.state)) [
    | inl off ↦ rw off h
    | inr on ↦ rw on h
  ]

  close-Consistent : (s : EthercatDrv F) → Consistent s → Consistent (close s).1
  unfolding close Consistent AllAgree DictLaws.Unique
  close-Consistent s (agree, unique, distinct) = elim (Bool-cases (is_un_init s.state)) [
    | inl off ↦ rw off (agree, unique, distinct)
    | inr on ↦ rw on (tt, unique, tt)
  ]

  lookup-Agrees :
      (a : IoAddr) (d : Device F) (ds : List (IoAddr × Device F)) (errs : VarErrors)
      → AllAgree ds errs
      → Dict.lookup same_addr a ds ≡ some d
      → Agrees a d errs
  unfolding AllAgree Dict.lookup
  lookup-Agrees a d [] errs h e = absurd (cc)
  lookup-Agrees a d ((b, c) ∷ ds) errs (here, later) e = elim (Bool-cases (same_addr b a)) [
    | inl same ↦
        let eq : b ≡ a = same_addr-IsSame.sound b a same in
        let eq' : c ≡ d =
          ap (the c)
            (sym (if-true (same_addr b a) (some c) (Dict.lookup same_addr a ds) same) ∙ e) in
        subst (λ x. Agrees a x errs) eq' (subst (λ x. Agrees x c errs) eq here)
    | inr other ↦
        lookup-Agrees a d ds errs later
          (sym (if-false (same_addr b a) (some c) (Dict.lookup same_addr a ds) other) ∙ e)
  ]

  Agrees-failed_state :
      (a : IoAddr) (d : Device F) (errs : VarErrors)
      → Agrees a d errs
      → find a errs ≡ failed_state (current_q_state d)
  unfolding Recorded
  Agrees-failed_state a (Device.digital d) errs ((found, error, _), state) =
      found ∙ entry-eq d.dev error
  Agrees-failed_state a (Device.analog d) errs (found, error, _) = found ∙ entry-eq d.dev error
  Agrees-failed_state a (Device.pulse d) errs ((found, error, _), state) =
      found ∙ entry-eq d.dev error

  module _ (fl : FloatOps F) (text_of : Node → Option String) (junk : DigitalDev F)
      (millis : ℕ → F) where
    -- The states of the driver from its first `init` on.
    pub data Served : EthercatDrv F → Type 0 where
      opened :
          (path : String) (doc : Document) (soem : Soem) (s t : EthercatDrv F)
          → s.devices ≡ []
          → s.var_errors ≡ []
          → init fl text_of junk path doc soem s ≡ some (true, t)
          → Served t
      started : (s : EthercatDrv F) → Served s → Served (start s).1
      stopped : (s : EthercatDrv F) → Served s → Served (stop s).1
      closed : (s : EthercatDrv F) → Served s → Served (close s).1
      wrote :
          (sent cleared ok : Bool) (v : IoVar F) (s t : EthercatDrv F)
          → Served s
          → write fl sent cleared v s ≡ some (ok, t)
          → Served t
      exchanged :
          (x : Exchange) (called : Bool) (s t : EthercatDrv F)
          → Served s
          → loop_round millis x s ≡ some (t, called)
          → Served t

    Served-Consistent : (s : EthercatDrv F) → Served s → Consistent s
    unfolding Every Began
    Served-Consistent _ (Served.opened path doc soem s t none_there none_failed e) =
        Began-Consistent t (
          init-Began fl text_of junk path doc soem s (rw none_there (empty_Fresh F), none_failed)
            (true, t) e)
    Served-Consistent _ (Served.started s h) = start-Consistent s (Served-Consistent s h)
    Served-Consistent _ (Served.stopped s h) = stop-Consistent s (Served-Consistent s h)
    Served-Consistent _ (Served.closed s h) = close-Consistent s (Served-Consistent s h)
    Served-Consistent _ (Served.wrote sent cleared ok v s t h e) =
        write-Consistent fl sent cleared v s (Served-Consistent s h) (ok, t) e
    Served-Consistent _ (Served.exchanged x called s t h e) =
        loop_round-Consistent millis x s (Served-Consistent s h) (t, called) e

    -- In every state that `start`, `stop`, `close`, `write` and the rounds of the thread reach from a good
    -- `init` of a driver without devices and failures, the map of failed variables has an entry for the
    -- address of a device exactly when the state of the device is not OK, with that state.
    pub Served-agrees :
        (s : EthercatDrv F) (a : IoAddr) (d : Device F)
        → Served s
        → Dict.lookup same_addr a s.devices ≡ some d
        → find a (get_var_errors s) ≡ failed_state (current_q_state d)
    unfolding Consistent
    Served-agrees s a d h e =
        Agrees-failed_state a d s.var_errors
          (lookup-Agrees a d s.devices s.var_errors (Served-Consistent s h).0 e)
