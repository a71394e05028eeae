-- ===== src/Master/Answers.antt =====
-- The answers to the requests of ModbusMasterDrv.cpp over a whole history, and what its tries and its
-- read cycle amount to.
use turbine_governor.Base.{ℕ, ◌+◌, ◌≡◌, ap, false, List, [], ◌∷◌, ◌++◌, arith}
use turbine_governor.Types.{DrvState, IoAddr}
use turbine_governor.Types.Float.{FloatOps}
use turbine_governor.Slave.Access.{FloatCodec, is_uninit}
use turbine_governor.Master.State.{MasterDrv, Event}
use turbine_governor.Master.Queue.{clean_write_requests}
use turbine_governor.Master.Loop.{close_connection, erase_drv_config, close, close_in}
use turbine_governor.Master.Accounts.{answered, answered-append, waiting, clean-all}
use turbine_governor.Master.History.{Call, call, accepted, call-accounts, close-Balanced}

module _ {F : Type 0} (fl : FloatOps F) (codec : FloatCodec F) where
  unfoldable pub run : List (Call F) → MasterDrv F → MasterDrv F × List Event
  run [] s = (s, [])
  run (c ∷ cs) s = let (t, es) = call fl codec c s in let (u, fs) = run cs t in (u, es ++ fs)

  unfoldable pub accepted_in : IoAddr → List (Call F) → MasterDrv F → ℕ
  accepted_in a [] s = 0
  accepted_in a (c ∷ cs) s = accepted fl codec a c s + accepted_in a cs (call fl codec c s).0

  run-accounts :
      (a : IoAddr) (cs : List (Call F)) (s : MasterDrv F)
      → let r = run cs s in
        waiting a r.0.pending_writes + answered a r.1
        ≡ accepted_in a cs s + waiting a s.pending_writes
  unfolding run accepted_in
  run-accounts a [] s = omega arith
  run-accounts a (c ∷ cs) s =
      let t = (call fl codec c s).0 in
      omega (
        arith,
        answered-append a (call fl codec c s).1 (run cs t).1,
        run-accounts a cs t,
        call-accounts fl codec a c s,
      )

  close_in-empties :
      (st : DrvState) (now : ℕ) (s : MasterDrv F)
      → is_uninit st ≡ false
      → (close_in st now s).0.pending_writes ≡ []
  unfolding erase_drv_config clean_write_requests close_connection
  close_in-empties DrvState.un_init now s u = absurd (cc)
  close_in-empties DrvState.stopped now s u = clean-all now s.pending_writes
  close_in-empties DrvState.running now s u = clean-all now s.pending_writes
  close_in-empties DrvState.com_error now s u = clean-all now s.pending_writes
  close_in-empties DrvState.var_error now s u = clean-all now s.pending_writes

  close-empties :
      (now : ℕ) (s : MasterDrv F) → is_uninit s.state ≡ false → (close now s).0.pending_writes ≡ []
  unfolding close
  close-empties now s u = close_in-empties s.state now s u

  -- When a history of calls and rounds starts with no request waiting, and the driver is then closed,
  -- the callbacks of the requests to an address, for success or for a time out, are as many as the
  -- requests to it that `write` and `force` have accepted: none is lost and none is answered twice,
  -- whatever the network does.
  pub close-answers_all :
      (a : IoAddr) (cs : List (Call F)) (s : MasterDrv F) (now : ℕ)
      → s.pending_writes ≡ []
      → is_uninit (run cs s).0.state ≡ false
      → answered a (run cs s).1 + answered a (close now (run cs s).0).1 ≡ accepted_in a cs s
  close-answers_all a cs s now e up =
      let t = (run cs s).0 in
      omega (
        arith,
        run-accounts a cs s,
        close-Balanced fl codec now a t,
        ap (waiting a) e,
        ap (waiting a) (close-empties now t up),
      )
