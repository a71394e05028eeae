-- ===== src/Master/Queue.antt =====
-- The writes of ModbusMasterDrv.cpp: `write`, `force`, `cleanWriteRequests`, `processNextWrite`.
use Prim.Native.String.{String}
use turbine_governor.Base.{
  ℕ, zero, suc, ◌+◌, ◌%◌, Bool, true, false, not, ◌&&◌, ◌||◌, List, [], ◌∷◌, ◌++◌, ltb, leb,
  if◌then◌else◌,
}
use turbine_governor.Types.{DrvState, IoAddr}
use turbine_governor.Master.State.{MasterDrv, WriteReq, Event}

abbrev pub max_transmission_trys : ℕ
max_transmission_trys = 3

-- How the server answers the tries of a write: whether the write of the coil, and of the registers,
-- goes through.
pub record WriteAnswers : Type 0 where
  pub bit_ok : ℕ → Bool
  pub registers_ok : ℕ → Bool
  pub error_text : String

-- `while(iNumTrys++ < MAX_TRANSMISSION_TRYS && (!bForced || !bWriteVal))`: the number of tries that
-- it leaves. Four rounds are enough.
unfoldable pub write_trys : WriteAnswers → ℕ → ℕ → Bool → Bool → ℕ
write_trys net zero n bit val = n + 1
write_trys net (suc left) n bit val =
    let bit' = bit || net.bit_ok n in
    let val' = val || bit' && net.registers_ok n in
    let rest = write_trys net left (n + 1) bit' val' in
    if ltb n max_transmission_trys && (not bit || not val) then rest else n + 1

abbrev pub is_active : DrvState → Bool
is_active DrvState.stopped = false
is_active DrvState.un_init = false
is_active _ = true

module _ {F : Type 0} where
  -- `push` on the queue, whose top is the request with the longest time out. The order of equal
  -- ones is free.
  unfoldable pub push : WriteReq F → List (WriteReq F) → List (WriteReq F)
  push r [] = r ∷ []
  push r (q ∷ qs) =
      let rest = push r qs in if ltb q.write_time_out r.write_time_out then r ∷ q ∷ qs else q ∷ rest

  abbrev pub expired : Bool → ℕ → WriteReq F → Bool
  expired all now r = ltb (r.time_s + r.write_time_out) now || all

  -- `cleanWriteRequests`: what stays, and the events.
  unfoldable pub clean : Bool → ℕ → List (WriteReq F) → List (WriteReq F) × List Event
  clean all now [] = ([], [])
  clean all now (r ∷ rs) =
      let (kept, events) = clean all now rs in
      if expired all now r then (kept, Event.timed_out r.addr ∷ events) else (r ∷ rs, [])

  unfoldable pub clean_write_requests : Bool → ℕ → MasterDrv F → MasterDrv F × List Event
  clean_write_requests all now s =
      let (kept, events) = clean all now s.pending_writes in
      (record s { pending_writes = kept }, events)

  -- Whether the top request is sent.
  unfoldable pub sent : WriteAnswers → WriteReq F → Bool
  unfolding write_trys
  sent net r = not (
      leb (max_transmission_trys + 1)
        (write_trys net 4 0 (not r.force) (r.force && not r.forced_val)))

  abbrev pub write_top :
      WriteAnswers → List (WriteReq F) → MasterDrv F → Bool × MasterDrv F × List Event
  write_top net [] s = (true, s, [])
  write_top net (r ∷ rs) s =
      if sent net r
      then (true, record s { pending_writes = rs }, Event.succeeded r.addr ∷ [])
      else (false, record s { last_error = net.error_text }, [])

  unfoldable pub process_next_write :
      WriteAnswers → ℕ → MasterDrv F → Bool × MasterDrv F × List Event
  process_next_write net now s =
      let (t, events) = clean_write_requests false now s in
      let (ok, u, more) = write_top net t.pending_writes t in (ok, u, events ++ more)

  -- The guard of `write` and `force`: the channel is that of a variable, and the driver runs.
  abbrev pub accepts : IoAddr → MasterDrv F → Bool
  accepts a s =
      not (
        leb a.channel s.num_ro_ints || ltb ((s.num_io_vars + s.num_ro_ints) % 4294967296) a.channel)
      && is_active s.state

  abbrev pub request : WriteReq F → MasterDrv F → Bool × MasterDrv F
  request r s =
      if accepts r.addr s
      then (true, record s { pending_writes = push r s.pending_writes })
      else (false, s)

  unfoldable pub write : F → IoAddr → ℕ → ℕ → MasterDrv F → Bool × MasterDrv F
  write x a time_out now s =
      request
        (record {
          addr = a;
          force = false;
          forced_val = false;
          write_val = x;
          write_time_out = time_out;
          time_s = now;
        })
        s

  unfoldable pub force : F → IoAddr → Bool → ℕ → ℕ → MasterDrv F → Bool × MasterDrv F
  force x a on time_out now s =
      request
        (record {
          addr = a;
          force = true;
          forced_val = on;
          write_val = x;
          write_time_out = time_out;
          time_s = now;
        })
        s
