-- ===== src/Master/Accounts.antt =====
-- Every write that ModbusMasterDrv.cpp accepts is answered by one callback, once.
use turbine_governor.Base.{
  ℕ, ◌+◌, ◌≡◌, refl, inl, inr, Bool, true, false, List, [], ◌∷◌, ◌++◌, ltb, if◌then◌else◌,
  Bool-cases, arith,
}
use turbine_governor.Types.{IoAddr, same_addr}
use turbine_governor.Master.State.{MasterDrv, WriteReq, Event}
use turbine_governor.Master.Queue.{
  WriteAnswers, push, expired, clean, clean_write_requests, sent, write_top, process_next_write,
}
use turbine_governor.Master.Loop.{MasterNet, close_connection, create_connection, shut}

abbrev pub one_if : Bool → ℕ
one_if b = if b then 1 else 0

-- The callbacks of requests to an address.
abbrev pub answered : IoAddr → List Event → ℕ
answered a [] = 0
answered a (Event.succeeded b ∷ es) = one_if (same_addr b a) + answered a es
answered a (Event.timed_out b ∷ es) = one_if (same_addr b a) + answered a es
answered a (Event.com_error ∷ es) = answered a es
answered a (Event.recovered ∷ es) = answered a es
answered a (Event.slept ms ∷ es) = answered a es

pub answered-append :
    (a : IoAddr) (es fs : List Event) → answered a (es ++ fs) ≡ answered a es + answered a fs
answered-append a [] fs = omega arith
answered-append a (Event.succeeded b ∷ es) fs = omega (arith, answered-append a es fs)
answered-append a (Event.timed_out b ∷ es) fs = omega (arith, answered-append a es fs)
answered-append a (Event.com_error ∷ es) fs = answered-append a es fs
answered-append a (Event.recovered ∷ es) fs = answered-append a es fs
answered-append a (Event.slept ms ∷ es) fs = answered-append a es fs

module _ {F : Type 0} where
  -- The requests to an address that wait.
  abbrev pub waiting : IoAddr → List (WriteReq F) → ℕ
  waiting a [] = 0
  waiting a (r ∷ rs) = one_if (same_addr r.addr a) + waiting a rs

  pub waiting-push :
      (a : IoAddr) (r : WriteReq F) (qs : List (WriteReq F))
      → waiting a (push r qs) ≡ one_if (same_addr r.addr a) + waiting a qs
  unfolding push
  waiting-push a r [] = refl
  waiting-push a r (q ∷ qs) = elim (Bool-cases (ltb q.write_time_out r.write_time_out)) [
    | inl first ↦ rw first
    | inr later ↦ rw later (omega (arith, waiting-push a r qs))
  ]

  pub clean-accounts :
      (all : Bool) (now : ℕ) (a : IoAddr) (rs : List (WriteReq F))
      → waiting a (clean all now rs).0 + answered a (clean all now rs).1 ≡ waiting a rs
  unfolding clean
  clean-accounts all now a [] = refl
  clean-accounts all now a (r ∷ rs) = elim (Bool-cases (expired all now r)) [
    | inl old ↦ rw old (omega (arith, clean-accounts all now a rs))
    | inr young ↦ rw young (omega arith)
  ]

  pub clean-all : (now : ℕ) (rs : List (WriteReq F)) → (clean true now rs).0 ≡ []
  unfolding clean
  clean-all now [] = refl
  clean-all now (r ∷ rs) = elim (Bool-cases (ltb (r.time_s + r.write_time_out) now)) [
    | inl old ↦ rw old (clean-all now rs)
    | inr young ↦ rw young (clean-all now rs)
  ]

  -- The books of a step: what waits afterwards and what was answered make up what waited.
  abbrev pub Balanced : IoAddr → MasterDrv F → MasterDrv F × List Event → Type 0
  Balanced a s r = waiting a r.0.pending_writes + answered a r.1 ≡ waiting a s.pending_writes

  pub write_top-accounts :
      (net : WriteAnswers) (a : IoAddr) (rs : List (WriteReq F)) (s : MasterDrv F)
      → s.pending_writes ≡ rs
      → let r = write_top net rs s in waiting a r.1.pending_writes + answered a r.2 ≡ waiting a rs
  write_top-accounts net a [] s e = rw e
  write_top-accounts net a (q ∷ rs) s e = elim (Bool-cases (sent net q)) [
    | inl done ↦ rw done (omega arith)
    | inr failed ↦ rw (failed, e) (omega arith)
  ]

  pub process_next_write-accounts :
      (net : WriteAnswers) (now : ℕ) (a : IoAddr) (s : MasterDrv F)
      → let r = process_next_write net now s in
        waiting a r.1.pending_writes + answered a r.2 ≡ waiting a s.pending_writes
  unfolding process_next_write clean_write_requests
  process_next_write-accounts net now a s =
      let t = (clean_write_requests false now s).0 in
      let old = (clean false now s.pending_writes).1 in
      omega (
        arith,
        answered-append a old (write_top net t.pending_writes t).2,
        write_top-accounts net a t.pending_writes t refl,
        clean-accounts false now a s.pending_writes,
      )

  pub shut-accounts : (now : ℕ) (a : IoAddr) (s : MasterDrv F) → Balanced a s (shut s now)
  unfolding clean_write_requests close_connection
  shut-accounts now a s = clean-accounts true now a s.pending_writes

  pub create_connection-pending :
      (net : MasterNet) (s : MasterDrv F)
      → (create_connection net s).1.pending_writes ≡ s.pending_writes
  unfolding create_connection
  create_connection-pending net s = elim (Bool-cases s.connected) [
    | inl open_now ↦ rw (open_now, create_connection)
    | inr down ↦ elim (Bool-cases net.connects) [
      | inl up ↦ rw (down, up, create_connection)
      | inr still ↦ rw (down, still, create_connection)
    ]
  ]
