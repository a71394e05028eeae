-- ===== src/Slave/Outage.antt =====
-- The error path of ModbusSlaveDrv.cpp: `driverLoop` while the port cannot be opened, the closing
-- of sockets, and the tries to send an answer.
use turbine_governor.Base.{
  ℕ, zero, suc, ◌+◌, ◌*◌, ◌≤◌, ◌≡◌, refl, ap, ap₂, ◌∙◌, ◌↔◌, ==_iff, Bool, true, false, not, ◌&&◌,
  none, List, [], ◌∷◌, ◌++◌, ltb, leb, min, ◌==◌, if◌then◌else◌, arith, length,
}
use turbine_governor.Types.{DrvState}
use turbine_governor.Slave.State.{SlaveDrv}
use turbine_governor.Slave.Server.{
  Net, Received, Effect, fd_isset, closed_from, close_sockets, loop_round, count_error, reply_trys,
  gives_up,
}
use turbine_governor.Slave.Connections.{ServerInv, Bounded}

-- Rounds of the thread, one for each answer of the network, with what they do.
unfoldable pub rounds : List Net → SlaveDrv → SlaveDrv × List Effect
unfolding loop_round
rounds [] s = (s, [])
rounds (net ∷ nets) s =
    let (t, effect) = loop_round net s in let (u, effects) = rounds nets t in (u, effect ∷ effects)

-- The calls of the callback for lost communication, and the time slept.
abbrev pub calls : List Effect → ℕ
calls [] = 0
calls (e ∷ es) = (if e.com_error_call then 1 else 0) + calls es

abbrev pub slept_ms : List Effect → ℕ
slept_ms [] = 0
slept_ms (e ∷ es) = e.slept + slept_ms es

abbrev pub AllDown : List Net → Type 0
AllDown [] = Unit {0}
AllDown (net ∷ nets) = (net.listen ≡ none) × AllDown nets

-- The waits of k failures after n: 500 ms more for each failure, 1500 ms at most.
abbrev pub waits : ℕ → ℕ → ℕ
waits n zero = 0
waits n (suc k) = 500 * min 3 (n + 1) + waits (min 3 (n + 1)) k

-- What one failed round does.
failed_round :
    (net : Net) (s : SlaveDrv)
    → net.listen ≡ none
    → s.state ≡ DrvState.com_error
    → s.server_sock ≡ none
    → let r = loop_round net s in
      (r.0.state ≡ DrvState.com_error)
      × (r.0.server_sock ≡ none)
      × (r.0.com_errors ≡ count_error s.com_errors)
      × (r.1.com_error_call ≡ (s.com_errors == 0))
      × (r.1.slept ≡ 500 * count_error s.com_errors)
unfolding loop_round
failed_round net s down e shut = rw (e, shut, down, loop_round) (refl, refl, refl, refl, refl)

-- While a driver that has lost its port fails to open it again, k times in a row, it stays in the
-- state for failed communication, calls the regulator's callback exactly once if the outage is new
-- and not at all else, counts the failures up to three, and sleeps 500 ms for each counted failure
-- after every try.
pub outage :
    (nets : List Net) (s : SlaveDrv)
    → AllDown nets
    → s.state ≡ DrvState.com_error
    → s.server_sock ≡ none
    → s.com_errors ≤ 3
    → let r = rounds nets s in
      (r.0.state ≡ DrvState.com_error)
      × (r.0.server_sock ≡ none)
      × (r.0.com_errors ≡ min 3 (s.com_errors + length nets))
      × (calls r.1 ≡ (if s.com_errors == 0 && ltb 0 (length nets) then 1 else 0))
      × (slept_ms r.1 ≡ waits s.com_errors (length nets))
unfolding rounds
outage [] s down e shut few = (e, shut, omega arith, ground arith, refl)
outage (net ∷ nets) s down e shut few =
    let t = (loop_round net s).0 in
    let (e', shut', counted, called, slept) = failed_round net s down.0 e shut in
    let next : t.com_errors ≡ min 3 (s.com_errors + 1) = counted ∙ ground arith in
    let (st, sock, total, later, waited) = outage nets t down.1 e' shut' (omega arith) in
    (
      st,
      sock,
      total ∙ omega arith,
      rw (called, later, next) (ground arith),
      ap₂ ◌+◌ (slept ∙ ap (λ n. 500 * n) (ground arith))
          (waited ∙ ap (λ n. waits n (length nets)) next),
    )

-- The connections of the set that the loop of `closeSockets` passes.
closed_from-mem :
    (left srv fd x : ℕ) (xs : List ℕ)
    → fd_isset x (closed_from srv left fd xs)
      ≡ (fd_isset x xs && not (x == srv) && leb fd x && ltb x (fd + left))
unfolding closed_from
closed_from-mem zero srv fd x xs = ground arith
closed_from-mem (suc left) srv fd x xs =
    ground (arith, closed_from-mem left srv (fd + 1) x xs, same)
  where
    same : fd ≡ x → fd_isset fd xs ≡ fd_isset x xs
    same e = rw e

-- How often a descriptor is in a list.
abbrev pub times : ℕ → List ℕ → ℕ
times x [] = 0
times x (y ∷ ys) = (if y == x then 1 else 0) + times x ys

times-append : (x : ℕ) (xs ys : List ℕ) → times x (xs ++ ys) ≡ times x xs + times x ys
times-append x [] ys = omega arith
times-append x (y ∷ xs) ys = omega (arith, times-append x xs ys)

times-closed_from :
    (left srv fd x : ℕ) (xs : List ℕ)
    → times x (closed_from srv left fd xs)
      ≡ (if fd_isset x xs && not (x == srv) && leb fd x && ltb x (fd + left) then 1 else 0)
unfolding closed_from
times-closed_from zero srv fd x xs = ground arith
times-closed_from (suc left) srv fd x xs =
    ground (arith, times-closed_from left srv (fd + 1) x xs, same)
  where
    same : fd ≡ x → fd_isset fd xs ≡ fd_isset x xs
    same e = rw e

Bounded-mem : (n x : ℕ) (xs : List ℕ) → Bounded n xs → fd_isset x xs ≡ true → x ≤ n
Bounded-mem n x [] b h = absurd (cc)
Bounded-mem n x (y ∷ ys) b h = ground (arith, Bounded-mem n x ys b.1)

-- `closeSockets` on an open server leaves no socket behind: every descriptor of the set, the
-- server's and the masters', is closed exactly once and no other descriptor is, the set is empty,
-- and the driver has no server and no connections.
pub close_sockets-closes_all :
    (srv x : ℕ) (s : SlaveDrv)
    → ServerInv srv s
    → let r = close_sockets s in
      (times x r.1 ≡ (if fd_isset x s.refset then 1 else 0))
      × (r.0.refset ≡ [])
      × (r.0.num_connections ≡ 0)
      × (r.0.server_sock ≡ none)
unfolding close_sockets
close_sockets-closes_all srv x s v = rw (v.server_open, close_sockets) (counted, refl, refl, refl)
  where
    mine : times x (srv ∷ []) ≡ (if srv == x then 1 else 0)
    mine = omega arith

    here : (srv == x) ≡ true → fd_isset x s.refset ≡ true
    here e = rw⁻¹ ((==_iff srv x).0 e) v.server_in

    counted :
        times x (closed_from srv (s.fdmax + 1) 0 s.refset ++ srv ∷ [])
        ≡ (if fd_isset x s.refset then 1 else 0)
    counted =
        times-append x (closed_from srv (s.fdmax + 1) 0 s.refset) (srv ∷ [])
        ∙ ground (
          arith,
          times-closed_from (s.fdmax + 1) srv 0 x s.refset,
          mine,
          here,
          Bounded-mem s.fdmax x s.refset v.bounded,
        )

-- The connection of a master is closed after a request exactly when the first three tries to send
-- the answer fail; a fourth try that succeeds does not keep it.
pub gives_up_iff :
    (ok : ℕ → Bool)
    → (gives_up Received.request ok ≡ true) ↔ ((ok 0 ≡ false) × (ok 1 ≡ false) × (ok 2 ≡ false))
unfolding gives_up reply_trys
gives_up_iff ok = ground arith
