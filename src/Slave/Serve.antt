-- ===== src/Slave/Serve.antt =====
-- `processPendingRequests` of ModbusSlaveDrv.cpp keeps the set of sockets and its counters in
-- agreement, whatever the masters and the network do.
use turbine_governor.Base.{
  ℕ, zero, suc, ◌+◌, ◌≤◌, ◌<◌, ◌≡◌, refl, ap, ◌∙◌, inl, inr, Bool, true, false, Option, none, some,
  List, [], ◌∷◌, ltb, leb, ◌==◌, arith, Bool-cases, ltb→lt,
}
use turbine_governor.Slave.State.{SlaveDrv}
use turbine_governor.Slave.Server.{
  fd_isset, Net, gives_up, drop_master, add_master, is_server, readset, serve_socket, serve_from,
  process_pending_requests,
}
use turbine_governor.Slave.Connections.{
  ServerInv, Bounded-mono, drop_master-ServerInv, fd_isset-fd_clr_ne,
}

-- `accept` returns a descriptor that is not open, and that a set of descriptors can hold, and leaves the
-- server's socket that it is given.
pub record AcceptsFresh (net : Net) : Type 0 where
  pub fresh : (xs : List ℕ) (fd : ℕ) → net.accept xs ≡ some fd → fd_isset fd xs ≡ false
  pub small : (xs : List ℕ) (fd : ℕ) → net.accept xs ≡ some fd → fd < 1024
  pub keeps : (xs : List ℕ) (srv : ℕ) → net.listener_after xs srv ≡ some srv

add_master-ServerInv :
    (srv : ℕ) (o : Option ℕ) (s : SlaveDrv)
    → ServerInv srv s
    → s.num_connections < 5
    → ((fd : ℕ) → o ≡ some fd → fd_isset fd s.refset ≡ false)
    → ServerInv srv (add_master o s)
unfolding add_master
add_master-ServerInv srv none s v few fresh = v
add_master-ServerInv srv (some fd) s v few fresh = rw (fresh fd refl) (record {
  server_open = v.server_open;
  server_in = rw v.server_in (ground arith);
  distinct = (fresh fd refl, v.distinct);
  bounded = (ground arith, Bounded-mono s.fdmax _ s.refset (ground arith) v.bounded);
  counted = omega (arith, v.counted);
  few = omega arith;
})

relisten :
    (srv : ℕ) (o : Option ℕ) (s : SlaveDrv)
    → ServerInv srv s
    → o ≡ some srv
    → ServerInv srv (record s { server_sock = o })
relisten srv o s v e = record {
  server_open = e;
  server_in = v.server_in;
  distinct = v.distinct;
  bounded = v.bounded;
  counted = v.counted;
  few = v.few;
}

-- The readable descriptors from `fd` on are in the set.
abbrev pub Pending : List ℕ → ℕ → SlaveDrv → Type 0
Pending waiting fd s = (x : ℕ) → fd ≤ x → fd_isset x waiting ≡ true → fd_isset x s.refset ≡ true

Pending-drop :
    (waiting : List ℕ) (fd : ℕ) (s : SlaveDrv)
    → Pending waiting fd s
    → Pending waiting (fd + 1) (drop_master fd s)
unfolding drop_master
Pending-drop waiting fd s p x h k =
    fd_isset-fd_clr_ne fd x s.refset (ground arith) ∙ p x (omega arith) k

Pending-add :
    (waiting : List ℕ) (fd : ℕ) (o : Option ℕ) (s : SlaveDrv)
    → Pending waiting fd s
    → Pending waiting (fd + 1) (add_master o s)
unfolding add_master
Pending-add waiting fd none s p x h k = p x (omega arith) k
Pending-add waiting fd (some n) s p x h k = ground (arith, p x (omega arith) k)

Pending-suc :
    (waiting : List ℕ) (fd : ℕ) (s : SlaveDrv) → Pending waiting fd s → Pending waiting (fd + 1) s
Pending-suc waiting fd s p x h k = p x (omega arith) k

-- What the body of the loop keeps.
abbrev Kept : List ℕ → ℕ → ℕ → SlaveDrv → Type 0
Kept waiting srv fd s = ServerInv srv s × Pending waiting fd s

serve_socket-Kept :
    (net : Net) (waiting : List ℕ) (srv fd : ℕ) (s : SlaveDrv)
    → AcceptsFresh net
    → Kept waiting srv fd s
    → Kept waiting srv (fd + 1) (serve_socket net waiting fd s)
unfolding serve_socket
serve_socket-Kept net waiting srv fd s f (v, p) = elim (Bool-cases (fd_isset fd waiting)) [
  | inr idle ↦ rw idle same
  | inl there ↦
      rw (there, ap (is_server fd) v.server_open)
        (elim (Bool-cases (fd == srv)) [
          | inl server ↦ rw server (elim (Bool-cases (ltb s.num_connections 5)) [
            | inr full ↦ rw full same
            | inl room ↦
                let kept : SlaveDrv = record s { server_sock = net.listener_after s.refset fd } in
                rw room (
                  add_master-ServerInv srv (net.accept s.refset) kept
                      (relisten srv _ s v (f.keeps s.refset fd ∙ ap some (ground (arith, server))))
                      (ltb→lt _ _ room) (f.fresh s.refset),
                  Pending-add waiting fd (net.accept s.refset) kept p,
                )
          ])
          | inr master ↦
              rw master (elim (Bool-cases (gives_up (net.receive fd) (net.reply_ok fd))) [
                | inr stays ↦ rw stays same
                | inl gone ↦ rw gone (
                  drop_master-ServerInv srv fd s v (p fd (omega arith) there) master,
                  Pending-drop waiting fd s p,
                )
              ])
        ])
]
  where
    same : Kept waiting srv (fd + 1) s
    same = (v, Pending-suc waiting fd s p)

serve_from-ServerInv :
    (net : Net) (waiting : List ℕ) (left srv fd : ℕ) (s : SlaveDrv)
    → AcceptsFresh net
    → Kept waiting srv fd s
    → ServerInv srv (serve_from net waiting left fd s)
unfolding serve_from
serve_from-ServerInv net waiting zero srv fd s f k = k.0
serve_from-ServerInv net waiting (suc left) srv fd s f k = elim (Bool-cases (leb fd s.fdmax)) [
  | inr past ↦ rw past k.0
  | inl on ↦ rw on (
      serve_from-ServerInv net waiting left srv (fd + 1) (serve_socket net waiting fd s) f
        (serve_socket-Kept net waiting srv fd s f k))
]

fd_isset-readset :
    (readable : ℕ → Bool) (x : ℕ) (xs : List ℕ)
    → fd_isset x (readset readable xs) ≡ true
    → fd_isset x xs ≡ true
unfolding readset
fd_isset-readset readable x [] h = h
fd_isset-readset readable x (y ∷ ys) h = ground (arith, fd_isset-readset readable x ys)

-- A round of requests keeps the invariant of the sockets: the set holds the server and one socket
-- for each counted connection, none twice, none above `fdmax`, and there are at most five
-- connections. `accept` is to return descriptors that are not in use, and to
-- leave the server's socket.
pub process_pending_requests-ServerInv :
    (net : Net) (srv : ℕ) (s : SlaveDrv)
    → AcceptsFresh net
    → ServerInv srv s
    → ServerInv srv (process_pending_requests net s)
unfolding process_pending_requests
process_pending_requests-ServerInv net srv s f v =
    serve_from-ServerInv net (readset net.readable s.refset) 1024 srv 0 s f
      (v, λ x h k. fd_isset-readset net.readable x s.refset k)
