-- ===== src/Slave/Frame.antt =====
-- What the sockets' part of ModbusSlaveDrv.cpp leaves alone: the state, the tables and their sizes.
use turbine_governor.Base.{
  ℕ, zero, suc, ◌+◌, ◌≡◌, refl, ◌∙◌, inl, inr, Option, none, some, List, ltb, leb, Bool-cases,
}
use turbine_governor.Slave.State.{SlaveDrv}
use turbine_governor.Slave.Server.{
  fd_isset, Net, gives_up, drop_master, add_master, is_server, readset, serve_socket, serve_from,
  process_pending_requests,
}

pub record SameTables (s t : SlaveDrv) : Type 0 where
  pub state : t.state ≡ s.state
  pub mapping : t.mapping ≡ s.mapping
  pub num_io_vars : t.num_io_vars ≡ s.num_io_vars
  pub num_ro_ints : t.num_ro_ints ≡ s.num_ro_ints
  pub com_errors : t.com_errors ≡ s.com_errors

pub SameTables-refl : (s : SlaveDrv) → SameTables s s
SameTables-refl s = record {
  state = refl;
  mapping = refl;
  num_io_vars = refl;
  num_ro_ints = refl;
  com_errors = refl;
}

pub SameTables-trans : (s t u : SlaveDrv) → SameTables s t → SameTables t u → SameTables s u
SameTables-trans s t u a b = record {
  state = b.state ∙ a.state;
  mapping = b.mapping ∙ a.mapping;
  num_io_vars = b.num_io_vars ∙ a.num_io_vars;
  num_ro_ints = b.num_ro_ints ∙ a.num_ro_ints;
  com_errors = b.com_errors ∙ a.com_errors;
}

drop_master-SameTables : (fd : ℕ) (s : SlaveDrv) → SameTables s (drop_master fd s)
unfolding drop_master
drop_master-SameTables fd s = record {
  state = refl;
  mapping = refl;
  num_io_vars = refl;
  num_ro_ints = refl;
  com_errors = refl;
}

add_master-SameTables : (o : Option ℕ) (s : SlaveDrv) → SameTables s (add_master o s)
unfolding add_master
add_master-SameTables none s = SameTables-refl s
add_master-SameTables (some fd) s = record {
  state = refl;
  mapping = refl;
  num_io_vars = refl;
  num_ro_ints = refl;
  com_errors = refl;
}

serve_socket-SameTables :
    (net : Net) (waiting : List ℕ) (fd : ℕ) (s : SlaveDrv)
    → SameTables s (serve_socket net waiting fd s)
unfolding serve_socket
serve_socket-SameTables net waiting fd s = elim (Bool-cases (fd_isset fd waiting)) [
  | inr idle ↦ rw idle (SameTables-refl s)
  | inl there ↦ rw there (elim (Bool-cases (is_server fd s.server_sock)) [
    | inl server ↦
        let kept : SlaveDrv = record s { server_sock = net.listener_after s.refset fd } in
        rw server (elim (Bool-cases (ltb s.num_connections 5)) [
          | inr full ↦ rw full (SameTables-refl s)
          | inl room ↦ rw room (
              SameTables-trans s kept _
                (record {
                  state = refl;
                  mapping = refl;
                  num_io_vars = refl;
                  num_ro_ints = refl;
                  com_errors = refl;
                })
                (add_master-SameTables (net.accept s.refset) kept))
        ])
    | inr master ↦ rw master (elim (Bool-cases (gives_up (net.receive fd) (net.reply_ok fd))) [
      | inr stays ↦ rw stays (SameTables-refl s)
      | inl gone ↦ rw gone (drop_master-SameTables fd s)
    ])
  ])
]

serve_from-SameTables :
    (net : Net) (waiting : List ℕ) (left fd : ℕ) (s : SlaveDrv)
    → SameTables s (serve_from net waiting left fd s)
unfolding serve_from
serve_from-SameTables net waiting zero fd s = SameTables-refl s
serve_from-SameTables net waiting (suc left) fd s = elim (Bool-cases (leb fd s.fdmax)) [
  | inr past ↦ rw past (SameTables-refl s)
  | inl on ↦ rw on (
      SameTables-trans _ _ _ (serve_socket-SameTables net waiting fd s)
        (serve_from-SameTables net waiting left (fd + 1) (serve_socket net waiting fd s)))
]

pub process_pending_requests-SameTables :
    (net : Net) (s : SlaveDrv) → SameTables s (process_pending_requests net s)
unfolding process_pending_requests
process_pending_requests-SameTables net s =
    serve_from-SameTables net (readset net.readable s.refset) 1024 0 s
