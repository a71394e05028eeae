-- ===== src/Slave/Reach.antt =====
-- Every state that the operations of ModbusSlaveDrv.cpp and the rounds of its thread reach is well
-- formed.
use turbine_governor.Base.{
  ℕ, ◌≤◌, ◌≡◌, refl, ap, sym, ◌∙◌, ◌⊎◌, inl, inr, Bool, true, false, Option, none, some, arith,
}
use turbine_governor.Types.{DrvState}
use turbine_governor.Slave.State.{SlaveDrv}
use turbine_governor.Slave.Access.{is_uninit}
use turbine_governor.Slave.Publish.{IsReady}
use turbine_governor.Slave.Server.{close_server, close_sockets}
use turbine_governor.Slave.Lifecycle.{construct_drv}
use turbine_governor.Slave.Connections.{ServerInv}
use turbine_governor.Slave.Frame.{SameTables, SameTables-refl}

-- The states in which the thread may hold sockets.
abbrev pub may_serve : DrvState → Bool
may_serve DrvState.running = true
may_serve DrvState.com_error = true
may_serve _ = false

-- Without a configuration there are no tables; with one they have the sizes of the configuration,
-- and the count of failures is at most three. Sockets are open in a running driver or one that has
-- just failed, and agree with their counters.
pub record DrvInv (s : SlaveDrv) : Type 0 where
  pub bare : is_uninit s.state ≡ true → s.mapping ≡ none
  pub tables : is_uninit s.state ≡ false → IsReady s
  pub failures : is_uninit s.state ≡ false → s.com_errors ≤ 3
  pub sockets : (s.server_sock ≡ none) ⊎ ((srv : ℕ) × ServerInv srv s × (may_serve s.state ≡ true))

pub construct_drv-DrvInv : (junk : SlaveDrv) (little : Bool) → DrvInv (construct_drv junk little)
unfolding construct_drv
construct_drv-DrvInv junk little = record {
  bare = λ u. refl;
  tables = λ u. absurd (cc);
  failures = λ u. absurd (cc);
  sockets = inl refl;
}

-- The sockets of `t` are those of `s`.
pub moved :
    {srv : ℕ} (s t : SlaveDrv)
    → t.server_sock ≡ s.server_sock
    → t.refset ≡ s.refset
    → t.fdmax ≡ s.fdmax
    → t.num_connections ≡ s.num_connections
    → ServerInv srv s
    → ServerInv srv t
moved s t a b c d v = record {
  server_open = a ∙ v.server_open;
  server_in = rw b v.server_in;
  distinct = rw b v.distinct;
  bounded = rw (b, c) v.bounded;
  counted = rw (b, d) v.counted;
  few = rw d v.few;
}

close_server-closed :
    (o : Option ℕ) (s : SlaveDrv) → s.server_sock ≡ o → (close_server o s).0.server_sock ≡ none
close_server-closed none s e = e
close_server-closed (some srv) s e = refl

pub close_sockets-closed : (s : SlaveDrv) → (close_sockets s).0.server_sock ≡ none
unfolding close_sockets
close_sockets-closed s = close_server-closed s.server_sock s refl

close_server-SameTables : (o : Option ℕ) (s : SlaveDrv) → SameTables s (close_server o s).0
close_server-SameTables none s = SameTables-refl s
close_server-SameTables (some srv) s = record {
  state = refl;
  mapping = refl;
  num_io_vars = refl;
  num_ro_ints = refl;
  com_errors = refl;
}

pub close_sockets-SameTables : (s : SlaveDrv) → SameTables s (close_sockets s).0
unfolding close_sockets
close_sockets-SameTables s = close_server-SameTables s.server_sock s

IsReady-same : (s t : SlaveDrv) → SameTables s t → IsReady s → IsReady t
IsReady-same s t f (m, e, fits) = (m, f.mapping ∙ e, rw (f.num_io_vars, f.num_ro_ints) fits)

-- The part of the invariant that sockets do not matter for.
pub with_sockets :
    (s t : SlaveDrv)
    → SameTables s t
    → DrvInv s
    → (t.server_sock ≡ none) ⊎ ((srv : ℕ) × ServerInv srv t × (may_serve t.state ≡ true))
    → DrvInv t
with_sockets s t f v sock = record {
  bare = λ u. f.mapping ∙ v.bare (ap is_uninit (sym f.state) ∙ u);
  tables = λ u. IsReady-same s t f (v.tables (ap is_uninit (sym f.state) ∙ u));
  failures = λ u. omega (arith, f.com_errors, v.failures (ap is_uninit (sym f.state) ∙ u));
  sockets = sock;
}

pub close_sockets-DrvInv : (s : SlaveDrv) → DrvInv s → DrvInv (close_sockets s).0
close_sockets-DrvInv s v =
    with_sockets s (close_sockets s).0 (close_sockets-SameTables s) v (inl (close_sockets-closed s))

-- A change of state within an initialised driver.
pub enter :
    (s : SlaveDrv) (st : DrvState)
    → DrvInv s
    → is_uninit s.state ≡ false
    → is_uninit st ≡ false
    → may_serve st ≡ true
    → DrvInv (record s { state = st })
enter s st v up u serves = record {
  bare = λ w. absurd (cc);
  tables = λ w. v.tables up;
  failures = λ w. v.failures up;
  sockets = elim v.sockets [
    | inl shut ↦ inl shut
    | inr (srv, i, m) ↦ inr (srv, moved s (record s { state = st }) refl refl refl refl i, serves)
  ];
}
