-- ===== src/Slave/Rounds.antt =====
-- A round of the thread of ModbusSlaveDrv.cpp, `driverLoop`, keeps the driver well formed.
use Prim.Native.String.{String}
use turbine_governor.Base.{
  ℕ, ◌≡◌, refl, ap, ◌∙◌, ◌⊎◌, ◌≢◌, inl, inr, Bool, true, false, Option, none, some, arith,
}
use turbine_governor.Types.{DrvState}
use turbine_governor.Slave.State.{SlaveDrv}
use turbine_governor.Slave.Access.{is_uninit}
use turbine_governor.Slave.Server.{
  Net, Selected, process_pending_requests, listened, after_select, served_or_failed,
  served_or_waits, loop_running, loop_com_error, loop_in, loop_round,
}
use turbine_governor.Slave.Connections.{ServerInv}
use turbine_governor.Slave.Serve.{AcceptsFresh, process_pending_requests-ServerInv}
use turbine_governor.Slave.Frame.{process_pending_requests-SameTables}
use turbine_governor.Slave.Reach.{
  DrvInv, may_serve, moved, enter, with_sockets, close_sockets-DrvInv,
}

-- A fresh server, alone in the set of sockets.
fresh_server :
    (srv : ℕ) (error : String) (s : SlaveDrv) → ServerInv srv (listened (some srv) error s).0
fresh_server srv error s = record {
  server_open = refl;
  server_in = ground arith;
  distinct = (refl, tt);
  bounded = (omega arith, tt);
  counted = refl;
  few = omega arith;
}

listened-DrvInv :
    (o : Option ℕ) (error : String) (s : SlaveDrv)
    → DrvInv s
    → may_serve s.state ≡ true
    → DrvInv (listened o error s).0
listened-DrvInv none error s v m = record {
  bare = v.bare;
  tables = v.tables;
  failures = v.failures;
  sockets = inl refl;
}
listened-DrvInv (some srv) error s v m = record {
  bare = v.bare;
  tables = v.tables;
  failures = λ u. omega arith;
  sockets = inr (srv, moved_state, m);
}
  where
    moved_state : ServerInv srv (listened (some srv) error s).0
    moved_state = fresh_server srv error s

up_of : (st : DrvState) → may_serve st ≡ true → is_uninit st ≡ false
up_of DrvState.running m = refl
up_of DrvState.com_error m = refl
up_of DrvState.stopped m = refl
up_of DrvState.var_error m = refl
up_of DrvState.un_init m = absurd (cc)

served_or_failed-DrvInv :
    (r : SlaveDrv × Bool) → DrvInv r.0 → is_uninit r.0.state ≡ false → DrvInv (served_or_failed r)
served_or_failed-DrvInv (t, true) v up = v
served_or_failed-DrvInv (t, false) v up = enter t DrvState.com_error v up refl refl

served_or_waits-DrvInv :
    (r : SlaveDrv × Bool) → DrvInv r.0 → is_uninit r.0.state ≡ false → DrvInv (served_or_waits r).0
served_or_waits-DrvInv (t, true) v up = enter t DrvState.running v up refl refl
served_or_waits-DrvInv (t, false) v up = record {
  bare = v.bare;
  tables = v.tables;
  failures = λ u. ground arith;
  sockets = elim v.sockets [
    | inl shut ↦ inl shut
    | inr (srv, i, m) ↦ inr (
      srv,
      record {
        server_open = i.server_open;
        server_in = i.server_in;
        distinct = i.distinct;
        bounded = i.bounded;
        counted = i.counted;
        few = i.few;
      },
      m,
    )
  ];
}

listened-state :
    (o : Option ℕ) (error : String) (s : SlaveDrv) → (listened o error s).0.state ≡ s.state
listened-state none error s = refl
listened-state (some srv) error s = refl

requests-DrvInv :
    (net : Net) (s : SlaveDrv)
    → AcceptsFresh net
    → DrvInv s
    → s.server_sock ≢ none
    → DrvInv (process_pending_requests net s)
requests-DrvInv net s f v open_server =
    let same = process_pending_requests-SameTables net s in
    elim v.sockets [
      | inl shut ↦ absurd (open_server shut)
      | inr (srv, i, m) ↦
          with_sockets s (process_pending_requests net s) same v (
            inr
              (srv, process_pending_requests-ServerInv net srv s f i, ap may_serve same.state ∙ m))
    ]

running-DrvInv :
    (o : Option ℕ) (net : Net) (s : SlaveDrv)
    → AcceptsFresh net
    → DrvInv s
    → s.server_sock ≡ o
    → may_serve s.state ≡ true
    → DrvInv (loop_running o net s)
running-DrvInv none net s f v e m =
    served_or_failed-DrvInv (listened net.listen net.error_text s)
      (listened-DrvInv net.listen net.error_text s v m)
      (ap is_uninit (listened-state net.listen net.error_text s) ∙ up_of s.state m)
running-DrvInv (some srv) net s f v e m = selected net.selected
  where
    selected : (r : Selected) → DrvInv (after_select r net s)
    selected Selected.failed =
        enter (record s { last_error = "Error en espera de comunicaciones" }) DrvState.com_error
          (with_sockets s _
            (record {
              state = refl;
              mapping = refl;
              num_io_vars = refl;
              num_ro_ints = refl;
              com_errors = refl;
            })
            v again)
          (up_of s.state m) refl refl
      where
        again :
            (s.server_sock ≡ none)
            ⊎ ((srv : ℕ) × ServerInv srv
                  (record s { last_error = "Error en espera de comunicaciones" })
                × (may_serve s.state ≡ true))
        again = elim v.sockets [
          | inl shut ↦ inl shut
          | inr (at, i, k) ↦ inr (at, moved s _ refl refl refl refl i, k)
        ]
    selected Selected.timed_out = v
    selected Selected.ready = requests-DrvInv net s f v (λ n. absurd (cc))

com_error-DrvInv :
    (o : Option ℕ) (net : Net) (s : SlaveDrv)
    → DrvInv s
    → may_serve s.state ≡ true
    → DrvInv (loop_com_error o net s).0
com_error-DrvInv none net s v m =
    served_or_waits-DrvInv (listened net.listen net.error_text s)
      (listened-DrvInv net.listen net.error_text s v m)
      (ap is_uninit (listened-state net.listen net.error_text s) ∙ up_of s.state m)
com_error-DrvInv (some srv) net s v m = close_sockets-DrvInv s v

loop_in-DrvInv :
    (st : DrvState) (net : Net) (s : SlaveDrv)
    → AcceptsFresh net
    → DrvInv s
    → s.state ≡ st
    → DrvInv (loop_in st net s).0
loop_in-DrvInv DrvState.stopped net s f v e = v
loop_in-DrvInv DrvState.un_init net s f v e = v
loop_in-DrvInv DrvState.running net s f v e =
    running-DrvInv s.server_sock net s f v refl (ap may_serve e)
loop_in-DrvInv DrvState.com_error net s f v e =
    com_error-DrvInv s.server_sock net s v (ap may_serve e)
loop_in-DrvInv DrvState.var_error net s f v e =
    enter s DrvState.com_error v (ap is_uninit e) refl refl

pub loop_round-DrvInv :
    (net : Net) (s : SlaveDrv) → AcceptsFresh net → DrvInv s → DrvInv (loop_round net s).0
unfolding loop_round
loop_round-DrvInv net s f v = loop_in-DrvInv s.state net s f v refl
