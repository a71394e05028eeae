-- ===== src/Slave/Server.antt =====
-- The sockets of ModbusSlaveDrv.cpp: `createServerSocket`, `closeSockets`,
-- `processPendingRequests`, and one round of `driverLoop`.
use Prim.Native.String.{String}
use turbine_governor.Base.{
  ℕ, zero, suc, ◌+◌, ◌-◌, ◌*◌, Bool, true, false, not, ◌&&◌, ◌||◌, Option, none, some, List, [],
  ◌∷◌, ◌++◌, ltb, leb, ◌==◌, if◌then◌else◌,
}
use turbine_governor.Types.{DrvState}
use turbine_governor.Slave.State.{SlaveDrv}

-- `fd_set`: the descriptors in it.
abbrev pub fd_isset : ℕ → List ℕ → Bool
fd_isset fd [] = false
fd_isset fd (x ∷ xs) = x == fd || fd_isset fd xs

abbrev pub fd_set : ℕ → List ℕ → List ℕ
fd_set fd xs = if fd_isset fd xs then xs else fd ∷ xs

unfoldable pub fd_clr : ℕ → List ℕ → List ℕ
fd_clr fd [] = []
fd_clr fd (x ∷ xs) = if x == fd then fd_clr fd xs else x ∷ fd_clr fd xs

-- What `modbus_receive` returns: a length above 0, 0 for a message to drop, or -1.
pub data Received : Type 0 where
  request dropped broken : Received

-- What `select` returns: -1, 0, or the number of sockets that are readable.
pub data Selected : Type 0 where
  failed timed_out ready : Selected

-- The answers of the system and of libmodbus in one round of the loop. `accept` may look at the
-- descriptors that are open; the reply to a socket may be tried several times.
pub record Net : Type 0 where
  pub listen : Option ℕ
  pub selected : Selected
  pub readable : ℕ → Bool
  pub accept : List ℕ → Option ℕ
  pub listener_after : List ℕ → ℕ → Option ℕ
  pub receive : ℕ → Received
  pub reply_ok : ℕ → ℕ → Bool
  pub error_text : String

abbrev pub max_transmission_trys : ℕ
max_transmission_trys = 3

abbrev pub max_num_masters : ℕ
max_num_masters = 5

abbrev pub max_com_error_trys : ℕ
max_com_error_trys = 3

abbrev pub com_error_min_timeout : ℕ
com_error_min_timeout = 500

-- `FD_SETSIZE`: descriptors in a set are below it.
abbrev pub fd_setsize : ℕ
fd_setsize = 1024

-- `while(modbus_reply(...) == -1 && iTransTrys++ < MAX_TRANSMISSION_TRYS)`, and the number of tries
-- that it leaves. Four rounds are enough: the fourth failure ends the loop.
unfoldable pub reply_trys : (ℕ → Bool) → ℕ → ℕ → ℕ
reply_trys ok zero trys = trys
reply_trys ok (suc left) trys =
    let again = reply_trys ok left (trys + 1) in
    if ok trys then trys else if ltb trys max_transmission_trys then again else trys + 1

-- Whether the connection of a master is to be closed after its request.
unfoldable pub gives_up : Received → (ℕ → Bool) → Bool
unfolding reply_trys
gives_up Received.request ok = leb max_transmission_trys (reply_trys ok 4 0)
gives_up Received.dropped ok = false
gives_up Received.broken ok = true

unfoldable pub drop_master : ℕ → SlaveDrv → SlaveDrv
drop_master fd s = record s {
  refset = fd_clr fd s.refset;
  num_connections = s.num_connections - 1;
  fdmax = if fd == s.fdmax then s.fdmax - 1 else s.fdmax;
}

unfoldable pub add_master : Option ℕ → SlaveDrv → SlaveDrv
add_master none s = s
add_master (some fd) s = record s {
  refset = fd_set fd s.refset;
  num_connections = s.num_connections + 1;
  fdmax = if ltb s.fdmax fd then fd else s.fdmax;
}

abbrev pub is_server : ℕ → Option ℕ → Bool
is_server fd none = false
is_server fd (some srv) = fd == srv

-- What `select` leaves of the set of descriptors.
unfoldable pub readset : (ℕ → Bool) → List ℕ → List ℕ
readset readable [] = []
readset readable (x ∷ xs) = if readable x then x ∷ readset readable xs else readset readable xs

-- The body of the loop of `processPendingRequests` for one descriptor.
unfoldable pub serve_socket : Net → List ℕ → ℕ → SlaveDrv → SlaveDrv
serve_socket net waiting fd s =
    if not (fd_isset fd waiting)
    then s
    else if is_server fd s.server_sock
    then (if ltb s.num_connections max_num_masters
        then add_master (net.accept s.refset)
            (record s { server_sock = net.listener_after s.refset fd })
        else s)
    else if gives_up (net.receive fd) (net.reply_ok fd)
    then drop_master fd s
    else s

-- The loop from descriptor `fd` on, with `left` rounds at most; it ends past `fdmax`, which the
-- body may change.
unfoldable pub serve_from : Net → List ℕ → ℕ → ℕ → SlaveDrv → SlaveDrv
serve_from net waiting zero fd s = s
serve_from net waiting (suc left) fd s =
    let rest = serve_from net waiting left (fd + 1) (serve_socket net waiting fd s) in
    if leb fd s.fdmax then rest else s

unfoldable pub process_pending_requests : Net → SlaveDrv → SlaveDrv
process_pending_requests net s = serve_from net (readset net.readable s.refset) fd_setsize 0 s

-- `createServerSocket` after `modbus_tcp_listen`.
abbrev pub listened : Option ℕ → String → SlaveDrv → SlaveDrv × Bool
listened none error s = (record s { server_sock = none; last_error = error }, false)
listened (some srv) error s = (
  record s {
    server_sock = some srv;
    refset = srv ∷ [];
    fdmax = srv;
    num_connections = 0;
    com_errors = 0;
  },
  true,
)

-- `createServerSocket`, for the server's socket that there is.
abbrev pub create_server : Option ℕ → Net → SlaveDrv → SlaveDrv × Bool
create_server (some srv) net s = (s, true)
create_server none net s = listened net.listen net.error_text s

unfoldable pub create_server_socket : Net → SlaveDrv → SlaveDrv × Bool
create_server_socket net s = create_server s.server_sock net s

-- The loop of `closeSockets` from descriptor `fd` on, with `left` rounds to go: the connections
-- that it closes.
unfoldable pub closed_from : ℕ → ℕ → ℕ → List ℕ → List ℕ
closed_from srv zero fd xs = []
closed_from srv (suc left) fd xs =
    let rest = closed_from srv left (fd + 1) xs in
    if fd_isset fd xs && not (fd == srv) then fd ∷ rest else rest

-- `closeSockets`, for the server's socket that there is: the new state, and the descriptors that
-- are closed, the connections before the server.
abbrev pub close_server : Option ℕ → SlaveDrv → SlaveDrv × List ℕ
close_server none s = (s, [])
close_server (some srv) s = (
  record s { refset = []; num_connections = 0; server_sock = none },
  closed_from srv (s.fdmax + 1) 0 s.refset ++ srv ∷ [],
)

unfoldable pub close_sockets : SlaveDrv → SlaveDrv × List ℕ
close_sockets s = close_server s.server_sock s

-- What a round of `driverLoop` does besides: it calls the callback for lost communication, and
-- sleeps for some milliseconds.
pub record Effect : Type 0 where
  pub com_error_call : Bool
  pub slept : ℕ

abbrev pub quiet : Effect
quiet = record { com_error_call = false; slept = 0 }

abbrev pub count_error : ℕ → ℕ
count_error n = if ltb max_com_error_trys (n + 1) then max_com_error_trys else n + 1

-- What follows `select`.
abbrev pub after_select : Selected → Net → SlaveDrv → SlaveDrv
after_select Selected.failed net s = record s {
  last_error = "Error en espera de comunicaciones";
  state = DrvState.com_error;
}
after_select Selected.timed_out net s = s
after_select Selected.ready net s = process_pending_requests net s

-- What follows `createServerSocket` in the case `Running`, and in the case `COMError`.
abbrev pub served_or_failed : SlaveDrv × Bool → SlaveDrv
served_or_failed (t, true) = t
served_or_failed (t, false) = record t { state = DrvState.com_error }

abbrev pub served_or_waits : SlaveDrv × Bool → SlaveDrv × Effect
served_or_waits (t, true) = (record t { state = DrvState.running }, quiet)
served_or_waits (t, false) = (
  record t { com_errors = count_error t.com_errors },
  record {
    com_error_call = t.com_errors == 0;
    slept = com_error_min_timeout * count_error t.com_errors;
  },
)

-- The case `Running`, for the server's socket that there is.
abbrev pub loop_running : Option ℕ → Net → SlaveDrv → SlaveDrv
loop_running (some srv) net s = after_select net.selected net s
loop_running none net s = served_or_failed (create_server none net s)

-- The case `COMError`.
abbrev pub loop_com_error : Option ℕ → Net → SlaveDrv → SlaveDrv × Effect
loop_com_error (some srv) net s = ((close_sockets s).0, quiet)
loop_com_error none net s = served_or_waits (create_server none net s)

abbrev pub loop_in : DrvState → Net → SlaveDrv → SlaveDrv × Effect
loop_in DrvState.stopped net s = (s, quiet)
loop_in DrvState.un_init net s = (s, quiet)
loop_in DrvState.running net s = (loop_running s.server_sock net s, quiet)
loop_in DrvState.com_error net s = loop_com_error s.server_sock net s
loop_in DrvState.var_error net s = (record s { state = DrvState.com_error }, quiet)

unfoldable pub loop_round : Net → SlaveDrv → SlaveDrv × Effect
loop_round net s = loop_in s.state net s
