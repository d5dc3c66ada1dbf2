-- ===== src/Tests/Loops.antt =====
-- A connection of zk/conn.go from Connect to its session, and after the return of loop.
use go_zookeeper.Base.{
  true, ◌≡◌, inl, refl, pos, negsuc, false, none, some, [], ◌∷◌, ◌++◌, length, str,
}
use go_zookeeper.Constants.{op_create}
use go_zookeeper.Outcome.{done}
use go_zookeeper.Wire.{ok, be_bytes}
use go_zookeeper.Wire.Structs.{path_response_type}
use go_zookeeper.Wire.Spec.{wire}
use go_zookeeper.Hosts.{
  DnsHostProvider, Resolver, init, resolve_all, join_all, next, connected, format_servers,
  format_server, contains_byte, string_shuffle, shuffle_from, swap, succ_mod, index_server,
}
use go_zookeeper.Conn.{Conn, no_func, queue_request, new_request, next_xid, set_state, send_event}
use go_zookeeper.Conn.Connect.{answered, connect_request, set_timeouts, establish, authenticate}
use go_zookeeper.Conn.Session.{connect_frame, response_value, authenticate-establish}
use go_zookeeper.Loop.{
  dialing, HostProvider, Session, authenticating, connecting, returned, stopped, use_server,
  take_server, dial, after_auth, finish_loop,
}
use go_zookeeper.Loop.Run.{
  Move, takes_server, dials, authenticates, finishes, queues, Reach, here, later,
}
use go_zookeeper.Loop.Connect.{connect, apply_options, fresh_conn, timeout_ms}
use mathlib.Core.List.{Nodup, Mem}
use go_zookeeper.Conn.Accounts.{unsent, pending}
use go_zookeeper.Conn.Accounts
use go_zookeeper.Base.{ℕ, ◌<◌, ◌↔◌}
use go_zookeeper.Loop.Answers.{CleanReach, at_start, followed, connect-answered_once}
use go_zookeeper.Loop.States.{IsLoop, Edge}
use go_zookeeper.Loop.Order.{connect-Reach, connect-Edge}
use go_zookeeper.Loop.Stopped.{HasQuit, Waits, IsSilent, Reach-Waits, stopped-IsSilent}
use go_zookeeper.Tests.Requests.{new_conn, path_value}
use go_zookeeper.Tests.Sessions
use go_zookeeper.Tests.Sessions.{
  accepted, request-HasKind, request-room, response-HasKind, response-small,
}

abbrev two_addresses : Resolver
two_addresses = record {
  split_host_port = λ s. done (s, str "1");
  lookup_host = λ h. done (str "x" ∷ str "y" ∷ []);
  join_host_port = λ a p. a ++ (b':' ∷ p);
}

abbrev provider : HostProvider DnsHostProvider
provider = record { init = init two_addresses (λ i. 0); next = next; connected = connected }

abbrev start : Session DnsHostProvider
start = record {
  hosts = record { servers = str "y:1" ∷ str "x:1" ∷ []; curr = negsuc 0; last = negsuc 0 };
  conn = set_timeouts (pos 4000) (fresh_conn 32);
  phase = connecting;
  should_quit = false;
  max_buffer_size = pos 0;
  restorers = [];
}

run-connect : connect provider (λ i. 0) 32 (str "a" ∷ []) (pos 4_000_000_000) [] ≡ done start
unfolding connect format_servers format_server contains_byte string_shuffle shuffle_from swap
    apply_options timeout_ms init resolve_all join_all
run-connect = refl

-- The first server, dialled.
abbrev server_taken : Session DnsHostProvider
server_taken =
    use_server (record start.hosts { curr = pos 0; last = pos 0 }) (str "y:1") false start

abbrev dialled : Session DnsHostProvider
dialled = dial none server_taken

run-take_server : take_server provider start ≡ done server_taken
unfolding take_server next succ_mod index_server
run-take_server = refl

dialled-Reach : Reach provider start dialled
unfolding use_server
dialled-Reach = later (later here (takes_server refl run-take_server)) (dials refl none)

dialled-request : connect_request dialled.conn ≡ connect_request Sessions.new_conn
unfolding dial use_server set_state send_event set_timeouts fresh_conn
dialled-request = refl

-- The server accepts the session.
abbrev established : Conn
established =
    (establish accepted
      (record dialled.conn { frames = dialled.conn.frames ++ (connect_frame dialled.conn ∷ []) })).0

run-authenticate :
    authenticate
      (answered
        (be_bytes 4 (length (wire (response_value accepted))))
        (wire (response_value accepted)))
      dialled.conn
    ≡ ok (established, none)
unfolding establish
run-authenticate =
    authenticate-establish accepted dialled.conn (rw dialled-request request-HasKind)
      (rw dialled-request request-room) response-HasKind response-small

abbrev with_session : Session DnsHostProvider
with_session = after_auth provider dialled (established, none)

authenticating_lem : dialled.phase ≡ authenticating
unfolding dial use_server
authenticating_lem = refl

session-Move : Move provider dialled with_session
session-Move = authenticates _ authenticating_lem run-authenticate

connect-Reach_example : IsLoop with_session
connect-Reach_example =
    connect-Reach {hp = provider} (λ i. 0) 32 (str "a" ∷ []) (pos 4_000_000_000) [] run-connect
      (later dialled-Reach session-Move)

dialing_lem : server_taken.phase ≡ dialing
unfolding use_server
dialing_lem = refl

session-CleanReach : CleanReach provider start with_session
session-CleanReach =
    followed
      (followed (followed at_start (takes_server refl run-take_server) tt) (dials dialing_lem none)
        tt)
      (authenticates _ authenticating_lem run-authenticate) tt

-- A request of the client in the session.
abbrev asked_conn : Conn
asked_conn =
    let (c, rq) = new_request op_create path_value path_response_type no_func with_session.conn in
    record c { send_chan = c.send_chan ++ (rq ∷ []) }

run-ask :
    queue_request op_create path_value path_response_type no_func with_session.conn
    ≡ some (asked_conn, 0)
unfolding queue_request new_request next_xid after_auth establish dial use_server set_state
    send_event set_timeouts fresh_conn
run-ask = refl

abbrev asked : Session DnsHostProvider
asked = record with_session { conn = asked_conn }

connect-answered_once_example :
    Nodup (
      unsent asked.conn.send_chan
      ++ (pending asked.conn.requests ++ Accounts.answered asked.conn.responses))
    × ((ch : ℕ)
        → Mem ch (
            unsent asked.conn.send_chan
            ++ (pending asked.conn.requests ++ Accounts.answered asked.conn.responses))
          ↔ (ch < asked.conn.next_chan))
connect-answered_once_example =
    connect-answered_once {hp = provider} (λ i. 0) 32 (str "a" ∷ []) (pos 4_000_000_000) []
      run-connect
      (followed session-CleanReach (queues op_create path_value path_response_type no_func run-ask)
        tt)

connect-Edge_example : Edge dialled.conn.state with_session.conn.state
connect-Edge_example =
    connect-Edge {hp = provider} (λ i. 0) 32 (str "a" ∷ []) (pos 4_000_000_000) [] run-connect
      dialled-Reach session-Move

-- loop has returned, and a request of the client waits.
abbrev quit_conn : Conn
quit_conn = record new_conn {
  xid = 1;
  next_chan = 1;
  send_chan = (new_request op_create path_value path_response_type no_func new_conn).1 ∷ [];
}

abbrev quit : Session DnsHostProvider
quit = record start { conn = quit_conn; phase = returned; should_quit = true }

abbrev gone : Session DnsHostProvider
gone = finish_loop quit

quit-Reach : Reach provider quit gone
quit-Reach = later here (finishes refl)

Reach-Waits_example : HasQuit gone.phase × Waits quit.conn gone.conn
Reach-Waits_example = Reach-Waits (inl refl) quit-Reach

gone_lem : gone.phase ≡ stopped
unfolding finish_loop
gone_lem = refl

-- Another request is queued.
abbrev queued_conn : Conn
queued_conn =
    let (c, rq) = new_request op_create path_value path_response_type no_func gone.conn in
    record c { send_chan = c.send_chan ++ (rq ∷ []) }

run-queue_request :
    queue_request op_create path_value path_response_type no_func gone.conn ≡ some (queued_conn, 1)
unfolding queue_request new_request next_xid finish_loop
run-queue_request = refl

queued-Reach : Reach provider gone (record gone { conn = queued_conn })
queued-Reach = later here (queues op_create path_value path_response_type no_func run-queue_request)

stopped-IsSilent_example :
    ((record gone { conn = queued_conn }).phase ≡ stopped) × IsSilent gone.conn queued_conn
stopped-IsSilent_example = stopped-IsSilent gone_lem queued-Reach
