-- ===== src/Loop.antt =====
-- The life of a connection in zk/conn.go: Connect, connect, resendZkAuth, loop with the goroutines that it
-- starts for a session, the goroutine of sendSetWatches, and Close.
--
-- `Phase` says where the goroutine of loop stands, and in a session where the three parts of it stand. A
-- function is what one goroutine does between two waits or two reads of what the others write; Loop/Run
-- says when each may run. The host provider is a parameter, and so is what the network returns; what was
-- written and the close of a net.Conn are part of the network.
pub mod Reading
pub mod Run
pub mod Connect
pub mod Bounds
pub mod States
pub mod Turns
pub mod Moves
pub mod Starts
pub mod Order
pub mod Stopped
pub mod Kept
pub mod Answers
pub mod Limits
pub mod Small
use go_zookeeper.Base.{
  ℕ, ◌==◌, ℤ, pos, Bytes, Bool, true, false, ◌||◌, Option, none, some, List, [], ◌∷◌, ◌++◌,
  if◌then◌else◌,
}
use go_zookeeper.Constants.{
  Error, session_expired, connection_closed, closing, no_server, op_set_auth, state_connecting,
  state_connected, state_disconnected,
}
use go_zookeeper.Outcome.{Outcome, done, failed, crashed}
use go_zookeeper.Wire.{Result, ok, err, panic, ◌>>=◌}
use go_zookeeper.Wire.Value.{Value, int32, string, bytes, struct, nil, cons}
use go_zookeeper.Wire.Structs.{empty_type}
use go_zookeeper.Watch.{invalidate_watches}
use go_zookeeper.Conn.{Conn, AuthCreds, Response, no_func, set_state}
use go_zookeeper.Conn.Send.{WriteResult, send_request}
use go_zookeeper.Conn.Flush.{flush_requests, flush_unsent_requests}
use go_zookeeper.Conn.Restore.{SetWatches, set_watches, set_watches_limit}
use go_zookeeper.Loop.Reading.{recv_buffer}

-- What Connect and loop use of the HostProvider. `next` returns the server and retryStart too.
pub record HostProvider (H : Type 0) : Type 0 where
  pub init : List Bytes → Outcome H
  pub next : H → Outcome (H × Bytes × Bool)
  pub connected : H → H

-- loop in a session: in resendZkAuth before the check of shouldCancel, before a sendRequest, and in the wait
-- for its response; then before sendSetWatches, and in wg.Wait.
pub data Main : Type 0 where
  resending : List AuthCreds → Main
  submitting : AuthCreds → List AuthCreds → Main
  awaiting : ℕ → List AuthCreds → Main
  restoring joining : Main

-- The goroutine of sendLoop, which waits for reauthChan first.
pub data Sender : Type 0 where
  held sending sender_done : Sender

-- The goroutine of recvLoop, with its buffer.
pub data Receiver : Type 0 where
  receiving : Bytes → Receiver
  receiver_done : Receiver

-- In connect before hostProvider.Next, in the wait of a second, and before the dialer; before authenticate;
-- in a session; after it with `err`; after the return of loop; at the end of its goroutine.
pub data Phase : Type 0 where
  connecting waiting dialing authenticating : Phase
  serving : Main → Sender → Receiver → Phase
  ended : Option Error → Phase
  returned stopped : Phase

-- The goroutine of sendSetWatches: before the next of its requests, and in the wait for a response.
pub data Restorer : Type 0 where
  queueing : List SetWatches → Restorer
  answering : ℕ → List SetWatches → Restorer

pub record Session (H : Type 0) : Type 0 where
  pub hosts : H
  pub conn : Conn
  pub phase : Phase
  pub should_quit : Bool
  pub max_buffer_size : ℤ
  pub restorers : List Restorer

-- The response that stands in a channel.
unfoldable pub first_response : ℕ → List (ℕ × Response) → Option Response
first_response ch [] = none
first_response ch ((k, r) ∷ rs) = if k == ch then some r else first_response ch rs

abbrev pub set_auth_value : AuthCreds → Value
set_auth_value cred =
    struct (cons (int32 (pos 0)) (cons (string cred.scheme) (cons (bytes cred.auth) nil)))

-- After sendRequest: an error goes on with the next credentials.
unfoldable pub submitted : List AuthCreds → ℕ → Option Error → Main
submitted creds ch (some e) = resending creds
submitted creds ch none = awaiting ch creds

-- The go statement of sendSetWatches, where there is a request.
unfoldable pub start_restorer : List SetWatches → List Restorer → List Restorer
start_restorer [] rs = rs
start_restorer (r ∷ reqs) rs = rs ++ (queueing (r ∷ reqs) ∷ [])

-- if err != ErrSessionExpired { err = ErrConnectionClosed }
unfoldable pub session_error : Option Error → Error
session_error (some session_expired) = session_expired
session_error e = connection_closed

-- The goroutine of sendSetWatches after a response.
unfoldable pub restored : Response → List SetWatches → Restorer
restored r reqs = elim r.err [ none ↦ queueing reqs | some e ↦ queueing [] ]

module _ {H : Type 0} where
  -- connect once the host provider has returned; the wait of a second is skipped unless retryStart is set.
  unfoldable pub use_server : H → Bytes → Bool → Session H → Session H
  unfolding flush_unsent_requests set_state
  use_server h server true s = record s {
    hosts = h;
    conn =
        flush_unsent_requests no_server
          (set_state state_connecting (record s.conn { server = server }));
    phase = waiting;
  }
  use_server h server false s = record s {
    hosts = h;
    conn = set_state state_connecting (record s.conn { server = server });
    phase = dialing;
  }

  unfoldable pub take_server : HostProvider H → Session H → Outcome (Session H)
  unfolding use_server
  take_server hp s = elim (hp.next s.hosts) [
    | done (h, server, retry_start) ↦ done (use_server h server retry_start s)
    | failed e ↦ failed e
    | crashed ↦ crashed
  ]

  -- The case of shouldQuit in the wait of connect.
  unfoldable pub quit_connect : Session H → Session H
  unfolding flush_unsent_requests set_state
  quit_connect s = record s {
    conn = flush_unsent_requests closing (set_state state_disconnected s.conn);
    phase = returned;
  }

  -- What the dialer returned.
  unfoldable pub dial : Option Error → Session H → Session H
  unfolding set_state
  dial (some e) s = record s { phase = connecting }
  dial none s = record s { conn = set_state state_connected s.conn; phase = authenticating }

  -- The switch on what authenticate returned. closeChan is a new channel, and the goroutines of the session
  -- start.
  unfoldable pub after_auth : HostProvider H → Session H → Conn × Option Error → Session H
  unfolding invalidate_watches recv_buffer
  after_auth hp s (c, some session_expired) = record s {
    conn = record c { watches = invalidate_watches (some session_expired) c.watches };
    phase = ended (some session_expired);
  }
  after_auth hp s (c, some e) = record s { conn = c; phase = ended (some e) }
  after_auth hp s (c, none) = record s {
    hosts = hp.connected s.hosts;
    conn = record c { close_chan_closed = false };
    phase = serving (resending c.creds) held (receiving (recv_buffer s.max_buffer_size));
  }

  -- The head of the loop of resendZkAuth: its end, shouldCancel, or the next credentials.
  unfoldable pub resend : List AuthCreds → Session H → Main
  resend [] s = restoring
  resend (cred ∷ creds) s =
      if s.should_quit || s.conn.close_chan_closed then restoring else submitting cred creds

  unfoldable pub submit :
      WriteResult → AuthCreds → List AuthCreds → Sender → Receiver → Session H → Result (Session H)
  unfolding send_request submitted
  submit net cred creds snd rcv s =
      send_request net op_set_auth (set_auth_value cred) empty_type no_func s.conn >>= λ r.
      ok (record s { conn = r.0; phase = serving (submitted creds r.1 r.2) snd rcv })

  unfoldable pub restore : Sender → Receiver → Session H → Session H
  unfolding set_watches start_restorer
  restore snd rcv s = record s {
    phase = serving joining snd rcv;
    restorers =
        start_restorer (set_watches set_watches_limit s.conn.last_zxid s.conn.watches.table)
          s.restorers;
  }

  -- The goroutine of sendLoop after a case of its select.
  unfoldable pub after_send : Main → Receiver → Session H → Conn × Option Error → Session H
  after_send m rcv s (c, none) = record s { conn = c; phase = serving m sending rcv }
  after_send m rcv s (c, some e) = record s { conn = c; phase = serving m sender_done rcv }

  -- The goroutine of recvLoop after a packet; its end closes closeChan.
  unfoldable pub after_receive : Main → Sender → Session H → Bytes × Conn × Option Error → Session H
  after_receive m snd s (buf, c, none) = record s {
    conn = c;
    phase = serving m snd (receiving buf);
  }
  after_receive m snd s (buf, c, some e) = record s {
    conn = record c { close_chan_closed = true };
    phase = serving m snd receiver_done;
  }

  -- loop after the switch, up to its return or its next round.
  unfoldable pub after_session : Option Error → Session H → Session H
  unfolding flush_requests set_state session_error
  after_session e s =
      let c = set_state state_disconnected s.conn in
      if s.should_quit
      then record s { conn = flush_requests closing c; phase = returned }
      else record s { conn = flush_requests (session_error e) c; phase = connecting }

  -- close(c.shouldQuit), which is a panic if it is closed. Close then queues a request, and waits for its
  -- response or for a second.
  unfoldable pub close : Session H → Outcome (Session H)
  close s = if s.should_quit then crashed else done (record s { should_quit = true })

  -- The goroutine of Connect after the return of loop.
  unfoldable pub finish_loop : Session H → Session H
  unfolding flush_requests invalidate_watches
  finish_loop s =
      let c = flush_requests closing s.conn in
      record s {
        conn = record c { watches = invalidate_watches (some closing) c.watches };
        phase = stopped;
      }
