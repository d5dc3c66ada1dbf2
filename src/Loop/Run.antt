-- ===== src/Loop/Run.antt =====
-- When each goroutine of a connection in zk/conn.go may take a step.
use go_zookeeper.Base.{
  is_pos, [], false, ℕ, ◌≡◌, ◌⊎◌, ℤ, Bytes, true, Option, none, some, List, ◌∷◌, ◌++◌, length,
}
use go_zookeeper.Constants.{Error, op_set_watches}
use go_zookeeper.Outcome.{done}
use go_zookeeper.Wire.{ok, be_value}
use go_zookeeper.Wire.Value.{Kind, Value}
use go_zookeeper.Wire.Structs.{empty_type}
use go_zookeeper.Conn.{Conn, AuthCreds, RecvFunc, no_func, Response, queue_request}
use go_zookeeper.Conn.Send.{WriteResult, send_next, send_ping}
use go_zookeeper.Conn.Connect.{ConnectResult, authenticate}
use go_zookeeper.Conn.Restore.{SetWatches, set_watches_value}
use go_zookeeper.Base.{Bool}
use go_zookeeper.Loop.{
  Phase, close, HostProvider, Main, resending, submitting, awaiting, restoring, joining, Sender,
  held, sending, sender_done, Receiver, receiving, receiver_done, connecting, waiting, dialing,
  authenticating, serving, ended, returned, Restorer, queueing, answering, Session, first_response,
  take_server, quit_connect, dial, after_auth, resend, submit, restore, after_send, after_receive,
  after_session, finish_loop, restored,
}
use go_zookeeper.Loop.Reading.{
  ReadResult, length_failed, body_failed, deadline_failed, packet, receive_packet,
}

-- reauthChan is closed: resendZkAuth has returned.
pub data IsReauthed : Main → Type 0 where
  while_restoring : IsReauthed restoring
  while_joining : IsReauthed joining

-- io.ReadFull fills its slice, or returns an error.
abbrev pub Fills : ReadResult → Type 0
Fills (length_failed e) = Unit
Fills (body_failed head e) = length head ≡ 4
Fills (deadline_failed head body e) = (length head ≡ 4) × (length body ≡ be_value 0 head)
Fills (packet head body) = (length head ≡ 4) × (length body ≡ be_value 0 head)

-- credsMu is free: resendZkAuth does not run.
abbrev pub creds_free : Phase → Bool
creds_free (serving restoring snd rcv) = true
creds_free (serving joining snd rcv) = true
creds_free (serving m snd rcv) = false
creds_free p = true

-- A step of one goroutine. A panic ends the program: no step follows it.
pub data Move {H : Type 0} (hp : HostProvider H) : Session H → Session H → Type 0 where
  takes_server : {s t : Session H} → s.phase ≡ connecting → take_server hp s ≡ done t → Move hp s t
  waits : {s : Session H} → s.phase ≡ waiting → Move hp s (record s { phase = dialing })
  quits : {s : Session H} → s.phase ≡ waiting → s.should_quit ≡ true → Move hp s (quit_connect s)
  dials : {s : Session H} → s.phase ≡ dialing → (r : Option Error) → Move hp s (dial r s)
  authenticates :
      (net : ConnectResult) {s : Session H} {p : Conn × Option Error}
      → s.phase ≡ authenticating
      → authenticate net s.conn ≡ ok p
      → Move hp s (after_auth hp s p)
  resends :
      {s : Session H} {creds : List AuthCreds} {snd : Sender} {rcv : Receiver}
      → s.phase ≡ serving (resending creds) snd rcv
      → Move hp s (record s { phase = serving (resend creds s) snd rcv })
  submits :
      (net : WriteResult) {s t : Session H} {cred : AuthCreds} {creds : List AuthCreds}
      {snd : Sender} {rcv : Receiver}
      → s.phase ≡ serving (submitting cred creds) snd rcv
      → submit net cred creds snd rcv s ≡ ok t
      → Move hp s t
  hears :
      {s : Session H} {ch : ℕ} {creds : List AuthCreds} {snd : Sender} {rcv : Receiver}
      {r : Response}
      → s.phase ≡ serving (awaiting ch creds) snd rcv
      → first_response ch s.conn.responses ≡ some r
      → Move hp s (record s { phase = serving (resending creds) snd rcv })
  gives_up :
      {s : Session H} {ch : ℕ} {creds : List AuthCreds} {snd : Sender} {rcv : Receiver}
      → s.phase ≡ serving (awaiting ch creds) snd rcv
      → (s.conn.close_chan_closed ≡ true) ⊎ (s.should_quit ≡ true)
      → Move hp s (record s { phase = serving restoring snd rcv })
  restores :
      {s : Session H} {snd : Sender} {rcv : Receiver}
      → s.phase ≡ serving restoring snd rcv
      → Move hp s (restore snd rcv s)
  -- time.NewTicker panics on an interval that is not above 0.
  starts :
      {s : Session H} {m : Main} {rcv : Receiver}
      → s.phase ≡ serving m held rcv
      → IsReauthed m
      → is_pos s.conn.ping_interval ≡ true
      → Move hp s (record s { phase = serving m sending rcv })
  sends :
      (net : WriteResult) {s : Session H} {m : Main} {rcv : Receiver} {p : Conn × Option Error}
      → s.phase ≡ serving m sending rcv
      → send_next net s.conn ≡ some (ok p)
      → Move hp s (after_send m rcv s p)
  pings :
      (net : WriteResult) {s : Session H} {m : Main} {rcv : Receiver} {p : Conn × Option Error}
      → s.phase ≡ serving m sending rcv
      → send_ping net s.conn ≡ ok p
      → Move hp s (after_send m rcv s p)
  hangs_up :
      {s : Session H} {m : Main} {rcv : Receiver}
      → s.phase ≡ serving m sending rcv
      → s.conn.close_chan_closed ≡ true
      → Move hp s (record s { phase = serving m sender_done rcv })
  receives :
      (r : ReadResult) {s : Session H} {m : Main} {snd : Sender} {buf : Bytes}
      {p : Bytes × Conn × Option Error}
      → s.phase ≡ serving m snd (receiving buf)
      → Fills r
      → receive_packet r s.max_buffer_size buf s.conn ≡ ok p
      → Move hp s (after_receive m snd s p)
  joins :
      {s : Session H}
      → s.phase ≡ serving joining sender_done receiver_done
      → Move hp s (record s { phase = ended none })
  ends : {s : Session H} {e : Option Error} → s.phase ≡ ended e → Move hp s (after_session e s)
  finishes : {s : Session H} → s.phase ≡ returned → Move hp s (finish_loop s)
  -- queueRequest, by a call of the client or by Close
  queues :
      (opcode : ℤ) (pkt : Value) (k : Kind) (f : RecvFunc) {s : Session H} {c : Conn} {ch : ℕ}
      → queue_request opcode pkt k f s.conn ≡ some (c, ch)
      → Move hp s (record s { conn = c })
  -- the end of AddAuth
  remembers :
      (cred : AuthCreds) {s : Session H}
      → creds_free s.phase ≡ true
      → Move hp s (record s { conn = record s.conn { creds = s.conn.creds ++ (cred ∷ []) } })
  closes : {s t : Session H} → close s ≡ done t → Move hp s t
  -- the goroutines of sendSetWatches
  requeues :
      (rs qs : List Restorer) (r : SetWatches) (reqs : List SetWatches) {s : Session H} {c : Conn}
      {ch : ℕ}
      → s.restorers ≡ rs ++ (queueing (r ∷ reqs) ∷ qs)
      → queue_request op_set_watches (set_watches_value r) empty_type no_func s.conn ≡ some (c, ch)
      → Move hp s (record s { conn = c; restorers = rs ++ (answering ch reqs ∷ qs) })
  rehears :
      (rs qs : List Restorer) (ch : ℕ) (reqs : List SetWatches) {s : Session H} {r : Response}
      → s.restorers ≡ rs ++ (answering ch reqs ∷ qs)
      → first_response ch s.conn.responses ≡ some r
      → Move hp s (record s { restorers = rs ++ (restored r reqs ∷ qs) })

pub data Reach {H : Type 0} (hp : HostProvider H) (s : Session H) : Session H → Type 0 where
  here : Reach hp s s
  later : {t u : Session H} → Reach hp s t → Move hp t u → Reach hp s u
