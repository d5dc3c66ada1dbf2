-- ===== src/Loop/Moves.antt =====
-- Every step of the goroutines of zk/conn.go, with the invariant and the state.
use go_zookeeper.Base.{refl}
use go_zookeeper.Conn.{set_state, send_event}
use go_zookeeper.Conn.Flush.{flush_requests, flush_unsent_requests}
use go_zookeeper.Conn.Answers.{Ensures-ok}
use go_zookeeper.Watch.{invalidate_watches}
use go_zookeeper.Conn.Stays.{
  send_request-Stays, send_next-Stays, send_ping-Stays, queue_request-Stays, authenticate-Settled,
}
use go_zookeeper.Loop.{
  HostProvider, resending, submitting, awaiting, restoring, joining, held, sending, sender_done,
  receiving, receiver_done, waiting, returned, Session, quit_connect, submit, restore, finish_loop,
}
use go_zookeeper.Loop.Bounds.{receive_packet-Rounds}
use go_zookeeper.Loop.Run.{
  remembers, Move, takes_server, waits, quits, dials, authenticates, resends, submits, hears,
  gives_up, restores, starts, sends, pings, hangs_up, receives, joins, ends, finishes, queues,
  closes, requeues, rehears,
}
use go_zookeeper.Conn.{no_func}
use go_zookeeper.Constants.{op_set_auth, op_set_watches}
use go_zookeeper.Wire.Structs.{empty_type}
use go_zookeeper.Conn.Restore.{set_watches_value}
use go_zookeeper.Loop.{set_auth_value}
use go_zookeeper.Loop.States.{InPhase, IsLoop, same_state, quits_connecting, Turns}
use go_zookeeper.Loop.Turns.{
  close_lem, take_server-Turns, dial-Turns, after_session-Turns, after_auth-Turns, Gate-resend,
  submit-Turns, after_send-Turns, Serves, Gate-IsReauthed, after_receive-Turns, queues-Turns,
  IsReauthed-Gate,
}

module _ {H : Type 0} {hp : HostProvider H} where
  pub Move-Turns : {s t : Session H} → Move hp s t → IsLoop s → Turns s t
  unfolding submit quit_connect restore finish_loop set_state send_event flush_unsent_requests
      flush_requests invalidate_watches
  Move-Turns (takes_server {s} {t} e r) i = take_server-Turns hp s _ refl r (rw e at i)
  Move-Turns (waits {s} e) i = (rw e at i, same_state)
  Move-Turns (quits {s} e q) i =
      let j : InPhase s.max_buffer_size waiting s.conn = rw e at i in (refl, rw j quits_connecting)
  Move-Turns (dials {s} e r) i = dial-Turns r s (rw e at i)
  Move-Turns (authenticates net {s} {p} e r) i =
      after_auth-Turns hp s p (rw e at i) (authenticate-Settled net s.conn r)
  Move-Turns (resends {s} {creds} {snd} {rcv} e) i =
      let j : Serves s (resending creds) snd rcv = rw e at i in
      ((j.0, Gate-resend creds s snd j.1, j.2), same_state)
  Move-Turns (submits net {s} {t} {cred} {creds} {snd} {rcv} e r) i =
      let j : Serves s (submitting cred creds) snd rcv = rw e at i in
      submit-Turns s creds snd rcv _
        (λ q h.
          send_request-Stays net op_set_auth (set_auth_value cred) empty_type no_func s.conn h)
        r j.1 j
  Move-Turns (hears {s} {ch} {creds} {snd} {rcv} e r) i =
      let j : Serves s (awaiting ch creds) snd rcv = rw e at i in (j, same_state)
  Move-Turns (gives_up {s} {ch} {creds} {snd} {rcv} e r) i =
      let j : Serves s (awaiting ch creds) snd rcv = rw e at i in ((j.0, tt, j.2), same_state)
  Move-Turns (restores {s} {snd} {rcv} e) i =
      let j : Serves s restoring snd rcv = rw e at i in ((j.0, tt, j.2), same_state)
  Move-Turns (starts {s} {m} {rcv} e r p) i =
      let j : Serves s m held rcv = rw e at i in ((j.0, IsReauthed-Gate sending r, j.2), same_state)
  Move-Turns (sends net {s} {m} {rcv} {p} e r) i =
      after_send-Turns m rcv s p (send_next-Stays net s.conn r) (rw e at i)
  Move-Turns (pings net {s} {m} {rcv} {p} e r) i =
      after_send-Turns m rcv s p (send_ping-Stays net s.conn r).0 (rw e at i)
  Move-Turns (hangs_up {s} {m} {rcv} e q) i =
      let j : Serves s m sending rcv = rw e at i in
      ((j.0, IsReauthed-Gate sender_done (Gate-IsReauthed j.1), j.2), same_state)
  Move-Turns (receives r {s} {m} {snd} {buf} {p} e f q) i =
      let j : Serves s m snd (receiving buf) = rw e at i in
      after_receive-Turns m snd buf s p
        (Ensures-ok (receive_packet-Rounds r s.max_buffer_size buf s.conn j.2.1) p q) j
  Move-Turns (joins {s} e) i =
      let j : Serves s joining sender_done receiver_done = rw e at i in (j.0, same_state)
  Move-Turns (ends {s} {e = f} e) i = after_session-Turns f s (rw e at i)
  Move-Turns (finishes {s} e) i =
      let j : InPhase s.max_buffer_size returned s.conn = rw e at i in ((j, refl, refl), same_state)
  Move-Turns (queues opcode pkt k f {s} e) i =
      let q = queue_request-Stays opcode pkt k f s.conn e in
      queues-Turns s.max_buffer_size s.phase s.conn _ (q.0, q.1) i
  Move-Turns (remembers cred {s} e) i =
      queues-Turns s.max_buffer_size s.phase s.conn _ ((refl, refl, refl), refl) i
  Move-Turns (closes {s} e) i = rw (← close_lem s e) (i, same_state)
  Move-Turns (requeues rs qs r reqs {s} e f) i =
      let q =
        queue_request-Stays op_set_watches (set_watches_value r) empty_type no_func s.conn f in
      queues-Turns s.max_buffer_size s.phase s.conn _ (q.0, q.1) i
  Move-Turns (rehears rs qs ch reqs e f) i = (i, same_state)
