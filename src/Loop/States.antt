-- ===== src/Loop/States.antt =====
-- The invariant of the goroutines of zk/conn.go, and the order of the states of a connection.
use go_zookeeper.Base.{◌≡◌, ◌⊎◌, ℤ, Bool, true, false, none, some, []}
use go_zookeeper.Constants.{
  State, state_connecting, state_connected, state_disconnected, state_expired, state_has_session,
}
use go_zookeeper.Conn.{Conn}
use go_zookeeper.Conn.Stays.{Stays}
use go_zookeeper.Loop.{
  Main, restoring, joining, Sender, held, Receiver, receiving, receiver_done, Phase, connecting,
  waiting, dialing, authenticating, serving, ended, returned, stopped, Session,
}
use go_zookeeper.Loop.Bounds.{IsBounded}

-- sendLoop has not started before resendZkAuth has returned.
abbrev pub Gate : Main → Sender → Type 0
Gate restoring snd = Unit
Gate joining snd = Unit
Gate m snd = snd ≡ held

-- closeChan is closed exactly when recvLoop has ended, whose buffer is within the limit.
abbrev pub Receives : ℤ → Bool → Receiver → Type 0
Receives max closed (receiving buf) = (closed ≡ false) × IsBounded max buf
Receives max closed receiver_done = closed ≡ true

-- What holds in each phase.
abbrev pub InPhase : ℤ → Phase → Conn → Type 0
InPhase max connecting c = (c.state ≡ state_disconnected) ⊎ (c.state ≡ state_connecting)
InPhase max waiting c = c.state ≡ state_connecting
InPhase max dialing c = c.state ≡ state_connecting
InPhase max authenticating c = c.state ≡ state_connected
InPhase max (serving m snd rcv) c =
    (c.state ≡ state_has_session) × Gate m snd × Receives max c.close_chan_closed rcv
InPhase max (ended none) c = c.state ≡ state_has_session
InPhase max (ended (some e)) c = (c.state ≡ state_connected) ⊎ (c.state ≡ state_expired)
InPhase max returned c = c.state ≡ state_disconnected
InPhase max stopped c = (c.state ≡ state_disconnected) × (c.requests ≡ []) × (c.watches.table ≡ [])

abbrev pub IsLoop : {H : Type 0} → Session H → Type 0
IsLoop s = InPhase s.max_buffer_size s.phase s.conn

abbrev pub Same : Conn → Conn → Type 0
Same c d = Stays c d × (d.requests ≡ c.requests)

pub InPhase-Same : (max : ℤ) (p : Phase) (c d : Conn) → Same c d → InPhase max p c → InPhase max p d
InPhase-Same max connecting c d ((st, cl, tb), rq) h = rw st h
InPhase-Same max waiting c d ((st, cl, tb), rq) h = rw st h
InPhase-Same max dialing c d ((st, cl, tb), rq) h = rw st h
InPhase-Same max authenticating c d ((st, cl, tb), rq) h = rw st h
InPhase-Same max (serving m snd rcv) c d ((st, cl, tb), rq) h = rw (st, cl) h
InPhase-Same max (ended none) c d ((st, cl, tb), rq) h = rw st h
InPhase-Same max (ended (some e)) c d ((st, cl, tb), rq) h = rw st h
InPhase-Same max returned c d ((st, cl, tb), rq) h = rw st h
InPhase-Same max stopped c d ((st, cl, tb), rq) h = rw (st, rq, tb) h

-- The state stays, or changes along an edge of the diagram.
pub data Edge : State → State → Type 0 where
  same_state : {a : State} → Edge a a
  to_connecting : Edge state_disconnected state_connecting
  to_connected : Edge state_connecting state_connected
  to_has_session : Edge state_connected state_has_session
  to_expired : Edge state_connected state_expired
  quits_connecting : Edge state_connecting state_disconnected
  leaves_connected : Edge state_connected state_disconnected
  leaves_expired : Edge state_expired state_disconnected
  leaves_session : Edge state_has_session state_disconnected

abbrev pub Turns : {H : Type 0} → Session H → Session H → Type 0
Turns s t = IsLoop t × Edge s.conn.state t.conn.state

pub Edge-same : {a b : State} → b ≡ a → Edge a b
Edge-same e = rw e same_state
