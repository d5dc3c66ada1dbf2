-- ===== src/Loop/Turns.antt =====
-- The steps of the goroutines of zk/conn.go, each with the invariant and the state.
use go_zookeeper.Base.{
  ℤ, ℕ, ◌≡◌, ◌⊎◌, inl, inr, refl, ◌∙◌, Bytes, Bool, true, false, Option, none, some, List, [], ◌∷◌,
  ◌||◌, Bool-cases,
}
use go_zookeeper.Constants.{
  Error, State, state_connected, state_disconnected, state_expired, session_expired,
}
use go_zookeeper.Conn.{Conn, AuthCreds, set_state, send_event}
use go_zookeeper.Conn.Flush.{flush_requests, flush_unsent_requests}
use go_zookeeper.Outcome.{Outcome, done, failed, crashed}
use go_zookeeper.Wire.{Result, ok, err, panic, ◌>>=◌}
use go_zookeeper.Conn.Stays.{Stays, Settled}
use go_zookeeper.Loop.{
  close, Phase, HostProvider, Main, resending, submitting, awaiting, restoring, joining, Sender,
  held, sending, sender_done, Receiver, receiving, connecting, dialing, authenticating, serving,
  ended, Session, take_server, use_server, dial, after_auth, resend, submitted, after_send,
  after_receive, after_session,
}
use go_zookeeper.Loop.Bounds.{Rounds, recv_buffer-IsBounded}
use go_zookeeper.Loop.Run.{IsReauthed, while_restoring, while_joining}
use go_zookeeper.Loop.States.{
  Gate, InPhase, InPhase-Same, Same, Edge, same_state, to_connecting, to_connected, to_has_session,
  to_expired, leaves_connected, leaves_expired, leaves_session, Turns, Edge-same,
}

failed_auth :
    {a b : State}
    → a ≡ state_connected
    → (b ≡ a) ⊎ (b ≡ state_expired)
    → ((b ≡ state_connected) ⊎ (b ≡ state_expired)) × Edge a b
failed_auth i (inl h) = (inl (h ∙ i), Edge-same h)
failed_auth i (inr h) = (inr h, rw (i, h) to_expired)

module _ {H : Type 0} where
  use_server-Turns :
      (h : H) (server : Bytes) (retry : Bool) (s : Session H)
      → InPhase s.max_buffer_size connecting s.conn
      → Turns s (use_server h server retry s)
  unfolding use_server set_state send_event flush_unsent_requests
  use_server-Turns h server true s (inl e) = (refl, rw e to_connecting)
  use_server-Turns h server true s (inr e) = (refl, rw e same_state)
  use_server-Turns h server false s (inl e) = (refl, rw e to_connecting)
  use_server-Turns h server false s (inr e) = (refl, rw e same_state)

  pub take_server-Turns :
      (hp : HostProvider H) (s : Session H) (r : Outcome (H × Bytes × Bool)) {t : Session H}
      → hp.next s.hosts ≡ r
      → take_server hp s ≡ done t
      → InPhase s.max_buffer_size connecting s.conn
      → Turns s t
  unfolding take_server
  take_server-Turns hp s (done (h, server, retry)) {t} n e i =
      let e' : Path (Outcome (Session H)) (done (use_server h server retry s)) (done t) =
        rw (n, take_server) at e in
      let same : use_server h server retry s ≡ t = cc in
      rw (← same) (use_server-Turns h server retry s i)
  take_server-Turns hp s (failed f) {t} n e i =
      let e' : Path (Outcome (Session H)) (failed f) (done t) = rw (n, take_server) at e in cc
  take_server-Turns hp s crashed {t} n e i =
      let e' : Path (Outcome (Session H)) crashed (done t) = rw (n, take_server) at e in cc

  pub dial-Turns :
      (r : Option Error) (s : Session H)
      → InPhase s.max_buffer_size dialing s.conn
      → Turns s (dial r s)
  unfolding dial set_state send_event
  dial-Turns none s i = (refl, rw i to_connected)
  dial-Turns (some e) s i = (inr i, same_state)

  ended-Edge :
      (e : Option Error) (s : Session H)
      → InPhase s.max_buffer_size (ended e) s.conn
      → Edge s.conn.state state_disconnected
  ended-Edge none s i = rw i leaves_session
  ended-Edge (some e) s (inl i) = rw i leaves_connected
  ended-Edge (some e) s (inr i) = rw i leaves_expired

  pub after_session-Turns :
      (e : Option Error) (s : Session H)
      → InPhase s.max_buffer_size (ended e) s.conn
      → Turns s (after_session e s)
  unfolding after_session set_state send_event flush_requests
  after_session-Turns e s i = elim (Bool-cases s.should_quit) [
    | inl q ↦ rw q (refl, ended-Edge e s i)
    | inr q ↦ rw q (inl refl, ended-Edge e s i)
  ]

  -- `authenticate` returns an error: in the state before it, or in the expired one.
  pub after_auth-Turns :
      (hp : HostProvider H) (s : Session H) (p : Conn × Option Error)
      → InPhase s.max_buffer_size authenticating s.conn
      → Settled s.conn p
      → Turns s (after_auth hp s p)
  unfolding after_auth
  after_auth-Turns hp s (c, none) i (h, u) =
      ((h, refl, (refl, recv_buffer-IsBounded s.max_buffer_size)), rw (h, i) to_has_session)
  after_auth-Turns hp s (c, some session_expired) i (h, u) = failed_auth i h
  after_auth-Turns hp s (c, some e) i (h, u) = failed_auth i h

pub Gate-held : (m : Main) → Gate m held
Gate-held (resending creds) = refl
Gate-held (submitting cred creds) = refl
Gate-held (awaiting ch creds) = refl
Gate-held restoring = tt
Gate-held joining = tt

pub Gate-IsReauthed : {m : Main} → Gate m sending → IsReauthed m
Gate-IsReauthed {m = resending creds} h = cc
Gate-IsReauthed {m = submitting cred creds} h = cc
Gate-IsReauthed {m = awaiting ch creds} h = cc
Gate-IsReauthed {m = restoring} h = while_restoring
Gate-IsReauthed {m = joining} h = while_joining

pub IsReauthed-Gate : {m : Main} (snd : Sender) → IsReauthed m → Gate m snd
IsReauthed-Gate snd while_restoring = tt
IsReauthed-Gate snd while_joining = tt

pub Gate-resend :
    {H : Type 0} (creds : List AuthCreds) (s : Session H) (snd : Sender)
    → snd ≡ held
    → Gate (resend creds s) snd
unfolding resend
Gate-resend [] s snd h = tt
Gate-resend (cred ∷ creds) s snd h = elim (Bool-cases (s.should_quit || s.conn.close_chan_closed)) [
  | inl e ↦ rw e tt
  | inr e ↦ rw e h
]

Gate-submitted :
    (creds : List AuthCreds) (ch : ℕ) (e : Option Error) (snd : Sender)
    → snd ≡ held
    → Gate (submitted creds ch e) snd
unfolding submitted
Gate-submitted creds ch none snd h = h
Gate-submitted creds ch (some e) snd h = h

-- What holds in a session.
abbrev pub Serves : {H : Type 0} → Session H → Main → Sender → Receiver → Type 0
Serves s m snd rcv = InPhase s.max_buffer_size (serving m snd rcv) s.conn

module _ {H : Type 0} where
  pub submit-Turns :
      (s : Session H) (creds : List AuthCreds) (snd : Sender) (rcv : Receiver)
      (r : Result (Conn × ℕ × Option Error)) {t : Session H}
      → ((q : Conn × ℕ × Option Error) → r ≡ ok q → Stays s.conn q.0)
      → (r >>= λ r. ok (record s { conn = r.0; phase = serving (submitted creds r.1 r.2) snd rcv }))
        ≡ ok t
      → snd ≡ held
      → Serves s (resending creds) snd rcv
      → Turns s t
  submit-Turns s creds snd rcv (ok q) {t} k e h (st, g, rc) =
      let same : Path (Session H)
          (record s { conn = q.0; phase = serving (submitted creds q.1 q.2) snd rcv }) t =
        cc in
      let (a, b, c) = k q refl in
      rw (← same) ((a ∙ st, Gate-submitted creds q.1 q.2 snd h, rw b rc), Edge-same a)
  submit-Turns s creds snd rcv (err f) k e h i = cc
  submit-Turns s creds snd rcv (panic f) k e h i = cc

  pub after_send-Turns :
      (m : Main) (rcv : Receiver) (s : Session H) (p : Conn × Option Error)
      → Stays s.conn p.0
      → Serves s m sending rcv
      → Turns s (after_send m rcv s p)
  unfolding after_send
  after_send-Turns m rcv s (c, none) (a, b, d) (st, g, rc) = ((a ∙ st, g, rw b rc), Edge-same a)
  after_send-Turns m rcv s (c, some e) (a, b, d) (st, g, rc) =
      ((a ∙ st, IsReauthed-Gate sender_done (Gate-IsReauthed g), rw b rc), Edge-same a)

  pub after_receive-Turns :
      (m : Main) (snd : Sender) (buf : Bytes) (s : Session H) (p : Bytes × Conn × Option Error)
      → Rounds s.max_buffer_size s.conn p
      → Serves s m snd (receiving buf)
      → Turns s (after_receive m snd s p)
  unfolding after_receive
  after_receive-Turns m snd buf s (b, c, none) (l, a, d, k, n) (st, g, rc) =
      ((a ∙ st, g, (d ∙ rc.0, l)), Edge-same a)
  after_receive-Turns m snd buf s (b, c, some e) (l, a, d, k, n) (st, g, rc) =
      ((a ∙ st, g, refl), Edge-same a)

pub queues-Turns :
    (max : ℤ) (p : Phase) (c d : Conn)
    → Same c d
    → InPhase max p c
    → InPhase max p d × Edge c.state d.state
queues-Turns max p c d k i = (InPhase-Same max p c d k i, Edge-same k.0.0)

pub close_lem :
    {H : Type 0} (s : Session H) {t : Session H}
    → close s ≡ done t
    → record s { should_quit = true } ≡ t
unfolding close
close_lem s {t} e = elim (Bool-cases s.should_quit) [
  | inl q ↦ let e' : Path (Outcome (Session _)) crashed (done t) = rw q at e in cc
  | inr q ↦
      let e' : Path (Outcome (Session _)) (done (record s { should_quit = true })) (done t) =
        rw q at e in
      cc
]
