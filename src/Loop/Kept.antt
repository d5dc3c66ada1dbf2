-- ===== src/Loop/Kept.antt =====
-- The functions of loop in zk/conn.go leave the channel of every request at one place.
use go_zookeeper.Base.{inr, inl, Bool, Bool-cases, some, Bytes, ℕ, ℤ, suc, Option, ◌≡◌, ◌∷◌, refl}
use go_zookeeper.Conn.{RecvFunc, next_xid, new_request, Conn, Request, set_state, send_event}
use go_zookeeper.Conn.Flush.{flush_requests, flush_unsent_requests}
use go_zookeeper.Conn.Stays.{Settled, Unmoved}
use go_zookeeper.Loop.{
  session_error, Sender, Receiver, Main, panic, dial, after_send, after_session, use_server, err,
  after_receive, after_auth, ◌>>=◌, ok, Value, Result, HostProvider, Session,
}
use go_zookeeper.Loop.Bounds.{Rounds}
use go_zookeeper.Constants.{no_server, closing, Error}
use mathlib.Core.List.{Perm}
use mathlib.Core.List.Perm
use mathlib.Core.Logic.{◌≢◌}
use go_zookeeper.Base.{true, false, none, some, ◌∷◌, Option, Bytes}
use go_zookeeper.Loop.{session_error}
use go_zookeeper.Constants.{session_expired}
use go_zookeeper.Channels.{AllBelow-perm, AllBelow-cons}
use go_zookeeper.Conn.Accounts.{accounts, flush_requests-perm, flush_unsent-perm}
use go_zookeeper.Wire.Value.{Kind}
use go_zookeeper.Wire.{◌>>=◌}
use go_zookeeper.Conn.Answers.{IsSound}
use go_zookeeper.Conn.Sends.{IsNew, send_data-Holds}
use go_zookeeper.Conn.Send.{WriteResult, write_failed, send_data, send_request}

-- The channels of `c`, perhaps in other places.
abbrev pub Kept : Conn → Conn → Type 0
Kept c d = Perm (accounts d) (accounts c) × (d.next_chan ≡ c.next_chan)

pub IsSound-Kept : (c d : Conn) → Kept c d → IsSound c → IsSound d
IsSound-Kept c d (p, n) s = rw n (AllBelow-perm p s)

pub IsSound-next :
    (c d : Conn)
    → Perm (accounts d) (c.next_chan ∷ accounts c)
    → d.next_chan ≡ suc c.next_chan
    → IsSound c
    → IsSound d
IsSound-next c d p n s = rw n (AllBelow-perm p (AllBelow-cons s))

pub Unmoved-Kept : (c d : Conn) → Unmoved c d → Kept c d
Unmoved-Kept c d (a, b, r, n) = (rw (a, b, r) Perm.rfl, n)

-- The xid is not pending, and the write of the frame does not fail.
abbrev pub Delivers : WriteResult → Request → Conn → Type 0
Delivers net req c = ((e : Error) → net ≢ write_failed e) × IsNew req c

request_sent :
    (req : Request) (c : Conn) (r : Result (Conn × Option Error)) (ch : ℕ)
    {q : Conn × ℕ × Option Error}
    → ((p : Conn × Option Error)
        → r ≡ ok p
        → Perm (accounts p.0) (req.recv_chan ∷ accounts c) × (p.0.next_chan ≡ suc c.next_chan))
    → (r >>= λ p. ok (p.0, ch, p.1)) ≡ ok q
    → Perm (accounts q.0) (req.recv_chan ∷ accounts c) × (q.0.next_chan ≡ suc c.next_chan)
request_sent req c (ok p) ch {q} k e =
    let same : Path (Conn × ℕ × Option Error) (p.0, ch, p.1) q = cc in rw (← same) (k p refl)
request_sent req c (err f) ch k e = cc
request_sent req c (panic f) ch k e = cc

pub send_request-IsSound :
    (net : WriteResult) (opcode : ℤ) (pkt : Value) (k : Kind) (f : RecvFunc) (c : Conn)
    {q : Conn × ℕ × Option Error}
    → Delivers net (new_request opcode pkt k f c).1 c
    → send_request net opcode pkt k f c ≡ ok q
    → IsSound c
    → IsSound q.0
unfolding send_request new_request next_xid
send_request-IsSound net opcode pkt k f c {q} (h, new) e s =
    let made = new_request opcode pkt k f c in
    let (p, n) =
      request_sent made.1 c (send_data net made.1 made.0) made.1.recv_chan
        (λ p h'. let i = send_data-Holds net made.1 made.0 h new h' in (i.moved, i.counted)) e in
    IsSound-next c q.0 p n s

module _ {H : Type 0} where
  -- The functions of loop leave every channel at one place.
  pub use_server-Kept :
      (h : H) (server : Bytes) (retry : Bool) (s : Session H)
      → Kept s.conn (use_server h server retry s).conn
  unfolding use_server set_state send_event
  use_server-Kept h server true s =
      (flush_unsent-perm no_server s.conn, unfold flush_unsent_requests in refl)
  use_server-Kept h server false s = (Perm.rfl, refl)

  pub dial-Kept : (r : Option Error) (s : Session H) → Kept s.conn (dial r s).conn
  unfolding dial set_state send_event
  dial-Kept none s = (Perm.rfl, refl)
  dial-Kept (some e) s = (Perm.rfl, refl)

  pub after_auth-Kept :
      (hp : HostProvider H) (s : Session H) (p : Conn × Option Error)
      → Settled s.conn p
      → Kept s.conn (after_auth hp s p).conn
  unfolding after_auth
  after_auth-Kept hp s (c, none) (h, u) = Unmoved-Kept s.conn c u
  after_auth-Kept hp s (c, some session_expired) (h, u) = Unmoved-Kept s.conn c u
  after_auth-Kept hp s (c, some e) (h, u) = Unmoved-Kept s.conn c u

  pub after_session-Kept : (e : Option Error) (s : Session H) → Kept s.conn (after_session e s).conn
  unfolding after_session set_state send_event
  after_session-Kept e s = elim (Bool-cases s.should_quit) [
    | inl q ↦ rw q (flush_requests-perm closing s.conn, unfold flush_requests in refl)
    | inr q ↦ rw q (flush_requests-perm (session_error e) s.conn, unfold flush_requests in refl)
  ]

  pub after_send-IsSound :
      (m : Main) (rcv : Receiver) (s : Session H) (p : Conn × Option Error)
      → IsSound p.0
      → IsSound (after_send m rcv s p).conn
  unfolding after_send
  after_send-IsSound m rcv s (c, none) k = k
  after_send-IsSound m rcv s (c, some e) k = k

  pub after_receive-Kept :
      (m : Main) (snd : Sender) (s : Session H) (p : Bytes × Conn × Option Error)
      → Rounds s.max_buffer_size s.conn p
      → Kept s.conn (after_receive m snd s p).conn
  unfolding after_receive
  after_receive-Kept m snd s (b, c, none) (l, a, d, k, n) = (k, n)
  after_receive-Kept m snd s (b, c, some e) (l, a, d, k, n) = (k, n)
