-- ===== src/Conn/Answers.antt =====
-- Every request of zk/conn.go is answered once, but for a write that fails.
use mathlib.Core.List.{Nodup, Mem}
use mathlib.Core.Logic.{◌≢◌}
use go_zookeeper.Base.{
  ℕ, ◌≡◌, ◌<◌, ◌↔◌, refl, ap, ℤ, false, Option, some, List, [], ◌∷◌, ◌++◌, append_assoc, subst,
}
use go_zookeeper.Channels.{AllBelow, AllBelow-nil, AllBelow-perm, AllBelow-cons}
use go_zookeeper.Constants.{Error}
use go_zookeeper.Wire.{Result, ok, ◌>>=◌, Slice}
use go_zookeeper.Wire.Value.{Kind, Value}
use go_zookeeper.Wire.Encode.{Write}
use go_zookeeper.Wire.Fuel.{Ensures, holds, rejected, faulted}
use go_zookeeper.Conn.{Conn, failure, Request, RecvFunc, respond, insert_request, queue_request}
use go_zookeeper.Conn.Flush.{fail_pending, flush_requests, flush_unsent_requests}
use go_zookeeper.Conn.Send.{
  WriteResult, write_failed, write_frame, send_frame, send_encoded, send_data, encode_frame,
}
use go_zookeeper.Conn.Receive.{recv_packet}
use go_zookeeper.Conn.Accounts.{
  unsent, pending, answered, accounts, flush_requests-perm, flush_unsent-perm, queue_request-perm,
}
use go_zookeeper.Conn.Moves.{recv_packet-Keeps}
use go_zookeeper.Conn.Sends.{IsNew, send_data-Holds}

-- Each step of the goroutines with the channels of requests. Requests are queued and sent, the packets of
-- the server are handled, and both lists of requests are flushed.
pub data Step : Conn → Conn → Type 0 where
  queues :
      (opcode : ℤ) (pkt : Value) (k : Kind) (f : RecvFunc) {c c' : Conn} {ch : ℕ}
      → queue_request opcode pkt k f c ≡ some (c', ch)
      → Step c c'
  sends :
      (net : WriteResult) (req : Request) (rest : List Request) {c : Conn} {p : Conn × Option Error}
      → c.send_chan ≡ req ∷ rest
      → IsNew req c
      → ((e : Error) → net ≢ write_failed e)
      → send_data net req (record c { send_chan = rest }) ≡ ok p
      → Step c p.0
  receives :
      (packet : Slice) {c : Conn} {p : Conn × Option Error}
      → recv_packet packet c ≡ ok p
      → Step c p.0
  flushes : (e : Error) (c : Conn) → Step c (flush_requests e c)
  flushes_unsent : (e : Error) (c : Conn) → Step c (flush_unsent_requests e c)

pub data Reach (s : Conn) : Conn → Type 0 where
  here : Reach s s
  later : {t u : Conn} → Reach s t → Step t u → Reach s u

-- Every channel that was handed out stands at one place.
abbrev pub IsSound : Conn → Type 0
IsSound c = AllBelow (accounts c) c.next_chan

pub Ensures-ok {ℓ κ} :
    {A : Type ℓ} {P : A → Type κ} {r : Result A} → Ensures P r → (a : A) → r ≡ ok a → P a
Ensures-ok {P = P} (holds {a = b} h) a e = let same : b ≡ a = cc in subst P same h
Ensures-ok rejected a e = cc
Ensures-ok (faulted n) a e = cc

pub Step-IsSound : {c d : Conn} → Step c d → IsSound c → IsSound d
Step-IsSound (queues opcode pkt k f {c} {c'} e) s =
    let (p, n) = queue_request-perm opcode pkt k f c e in rw n (AllBelow-perm p (AllBelow-cons s))
Step-IsSound (sends net req rest {c} {p} taken new h e) s =
    let k = send_data-Holds net req (record c { send_chan = rest }) h new e in
    let before : accounts c
        ≡ req.recv_chan ∷ (unsent rest ++ (pending c.requests ++ answered c.responses)) =
      ap (λ us. unsent us ++ (pending c.requests ++ answered c.responses)) taken in
    rw k.counted (AllBelow-perm (rw before k.moved) s)
Step-IsSound (receives packet {c} {p} e) s =
    let k = Ensures-ok (recv_packet-Keeps packet c) p e in rw k.counted (AllBelow-perm k.moved s)
Step-IsSound (flushes e c) s =
    let n : (flush_requests e c).next_chan ≡ c.next_chan = unfold flush_requests in refl in
    rw n (AllBelow-perm (flush_requests-perm e c) s)
Step-IsSound (flushes_unsent e c) s =
    let n : (flush_unsent_requests e c).next_chan ≡ c.next_chan =
      unfold flush_unsent_requests in refl in
    rw n (AllBelow-perm (flush_unsent-perm e c) s)

Reach-IsSound : {c d : Conn} → IsSound c → Reach c d → IsSound d
Reach-IsSound s here = s
Reach-IsSound s (later r t) = Step-IsSound t (Reach-IsSound s r)

-- From a connection that has not made a request, after any sequence in which requests are queued and
-- sent, packets are handled and both lists are flushed, every channel that was handed out stands at
-- exactly one place: its request waits to be sent, is pending, or was answered, once. The sends are
-- those in which the xid is not pending already and the write of the frame does not fail.
pub Reach-answered_once :
    {c d : Conn}
    → accounts c ≡ []
    → c.next_chan ≡ 0
    → Reach c d
    → Nodup (unsent d.send_chan ++ (pending d.requests ++ answered d.responses))
      × ((ch : ℕ)
          → Mem ch (unsent d.send_chan ++ (pending d.requests ++ answered d.responses))
            ↔ (ch < d.next_chan))
Reach-answered_once e n r =
    let f = Reach-IsSound (rw (e, n) AllBelow-nil) r in
    (f.distinct, λ a. (f.below a, f.all_stand a))

-- Where the write of a frame fails, sendData answers the request but leaves it pending, so that
-- flushRequests answers it a second time, on a channel with room for one response.
pub write_failed_answers_twice :
    (req : Request) (c : Conn) (w : Write) (e f : Error)
    → c.requests ≡ []
    → c.close_chan_closed ≡ false
    → encode_frame c.buf req.xid req.opcode req.pkt ≡ ok w
    → (send_data (write_failed e) req c >>= λ p. ok (flush_requests f p.0).responses)
      ≡ ok (c.responses ++ ((req.recv_chan, failure e) ∷ (req.recv_chan, failure f) ∷ []))
unfolding send_data send_encoded send_frame write_frame respond insert_request flush_requests
    fail_pending
write_failed_answers_twice req c w e f none_pending opened encoded =
    rw (encoded, opened, none_pending)
      (rw (
        append_assoc c.responses ((req.recv_chan, failure e) ∷ [])
          ((req.recv_chan, failure f) ∷ [])))
