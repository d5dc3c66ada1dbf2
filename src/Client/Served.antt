-- ===== src/Client/Served.antt =====
-- The calls of the client in zk/conn.go together with the steps of the connection that serve them: sendData
-- writes the request, the server answers it, and recvLoop handles the answer.
use go_zookeeper.Base.{
  ℕ, ◌+◌, ◌≤◌, ◌≡◌, refl, ap, ℤ, pos, int_eq, int_eq_refl, is_neg, is_pos, IsInt32, IsInt64, Bytes,
  false, ◌==◌, Option, none, some, List, [], ◌∷◌, ◌++◌, arith, length, drop, if◌then◌else◌,
  Bool-cases, inl, inr,
}
use go_zookeeper.Constants.{Error, connection_closed, to_error}
use go_zookeeper.Wire.{Result, ok, err, panic}
use go_zookeeper.Wire.Value.{Kind, Value}
use go_zookeeper.Wire.Spec.{HasKind, wire}
use go_zookeeper.Conn.{
  Conn, Request, Response, failure, lookup_request, insert_request, delete_request, respond,
}
use go_zookeeper.Conn.Send.{written, send_data}
use go_zookeeper.Conn.Frames.{frame, send_data-frame}
use go_zookeeper.Conn.Receive.{ResponseHeader, recv_packet, complete, run_recv_func, after_response}
use go_zookeeper.Conn.Replies.{header_value, InRange, recv_packet-response, recv_packet-failed}
use go_zookeeper.Client.{World}

-- The response that was sent last on a channel.
abbrev pub last_on : ℕ → Response → List (ℕ × Response) → Response
last_on ch d [] = d
last_on ch d ((k, r) ∷ rs) = last_on ch (if k == ch then r else d) rs

last_on-append :
    (ch : ℕ) (d r : Response) (rs : List (ℕ × Response)) → last_on ch d (rs ++ ((ch, r) ∷ [])) ≡ r
last_on-append ch d r [] = ground arith
last_on-append ch d r ((k, q) ∷ rs) = last_on-append ch (if k == ch then q else d) r rs

abbrev pub header_for : ℤ → ℤ → Request → ResponseHeader
header_for zxid code rq = record { xid = rq.xid; zxid = zxid; err_code = code }

-- The answer of the server is handled, and the caller reads the response.
unfoldable pub receive : Request → Conn → Result (Conn × Option Error) → Conn × Response
receive rq c (ok (c', e)) = (c', last_on rq.recv_chan (failure connection_closed) c'.responses)
receive rq c (err e) = (c, failure connection_closed)
receive rq c (panic p) = (c, failure connection_closed)

-- The request is written, and the packet with `code` and `body` comes back; `rest` is what the buffer holds behind it.
unfoldable pub serve : ℤ → ℤ → Bytes → Bytes → Request → Conn → Conn × Response
unfolding receive
serve zxid code body rest rq c = elim (send_data written rq c) [
  | ok (c', e) ↦ receive rq c' (
      recv_packet
        (record {
          len = 16 + length body;
          mem = wire (header_value (header_for zxid code rq)) ++ (body ++ rest);
        })
        c')
  | err e ↦ (c, failure connection_closed)
  | panic p ↦ (c, failure connection_closed)
]

unfoldable pub served : ℤ → ℤ → Bytes → Bytes → World → World
unfolding serve
served zxid code body rest w = record w { exchange = serve zxid code body rest }

lookup-insert :
    (x : ℤ) (r : Request) (rs : List (ℤ × Request))
    → lookup_request x (insert_request x r rs) ≡ some r
unfolding lookup_request insert_request
lookup-insert x r [] = rw (int_eq_refl x)
lookup-insert x r ((y, q) ∷ rs) = elim (Bool-cases (int_eq y x)) [
  | inl e ↦ rw (e, int_eq_refl x)
  | inr e ↦ rw (e) (rw (e) (lookup-insert x r rs))
]

delete-insert :
    (x : ℤ) (r : Request) (rs : List (ℤ × Request))
    → lookup_request x rs ≡ none
    → delete_request x (insert_request x r rs) ≡ rs
unfolding lookup_request insert_request delete_request
delete-insert x r [] h = rw (int_eq_refl x)
delete-insert x r ((y, q) ∷ rs) h = elim (Bool-cases (int_eq y x)) [
  | inl e ↦ let h' = rw e at h in cc
  | inr e ↦ rw (e) (rw (e) (ap (λ t. (y, q) ∷ t) (delete-insert x r rs (rw e at h))))
]

-- The connection once the request was written and its answer was handled, without what recvFunc does.
abbrev pub after_sending : Request → Conn → Conn
after_sending rq c = record c {
  buf = frame rq.xid rq.opcode rq.pkt ++ drop (12 + length (wire rq.pkt)) c.buf;
  requests = insert_request rq.xid rq c.requests;
  frames = c.frames ++ (frame rq.xid rq.opcode rq.pkt ∷ []);
}

abbrev pub after_answer : ℤ → Request → Conn → Conn
after_answer zxid rq c = record c {
  buf = frame rq.xid rq.opcode rq.pkt ++ drop (12 + length (wire rq.pkt)) c.buf;
  frames = c.frames ++ (frame rq.xid rq.opcode rq.pkt ∷ []);
  last_zxid = if is_pos zxid then zxid else c.last_zxid;
}

-- What the request needs in order to be served.
pub record IsServable (rq : Request) (c : Conn) : Type 0 where
  pub s : Kind
  pub pkt_kind : HasKind s rq.pkt
  pub room : 12 + length (wire rq.pkt) ≤ length c.buf
  pub is_open : c.close_chan_closed ≡ false
  pub is_new : lookup_request rq.xid c.requests ≡ none
  pub xid_range : IsInt32 rq.xid
  pub xid_sign : is_neg rq.xid ≡ false
  pub opcode_range : IsInt32 rq.opcode

abbrev pub answered_with : ℤ → Request → Option Error × Option Value → Conn → Conn × Response
answered_with zxid rq (e, body) c =
    let (w, ch) = run_recv_func rq.recv_func e c.watches in
    let r : Response = record { zxid = zxid; err = e; body = body; watcher = ch } in
    (respond rq.recv_chan r (record (after_answer zxid rq c) { watches = w }), r)

serve_lem :
    (zxid code : ℤ) (body rest : Bytes) (rq : Request) (c : Conn) (e : Option Error)
    (b : Option Value) (x : Option Error)
    → IsServable rq c
    → recv_packet
        (record {
          len = 16 + length body;
          mem = wire (header_value (header_for zxid code rq)) ++ (body ++ rest);
        })
        (after_sending rq c)
      ≡ ok (
        complete
            (header_for zxid code rq)
            rq
            (e, b)
            (record (after_sending rq c) {
              last_zxid = if is_pos zxid then zxid else c.last_zxid;
              requests = delete_request rq.xid (insert_request rq.xid rq c.requests);
            }),
        x,
      )
    → serve zxid code body rest rq c ≡ answered_with zxid rq (e, b) c
unfolding serve receive complete respond
serve_lem zxid code body rest rq c e b x h handled =
    rw
      (
        serve,
        send_data-frame rq c h.xid_range h.opcode_range h.pkt_kind h.room h.is_open,
        handled,
        delete-insert rq.xid rq c.requests h.is_new,
      )
      (rw (
        last_on-append rq.recv_chan (failure connection_closed) (answered_with zxid rq (e, b) c).1
          c.responses))

header-InRange :
    (zxid code : ℤ) (rq : Request)
    → IsInt64 zxid
    → IsInt32 code
    → IsInt32 rq.xid
    → InRange (header_for zxid code rq)
header-InRange zxid code rq hz hc hx = record { xid_range = hx; zxid_range = hz; err_range = hc }

-- An answer without an error, with the value `v`
pub serve-response :
    (zxid : ℤ) (v : Value) (rest : Bytes) (rq : Request) (c : Conn)
    → IsServable rq c
    → IsInt64 zxid
    → HasKind rq.recv_struct v
    → serve zxid (pos 0) (wire v) rest rq c ≡ answered_with zxid rq (none, some v) c
serve-response zxid v rest rq c h hz k =
    serve_lem zxid (pos 0) (wire v) rest rq c none (some v) (after_response rq) h (
      recv_packet-response (header_for zxid (pos 0) rq) v rest rq (after_sending rq c)
        (header-InRange zxid (pos 0) rq hz (omega arith) h.xid_range) h.xid_sign refl k
        (lookup-insert rq.xid rq c.requests))

-- An answer with the error of a code
pub serve-failed :
    (zxid code : ℤ) (body rest : Bytes) (rq : Request) (c : Conn)
    → IsServable rq c
    → IsInt64 zxid
    → IsInt32 code
    → int_eq code (pos 0) ≡ false
    → serve zxid code body rest rq c ≡ answered_with zxid rq (to_error code, none) c
serve-failed zxid code body rest rq c h hz hc bad =
    serve_lem zxid code body rest rq c (to_error code) none (after_response rq) h (
      recv_packet-failed (header_for zxid code rq) (body ++ rest) (16 + length body) rq
        (after_sending rq c) (header-InRange zxid code rq hz hc h.xid_range) h.xid_sign bad
        (lookup-insert rq.xid rq c.requests))
