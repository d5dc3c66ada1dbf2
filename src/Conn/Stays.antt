-- ===== src/Conn/Stays.antt =====
-- What the sends and the queue of zk/conn.go leave as it is, and the state that authenticate sets.
use go_zookeeper.Base.{
  ℕ, ◌≡◌, ◌⊎◌, inl, inr, refl, ℤ, pos, negsuc, int_eq, Bytes, Bool, true, false, Option, none, some,
  List, [], ◌∷◌, ◌++◌, if◌then◌else◌, ltb, length, take, Bool-cases,
}
use go_zookeeper.Constants.{Error, op_ping, state_expired, state_has_session}
use go_zookeeper.Wire.{Result, ok, err, panic, unexpected_error, ◌>>=◌}
use go_zookeeper.Wire.Value.{Kind, Value}
use go_zookeeper.Wire.Encode.{Write, encode_after, encode_packet}
use go_zookeeper.Wire.Decode.{Read}
use go_zookeeper.Conn.{
  Conn, Request, RecvFunc, failure, respond, insert_request, queue_request, new_request, next_xid,
  set_state, send_event,
}
use go_zookeeper.Conn.Send.{
  WriteResult, written, deadline_failed, write_failed, reset_failed, write_frame, send_frame,
  send_encoded, send_data, encode_frame, send_request, send_next, write_ping, send_ping, put_length,
  whole, request_header,
}
use go_zookeeper.Conn.Connect.{
  ConnectResult, ConnectResponse, not_written, not_answered, answered, establish, read_response,
  exchange, after_encoding, authenticate, connect_response_of, set_timeouts,
}

-- The state, closeChan and the watchers are those of `c`.
abbrev pub Stays : Conn → Conn → Type 0
Stays c c' =
    (c'.state ≡ c.state)
    × (c'.close_chan_closed ≡ c.close_chan_closed)
    × (c'.watches.table ≡ c.watches.table)

-- Every request stands where it stood.
abbrev pub Unmoved : Conn → Conn → Type 0
Unmoved c c' =
    (c'.send_chan ≡ c.send_chan)
    × (c'.requests ≡ c.requests)
    × (c'.responses ≡ c.responses)
    × (c'.next_chan ≡ c.next_chan)

write_frame-Stays :
    (net : WriteResult) (ch : ℕ) (f : Bytes) (c : Conn) → Stays c (write_frame net ch f c).0
unfolding write_frame respond
write_frame-Stays (deadline_failed e) ch f c = (refl, refl, refl)
write_frame-Stays (write_failed e) ch f c = (refl, refl, refl)
write_frame-Stays (reset_failed e) ch f c = (refl, refl, refl)
write_frame-Stays written ch f c = (refl, refl, refl)

write_ping-Stays :
    (net : WriteResult) (f : Bytes) (c : Conn)
    → Stays c (write_ping net f c).0 × Unmoved c (write_ping net f c).0
unfolding write_ping
write_ping-Stays (deadline_failed e) f c = ((refl, refl, refl), (refl, refl, refl, refl))
write_ping-Stays (write_failed e) f c = ((refl, refl, refl), (refl, refl, refl, refl))
write_ping-Stays (reset_failed e) f c = ((refl, refl, refl), (refl, refl, refl, refl))
write_ping-Stays written f c = ((refl, refl, refl), (refl, refl, refl, refl))

Stays-if :
    (c : Conn) (b : Bool) (x y : Conn × Option Error)
    → Stays c x.0
    → Stays c y.0
    → Stays c (if b then x else y).0
Stays-if c true x y hx hy = hx
Stays-if c false x y hx hy = hy

send_frame-Stays :
    (net : WriteResult) (req : Request) (w : Write) (c : Conn) → Stays c (send_frame net req w c).0
unfolding send_frame respond
send_frame-Stays net req w c =
    Stays-if c c.close_chan_closed _ _ (refl, refl, refl)
      (write_frame-Stays net req.recv_chan (take w.n w.mem)
        (record c { requests = insert_request req.xid req c.requests }))

send_encoded-Stays :
    (net : WriteResult) (req : Request) (c : Conn) (r : Result Write) {p : Conn × Option Error}
    → send_encoded net req c r ≡ ok p
    → Stays c p.0
unfolding send_encoded respond
send_encoded-Stays net req c (ok w) {p} e =
    let same : send_frame net req w (record c { buf = w.mem }) ≡ p = cc in
    let k = send_frame-Stays net req w (record c { buf = w.mem }) in rw (← same) k
send_encoded-Stays net req c (err f) {p} e =
    let same : Path (Conn × Option Error) (respond req.recv_chan (failure f) c, none) p = cc in
    rw (← same) (refl, refl, refl)
send_encoded-Stays net req c (panic f) e = cc

pub send_data-Stays :
    (net : WriteResult) (req : Request) (c : Conn) {p : Conn × Option Error}
    → send_data net req c ≡ ok p
    → Stays c p.0
unfolding send_data
send_data-Stays net req c e =
    send_encoded-Stays net req c (encode_frame c.buf req.xid req.opcode req.pkt) e

request_sent :
    (ch : ℕ) (c : Conn) (r : Result (Conn × Option Error)) {q : Conn × ℕ × Option Error}
    → ((p : Conn × Option Error) → r ≡ ok p → Stays c p.0)
    → (r >>= λ p. ok (p.0, ch, p.1)) ≡ ok q
    → Stays c q.0
request_sent ch c (ok p) {q} k e =
    let same : Path (Conn × ℕ × Option Error) (p.0, ch, p.1) q = cc in rw (← same) (k p refl)
request_sent ch c (err f) k e = cc
request_sent ch c (panic f) k e = cc

pub send_request-Stays :
    (net : WriteResult) (opcode : ℤ) (pkt : Value) (k : Kind) (f : RecvFunc) (c : Conn)
    {q : Conn × ℕ × Option Error}
    → send_request net opcode pkt k f c ≡ ok q
    → Stays c q.0
unfolding send_request new_request next_xid
send_request-Stays net opcode pkt k f c e =
    let made = new_request opcode pkt k f c in
    request_sent made.1.recv_chan c (send_data net made.1 made.0)
      (λ p h. send_data-Stays net made.1 made.0 h) e

next_sent :
    (net : WriteResult) (c : Conn) (rs : List Request) {p : Conn × Option Error}
    → c.send_chan ≡ rs
    → send_next net c ≡ some (ok p)
    → Stays c p.0
unfolding send_next
next_sent net c [] {p} h e =
    let e' : Path (Option (Result (Conn × Option Error))) none (some (ok p)) =
      rw (h, send_next) at e in
    cc
next_sent net c (req ∷ rest) {p} h e =
    let sent = send_data net req (record c { send_chan = rest }) in
    let e' : Path (Option (Result (Conn × Option Error))) (some sent) (some (ok p)) =
      rw (h, send_next) at e in
    let e'' : sent ≡ ok p = cc in send_data-Stays net req (record c { send_chan = rest }) e''

pub send_next-Stays :
    (net : WriteResult) (c : Conn) {p : Conn × Option Error}
    → send_next net c ≡ some (ok p)
    → Stays c p.0
send_next-Stays net c e = next_sent net c c.send_chan refl e

ping_sent :
    (net : WriteResult) (c : Conn) (r : Result Write) {p : Conn × Option Error}
    → (encode_after 4 (encode_packet (request_header (negsuc 1) op_ping)) (whole c.buf)
        >>= put_length)
      ≡ r
    → send_ping net c ≡ ok p
    → Stays c p.0 × Unmoved c p.0
unfolding send_ping
ping_sent net c (ok w) {p} h e =
    let sent = write_ping net (take w.n w.mem) (record c { buf = w.mem }) in
    let e' : Path (Result (Conn × Option Error)) (ok sent) (ok p) = rw (send_ping, h) at e in
    let same : sent ≡ p = cc in
    rw (← same) (write_ping-Stays net (take w.n w.mem) (record c { buf = w.mem }))
ping_sent net c (err f) {p} h e =
    let e' : Path (Result (Conn × Option Error)) (panic unexpected_error) (ok p) =
      rw (send_ping, h) at e in
    cc
ping_sent net c (panic f) {p} h e =
    let e' : Path (Result (Conn × Option Error)) (panic f) (ok p) = rw (send_ping, h) at e in cc

pub send_ping-Stays :
    (net : WriteResult) (c : Conn) {p : Conn × Option Error}
    → send_ping net c ≡ ok p
    → Stays c p.0 × Unmoved c p.0
send_ping-Stays net c e = ping_sent net c _ refl e

-- The pending requests are not touched by the queue either.
pub queue_request-Stays :
    (opcode : ℤ) (pkt : Value) (k : Kind) (f : RecvFunc) (c : Conn) {d : Conn} {ch : ℕ}
    → queue_request opcode pkt k f c ≡ some (d, ch)
    → Stays c d × (d.requests ≡ c.requests) × (d.responses ≡ c.responses)
unfolding queue_request new_request next_xid
queue_request-Stays opcode pkt k f c {d} {ch} e =
    let rq = (new_request opcode pkt k f c).1 in
    let queued : Conn = record (new_request opcode pkt k f c).0 {
      send_chan = c.send_chan ++ (rq ∷ []);
    } in
    elim (Bool-cases (ltb (length c.send_chan) 16)) [
      | inl h ↦
          let same : Path (Option (Conn × ℕ)) (some (queued, c.next_chan)) (some (d, ch)) =
            rw h at e in
          let eq : queued ≡ d = cc in rw (← eq) ((refl, refl, refl), refl, refl)
      | inr h ↦ let none_left : Path (Option (Conn × ℕ)) none (some (d, ch)) = rw h at e in cc
    ]

-- The state and closeChan stand as authenticate leaves them: with a session, or with an error in the state
-- before it or in the expired one.
abbrev pub Settled : Conn → Conn × Option Error → Type 0
Settled c (c', none) = (c'.state ≡ state_has_session) × Unmoved c c'
Settled c (c', some e) = ((c'.state ≡ c.state) ⊎ (c'.state ≡ state_expired)) × Unmoved c c'

establish-Settled : (q : ConnectResponse) (c : Conn) → Settled c (establish q c)
unfolding establish set_state send_event set_timeouts
establish-Settled q c = elim (Bool-cases (int_eq q.session (pos 0))) [
  | inl e ↦ rw e (inr refl, (refl, refl, refl, refl))
  | inr e ↦ rw e (refl, (refl, refl, refl, refl))
]

response-Settled :
    (c : Conn) (r : Read Value) (q : Option ConnectResponse) {p : Conn × Option Error}
    → connect_response_of r.value ≡ q
    → read_response c (ok r) ≡ ok p
    → Settled c p
unfolding read_response
response-Settled c r none {p} h e =
    let e' : Path (Result (Conn × Option Error)) (panic unexpected_error) (ok p) =
      rw (read_response, h) at e in
    cc
response-Settled c r (some q) {p} h e =
    let e' : Path (Result (Conn × Option Error)) (ok (establish q c)) (ok p) =
      rw (read_response, h) at e in
    let same : establish q c ≡ p = cc in rw (← same) (establish-Settled q c)

read-Settled :
    (c : Conn) (r : Result (Read Value)) {p : Conn × Option Error}
    → read_response c r ≡ ok p
    → Settled c p
unfolding read_response
read-Settled c (ok r) e = response-Settled c r (connect_response_of r.value) refl e
read-Settled c (err f) {p} e =
    let same : Path (Conn × Option Error) (c, some f) p = cc in
    rw (← same) (inl refl, (refl, refl, refl, refl))
read-Settled c (panic f) e = cc

exchange-Settled :
    (net : ConnectResult) (w : Write) (c : Conn) {p : Conn × Option Error}
    → exchange net w c ≡ ok p
    → Settled c p
unfolding exchange
exchange-Settled (not_written f) w c {p} e =
    let same : Path (Conn × Option Error) (c, some f) p = cc in
    rw (← same) (inl refl, (refl, refl, refl, refl))
exchange-Settled (not_answered f) w c {p} e =
    let same : Path (Conn × Option Error)
        (record c { frames = c.frames ++ (take w.n w.mem ∷ []) }, some f) p =
      cc in
    rw (← same) (inl refl, (refl, refl, refl, refl))
exchange-Settled (answered head body) w c {p} e =
    read-Settled (record c { frames = c.frames ++ (take w.n w.mem ∷ []) }) _ {p = p} e

encoded-Settled :
    (net : ConnectResult) (c : Conn) (r : Result Write) {p : Conn × Option Error}
    → after_encoding net c r ≡ ok p
    → Settled c p
unfolding after_encoding
encoded-Settled net c (ok w) e = exchange-Settled net w c e
encoded-Settled net c (err f) {p} e =
    let same : Path (Conn × Option Error) (c, some f) p = cc in
    rw (← same) (inl refl, (refl, refl, refl, refl))
encoded-Settled net c (panic f) e = cc

pub authenticate-Settled :
    (net : ConnectResult) (c : Conn) {p : Conn × Option Error}
    → authenticate net c ≡ ok p
    → Settled c p
unfolding authenticate
authenticate-Settled net c e = encoded-Settled net c _ e
