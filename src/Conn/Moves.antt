-- ===== src/Conn/Moves.antt =====
-- What recvLoop of zk/conn.go does with the channels of requests.
use mathlib.Core.List.{Perm}
use mathlib.Core.List.Perm
use go_zookeeper.Base.{
  ◌≡◌, refl, pos, negsuc, int_eq, is_neg, is_pos, Option, some, if◌then◌else◌, Bool-cases,
  Option-cases, inl, inr,
}
use go_zookeeper.Constants.{Error}
use go_zookeeper.Wire.{Result, Slice}
use go_zookeeper.Wire.Value.{Value}
use go_zookeeper.Wire.Decode.{Read}
use go_zookeeper.Wire.Structs.{response_header_type, watcher_event_type}
use go_zookeeper.Wire.Fuel.{
  Ensures, holds, rejected, faulted, Ensures-bind, Ensures-mono, slice_range-Ensures,
  decode_packet-Ensures,
}
use go_zookeeper.Conn.{Conn, send_event, Request, respond, lookup_request, delete_request}
use go_zookeeper.Conn.Receive.{
  ResponseHeader, run_recv_func, body_of, response_body, complete, answer, handle_response, notify,
  handle_event, handle_packet, dispatch, header_of, event_of, recv_packet,
}
use go_zookeeper.Conn.Accounts.{unsent, answered, accounts, pending-delete_request, respond-perm}

-- The channels are those of `c`, perhaps in other places, and the state is the same.
pub record Keeps (c c' : Conn) : Type 0 where
  pub moved : Perm (accounts c') (accounts c)
  pub counted : c'.next_chan ≡ c.next_chan
  pub same_state : c'.state ≡ c.state
  pub same_closed : c'.close_chan_closed ≡ c.close_chan_closed

Keeps-refl : {c : Conn} → Keeps c c
Keeps-refl = record { moved = Perm.rfl; counted = refl; same_state = refl; same_closed = refl }

abbrev pub KeepsAll : Conn → Result (Conn × Option Error) → Type 0
KeepsAll c r = Ensures (λ p. Keeps c p.0) r

body_of-Ensures :
    {r : Result (Read Value)} {P : Read Value → Type 0}
    → Ensures P r
    → Ensures (λ b. Unit {0}) (body_of r)
unfolding body_of
body_of-Ensures (holds h) = holds tt
body_of-Ensures rejected = holds tt
body_of-Ensures (faulted n) = faulted n

response_body-Ensures :
    (packet : Slice) (h : ResponseHeader) (req : Request)
    → Ensures (λ b. Unit {0}) (response_body packet h req)
unfolding response_body
response_body-Ensures packet h req = elim (Bool-cases (int_eq h.err_code (pos 0))) [
  | inl e ↦ rw e (
      Ensures-bind (slice_range-Ensures 16 packet.len packet)
        λ rest _. body_of-Ensures (decode_packet-Ensures req.recv_struct rest))
  | inr e ↦ rw e (holds tt)
]

complete-Keeps :
    (h : ResponseHeader) (req : Request) (r : Option Error × Option Value) (c : Conn)
    → lookup_request h.xid c.requests ≡ some req
    → Keeps c (complete h req r (record c { requests = delete_request h.xid c.requests }))
unfolding complete
complete-Keeps h req (e, body) c found = record {
  moved =
      Perm.trans
        (respond-perm req.recv_chan _ (record c {
          requests = delete_request h.xid c.requests;
          watches = (run_recv_func req.recv_func e c.watches).0;
        }))
        (Perm.append_left (unsent c.send_chan) (
          Perm.append_right (answered c.responses)
            (Perm.symm (pending-delete_request h.xid c.requests found))));
  counted = unfold respond in refl;
  same_state = unfold respond in refl;
  same_closed = unfold respond in refl;
}

answer-Keeps :
    (packet : Slice) (h : ResponseHeader) (c : Conn)
    → KeepsAll c (answer packet h (lookup_request h.xid c.requests) c)
unfolding answer
answer-Keeps packet h c = elim (Option-cases (lookup_request h.xid c.requests)) [
  | inl e ↦ rw e (holds Keeps-refl)
  | inr (req, e) ↦
      rw e (
        Ensures-bind (response_body-Ensures packet h req) λ r _. holds (complete-Keeps h req r c e))
]

handle_response-Keeps :
    (packet : Slice) (h : ResponseHeader) (c : Conn) → KeepsAll c (handle_response packet h c)
unfolding handle_response
handle_response-Keeps packet h c =
    Ensures-mono
      (answer-Keeps packet h
        (record c { last_zxid = if is_pos h.zxid then h.zxid else c.last_zxid }))
      (λ r k. record {
        moved = k.moved;
        counted = k.counted;
        same_state = k.same_state;
        same_closed = k.same_closed;
      })

notify-Keeps :
    (c : Conn) {r : Result (Read Value)} {P : Read Value → Type 0}
    → Ensures P r
    → KeepsAll c (notify c r)
unfolding notify
notify-Keeps c (holds {a} p) = elim (Option-cases (event_of a.value)) [
  | inl e ↦ rw (e, notify) (holds Keeps-refl)
  | inr (ev, e) ↦
      rw (e, notify)
        (holds (
          unfold send_event in
          record { moved = Perm.rfl; counted = refl; same_state = refl; same_closed = refl }))
]
notify-Keeps c rejected = holds Keeps-refl
notify-Keeps c (faulted n) = faulted n

handle_event-Keeps : (packet : Slice) (c : Conn) → KeepsAll c (handle_event packet c)
unfolding handle_event
handle_event-Keeps packet c =
    Ensures-bind (slice_range-Ensures 16 packet.len packet)
      λ rest _. notify-Keeps c (decode_packet-Ensures watcher_event_type rest)

handle_packet-Keeps :
    (packet : Slice) (h : ResponseHeader) (c : Conn) → KeepsAll c (handle_packet packet h c)
unfolding handle_packet
handle_packet-Keeps packet h c = elim (Bool-cases (int_eq h.xid (negsuc 0))) [
  | inl e ↦ rw e (handle_event-Keeps packet c)
  | inr e ↦ rw e (elim (Bool-cases (int_eq h.xid (negsuc 1))) [
    | inl e' ↦ rw e' (holds Keeps-refl)
    | inr e' ↦ rw e' (elim (Bool-cases (is_neg h.xid)) [
      | inl n ↦ rw n (holds Keeps-refl)
      | inr n ↦ rw n (handle_response-Keeps packet h c)
    ])
  ])
]

dispatch-Keeps :
    (packet : Slice) (c : Conn) {r : Result (Read Value)} {P : Read Value → Type 0}
    → Ensures P r
    → KeepsAll c (dispatch packet c r)
unfolding dispatch
dispatch-Keeps packet c (holds {a} p) = elim (Option-cases (header_of a.value)) [
  | inl e ↦ rw (e, dispatch) (holds Keeps-refl)
  | inr (h, e) ↦ rw (e, dispatch) (handle_packet-Keeps packet h c)
]
dispatch-Keeps packet c rejected = holds Keeps-refl
dispatch-Keeps packet c (faulted n) = faulted n

pub recv_packet-Keeps : (packet : Slice) (c : Conn) → KeepsAll c (recv_packet packet c)
unfolding recv_packet
recv_packet-Keeps packet c =
    Ensures-bind (slice_range-Ensures 0 16 packet)
      λ head _. dispatch-Keeps packet c (decode_packet-Ensures response_header_type head)
