-- ===== src/Conn/Sends.antt =====
-- What sendData of zk/conn.go does with the channels of requests.
use mathlib.Core.List.{Perm, perm_middle}
use mathlib.Core.List.Perm
use mathlib.Core.Logic.{◌≢◌}
use go_zookeeper.Base.{
  ℕ, ◌≡◌, refl, ◌∙◌, Bytes, Bool, true, false, Option, none, ◌∷◌, ◌++◌, take, if◌then◌else◌,
}
use go_zookeeper.Constants.{connection_closed, Error}
use go_zookeeper.Wire.{Result, ok, err, panic}
use go_zookeeper.Wire.Encode.{Write}
use go_zookeeper.Conn.{Conn, failure, Request, Response, respond, lookup_request, insert_request}
use go_zookeeper.Conn.Send.{
  WriteResult, written, deadline_failed, write_failed, reset_failed, write_frame, send_frame,
  send_encoded, send_data, encode_frame,
}
use go_zookeeper.Conn.Accounts.{
  unsent, pending, answered, accounts, pending-insert_request, respond-perm,
}
use go_zookeeper.Conn.Moves.{Keeps}

-- The map of pending requests has no entry under the xid of the request.
abbrev pub IsNew : Request → Conn → Type 0
IsNew req c = lookup_request req.xid c.requests ≡ none

write_frame-Keeps :
    (net : WriteResult) (ch : ℕ) (f : Bytes) (c : Conn)
    → ((e : Error) → net ≢ write_failed e)
    → Keeps c (write_frame net ch f c).0
unfolding write_frame
write_frame-Keeps (deadline_failed e) ch f c h = record {
  moved = Perm.rfl;
  counted = refl;
  same_state = refl;
  same_closed = refl;
}
write_frame-Keeps (write_failed e) ch f c h = absurd (h e refl)
write_frame-Keeps (reset_failed e) ch f c h = record {
  moved = Perm.rfl;
  counted = refl;
  same_state = refl;
  same_closed = refl;
}
write_frame-Keeps written ch f c h = record {
  moved = Perm.rfl;
  counted = refl;
  same_state = refl;
  same_closed = refl;
}

-- A request `req` that was taken from the send channel, before it is answered or pending.
pub record Holds (req : Request) (c c' : Conn) : Type 0 where
  pub moved : Perm (accounts c') (req.recv_chan ∷ accounts c)
  pub counted : c'.next_chan ≡ c.next_chan

respond-Holds : (req : Request) (r : Response) (c : Conn) → Holds req c (respond req.recv_chan r c)
respond-Holds req r c = record {
  moved =
      Perm.trans (respond-perm req.recv_chan r c)
        (perm_middle (unsent c.send_chan) (pending c.requests ++ answered c.responses));
  counted = unfold respond in refl;
}

insert-Holds :
    (req : Request) (c : Conn)
    → IsNew req c
    → Holds req c (record c { requests = insert_request req.xid req c.requests })
insert-Holds req c new = record {
  moved =
      Perm.trans
        (Perm.append_left (unsent c.send_chan) (
          Perm.append_right (answered c.responses)
            (pending-insert_request req.xid req c.requests new)))
        (perm_middle (unsent c.send_chan) (pending c.requests ++ answered c.responses));
  counted = refl;
}

Holds-if :
    {req : Request} {c : Conn} (b : Bool) (x y : Conn × Option Error)
    → Holds req c x.0
    → Holds req c y.0
    → Holds req c (if b then x else y).0
Holds-if true x y hx hy = hx
Holds-if false x y hx hy = hy

send_frame-Holds :
    (net : WriteResult) (req : Request) (w : Write) (c : Conn)
    → ((e : Error) → net ≢ write_failed e)
    → IsNew req c
    → Holds req c (send_frame net req w c).0
unfolding send_frame
send_frame-Holds net req w c h new =
    let i = insert-Holds req c new in
    let k =
      write_frame-Keeps net req.recv_chan (take w.n w.mem)
        (record c { requests = insert_request req.xid req c.requests }) h in
    Holds-if c.close_chan_closed _ _ (respond-Holds req (failure connection_closed) c)
      (record { moved = Perm.trans k.moved i.moved; counted = k.counted ∙ i.counted })

send_encoded-Holds :
    (net : WriteResult) (req : Request) (c : Conn) (r : Result Write) {p : Conn × Option Error}
    → ((e : Error) → net ≢ write_failed e)
    → IsNew req c
    → send_encoded net req c r ≡ ok p
    → Holds req c p.0
unfolding send_encoded
send_encoded-Holds net req c (ok w) {p} h new e =
    let same : send_frame net req w (record c { buf = w.mem }) ≡ p = cc in
    let k = send_frame-Holds net req w (record c { buf = w.mem }) h new in
    rw (← same) (record { moved = k.moved; counted = k.counted })
send_encoded-Holds net req c (err f) {p} h new e =
    let same : Path (Conn × Option Error) (respond req.recv_chan (failure f) c, none) p = cc in
    rw (← same) (respond-Holds req (failure f) c)
send_encoded-Holds net req c (panic f) h new e = cc

pub send_data-Holds :
    (net : WriteResult) (req : Request) (c : Conn) {p : Conn × Option Error}
    → ((e : Error) → net ≢ write_failed e)
    → IsNew req c
    → send_data net req c ≡ ok p
    → Holds req c p.0
unfolding send_data
send_data-Holds net req c h new e =
    send_encoded-Holds net req c (encode_frame c.buf req.xid req.opcode req.pkt) h new e
