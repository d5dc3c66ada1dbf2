-- ===== src/Conn/Accounts.antt =====
-- The channels of requests in zk/conn.go: where each stands, and that the steps only move them.
use mathlib.Core.List.{Perm, perm_middle, perm_append_comm, map-append}
use mathlib.Core.List.Perm
use go_zookeeper.Base.{
  ℕ, suc, ◌≡◌, refl, ap, ℤ, int_eq, Option, none, some, List, [], ◌∷◌, ◌++◌, map, append_assoc,
  arith, Bool-cases, inl, inr, length, ltb,
}
use go_zookeeper.Constants.{Error}
use go_zookeeper.Wire.Value.{Kind, Value}
use go_zookeeper.Conn.{
  Conn, Request, Response, RecvFunc, respond, lookup_request, delete_request, insert_request,
  queue_request, new_request, next_xid,
}
use go_zookeeper.Conn.Flush.{fail_pending, fail_unsent, flush_requests, flush_unsent_requests}

-- The channels of the requests that wait to be sent, of those that are pending, and of the responses.
abbrev pub unsent : List Request → List ℕ
unsent = map (λ r. r.recv_chan)

abbrev pub pending : List (ℤ × Request) → List ℕ
pending = map (λ p. p.1.recv_chan)

abbrev pub answered : List (ℕ × Response) → List ℕ
answered = map (λ p. p.0)

abbrev pub accounts : Conn → List ℕ
accounts c = unsent c.send_chan ++ (pending c.requests ++ answered c.responses)

answered-fail_pending :
    (e : Error) (rs : List (ℤ × Request)) → answered (fail_pending e rs) ≡ pending rs
unfolding fail_pending
answered-fail_pending e [] = refl
answered-fail_pending e ((x, r) ∷ rs) = ap (λ t. r.recv_chan ∷ t) (answered-fail_pending e rs)

answered-fail_unsent : (e : Error) (rs : List Request) → answered (fail_unsent e rs) ≡ unsent rs
unfolding fail_unsent
answered-fail_unsent e [] = refl
answered-fail_unsent e (r ∷ rs) = ap (λ t. r.recv_chan ∷ t) (answered-fail_unsent e rs)

pub flush_requests-perm : (e : Error) (c : Conn) → Perm (accounts (flush_requests e c)) (accounts c)
unfolding flush_requests
flush_requests-perm e c =
    rw
      (
        map-append (λ p. p.0) c.responses (fail_pending e c.requests),
        answered-fail_pending e c.requests,
      )
      (Perm.append_left (unsent c.send_chan)
        (perm_append_comm (answered c.responses) (pending c.requests)))

pub flush_unsent-perm :
    (e : Error) (c : Conn) → Perm (accounts (flush_unsent_requests e c)) (accounts c)
unfolding flush_unsent_requests
flush_unsent-perm e c =
    rw
      (
        map-append (λ p. p.0) c.responses (fail_unsent e c.send_chan),
        answered-fail_unsent e c.send_chan,
      )
      (rw (← append_assoc (pending c.requests) (answered c.responses) (unsent c.send_chan))
        (perm_append_comm (pending c.requests ++ answered c.responses) (unsent c.send_chan)))

-- A request that is taken out of the map leaves the channels of the others.
pub pending-delete_request :
    (x : ℤ) (rs : List (ℤ × Request)) {r : Request}
    → lookup_request x rs ≡ some r
    → Perm (pending rs) (r.recv_chan ∷ pending (delete_request x rs))
unfolding lookup_request delete_request
pending-delete_request x [] e = cc
pending-delete_request x ((y, q) ∷ rs) {r} e = elim (Bool-cases (int_eq y x)) [
  | inl h ↦ rw h (let same : q ≡ r = ground (arith, e) in rw same Perm.rfl)
  | inr h ↦ rw h (
      let found : lookup_request x rs ≡ some r = ground (arith, e) in
      Perm.trans (Perm.cons q.recv_chan (pending-delete_request x rs found))
        (Perm.swap r.recv_chan q.recv_chan (pending (delete_request x rs))))
]

-- A request whose xid is not pending is added.
pub pending-insert_request :
    (x : ℤ) (r : Request) (rs : List (ℤ × Request))
    → lookup_request x rs ≡ none
    → Perm (pending (insert_request x r rs)) (r.recv_chan ∷ pending rs)
unfolding lookup_request insert_request
pending-insert_request x r [] e = Perm.rfl
pending-insert_request x r ((y, q) ∷ rs) e = elim (Bool-cases (int_eq y x)) [
  | inl h ↦ absurd (ground (arith, e, h))
  | inr h ↦ rw h (
      let rest : lookup_request x rs ≡ none = ground (arith, e) in
      Perm.trans (Perm.cons q.recv_chan (pending-insert_request x r rs rest))
        (Perm.swap r.recv_chan q.recv_chan (pending rs)))
]

-- An answer puts a channel behind the others.
answer-perm :
    (us ps as' : List ℕ) (ch : ℕ)
    → Perm (us ++ (ps ++ (as' ++ (ch ∷ [])))) (us ++ ((ch ∷ ps) ++ as'))
answer-perm us ps as' ch =
    Perm.append_left us
      (rw (← append_assoc ps as' (ch ∷ [])) (perm_append_comm (ps ++ as') (ch ∷ [])))

-- The next channel is handed out to a request that waits last.
unsent_last :
    (us : List Request) (r : Request) (cs : List ℕ)
    → Perm (unsent (us ++ (r ∷ [])) ++ cs) (r.recv_chan ∷ (unsent us ++ cs))
unsent_last us r cs =
    rw (map-append (λ q. q.recv_chan) us (r ∷ []), append_assoc (unsent us) (r.recv_chan ∷ []) cs)
      (perm_middle (unsent us) cs)

pub queue_request-perm :
    (opcode : ℤ) (pkt : Value) (k : Kind) (f : RecvFunc) (c : Conn) {c' : Conn} {ch : ℕ}
    → queue_request opcode pkt k f c ≡ some (c', ch)
    → Perm (accounts c') (c.next_chan ∷ accounts c) × (c'.next_chan ≡ suc c.next_chan)
unfolding queue_request new_request next_xid
queue_request-perm opcode pkt k f c {c'} {ch} e =
    let rq = (new_request opcode pkt k f c).1 in
    let queued : Conn = record (new_request opcode pkt k f c).0 {
      send_chan = c.send_chan ++ (rq ∷ []);
    } in
    elim (Bool-cases (ltb (length c.send_chan) 16)) [
      | inl h ↦
          let same : Path (Option (Conn × ℕ)) (some (queued, c.next_chan)) (some (c', ch)) =
            rw h at e in
          let eq : queued ≡ c' = cc in
          rw (← eq) (unsent_last c.send_chan rq (pending c.requests ++ answered c.responses), refl)
      | inr h ↦ let none_left : Path (Option (Conn × ℕ)) none (some (c', ch)) = rw h at e in cc
    ]

pub respond-perm :
    (ch : ℕ) (r : Response) (c : Conn)
    → Perm
        (accounts (respond ch r c))
        (unsent c.send_chan ++ ((ch ∷ pending c.requests) ++ answered c.responses))
unfolding respond
respond-perm ch r c =
    rw (map-append (λ p. p.0) c.responses ((ch, r) ∷ []))
      (answer-perm (unsent c.send_chan) (pending c.requests) (answered c.responses) ch)
