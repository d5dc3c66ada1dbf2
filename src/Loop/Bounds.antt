-- ===== src/Loop/Bounds.antt =====
-- The buffer of recvLoop in zk/conn.go, and the connection while a packet is read.
use mathlib.Core.List.{Perm}
use mathlib.Core.List.Perm
use go_zookeeper.Conn.Accounts.{accounts}
use go_zookeeper.Base.{
  length-replicate, ℕ, zero, suc, ◌≡◌, refl, ap, ℤ, pos, negsuc, Bytes, false, Option, none, some,
  [], ◌∷◌, arith, length, ltb, replicate, if◌then◌else◌, Bool-cases, Option-cases, inl, inr,
}
use go_zookeeper.Constants.{Error}
use go_zookeeper.Wire.{Result, overwrite, be_value}
use go_zookeeper.Wire.Fuel.{Ensures, holds, Ensures-bind, slice_range-Ensures}
use go_zookeeper.Conn.{Conn}
use go_zookeeper.Conn.Send.{whole}
use go_zookeeper.Conn.Moves.{recv_packet-Keeps}
use go_zookeeper.Loop.Reading.{
  over_limit, magnitude, buffer_size, recv_buffer, ReadResult, length_failed, body_failed,
  deadline_failed, packet, buffer_for, with_room, read_packet, receive_packet,
}

pub length-overwrite : (bs m : Bytes) → length (overwrite bs m) ≡ length m
length-overwrite [] m = refl
length-overwrite (b ∷ bs) [] = refl
length-overwrite (b ∷ bs) (x ∷ m) = ap suc (length-overwrite bs m)

over_limit-magnitude : (max : ℤ) → over_limit max (magnitude max) ≡ false
unfolding over_limit
over_limit-magnitude (pos zero) = refl
over_limit-magnitude (pos (suc n)) = ground arith
over_limit-magnitude (negsuc n) = refl

-- Within the limit of WithMaxBufferSize.
abbrev pub IsBounded : ℤ → Bytes → Type 0
IsBounded max buf = over_limit max (length buf) ≡ false

recv_buffer_size :
    (max : ℤ)
    → length (recv_buffer max) ≡ (if over_limit max buffer_size then magnitude max else buffer_size)
unfolding recv_buffer
recv_buffer_size max =
    length-replicate {A = ℕ} (if over_limit max buffer_size then magnitude max else buffer_size) 0

start_size :
    (max : ℤ) (n : ℕ) → over_limit max (if over_limit max n then magnitude max else n) ≡ false
start_size max n = elim (Bool-cases (over_limit max n)) [
  | inl e ↦ rw e (over_limit-magnitude max)
  | inr e ↦ rw e (e)
]

pub recv_buffer-IsBounded : (max : ℤ) → IsBounded max (recv_buffer max)
recv_buffer-IsBounded max = rw (recv_buffer_size max) (start_size max buffer_size)

buffer_for-IsBounded :
    (max : ℤ) (buf : Bytes) (n : ℕ) {b : Bytes}
    → IsBounded max buf
    → buffer_for max buf n ≡ some b
    → IsBounded max b
unfolding buffer_for
buffer_for-IsBounded max buf n {b} h e = elim (Bool-cases (ltb (length buf) n)) [
  | inl l ↦ elim (Bool-cases (over_limit max n)) [
    | inl o ↦ let e' : Path (Option Bytes) none (some b) = rw (l, o) at e in cc
    | inr o ↦
        let e' : Path (Option Bytes) (some (replicate n 0)) (some b) = rw (l, o) at e in
        let same : replicate n 0 ≡ b = cc in rw (← same) (rw (length-replicate {A = ℕ} n 0) o)
  ]
  | inr l ↦
      let e' : Path (Option Bytes) (some buf) (some b) = rw (l) at e in
      let same : buf ≡ b = cc in rw (← same) h
]

-- After a round of recvLoop from `c`: a buffer within the limit, the state and closeChan of `c`, and the
-- channels of `c`, perhaps in other places.
abbrev pub Rounds : ℤ → Conn → Bytes × Conn × Option Error → Type 0
Rounds max c (buf, c', e) =
    IsBounded max buf
    × (c'.state ≡ c.state)
    × (c'.close_chan_closed ≡ c.close_chan_closed)
    × Perm (accounts c') (accounts c)
    × (c'.next_chan ≡ c.next_chan)

with_room-Rounds :
    (max : ℤ) (head buf : Bytes) (c : Conn) (read : Bytes → Result (Bytes × Conn × Option Error))
    → IsBounded max buf
    → ((b : Bytes) → IsBounded max b → Ensures (Rounds max c) (read b))
    → Ensures (Rounds max c) (with_room max head buf c read)
unfolding with_room
with_room-Rounds max head buf c read h k =
    let front : IsBounded max (overwrite head buf) = rw (length-overwrite head buf) h in
    elim (Option-cases (buffer_for max (overwrite head buf) (be_value 0 head))) [
      | inl e ↦ rw (e, with_room) (holds (front, refl, refl, Perm.rfl, refl))
      | inr (b, e) ↦
          rw (e, with_room) (k b (buffer_for-IsBounded max (overwrite head buf) _ front e))
    ]

read_packet-Rounds :
    (r : ReadResult) (max : ℤ) (buf : Bytes) (c : Conn)
    → IsBounded max buf
    → Ensures (Rounds max c) (read_packet r max buf c)
unfolding read_packet
read_packet-Rounds (length_failed e) max buf c h = holds (h, refl, refl, Perm.rfl, refl)
read_packet-Rounds (body_failed head e) max buf c h =
    with_room-Rounds max head buf c _ h (λ b l. holds (l, refl, refl, Perm.rfl, refl))
read_packet-Rounds (deadline_failed head body e) max buf c h =
    with_room-Rounds max head buf c _ h
      (λ b l. holds (rw (length-overwrite body b) l, refl, refl, Perm.rfl, refl))
read_packet-Rounds (packet head body) max buf c h = with_room-Rounds max head buf c _ h (λ b l.
    Ensures-bind (recv_packet-Keeps (record { len = be_value 0 head; mem = overwrite body b }) c)
      λ p k.
        holds (rw (length-overwrite body b) l, k.same_state, k.same_closed, k.moved, k.counted))

pub receive_packet-Rounds :
    (r : ReadResult) (max : ℤ) (buf : Bytes) (c : Conn)
    → IsBounded max buf
    → Ensures (Rounds max c) (receive_packet r max buf c)
unfolding receive_packet
receive_packet-Rounds r max buf c h =
    Ensures-bind (slice_range-Ensures 0 4 (whole buf)) λ head _. read_packet-Rounds r max buf c h
