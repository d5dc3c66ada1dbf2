-- ===== src/Conn/Connect.antt =====
-- setTimeouts and authenticate of zk/conn.go. What the calls of net.Conn return is an argument.
use go_zookeeper.Base.{
  ℕ, zero, suc, ◌*◌, ◌/◌, ℤ, pos, negsuc, int_eq, Bytes, Option, none, some, [], ◌∷◌, ◌++◌,
  if◌then◌else◌, length, take, ltb, replicate,
}
use go_zookeeper.Constants.{
  Error, session_expired, protocol_version, empty_password, state_expired, state_has_session,
}
use go_zookeeper.Wire.{Result, ok, err, panic, unexpected_error, ◌>>=◌, overwrite, be_value}
use go_zookeeper.Wire.Value.{Value, int32, int64, bytes, struct, nil, cons}
use go_zookeeper.Wire.Structs.{connect_response_type}
use go_zookeeper.Wire.Encode.{Write, encode_after, encode_packet}
use go_zookeeper.Wire.Decode.{Read, decode_packet}
use go_zookeeper.Conn.{Conn, set_state}
use go_zookeeper.Conn.Send.{whole, put_length}

abbrev pub neg_of : ℕ → ℤ
neg_of zero = pos 0
neg_of (suc n) = negsuc n

-- z * k and z / k of Go for a number k above 0; the quotient is cut towards 0.
abbrev pub times : ℤ → ℕ → ℤ
times (pos n) k = pos (n * k)
times (negsuc n) k = neg_of (suc n * k)

abbrev pub quotient : ℤ → ℕ → ℤ
quotient (pos n) k = pos (n / k)
quotient (negsuc n) k = neg_of (suc n / k)

-- No product leaves the range of int64, since the argument is an int32.
unfoldable pub set_timeouts : ℤ → Conn → Conn
set_timeouts ms c =
    let recv = quotient (times (times ms 1_000_000) 2) 3 in
    record c { session_timeout_ms = ms; recv_timeout = recv; ping_interval = quotient recv 2 }

-- The connectRequest of authenticate.
abbrev pub connect_request : Conn → Value
connect_request c = struct (
    cons (int32 protocol_version) (
      cons (int64 c.last_zxid) (
        cons (int32 c.session_timeout_ms) (cons (int64 c.session_id) (cons (bytes c.passwd) nil)))))

-- What the network does: an error before the request was written, an error of a call after that, or the
-- four bytes of a length and then the bytes that the length asks for.
pub data ConnectResult : Type 0 where
  not_written not_answered : Error → ConnectResult
  answered : Bytes → Bytes → ConnectResult

pub record ConnectResponse : Type 0 where
  pub version : ℤ
  pub timeout : ℤ
  pub session : ℤ
  pub passwd : Option Bytes

-- The fields of a decoded connectResponse; the decoder returns values of that type only, so that the
-- panic for another one is never met.
unfoldable pub connect_response_of : Value → Option ConnectResponse
connect_response_of
      (struct (cons (int32 v) (cons (int32 t) (cons (int64 s) (cons (bytes p) nil))))) =
    some (record { version = v; timeout = t; session = s; passwd = p })
connect_response_of _ = none

-- The end of authenticate.
unfoldable pub establish : ConnectResponse → Conn → Conn × Option Error
unfolding set_state set_timeouts
establish r c =
    if int_eq r.session (pos 0)
    then (
      set_state state_expired
          (record c { session_id = pos 0; passwd = some empty_password; last_zxid = pos 0 }),
      some session_expired,
    )
    else let timed = set_timeouts r.timeout (record c { session_id = r.session }) in
      (set_state state_has_session (record timed { passwd = r.passwd }), none)

unfoldable pub read_response : Conn → Result (Read Value) → Result (Conn × Option Error)
unfolding establish connect_response_of
read_response c (err e) = ok (c, some e)
read_response c (panic p) = panic p
read_response c (ok r) = elim (connect_response_of r.value) [
  | none ↦ panic unexpected_error
  | some q ↦ ok (establish q c)
]

-- The bytes of the response are read to the front of the buffer, or of a new one if they do not fit.
unfoldable pub response_buffer : Bytes → Bytes → ℕ → Bytes
response_buffer buf body blen =
    overwrite body (if ltb (length buf) blen then replicate blen 0 else buf)

-- authenticate once the request stands in its buffer of 256 bytes.
unfoldable pub exchange : ConnectResult → Write → Conn → Result (Conn × Option Error)
unfolding read_response response_buffer
exchange (not_written e) w c = ok (c, some e)
exchange (not_answered e) w c = ok (record c { frames = c.frames ++ (take w.n w.mem ∷ []) }, some e)
exchange (answered head body) w c =
    let blen = be_value 0 head in
    read_response (record c { frames = c.frames ++ (take w.n w.mem ∷ []) })
      (decode_packet connect_response_type
        (record { len = blen; mem = response_buffer (overwrite head w.mem) body blen }))

unfoldable pub after_encoding : ConnectResult → Conn → Result Write → Result (Conn × Option Error)
unfolding exchange
after_encoding net c (ok w) = exchange net w c
after_encoding net c (err e) = ok (c, some e)
after_encoding net c (panic p) = panic p

unfoldable pub authenticate : ConnectResult → Conn → Result (Conn × Option Error)
unfolding after_encoding put_length
authenticate net c =
    after_encoding net c
      (encode_after 4 (encode_packet (connect_request c)) (whole (replicate 256 0)) >>= put_length)
