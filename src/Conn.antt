-- ===== src/Conn.antt =====
-- The connection of zk/conn.go: its state, and the steps that its goroutines take. A step is what one
-- goroutine does between two waits; where the code holds a lock the step is the whole of what
-- happens under it.
--
-- The network is a parameter of the steps: what a call of net.Conn returned is an argument. Channels are
-- numbers. `responses` holds what was sent on the channels of requests, `frames` what was written
-- to the network, `calls` the events handed to the callback, each oldest first. Log output is left
-- out, and so are the debug fields, which only tests set. A time is a number of
-- nanoseconds.
pub mod Send
pub mod Connect
pub mod Receive
pub mod Flush
pub mod Accounts
pub mod Moves
pub mod Sends
pub mod Stays
pub mod Answers
pub mod Frames
pub mod Replies
pub mod Events
pub mod Session
pub mod Restore
pub mod Batches
pub mod Sizes
use go_zookeeper.Base.{
  ℕ, zero, suc, ◌+◌, ◌%◌, ◌^◌, ℤ, pos, int_eq, Bytes, Bool, Option, none, some, List, [], ◌∷◌, ◌++◌,
  if◌then◌else◌, ltb, length,
}
use go_zookeeper.Constants.{Error, State, event_session}
use go_zookeeper.Wire.Value.{Kind, Value}
use go_zookeeper.Watch.{WatchType, Event, Watches}

-- The function that the caller of a request passes in `recvFunc`: none; ChildrenW and GetW add a watcher
-- if there is no error; ExistsW adds one that depends on the error.
pub data RecvFunc : Type 0 where
  no_func : RecvFunc
  watch_if_ok : Bytes → WatchType → RecvFunc
  watch_exists : Bytes → RecvFunc

pub record Request : Type 0 where
  pub xid : ℤ
  pub opcode : ℤ
  pub pkt : Value
  pub recv_struct : Kind
  pub recv_chan : ℕ
  pub recv_func : RecvFunc

-- `body` is what recvStruct points to, where it was filled in, and `watcher` the channel that recvFunc
-- made.
pub record Response : Type 0 where
  pub zxid : ℤ
  pub err : Option Error
  pub body : Option Value
  pub watcher : Option ℕ

-- response{-1, err}
abbrev pub failure : Error → Response
failure e = record { zxid = ℤ.negsuc 0; err = some e; body = none; watcher = none }

pub record AuthCreds : Type 0 where
  pub scheme : Bytes
  pub auth : Option Bytes

pub record Conn : Type 0 where
  pub last_zxid : ℤ
  pub session_id : ℤ
  pub state : State
  pub xid : ℕ
  pub session_timeout_ms : ℤ
  pub passwd : Option Bytes
  pub recv_timeout : ℤ
  pub ping_interval : ℤ
  pub server : Bytes
  pub event_chan : List Event
  pub event_callback : Bool
  pub calls : List Event
  pub creds : List AuthCreds
  pub send_chan : List Request
  pub requests : List (ℤ × Request)
  pub watches : Watches
  pub close_chan_closed : Bool
  pub buf : Bytes
  pub next_chan : ℕ
  pub responses : List (ℕ × Response)
  pub frames : List Bytes

-- eventChanSize and sendChanSize
abbrev pub event_chan_size : ℕ
event_chan_size = 6

abbrev pub send_chan_size : ℕ
send_chan_size = 16

-- The send on a full channel takes the default of the select.
unfoldable pub send_event : Event → Conn → Conn
send_event ev c = record c {
  calls = if c.event_callback then c.calls ++ (ev ∷ []) else c.calls;
  event_chan =
      if ltb (length c.event_chan) event_chan_size then c.event_chan ++ (ev ∷ []) else c.event_chan;
}

unfoldable pub set_state : State → Conn → Conn
unfolding send_event
set_state s c =
    send_event
      (record { event_type = event_session; state = s; path = []; err = none; server = c.server })
      (record c { state = s })

-- int32(atomic.AddUint32(&c.xid, 1) & 0x7fffffff)
unfoldable pub next_xid : Conn → Conn × ℤ
next_xid c = let x = (c.xid + 1) % 2 ^ 32 in (record c { xid = x }, pos (x % 2 ^ 31))

-- The request that sendRequest and queueRequest make.
unfoldable pub new_request : ℤ → Value → Kind → RecvFunc → Conn → Conn × Request
unfolding next_xid
new_request opcode pkt recv_struct recv_func c =
    let (c', x) = next_xid c in
    (
      record c' { next_chan = suc c'.next_chan },
      record {
        xid = x;
        opcode = opcode;
        pkt = pkt;
        recv_struct = recv_struct;
        recv_chan = c'.next_chan;
        recv_func = recv_func;
      },
    )

-- The send on a full sendChan waits: there is no step.
unfoldable pub queue_request : ℤ → Value → Kind → RecvFunc → Conn → Option (Conn × ℕ)
unfolding new_request
queue_request opcode pkt recv_struct recv_func c =
    let (c', rq) = new_request opcode pkt recv_struct recv_func c in
    if ltb (length c.send_chan) send_chan_size
    then some (record c' { send_chan = c'.send_chan ++ (rq ∷ []) }, rq.recv_chan)
    else none

-- rq.recvChan <- response
unfoldable pub respond : ℕ → Response → Conn → Conn
respond ch r c = record c { responses = c.responses ++ ((ch, r) ∷ []) }

-- The map of pending requests.
unfoldable pub lookup_request : ℤ → List (ℤ × Request) → Option Request
lookup_request x [] = none
lookup_request x ((y, r) ∷ rs) = if int_eq y x then some r else lookup_request x rs

unfoldable pub delete_request : ℤ → List (ℤ × Request) → List (ℤ × Request)
delete_request x [] = []
delete_request x ((y, r) ∷ rs) = if int_eq y x then rs else (y, r) ∷ delete_request x rs

unfoldable pub insert_request : ℤ → Request → List (ℤ × Request) → List (ℤ × Request)
insert_request x r [] = (x, r) ∷ []
insert_request x r ((y, q) ∷ rs) =
    if int_eq y x then (x, r) ∷ rs else (y, q) ∷ insert_request x r rs
