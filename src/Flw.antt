-- ===== src/Flw.antt =====
-- zk/flw.go: the four-letter words srvr, ruok and cons of a server.
--
-- The network, the two regular expressions and time.Parse are parameters; a regular expression returns
-- the texts of its groups, in their order, where there is a match. An instant of time.Unix is its number of seconds.
pub mod Numbers
pub mod Words
pub mod Hex
pub mod Servers
pub mod Lines
pub mod Clients
use go_zookeeper.Base.{
  ◌⊎◌, ℕ, zero, suc, ◌+◌, ◌-◌, ◌*◌, ◌/◌, ◌%◌, ◌^◌, ◌≡◌, ℤ, pos, negsuc, uint32, to_int32, uint64,
  to_int64, Bytes, bytes_eq, str, Bool, true, false, ◌&&◌, Option, none, some, List, [], ◌∷◌, ◌++◌,
  length, if◌then◌else◌, ltb, ◌==◌, split,
}
use go_zookeeper.Constants.{
  Error, unparsed_response, mode_unknown, mode_leader, mode_follower, mode_standalone, Mode,
}
use go_zookeeper.Outcome.{Outcome, done, failed, crashed}
use go_zookeeper.Wire.{Result, ok, err, panic, ◌>>=◌, Slice, slice_range, contents}
use go_zookeeper.Hosts.{format_servers}
use go_zookeeper.Flw.Numbers.{parse_int, parse_int64}

-- What the calls of fourLetterWord on the network return.
pub data FlwResult : Type 0 where
  dial_failed write_deadline_failed write_failed read_deadline_failed : Error → FlwResult
  read_failed : Slice → Error → FlwResult
  answered : Slice → FlwResult

-- fourLetterWord: the response, or the first error; the bytes that ReadAll read before an error are
-- returned with it.
unfoldable pub four_letter_word : FlwResult → Option Slice × Option Error
four_letter_word (dial_failed e) = (none, some e)
four_letter_word (write_deadline_failed e) = (none, some e)
four_letter_word (write_failed e) = (none, some e)
four_letter_word (read_deadline_failed e) = (none, some e)
four_letter_word (read_failed s e) = (some s, some e)
four_letter_word (answered s) = (some s, none)

-- The groups of the regular expression of FLWSrvr.
pub record SrvrMatch : Type 0 where
  pub version : Bytes
  pub built : Bytes
  pub min_lat : Bytes
  pub avg_lat : Bytes
  pub max_lat : Bytes
  pub recv : Bytes
  pub sent : Bytes
  pub cons : Bytes
  pub outs : Bytes
  pub zxid : Bytes
  pub mode : Bytes
  pub ncnt : Bytes

-- The groups of the regular expression of FLWCons.
pub record ConsMatch : Type 0 where
  pub addr : Bytes
  pub queued : Bytes
  pub recvd : Bytes
  pub sent : Bytes
  pub sid : Bytes
  pub lop : Bytes
  pub est : Bytes
  pub timeout : Bytes
  pub lcxid : Bytes
  pub lzxid : Bytes
  pub lresp : Bytes
  pub llat : Bytes
  pub min_lat : Bytes
  pub avg_lat : Bytes
  pub max_lat : Bytes

-- `fetch server command` is what the network returns.
pub record Library (T : Type 0) : Type 0 where
  pub fetch : Bytes → Bytes → FlwResult
  pub match_srvr : Bytes → Option SrvrMatch
  pub match_cons : Bytes → Option ConsMatch
  pub parse_time : Bytes → Error ⊎ T

-- BuildTime is none where the struct was not filled in.
pub record ServerStats (T : Type 0) : Type 0 where
  pub sent : ℤ
  pub received : ℤ
  pub node_count : ℤ
  pub min_latency : ℤ
  pub avg_latency : ℤ
  pub max_latency : ℤ
  pub connections : ℤ
  pub outstanding : ℤ
  pub epoch : ℤ
  pub counter : ℤ
  pub build_time : Option T
  pub mode : Mode
  pub version : Bytes
  pub error : Option Error

-- The field Error is never set.
pub record ServerClient : Type 0 where
  pub queued : ℤ
  pub received : ℤ
  pub sent : ℤ
  pub session_id : ℤ
  pub lcxid : ℤ
  pub lzxid : ℤ
  pub timeout : ℤ
  pub last_latency : ℤ
  pub min_latency : ℤ
  pub avg_latency : ℤ
  pub max_latency : ℤ
  pub established : ℤ
  pub last_response : ℤ
  pub addr : Bytes
  pub last_operation : Bytes

pub record ServerClients : Type 0 where
  pub clients : List ServerClient
  pub error : Option Error

-- &ServerStats{Error: err}
unfoldable pub failed_stats : {T : Type 0} → Error → ServerStats T
failed_stats e = record {
  sent = pos 0;
  received = pos 0;
  node_count = pos 0;
  min_latency = pos 0;
  avg_latency = pos 0;
  max_latency = pos 0;
  connections = pos 0;
  outstanding = pos 0;
  epoch = pos 0;
  counter = pos 0;
  build_time = none;
  mode = mode_unknown;
  version = [];
  error = some e;
}

unfoldable pub srvr_mode : Bytes → Mode
srvr_mode s =
    if bytes_eq s (str "leader")
    then mode_leader
    else if bytes_eq s (str "follower")
    then mode_follower
    else if bytes_eq s (str "standalone")
    then mode_standalone
    else mode_unknown

-- int32(z >> 32) and int32(z & 0xFFFFFFFF)
unfoldable pub epoch_of : ℤ → ℤ
epoch_of z = to_int32 (uint64 z / 2 ^ 32)

unfoldable pub counter_of : ℤ → ℤ
counter_of z = to_int32 (uint64 z % 2 ^ 32)

-- strconv.ParseInt(s, 0, bits), of which the error is dropped
unfoldable pub int_value : ℕ → Bytes → ℤ
unfolding parse_int
int_value bits s = (parse_int bits s).0
