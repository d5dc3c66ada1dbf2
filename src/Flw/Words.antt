-- ===== src/Flw/Words.antt =====
-- FLWSrvr, FLWRuok and FLWCons of zk/flw.go.
use go_zookeeper.Base.{
  ℕ, ◌*◌, ◌⊎◌, inl, inr, ℤ, to_int32, uint32, Bytes, bytes_eq, str, Bool, true, false, ◌&&◌, ◌==◌,
  Option, none, some, List, [], ◌∷◌, ◌++◌, length, if◌then◌else◌, ltb, split,
}
use go_zookeeper.Constants.{Error, unparsed_response}
use go_zookeeper.Wire.{Result, ok, ◌>>=◌, Slice, slice_range, contents}
use go_zookeeper.Hosts.{format_servers}
use go_zookeeper.Flw.{
  four_letter_word, SrvrMatch, ConsMatch, Library, ServerStats, ServerClient, ServerClients,
  failed_stats, srvr_mode, epoch_of, counter_of, int_value,
}
use go_zookeeper.Flw.Numbers.{parse_int, parse_int64}

-- The round of FLWSrvr once the time and the zxid were read; the two errors are looked at in this order.
unfoldable pub stats_of :
    {T : Type 0} → SrvrMatch → Error ⊎ T → ℤ × Option Error → ServerStats T × Bool
unfolding failed_stats srvr_mode epoch_of counter_of int_value
stats_of m (inl e) z = (failed_stats e, false)
stats_of m (inr t) (z, some e) = (failed_stats e, false)
stats_of m (inr t) (z, none) = (
  record {
    sent = int_value 64 m.sent;
    received = int_value 64 m.recv;
    node_count = int_value 64 m.ncnt;
    min_latency = int_value 64 m.min_lat;
    avg_latency = int_value 64 m.avg_lat;
    max_latency = int_value 64 m.max_lat;
    connections = int_value 64 m.cons;
    outstanding = int_value 64 m.outs;
    epoch = epoch_of z;
    counter = counter_of z;
    build_time = some t;
    mode = srvr_mode m.mode;
    version = m.version;
    error = none;
  },
  true,
)

-- A nil slice has no bytes.
abbrev pub slice_of : Option Slice → Slice
slice_of none = record { len = 0; mem = [] }
slice_of (some s) = s

-- if bytes.Equal(response[:4], []byte("imok")); the slice is bounded by the capacity.
unfoldable pub ruok_of : Option Slice × Option Error → Result Bool
ruok_of (r, some e) = ok false
ruok_of (r, none) = slice_range 0 4 (slice_of r) >>= λ w. ok (bytes_eq (contents w) (str "imok"))

-- bufio.Scanner: a line ends before its newline and a carriage return; one of 64 KB ends the scan.
abbrev pub max_scan_token_size : ℕ
max_scan_token_size = 64 * 1024

unfoldable pub drop_return : Bytes → Bytes
drop_return [] = []
drop_return (b ∷ []) = if b == 13 then [] else b ∷ []
drop_return (b ∷ c ∷ r) = b ∷ drop_return (c ∷ r)

unfoldable pub scan_tokens : ℕ → List Bytes → List Bytes
unfolding drop_return
scan_tokens limit [] = []
scan_tokens limit (l ∷ ls) =
    let rest = scan_tokens limit ls in if ltb (length l) limit then drop_return l ∷ rest else []

unfoldable pub client_of : ConsMatch → ServerClient
unfolding int_value parse_int64
client_of m = record {
  queued = int_value 64 m.queued;
  received = int_value 64 m.recvd;
  sent = int_value 64 m.sent;
  session_id = int_value 64 m.sid;
  lcxid = (parse_int64 m.lcxid).0;
  lzxid = (parse_int64 m.lzxid).0;
  timeout = to_int32 (uint32 (int_value 32 m.timeout));
  last_latency = to_int32 (uint32 (int_value 32 m.llat));
  min_latency = to_int32 (uint32 (int_value 32 m.min_lat));
  avg_latency = to_int32 (uint32 (int_value 32 m.avg_lat));
  max_latency = to_int32 (uint32 (int_value 32 m.max_lat));
  established = int_value 64 m.est;
  last_response = int_value 64 m.lresp;
  addr = m.addr;
  last_operation = m.lop;
}

-- What FLWCons holds while it reads the lines of a server: sc[i], the clients, and imOk.
pub record Scanned : Type 0 where
  pub entry : Option ServerClients
  pub clients : List ServerClient
  pub im_ok : Bool

module _ {T : Type 0} (lib : Library T) where
  unfoldable pub srvr_response : Option Slice × Option Error → ServerStats T × Bool
  unfolding stats_of parse_int failed_stats
  srvr_response (r, some e) = (failed_stats e, false)
  srvr_response (r, none) = elim (lib.match_srvr (contents (slice_of r))) [
    | none ↦ (failed_stats unparsed_response, false)
    | some m ↦ stats_of m (lib.parse_time m.built) (parse_int 64 m.zxid)
  ]

  -- The loop of FLWSrvr; a server that fails takes imOk away.
  unfoldable pub srvr_all : List Bytes → List (ServerStats T) × Bool
  unfolding srvr_response four_letter_word
  srvr_all [] = ([], true)
  srvr_all (s ∷ ss) =
      let r = srvr_response (four_letter_word (lib.fetch s (str "srvr"))) in
      let rest = srvr_all ss in (r.0 ∷ rest.0, r.1 && rest.1)

  unfoldable pub flw_srvr : List Bytes → List (ServerStats T) × Bool
  unfolding srvr_all format_servers
  flw_srvr servers = srvr_all (format_servers servers)

  unfoldable pub ruok_all : List Bytes → Result (List Bool)
  unfolding ruok_of four_letter_word
  ruok_all [] = ok []
  ruok_all (s ∷ ss) = ruok_of (four_letter_word (lib.fetch s (str "ruok"))) >>= λ b.
      ruok_all ss >>= λ bs. ok (b ∷ bs)

  unfoldable pub flw_ruok : List Bytes → Result (List Bool)
  unfolding ruok_all format_servers
  flw_ruok servers = ruok_all (format_servers servers)

  -- The body of the loop over the lines.
  unfoldable pub scan_line : Bytes → Scanned → Scanned
  unfolding client_of
  scan_line [] a = a
  scan_line (b ∷ l) a = elim (lib.match_cons (b ∷ l)) [
    | none ↦ record a {
      entry = some (record { clients = []; error = some unparsed_response });
      im_ok = false;
    }
    | some m ↦ record a { clients = a.clients ++ (client_of m ∷ []) }
  ]

  unfoldable pub scan_lines : List Bytes → Scanned → Scanned
  unfolding scan_line
  scan_lines [] a = a
  scan_lines (l ∷ ls) a = scan_lines ls (scan_line l a)

  -- The round of FLWCons for a server: sc[i], and whether imOk is left as it was.
  unfoldable pub cons_response : Option Slice × Option Error → ServerClients × Bool
  unfolding scan_lines scan_tokens
  cons_response (r, some e) = (record { clients = []; error = some e }, false)
  cons_response (r, none) =
      let a =
        scan_lines (scan_tokens max_scan_token_size (split 10 (contents (slice_of r))))
          (record { entry = none; clients = []; im_ok = true }) in
      (record { clients = a.clients; error = none }, a.im_ok)

  unfoldable pub cons_all : List Bytes → List ServerClients × Bool
  unfolding cons_response four_letter_word
  cons_all [] = ([], true)
  cons_all (s ∷ ss) =
      let r = cons_response (four_letter_word (lib.fetch s (str "cons"))) in
      let rest = cons_all ss in (r.0 ∷ rest.0, r.1 && rest.1)

  unfoldable pub flw_cons : List Bytes → List ServerClients × Bool
  unfolding cons_all format_servers
  flw_cons servers = cons_all (format_servers servers)
