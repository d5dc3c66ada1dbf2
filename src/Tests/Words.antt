-- ===== src/Tests/Words.antt =====
-- The four-letter words of zk/flw.go on concrete responses.
use go_zookeeper.Base.{
  ◌==◌, ℕ, ◌+◌, ◌*◌, ◌^◌, ◌-◌, ◌≡◌, ◌↔◌, inr, refl, pos, negsuc, is_neg, uint32, uint64, Bytes,
  true, Option, none, some, [], ◌∷◌, arith, str, All, if◌then◌else◌,
}
use go_zookeeper.Wire.{Slice}
use go_zookeeper.Flw.{answered, SrvrMatch, ConsMatch, Library}
use go_zookeeper.Flw.Hex.{hex_string}
use go_zookeeper.Flw.Words.{srvr_response, cons_response, client_of}
use go_zookeeper.Flw.Servers.{srvr_response-zxid}
use go_zookeeper.Flw.Clients.{cons_response-clients, client_of-ids, matches, Parses}
use go_zookeeper.Flw.Lines.{Reads, last_line, next_line}

-- The epoch 3 and the counter 9.
abbrev leader : SrvrMatch
leader = record {
  version = str "3.4.6";
  built = str "02/20/2014 09:09 GMT";
  min_lat = str "0";
  avg_lat = str "1";
  max_lat = str "10";
  recv = str "4207";
  sent = str "4220";
  cons = str "81";
  outs = str "1";
  zxid = hex_string 12884901897;
  mode = str "leader";
  ncnt = str "306";
}

-- A session of the server 255: the first byte of its id is 0xff.
abbrev client : ConsMatch
client = record {
  addr = str "10.42.45.231:45361";
  queued = str "0";
  recvd = str "9435";
  sent = str "9457";
  sid = hex_string (uint64 (negsuc 99));
  lop = str "GETC";
  est = str "1427238717";
  timeout = str "20001";
  lcxid = hex_string (uint64 (pos 85));
  lzxid = hex_string (uint64 (negsuc 0));
  lresp = str "1427259255";
  llat = str "0";
  min_lat = str "0";
  avg_lat = str "1";
  max_lat = str "17";
}

abbrev response : Slice
response = record { len = 3; mem = b'a' ∷ 10 ∷ b'b' ∷ [] }

-- A library whose expression for cons matches the line of one "a" only.
match_a : Bytes → Option ConsMatch
match_a (c ∷ []) = if c == b'a' then some client else none
match_a l = none

abbrev library : Library ℕ
library = record {
  fetch = λ server command. answered response;
  match_srvr = λ s. some leader;
  match_cons = match_a;
  parse_time = λ s. inr 1392887340;
}

srvr_response-zxid_example :
    let r = srvr_response library (some response, none) in
    (r.1 ≡ true)
    × (r.0.error ≡ none)
    × (uint32 r.0.epoch * 2 ^ 32 + uint32 r.0.counter ≡ 12884901897)
srvr_response-zxid_example =
    srvr_response-zxid library response leader 1392887340 12884901897 refl refl refl (omega arith)

response-Reads : Reads (b'a' ∷ 10 ∷ b'b' ∷ []) (str "a" ∷ str "b" ∷ [])
response-Reads =
    next_line (str "a") (str "a") (inr (refl, refl)) (refl, tt) (omega arith)
      (last_line (str "b") (str "b") (inr (refl, refl)) (refl, tt) (omega arith))

cons_response-clients_example :
    ((cons_response library (some response, none)).0.clients
      ≡ matches library (str "a" ∷ str "b" ∷ []))
    × (((cons_response library (some response, none)).1 ≡ true)
        ↔ All (Parses library) (str "a" ∷ str "b" ∷ []))
    × ((cons_response library (some response, none)).0.error ≡ none)
cons_response-clients_example =
    cons_response-clients library response (str "a" ∷ str "b" ∷ []) response-Reads

client_of-ids_example :
    ((client_of client).lcxid ≡ pos 85)
    × ((client_of client).lzxid ≡ negsuc 0)
    × ((client_of client).session_id ≡ (if is_neg (negsuc 99) then pos (2 ^ 63 - 1) else negsuc 99))
client_of-ids_example =
    client_of-ids client (negsuc 99) (pos 85) (negsuc 0) (omega arith) (omega arith) (omega arith)
      refl refl refl
