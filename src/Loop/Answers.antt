-- ===== src/Loop/Answers.antt =====
-- The channels of requests over the whole life of a connection in zk/conn.go.
use go_zookeeper.Base.{List, Bool, some, Bytes, ℕ, ℤ, Option, ◌≡◌, ◌∷◌, refl}
use go_zookeeper.Conn.{AuthCreds, new_request, Conn, Request, set_state, send_event}
use go_zookeeper.Conn.Flush.{flush_requests, flush_unsent_requests}
use go_zookeeper.Conn.Answers.{Ensures-ok}
use go_zookeeper.Watch.{invalidate_watches}
use go_zookeeper.Conn.Stays.{send_ping-Stays, authenticate-Settled}
use go_zookeeper.Loop.{
  submitted, serving, take_server, Sender, Receiver, panic, dial, after_session, use_server, err,
  after_receive, after_auth, ◌>>=◌, ok, Result, HostProvider, receiving, Session, quit_connect,
  submit, restore, finish_loop,
}
use go_zookeeper.Loop.Bounds.{receive_packet-Rounds}
use go_zookeeper.Loop.Run.{
  remembers, Move, takes_server, waits, quits, dials, authenticates, resends, submits, hears,
  gives_up, restores, starts, sends, pings, hangs_up, receives, joins, ends, finishes, queues,
  closes, requeues, rehears,
}
use go_zookeeper.Conn.{no_func}
use go_zookeeper.Constants.{closing, Error, op_set_auth, op_set_watches}
use go_zookeeper.Wire.Structs.{empty_type}
use go_zookeeper.Conn.Restore.{set_watches_value}
use go_zookeeper.Loop.{set_auth_value}
use go_zookeeper.Loop.States.{IsLoop}
use go_zookeeper.Loop.Turns.{close_lem, Serves}
use mathlib.Core.List.{Nodup, Mem}
use mathlib.Core.Logic.{◌≢◌}
use go_zookeeper.Base.{none, some, [], ◌∷◌, Option, Bytes}
use go_zookeeper.Conn.Accounts.{
  unsent, pending, answered, flush_requests-perm, flush_unsent-perm, queue_request-perm,
}
use go_zookeeper.Wire.{◌>>=◌}
use go_zookeeper.Loop.Moves.{Move-Turns}
use go_zookeeper.Loop.Starts.{connect-IsLoop, connect-IsSound}
use go_zookeeper.Loop.Connect.{ConnOption, connect}
use go_zookeeper.Base.{◌++◌, ◌<◌, ◌↔◌}
use go_zookeeper.Conn.Answers.{IsSound, Step, Step-IsSound}
use go_zookeeper.Outcome.{Outcome, done, failed, crashed}
use go_zookeeper.Conn.Sends.{IsNew}
use go_zookeeper.Conn.Send.{WriteResult, write_failed, send_next, send_data}
use go_zookeeper.Loop.Kept.{
  Kept, Delivers, IsSound-Kept, IsSound-next, Unmoved-Kept, send_request-IsSound, use_server-Kept,
  dial-Kept, after_auth-Kept, after_session-Kept, after_send-IsSound, after_receive-Kept,
}

-- The steps that send a request do so under a xid that is not pending, and their write does not fail.
abbrev pub IsClean : {H : Type 0} {hp : HostProvider H} {s t : Session H} → Move hp s t → Type 0
IsClean (submits net {s} {cred} e r) =
    Delivers net (new_request op_set_auth (set_auth_value cred) empty_type no_func s.conn).1 s.conn
IsClean (sends net {s} e r) =
    ((e : Error) → net ≢ write_failed e)
    × ((req : Request) (rest : List Request) → s.conn.send_chan ≡ req ∷ rest → IsNew req s.conn)
IsClean m = Unit

-- The steps from `s` on, each of them clean.
pub data CleanReach {H : Type 0} (hp : HostProvider H) (s : Session H) : Session H → Type 0 where
  at_start : CleanReach hp s s
  followed :
      {t u : Session H} → CleanReach hp s t → (m : Move hp t u) → IsClean m → CleanReach hp s u

submitted-IsSound :
    {H : Type 0} (s : Session H) (creds : List AuthCreds) (snd : Sender) (rcv : Receiver)
    (r : Result (Conn × ℕ × Option Error)) {t : Session H}
    → ((q : Conn × ℕ × Option Error) → r ≡ ok q → IsSound q.0)
    → (r >>= λ r. ok (record s { conn = r.0; phase = serving (submitted creds r.1 r.2) snd rcv }))
      ≡ ok t
    → IsSound t.conn
submitted-IsSound s creds snd rcv (ok q) {t} k e =
    let same : Path (Session _)
        (record s { conn = q.0; phase = serving (submitted creds q.1 q.2) snd rcv }) t =
      cc in
    rw (← same) (k q refl)
submitted-IsSound s creds snd rcv (err f) k e = cc
submitted-IsSound s creds snd rcv (panic f) k e = cc

next-IsSound :
    (net : WriteResult) (c : Conn) (rs : List Request) {p : Conn × Option Error}
    → c.send_chan ≡ rs
    → ((e : Error) → net ≢ write_failed e)
    → ((req : Request) (rest : List Request) → rs ≡ req ∷ rest → IsNew req c)
    → send_next net c ≡ some (ok p)
    → IsSound c
    → IsSound p.0
unfolding send_next
next-IsSound net c [] {p} h w new e s =
    let e' : Path (Option (Result (Conn × Option Error))) none (some (ok p)) =
      rw (h, send_next) at e in
    cc
next-IsSound net c (req ∷ rest) {p} h w new e s =
    let sent = send_data net req (record c { send_chan = rest }) in
    let e' : Path (Option (Result (Conn × Option Error))) (some sent) (some (ok p)) =
      rw (h, send_next) at e in
    let e'' : sent ≡ ok p = cc in
    Step-IsSound (Step.sends net req rest {c = c} h (new req rest refl) w e'') s

taken-Kept :
    {H : Type 0} (hp : HostProvider H) (s : Session H) (r : Outcome (H × Bytes × Bool))
    {t : Session H}
    → hp.next s.hosts ≡ r
    → take_server hp s ≡ done t
    → Kept s.conn t.conn
unfolding take_server
taken-Kept hp s (done (h, server, retry)) {t} n e =
    let e' : Path (Outcome (Session _)) (done (use_server h server retry s)) (done t) =
      rw (n, take_server) at e in
    let same : use_server h server retry s ≡ t = cc in
    rw (← same) (use_server-Kept h server retry s)
taken-Kept hp s (failed f) {t} n e =
    let e' : Path (Outcome (Session _)) (failed f) (done t) = rw (n, take_server) at e in cc
taken-Kept hp s crashed {t} n e =
    let e' : Path (Outcome (Session _)) crashed (done t) = rw (n, take_server) at e in cc

module _ {H : Type 0} {hp : HostProvider H} where
  Move-IsSound :
      {s t : Session H} (m : Move hp s t) → IsClean m → IsLoop s → IsSound s.conn → IsSound t.conn
  unfolding submit quit_connect restore finish_loop set_state send_event invalidate_watches
  Move-IsSound (takes_server {s} {t} e r) k j i =
      IsSound-Kept s.conn t.conn (taken-Kept hp s _ refl r) i
  Move-IsSound (waits e) k j i = i
  Move-IsSound (quits {s} e q) k j i =
      IsSound-Kept s.conn (quit_connect s).conn
        (flush_unsent-perm closing s.conn, unfold flush_unsent_requests in refl) i
  Move-IsSound (dials {s} e r) k j i = IsSound-Kept s.conn (dial r s).conn (dial-Kept r s) i
  Move-IsSound (authenticates net {s} {p} e r) k j i =
      IsSound-Kept s.conn (after_auth hp s p).conn
        (after_auth-Kept hp s p (authenticate-Settled net s.conn r)) i
  Move-IsSound (resends e) k j i = i
  Move-IsSound (submits net {s} {t} {cred} {creds} {snd} {rcv} e r) k j i =
      submitted-IsSound s creds snd rcv _
        (λ q h.
          send_request-IsSound net op_set_auth (set_auth_value cred) empty_type no_func s.conn k h
            i)
        r
  Move-IsSound (hears e r) k j i = i
  Move-IsSound (gives_up e r) k j i = i
  Move-IsSound (restores e) k j i = i
  Move-IsSound (starts e r p) k j i = i
  Move-IsSound (sends net {s} {m} {rcv} {p} e r) (w, new) j i =
      after_send-IsSound m rcv s p (next-IsSound net s.conn _ refl w new r i)
  Move-IsSound (pings net {s} {m} {rcv} {p} e r) k j i =
      after_send-IsSound m rcv s p
        (IsSound-Kept s.conn p.0 (Unmoved-Kept s.conn p.0 (send_ping-Stays net s.conn r).1) i)
  Move-IsSound (hangs_up e q) k j i = i
  Move-IsSound (receives r {s} {m} {snd} {buf} {p} e f q) k j i =
      let j' : Serves s m snd (receiving buf) = rw e at j in
      let rounds = Ensures-ok (receive_packet-Rounds r s.max_buffer_size buf s.conn j'.2.1) p q in
      IsSound-Kept s.conn (after_receive m snd s p).conn (after_receive-Kept m snd s p rounds) i
  Move-IsSound (joins e) k j i = i
  Move-IsSound (ends {s} {e = f} e) k j i =
      IsSound-Kept s.conn (after_session f s).conn (after_session-Kept f s) i
  Move-IsSound (finishes {s} e) k j i =
      IsSound-Kept s.conn (finish_loop s).conn
        (flush_requests-perm closing s.conn, unfold flush_requests in refl) i
  Move-IsSound (queues opcode pkt y f {s} {c} e) k j i =
      let (p, n) = queue_request-perm opcode pkt y f s.conn e in IsSound-next s.conn c p n i
  Move-IsSound (remembers cred e) k j i = i
  Move-IsSound (closes {s} e) k j i = rw (← close_lem s e) i
  Move-IsSound (requeues rs qs r reqs {s} {c} e f) k j i =
      let (p, n) =
        queue_request-perm op_set_watches (set_watches_value r) empty_type no_func s.conn f in
      IsSound-next s.conn c p n i
  Move-IsSound (rehears rs qs ch reqs e f) k j i = i

  CleanReach-IsSound :
      {s t : Session H} → IsLoop s → IsSound s.conn → CleanReach hp s t → IsLoop t × IsSound t.conn
  CleanReach-IsSound j i at_start = (j, i)
  CleanReach-IsSound j i (followed r m k) =
      let (j', i') = CleanReach-IsSound j i r in ((Move-Turns m j').0, Move-IsSound m k j' i')

  -- From Connect on, over all sessions: every channel of a request that was handed out stands at exactly one
  -- place: its request waits in sendChan, is pending, or was answered, once. The steps that send
  -- a request do so under an xid that is not pending already, and their write does not fail.
  pub connect-answered_once :
      (rand : ℕ → ℕ) (size : ℕ) (servers : List Bytes) (timeout : ℤ) (os : List ConnOption)
      {s t : Session H}
      → connect hp rand size servers timeout os ≡ done s
      → CleanReach hp s t
      → Nodup (unsent t.conn.send_chan ++ (pending t.conn.requests ++ answered t.conn.responses))
        × ((ch : ℕ)
            → Mem ch
                (unsent t.conn.send_chan ++ (pending t.conn.requests ++ answered t.conn.responses))
              ↔ (ch < t.conn.next_chan))
  connect-answered_once rand size servers timeout os e r =
      let loop = connect-IsLoop hp rand size servers timeout os e in
      let sound = connect-IsSound hp rand size servers timeout os e in
      let f = (CleanReach-IsSound loop sound r).1 in (f.distinct, λ a. (f.below a, f.all_stand a))
