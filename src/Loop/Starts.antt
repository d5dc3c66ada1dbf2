-- ===== src/Loop/Starts.antt =====
-- Connect of zk/conn.go: its options, and the connection that it returns.
use go_zookeeper.Conn.Stays.{Unmoved}
use go_zookeeper.Conn.Answers.{IsSound}
use go_zookeeper.Channels.{AllBelow-nil}
use go_zookeeper.Base.{
  pos, length, ◌==◌, ℕ, ◌≡◌, inl, inr, refl, ◌∙◌, ℤ, Bytes, true, false, List, [], ◌∷◌, Bool-cases,
}
use go_zookeeper.Conn.{Conn}
use go_zookeeper.Outcome.{Outcome, done, failed, bind-done}
use go_zookeeper.Loop.{HostProvider, connecting, Session}
use go_zookeeper.Loop.Connect.{
  ConnOption, with_event_callback, with_max_buffer_size, with_max_conn_buffer_size, make_bytes,
  apply_option, apply_options, fresh_conn, connect, timeout_ms,
}
use go_zookeeper.Conn.Connect.{set_timeouts}
use go_zookeeper.Hosts.{format_servers, string_shuffle}
use go_zookeeper.Constants.{no_servers_given}
use go_zookeeper.Loop.States.{IsLoop}

-- The state, and every request where it stood.
abbrev Settings : Conn × ℤ → Conn × ℤ → Type 0
Settings p q = (q.0.state ≡ p.0.state) × Unmoved p.0 q.0

option_state :
    (o : ConnOption) (p : Conn × ℤ) {q : Conn × ℤ} → apply_option o p ≡ done q → Settings p q
unfolding apply_option
option_state with_event_callback (c, max) {q} e =
    let same : Path (Conn × ℤ) (record c { event_callback = true }, max) q = cc in
    rw (← same) (refl, (refl, refl, refl, refl))
option_state (with_max_buffer_size n) (c, max) {q} e =
    let same : Path (Conn × ℤ) (c, n) q = cc in rw (← same) (refl, (refl, refl, refl, refl))
option_state (with_max_conn_buffer_size n) (c, max) {q} e =
    let (buf, h, same) = bind-done (make_bytes n) (λ buf. done (record c { buf = buf }, max)) e in
    let same : Path (Conn × ℤ) (record c { buf = buf }, max) q = cc in
    rw (← same) (refl, (refl, refl, refl, refl))

pub options_state :
    (os : List ConnOption) (p : Conn × ℤ) {q : Conn × ℤ}
    → apply_options os p ≡ done q
    → Settings p q
unfolding apply_options
options_state [] p {q} e = let same : p ≡ q = cc in rw (← same) (refl, (refl, refl, refl, refl))
options_state (o ∷ os) p e =
    let (p', h, rest) = bind-done (apply_option o p) (apply_options os) e in
    let (f, (f1, f2, f3, f4)) = option_state o p h in
    let (g, (g1, g2, g3, g4)) = options_state os p' rest in
    (g ∙ f, (g1 ∙ f1, g2 ∙ f2, g3 ∙ f3, g4 ∙ f4))

abbrev pub started : {H : Type 0} → H → Conn × ℤ → ℤ → Session H
started h p timeout = record {
  hosts = h;
  conn = set_timeouts (timeout_ms timeout) p.0;
  phase = connecting;
  should_quit = false;
  max_buffer_size = p.1;
  restorers = [];
}

pub connected_with :
    {H : Type 0} (hp : HostProvider H) (rand : ℕ → ℕ) (size : ℕ) (servers : List Bytes) (t : ℤ)
    (os : List ConnOption) {s : Session H}
    → connect hp rand size servers t os ≡ done s
    → (h : H) × (p : Conn × ℤ) × (apply_options os (fresh_conn size, pos 0) ≡ done p)
      × (started h p t ≡ s)
unfolding connect
connected_with hp rand size servers t os {s} e = elim (Bool-cases (length servers == 0)) [
  | inl l ↦ let e' : Path (Outcome (Session _)) (failed no_servers_given) (done s) = rw l at e in cc
  | inr l ↦
      let (srvs, h1, e1) = bind-done (string_shuffle rand (format_servers servers)) _ (rw l at e) in
      let (p, h2, e2) = bind-done (apply_options os (fresh_conn size, pos 0)) _ e1 in
      let (h, h3, e3) = bind-done (hp.init srvs) _ e2 in (h, p, h2, cc)
]

pub connect-IsLoop :
    {H : Type 0} (hp : HostProvider H) (rand : ℕ → ℕ) (size : ℕ) (servers : List Bytes) (t : ℤ)
    (os : List ConnOption) {s : Session H}
    → connect hp rand size servers t os ≡ done s
    → IsLoop s
unfolding set_timeouts fresh_conn
connect-IsLoop hp rand size servers t os e =
    let (h, p, o, same) = connected_with hp rand size servers t os e in
    rw (← same) (inl (options_state os (fresh_conn size, pos 0) o).0)

pub connect-IsSound :
    {H : Type 0} (hp : HostProvider H) (rand : ℕ → ℕ) (size : ℕ) (servers : List Bytes) (t : ℤ)
    (os : List ConnOption) {s : Session H}
    → connect hp rand size servers t os ≡ done s
    → IsSound s.conn
unfolding set_timeouts fresh_conn
connect-IsSound hp rand size servers t os e =
    let (h, p, o, same) = connected_with hp rand size servers t os e in
    let (f, (a, b, r, n)) = options_state os (fresh_conn size, pos 0) o in
    rw (← same) (rw (a, b, r, n) AllBelow-nil)
