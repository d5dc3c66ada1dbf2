-- ===== src/Loop/Stopped.antt =====
-- After the return of loop in zk/conn.go: what is still sent, and what becomes of the requests that wait.
use go_zookeeper.Base.{
  inl, ◌⊎◌, Bool-cases, ◌∷◌, some, [], ℕ, ◌∙◌, List, ◌++◌, ℤ, inr, ◌≡◌, append-nil, append_assoc,
  sym, ap, ltb, length, none, Option,
}
use mathlib.Core.Logic.{◌≢◌}
use go_zookeeper.Wire.Value.{Kind, Value}
use go_zookeeper.Conn.{Conn, RecvFunc, Request, queue_request, new_request, next_xid}
use go_zookeeper.Base.{refl}
use go_zookeeper.Conn.Flush.{flush_requests}
use go_zookeeper.Watch.{invalidate_watches}
use go_zookeeper.Loop.Turns.{close_lem}
use go_zookeeper.Loop.{stopped, Phase, HostProvider, returned, Session, finish_loop}
use go_zookeeper.Loop.Run.{
  remembers, Move, takes_server, waits, quits, dials, authenticates, resends, submits, hears,
  gives_up, restores, starts, sends, pings, hangs_up, receives, joins, ends, finishes, queues,
  closes, requeues, rehears,
}
use go_zookeeper.Conn.{no_func}
use go_zookeeper.Constants.{op_set_watches}
use go_zookeeper.Wire.Structs.{empty_type}
use go_zookeeper.Conn.Restore.{set_watches_value}
use go_zookeeper.Loop.Run.{Reach, here, later}

abbrev pub HasQuit : Phase → Type 0
HasQuit p = (p ≡ returned) ⊎ (p ≡ stopped)

-- The requests in sendChan stay, and others come behind them.
abbrev pub Waits : Conn → Conn → Type 0
Waits c d = (rest : List Request) × (d.send_chan ≡ c.send_chan ++ rest)

-- What was sent to the callers, to the event channel, to the callback, to the watchers and to the network.
abbrev pub IsSilent : Conn → Conn → Type 0
IsSilent c d =
    (d.responses ≡ c.responses)
    × (d.event_chan ≡ c.event_chan)
    × (d.calls ≡ c.calls)
    × (d.watches ≡ c.watches)
    × (d.frames ≡ c.frames)

not_quit : {A : Type 0} {p q : Phase} → p ≡ q → HasQuit p → (returned ≢ q) × (stopped ≢ q) → A
not_quit e (inl h) n = absurd (n.0 (cc))
not_quit e (inr h) n = absurd (n.1 (cc))

queued :
    (opcode : ℤ) (pkt : Value) (k : Kind) (f : RecvFunc) (c : Conn) {d : Conn} {ch : ℕ}
    → queue_request opcode pkt k f c ≡ some (d, ch)
    → Waits c d × IsSilent c d
unfolding queue_request new_request next_xid
queued opcode pkt k f c {d} {ch} e =
    let rq = (new_request opcode pkt k f c).1 in
    let queued : Conn = record (new_request opcode pkt k f c).0 {
      send_chan = c.send_chan ++ (rq ∷ []);
    } in
    elim (Bool-cases (ltb (length c.send_chan) 16)) [
      | inl h ↦
          let same : Path (Option (Conn × ℕ)) (some (queued, c.next_chan)) (some (d, ch)) =
            rw h at e in
          let eq : queued ≡ d = cc in rw (← eq) ((rq ∷ [], refl), (refl, refl, refl, refl, refl))
      | inr h ↦ let none_left : Path (Option (Conn × ℕ)) none (some (d, ch)) = rw h at e in cc
    ]

-- After the return of loop.
abbrev Quits : {H : Type 0} → Session H → Session H → Type 0
Quits s t =
    HasQuit t.phase
    × Waits s.conn t.conn
    × (s.phase ≡ stopped → (t.phase ≡ stopped) × IsSilent s.conn t.conn)

still_there : (c : Conn) → Waits c c
still_there c = ([], sym (append-nil c.send_chan))

module _ {H : Type 0} {hp : HostProvider H} where
  Move-Quits : {s t : Session H} → Move hp s t → HasQuit s.phase → Quits s t
  unfolding finish_loop flush_requests invalidate_watches
  Move-Quits (takes_server e r) h = not_quit e h (cc, cc)
  Move-Quits (waits e) h = not_quit e h (cc, cc)
  Move-Quits (quits e q) h = not_quit e h (cc, cc)
  Move-Quits (dials e r) h = not_quit e h (cc, cc)
  Move-Quits (authenticates net e r) h = not_quit e h (cc, cc)
  Move-Quits (resends e) h = not_quit e h (cc, cc)
  Move-Quits (submits net e r) h = not_quit e h (cc, cc)
  Move-Quits (hears e r) h = not_quit e h (cc, cc)
  Move-Quits (gives_up e r) h = not_quit e h (cc, cc)
  Move-Quits (restores e) h = not_quit e h (cc, cc)
  Move-Quits (starts e r p) h = not_quit e h (cc, cc)
  Move-Quits (sends net e r) h = not_quit e h (cc, cc)
  Move-Quits (pings net e r) h = not_quit e h (cc, cc)
  Move-Quits (hangs_up e q) h = not_quit e h (cc, cc)
  Move-Quits (receives r e f q) h = not_quit e h (cc, cc)
  Move-Quits (joins e) h = not_quit e h (cc, cc)
  Move-Quits (ends e) h = not_quit e h (cc, cc)
  Move-Quits (finishes {s} e) h =
      (inr refl, still_there s.conn, λ p. let no : Path Phase returned stopped = sym e ∙ p in cc)
  Move-Quits (queues opcode pkt k f {s} e) h =
      let (w, q) = queued opcode pkt k f s.conn e in (h, w, λ p. (p, q))
  Move-Quits (remembers cred {s} e) h =
      (h, still_there s.conn, λ p. (p, (refl, refl, refl, refl, refl)))
  Move-Quits (closes {s} e) h =
      rw (← close_lem s e) (h, still_there s.conn, λ p. (p, (refl, refl, refl, refl, refl)))
  Move-Quits (requeues rs qs r reqs {s} e f) h =
      let (w, q) = queued op_set_watches (set_watches_value r) empty_type no_func s.conn f in
      (h, w, λ p. (p, q))
  Move-Quits (rehears rs qs ch reqs {s} e f) h =
      (h, still_there s.conn, λ p. (p, (refl, refl, refl, refl, refl)))

  Reach-Quits : {s t : Session H} → HasQuit s.phase → Reach hp s t → Quits s t
  Reach-Quits {s} h here = (h, still_there s.conn, λ p. (p, (refl, refl, refl, refl, refl)))
  Reach-Quits {s} h (later {t} r m) =
      let (h1, (as', e), k1) = Reach-Quits h r in
      let (h2, (bs, f), k2) = Move-Quits m h1 in
      (
        h2,
        (as' ++ bs, f ∙ (ap (λ xs. xs ++ bs) e ∙ append_assoc s.conn.send_chan as' bs)),
        λ p.
            let (p1, (a1, a2, a3, a4, a5)) = k1 p in
            let (p2, (b1, b2, b3, b4, b5)) = k2 p1 in
            (p2, (b1 ∙ a1, b2 ∙ a2, b3 ∙ a3, b4 ∙ a4, b5 ∙ a5)),
      )

  -- After the return of loop no request leaves sendChan: whatever steps follow, those that waited in it
  -- still wait, in their order, and before those that are queued later.
  pub Reach-Waits :
      {s t : Session H} → HasQuit s.phase → Reach hp s t → HasQuit t.phase × Waits s.conn t.conn
  Reach-Waits h r = let (a, b, c) = Reach-Quits h r in (a, b)

  -- After the end of the goroutine of loop nothing more is sent: no response on a channel of a request, no
  -- event on the event channel, to the callback or to a watcher, and no frame.
  pub stopped-IsSilent :
      {s t : Session H}
      → s.phase ≡ stopped
      → Reach hp s t
      → (t.phase ≡ stopped) × IsSilent s.conn t.conn
  stopped-IsSilent p r = (Reach-Quits (inr p) r).2 p
