-- ===== src/Lock/Acquire.antt =====
-- The wait of Lock in zk/lock.go: what a lock has seen that is acquired.
use go_zookeeper.Base.{
  ℕ, zero, suc, ◌≡◌, refl, ap, ◌∙◌, ℤ, Bytes, Option, none, some, List, ◌∷◌, ◌++◌,
}
use go_zookeeper.Constants.{Error, no_node}
use go_zookeeper.Wire.{ok}
use go_zookeeper.Wire.Value.{Value}
use go_zookeeper.Watch.{Event}
use go_zookeeper.Conn.{Conn}
use go_zookeeper.Paths.{Utf8}
use go_zookeeper.Client.{Call, returns, World, run}
use go_zookeeper.Client.Calls.{children, get_w}
use go_zookeeper.Client.Running.{run-bind_ok}
use go_zookeeper.Lock.{
  Lock, Choice, acquired, behind, refused, choose, after_event, after_watch, follow, after_children,
  await,
}

module _ (atoi : Bytes → ℤ × Option Error) (u : Utf8) (w : World) (l : Lock) (seq : ℤ)
    (c' : Conn) where
  -- The last thing that was done is a Children of the lock's path, whose names say that the lock is acquired.
  abbrev pub HasSeen : Type 0
  HasSeen =
      (c : Conn) × (names : List Bytes) × (stat : Option Value) × (run w (children u l.path) c
        ≡ ok (c', (names, stat, none)))
      × (choose atoi seq names ≡ acquired)

  abbrev LeadsToSeen : Call (Option Error) → Type 0
  LeadsToSeen m = (c : Conn) → run w m c ≡ ok (c', none) → HasSeen

  after_event-HasSeen :
      (again : Call (Option Error))
      → LeadsToSeen again
      → (ev : Event) → LeadsToSeen (after_event atoi u l again ev)
  unfolding after_event run
  after_event-HasSeen again i ev c h = go ev.err h
    where
      go :
          (e : Option Error)
          → run w (elim e [ some x ↦ returns (some x) | none ↦ again ]) c ≡ ok (c', none)
          → HasSeen
      go (some x) k = cc
      go none k = i c k

  after_watch-HasSeen :
      (again : Call (Option Error))
      → LeadsToSeen again
      → (r : Option Bytes × Option Value × Option ℕ × Option Error)
      → LeadsToSeen (after_watch atoi u l again r)
  unfolding after_watch run
  after_watch-HasSeen again i (dat, stat, ch, none) c h =
      let (c₁, ev) = w.event ch c in after_event-HasSeen again i ev c₁ h
  after_watch-HasSeen again i (dat, stat, ch, some no_node) c h = i c h
  after_watch-HasSeen again i (dat, stat, ch, some e) c h = cc

  follow-HasSeen :
      (again : Call (Option Error)) (c c₁ : Conn) (names : List Bytes) (stat : Option Value)
      (choice : Choice)
      → LeadsToSeen again
      → run w (children u l.path) c ≡ ok (c₁, (names, stat, none))
      → choose atoi seq names ≡ choice
      → run w (follow atoi u l again choice) c₁ ≡ ok (c', none)
      → HasSeen
  unfolding follow
  follow-HasSeen again c c₁ names stat acquired i e f h =
      let place : c₁ ≡ c' = unfold run in cc in
      (c, names, stat, e ∙ ap (λ t. ok (t, (names, stat, none))) place, f)
  follow-HasSeen again c c₁ names stat (behind p) i e f h =
      let (c₂, r, e', h') =
        run-bind_ok w (get_w u (l.path ++ (b'/' ∷ p))) (after_watch atoi u l again) c₁ c' none h in
      after_watch-HasSeen again i r c₂ h'
  follow-HasSeen again c c₁ names stat (refused x) i e f h = unfold run in cc

  pub await-HasSeen : (fuel : ℕ) → LeadsToSeen (await atoi u l fuel seq)
  unfolding await
  await-HasSeen zero c h = unfold run in cc
  await-HasSeen (suc n) c h =
      let (c₁, r, e, h') =
        run-bind_ok w (children u l.path) (after_children atoi u l (await atoi u l n seq) seq) c c'
          none h in
      by_children (await-HasSeen n) c₁ r e h'
    where
      by_children :
          LeadsToSeen (await atoi u l n seq)
          → (c₁ : Conn) (r : List Bytes × Option Value × Option Error)
          → run w (children u l.path) c ≡ ok (c₁, r)
          → run w (after_children atoi u l (await atoi u l n seq) seq r) c₁ ≡ ok (c', none)
          → HasSeen
      by_children i c₁ (names, stat, some x) e h = unfold run after_children in cc
      by_children i c₁ (names, stat, none) e h =
          follow-HasSeen (await atoi u l n seq) c c₁ names stat (choose atoi seq names) i e refl
            (unfold after_children in h)
