-- ===== src/Lock/Waiting.antt =====
-- The wait of Lock in zk/lock.go ends, and Lock and Unlock guard against each other.
use go_zookeeper.Base.{
  ℕ, zero, suc, ◌<◌, ◌≡◌, refl, ap, ◌∙◌, ℤ, pos, negsuc, Bytes, bytes_eq, bytes_eq→eq, Bool-cases,
  false, Option, none, some, List, [], ◌∷◌, ◌++◌, ◌⊎◌, inl, inr, All, arith,
}
use go_zookeeper.Constants.{Error, deadlock, no_node, not_locked}
use go_zookeeper.Wire.{ok}
use go_zookeeper.Wire.Value.{Value}
use go_zookeeper.Watch.{Event}
use go_zookeeper.Conn.{Conn}
use go_zookeeper.Paths.{Utf8}
use go_zookeeper.Client.{Call, World, run}
use go_zookeeper.Client.Calls.{children, get_w, delete}
use go_zookeeper.Client.Running.{run-bind, run_next}
use go_zookeeper.Lock.{
  Lock, new_lock, behind, choose, after_event, after_watch, follow, after_children, await, lock,
  unlock, after_delete, parse_seq,
}
use mathlib.Core.List.{Mem}
use go_zookeeper.Lock.Choose.{choose_lem}
use go_zookeeper.Lock.Fewer.{below, Loses, Loses-below}

-- GetW of `q` from `c` finds the node, and the event of its watcher has no error, or reports that there
-- is no such node; afterwards `q` is no child, and no other child below the lock is new.
abbrev pub Passes :
    (Bytes → ℕ) → Utf8 → World → Lock → ℕ → (Conn → List Bytes) → Conn → Bytes → Type 0
Passes num u w l s names_of c q =
    (c₁ : Conn) × (dat : Option Bytes) × (stat : Option Value) × (ch : Option ℕ) × (((run w
            (get_w u (l.path ++ (b'/' ∷ q))) c
          ≡ ok (c₁, (dat, stat, ch, none)))
        × ((w.event ch c₁).1.err ≡ none)
        × Loses num s q (names_of c) (names_of (w.event ch c₁).0))
      ⊎ ((run w (get_w u (l.path ++ (b'/' ∷ q))) c ≡ ok (c₁, (dat, stat, ch, some no_node)))
          × Loses num s q (names_of c) (names_of c₁)))

-- The servers let the lock advance: Children returns the names of the children, all numbered, without an
-- error, and each node that the lock waits on passes.
pub record Advances (atoi : Bytes → ℤ × Option Error) (num : Bytes → ℕ) (u : Utf8) (w : World)
    (l : Lock) (s : ℕ) (names_of : Conn → List Bytes) : Type 0 where
  pub numbered : (c : Conn) → All (λ p. parse_seq atoi p ≡ (pos (num p), none)) (names_of c)
  pub listed :
      (c : Conn)
      → (c₁ : Conn) × (stat : Option Value) × (run w (children u l.path) c
          ≡ ok (c₁, (names_of c, stat, none)))
        × (names_of c₁ ≡ names_of c)
  pub watched :
      (c : Conn) (q : Bytes)
      → choose atoi (pos s) (names_of c) ≡ behind q
      → Passes num u w l s names_of c q

calm_event :
    (atoi : Bytes → ℤ × Option Error) (u : Utf8) (w : World) (l : Lock)
    (again : Call (Option Error)) (ev : Event) (c : Conn)
    → ev.err ≡ none
    → run w (after_event atoi u l again ev) c ≡ run w again c
unfolding after_event
calm_event atoi u w l again ev c calm = rw (after_event, calm)

follow_behind :
    (atoi : Bytes → ℤ × Option Error) (u : Utf8) (w : World) (l : Lock)
    (again : Call (Option Error)) (q : Bytes) (c c₁ : Conn) (dat : Option Bytes)
    (stat : Option Value) (ch : Option ℕ)
    → run w (get_w u (l.path ++ (b'/' ∷ q))) c ≡ ok (c₁, (dat, stat, ch, none))
    → (w.event ch c₁).1.err ≡ none
    → run w (follow atoi u l again (behind q)) c ≡ run w again (w.event ch c₁).0
unfolding follow
follow_behind atoi u w l again q c c₁ dat stat ch e calm =
    run-bind w (get_w u (l.path ++ (b'/' ∷ q))) (after_watch atoi u l again) c
    ∙ ap (run_next w (after_watch atoi u l again)) e
    ∙ (unfold after_watch run in
        calm_event atoi u w l again (w.event ch c₁).1 (w.event ch c₁).0 calm)

follow_gone :
    (atoi : Bytes → ℤ × Option Error) (u : Utf8) (w : World) (l : Lock)
    (again : Call (Option Error)) (q : Bytes) (c c₁ : Conn) (dat : Option Bytes)
    (stat : Option Value) (ch : Option ℕ)
    → run w (get_w u (l.path ++ (b'/' ∷ q))) c ≡ ok (c₁, (dat, stat, ch, some no_node))
    → run w (follow atoi u l again (behind q)) c ≡ run w again c₁
unfolding follow
follow_gone atoi u w l again q c c₁ dat stat ch e =
    run-bind w (get_w u (l.path ++ (b'/' ∷ q))) (after_watch atoi u l again) c
    ∙ ap (run_next w (after_watch atoi u l again)) e
    ∙ (unfold after_watch in refl)

-- Where a node passes, the wait goes on from a connection with fewer children below the lock.
follow-Passes :
    (atoi : Bytes → ℤ × Option Error) (num : Bytes → ℕ) (u : Utf8) (w : World) (l : Lock) (s : ℕ)
    (names_of : Conn → List Bytes) (again : Call (Option Error)) (q : Bytes) (c : Conn)
    → Mem q (names_of c)
    → num q < s
    → Passes num u w l s names_of c q
    → (c' : Conn) × (run w (follow atoi u l again (behind q)) c ≡ run w again c')
      × (below num s (names_of c') < below num s (names_of c))
follow-Passes atoi num u w l s names_of again q c m lt (c₁, dat, stat, ch, inl (e, calm, lost)) = (
  (w.event ch c₁).0,
  follow_behind atoi u w l again q c c₁ dat stat ch e calm,
  Loses-below num s q (names_of c) (names_of (w.event ch c₁).0) m lt lost,
)
follow-Passes atoi num u w l s names_of again q c m lt (c₁, dat, stat, ch, inr (e, lost)) = (
  c₁,
  follow_gone atoi u w l again q c c₁ dat stat ch e,
  Loses-below num s q (names_of c) (names_of c₁) m lt lost,
)

-- Where Children never fails and names children that all have numbers, and GetW of each node that the lock
-- waits on either finds it and then an event of its watcher without an error follows, or reports
-- ErrNoNode, after which this node is no child any more and no child with a lower number than that
-- of the lock was added, the wait for the lock ends without an error, after at most one round more
-- than there are children with lower numbers.
pub await-ends :
    (atoi : Bytes → ℤ × Option Error) (num : Bytes → ℕ) (u : Utf8) (w : World) (l : Lock) (s : ℕ)
    (names_of : Conn → List Bytes) (fuel : ℕ) (c : Conn)
    → Advances atoi num u w l s names_of
    → below num s (names_of c) < fuel
    → (c' : Conn) × (run w (await atoi u l fuel (pos s)) c ≡ ok (c', none))
unfolding await
await-ends atoi num u w l s names_of zero c a h = absurd (omega arith)
await-ends atoi num u w l s names_of (suc n) c a h =
    let (c₁, stat, e, same) = a.listed c in
    let again = await atoi u l n (pos s) in
    let step : run w (await atoi u l (suc n) (pos s)) c
        ≡ run w (follow atoi u l again (choose atoi (pos s) (names_of c))) c₁ =
      run-bind w (children u l.path) (after_children atoi u l again (pos s)) c
      ∙ ap (run_next w (after_children atoi u l again (pos s))) e in
    elim (choose_lem atoi num s (names_of c) (a.numbered c)) [
      | inl (chosen, low) ↦ (
        c₁,
        step ∙ ap (λ t. run w (follow atoi u l again t) c₁) chosen ∙ (unfold follow run in refl),
      )
      | inr (q, chosen, m, lt, most) ↦
          let (c₂, next, fewer) =
            follow-Passes atoi num u w l s names_of again q c₁ (rw (same) m) lt
              (a.watched c₁ q (ap (choose atoi (pos s)) same ∙ chosen)) in
          let count : below num s (names_of c₁) ≡ below num s (names_of c) =
            ap (below num s) same in
          let (c', rest) =
            await-ends atoi num u w l s names_of n c₂ a (omega (arith, fewer, count, h)) in
          (c', step ∙ ap (λ t. run w (follow atoi u l again t) c₁) chosen ∙ next ∙ rest)
    ]

released :
    (u : Utf8) (w : World) (l : Lock) (c : Conn) (e : Option Error)
    → run w (after_delete u l e) c
      ≡ ok (c, (elim e [ some x ↦ (l, some x) | none ↦ (new_lock l.path l.acl, none) ]))
unfolding after_delete run
released u w l c (some x) = refl
released u w l c none = refl

-- A lock that is held is not taken again, one that is not held is not released, and neither asks the server.
-- A release that the server grants leaves the lock as new; one that it refuses leaves it as it was. Delete does not panic.
pub lock-guards :
    (atoi : Bytes → ℤ × Option Error) (u : Utf8) (w : World) (l : Lock) (fuel : ℕ) (c c' : Conn)
    (e : Option Error)
    → run w (delete u l.lock_path (negsuc 0)) c ≡ ok (c', e)
    → ((bytes_eq l.lock_path [] ≡ false)
        × (run w (lock u l atoi fuel) c ≡ ok (c, (l, some deadlock)))
        × (run w (unlock u l) c
            ≡ ok (c', (elim e [ some x ↦ (l, some x) | none ↦ (new_lock l.path l.acl, none) ]))))
      ⊎ ((l.lock_path ≡ []) × (run w (unlock u l) c ≡ ok (c, (l, some not_locked))))
unfolding lock unlock
lock-guards atoi u w l fuel c c' e h = elim (Bool-cases (bytes_eq l.lock_path [])) [
  | inl b ↦ inr (bytes_eq→eq l.lock_path [] b, rw (b) (unfold run in refl))
  | inr b ↦ inl (
    b,
    rw (b) (unfold run in refl),
    rw (b) (
        run-bind w (delete u l.lock_path (negsuc 0)) (after_delete u l) c
        ∙ ap (run_next w (after_delete u l)) h
        ∙ released u w l c' e),
  )
]
