-- ===== src/Lock/Created.antt =====
-- The node that Lock of zk/lock.go creates: the path comes from CreateProtectedEphemeralSequential.
use go_zookeeper.Base.{
  ℕ, zero, suc, pos, ◌≡◌, ◌⊎◌, inl, inr, refl, Bytes, str, true, Option, none, some, List, [], ◌∷◌,
  ◌++◌, drop, split, join,
}
use go_zookeeper.Constants.{Error, no_node, session_expired, connection_closed}
use go_zookeeper.Wire.{Result, ok, err, panic}
use go_zookeeper.Wire.Value.{Value}
use go_zookeeper.Conn.{Conn}
use go_zookeeper.Paths.{Utf8}
use go_zookeeper.Client.{Call, returns, World, run}
use go_zookeeper.Client.Calls.{Acl, create, children}
use go_zookeeper.Client.Running.{Every, Every-bind, Every-with_valid, run-Every, run-bind_ok}
use go_zookeeper.Client.Protected.{
  find_child, hex, but_last, protected_parts, search, after_create, create_rounds, create_protected,
}
use go_zookeeper.Lock.{
  Lock, Parents, stopped, made, make_parents, after_parents, after_protected, create_node,
}

-- A call that fails returns no path.
abbrev HasPath : Bytes × Option Error → Type 0
HasPath (path, e) = (e ≡ none) ⊎ (path ≡ [])

module _ (u : Utf8) (guid root_path protected_path : Bytes) (dat : Option Bytes)
    (acl : List Acl) where
  search-HasPath :
      (again : Call (Bytes × Option Error)) (r : List Bytes × Option Value × Option Error)
      → Every HasPath again
      → Every HasPath (search u guid root_path protected_path dat acl again r)
  unfolding search
  search-HasPath again (names, stat, some e) h = inr refl
  search-HasPath again (names, stat, none) h = found (find_child guid names)
    where
      found :
          (r : Result (Option Bytes))
          → Every HasPath (elim r [
            | ok (some p) ↦ returns (root_path ++ (b'/' ∷ p), none)
            | ok none ↦ again
            | err e ↦ returns ([], some e)
            | panic f ↦ Call.panics f
          ])
      found (ok (some p)) = inl refl
      found (ok none) = h
      found (err e) = inr refl
      found (panic f) = tt

  after_create-HasPath :
      (again : Call (Bytes × Option Error)) (r : Bytes × Option Error)
      → Every HasPath again
      → Every HasPath (after_create u guid root_path protected_path dat acl again r)
  unfolding after_create
  after_create-HasPath again (path, none) h = inl refl
  after_create-HasPath again (path, some session_expired) h = h
  after_create-HasPath again (path, some connection_closed) h =
      Every-bind HasPath (children u root_path) _ λ r. search-HasPath again r h
  after_create-HasPath again (path, some e) h = inr refl

  create_rounds-HasPath :
      (n : ℕ) (e : Option Error)
      → Every HasPath (create_rounds u guid root_path protected_path dat acl n e)
  unfolding create_rounds
  create_rounds-HasPath zero e = inr refl
  create_rounds-HasPath (suc n) e =
      Every-bind HasPath (create u protected_path dat (pos 3) acl) _
        λ r. after_create-HasPath _ r (create_rounds-HasPath n r.1)

create_protected-HasPath :
    (u : Utf8) (path : Bytes) (dat : Option Bytes) (acl : List Acl)
    → Every HasPath (create_protected u path dat acl)
unfolding create_protected
create_protected-HasPath u path dat acl =
    Every-with_valid HasPath u path true _ _ (λ e. inr refl) drawn
  where
    drawn :
        (e : Option Error) (bs : Bytes)
        → Every HasPath (elim e [
          | some x ↦ returns ([], some x)
          | none ↦
              create_rounds u
                (hex bs)
                (join b'/' (but_last (split b'/' path)))
                (join b'/' (protected_parts (hex bs) (split b'/' path)))
                dat
                acl
                3
                none
        ])
    drawn (some x) bs = inr refl
    drawn none bs = create_rounds-HasPath u _ _ _ dat acl 3 none

module _ (u : Utf8) (w : World) (l : Lock) where
  -- The path is that of a node that was created for the lock.
  abbrev pub IsCreated : Bytes → Type 0
  IsCreated path =
      (c₀ : Conn) × (c₁ : Conn) × (run w
          (create_protected u (l.path ++ str "/lock-") (some []) l.acl) c₀
        ≡ ok (c₁, (path, none)))

  abbrev Creates : (Bytes → Option Error → Call (Bytes × Option Error)) → Type 0
  Creates again =
      (path : Bytes) (e : Option Error) (c c' : Conn) (p : Bytes)
      → path ≡ []
      → run w (again path e) c ≡ ok (c', (p, none))
      → IsCreated p ⊎ (p ≡ [])

  by_parents :
      (again : Bytes → Option Error → Call (Bytes × Option Error)) (q : Bytes) (s : Parents)
      (c c' : Conn) (p : Bytes)
      → Creates again
      → q ≡ []
      → run w (after_parents u l (again q) s) c ≡ ok (c', (p, none))
      → IsCreated p ⊎ (p ≡ [])
  unfolding after_parents
  by_parents again q (stopped x) c c' p i z k = unfold run in cc
  by_parents again q (made x) c c' p i z k = i q x c c' p z k

  by_error :
      (again : Bytes → Option Error → Call (Bytes × Option Error)) (r : Bytes × Option Error)
      (c₀ c c' : Conn) (p : Bytes)
      → Creates again
      → run w (create_protected u (l.path ++ str "/lock-") (some []) l.acl) c₀ ≡ ok (c, r)
      → HasPath r
      → run w (after_protected u l again r) c ≡ ok (c', (p, none))
      → IsCreated p ⊎ (p ≡ [])
  unfolding after_protected
  by_error again (q, none) c₀ c c' p i a h k =
      let same : q ≡ p = unfold run in cc in inl (c₀, c, rw (← same) a)
  by_error again (q, some no_node) c₀ c c' p i a h k =
      let (c₂, s, b, k') =
        run-bind_ok w (make_parents u l.acl [] (some no_node) (drop 1 (split b'/' l.path)))
          (after_parents u l (again q)) c c' (p, none) k in
      by_parents again q s c₂ c' p i (elim h [ inl x ↦ cc | inr x ↦ x ]) k'
  by_error again (q, some x) c₀ c c' p i a h k = unfold run in cc

  -- A path that the tries to create the node return is that of a node, or empty.
  pub create_node-IsCreated : (n : ℕ) → Creates (create_node u l n)
  unfolding create_node
  create_node-IsCreated zero path e c c' p h k = let same : path ≡ p = unfold run in cc in inr cc
  create_node-IsCreated (suc n) path e c c' p h k =
      let (c₁, r, a, k') =
        run-bind_ok w (create_protected u (l.path ++ str "/lock-") (some []) l.acl)
          (after_protected u l (create_node u l n)) c c' (p, none) k in
      by_error (create_node u l n) r c c₁ c' p (create_node-IsCreated n) a
        (run-Every HasPath w _ c c₁ r
          (create_protected-HasPath u (l.path ++ str "/lock-") (some []) l.acl) a)
        k'
