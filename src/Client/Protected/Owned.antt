-- ===== src/Client/Protected/Owned.antt =====
-- Which path CreateProtectedEphemeralSequential of zk/conn.go returns.
use mathlib.Core.List.{Mem}
use go_zookeeper.Base.{
  ℕ, zero, suc, ◌≡◌, refl, sym, ◌∙◌, ap, pos, Bytes, split, join, true, Option, none, some, List,
  [], ◌∷◌, ◌++◌, take, drop,
}
use go_zookeeper.Constants.{Error, session_expired, connection_closed}
use go_zookeeper.Wire.{Result, ok, err, panic}
use go_zookeeper.Wire.Value.{Value}
use go_zookeeper.Conn.{Conn}
use go_zookeeper.Paths.{Utf8, validate_path}
use go_zookeeper.Client.{Call, returns, panics, World, run}
use go_zookeeper.Client.Calls.{Acl, create, children}
use go_zookeeper.Client.Running.{run-bind, run_next, run-valid, run-refused, run-crashed}
use go_zookeeper.Client.Protected.{
  find_child, search, create_protected, protected_parts, hex, but_last, after_create, create_rounds,
  protected_prefix, last_part,
}
use go_zookeeper.Client.Protected.Children.{find_child-Mem, has_guid_lem}

-- Where a path that is returned without an error comes from: it is what Create returned, or that of a child
-- that carries the GUID of this call.
pub data IsOwn (u : Utf8) (w : World) (guid root path : Bytes) (dat : Option Bytes) (acl : List Acl)
    (c' : Conn) (p : Bytes) : Type 0 where
  is_created :
      (c : Conn)
      → run w (create u path dat (pos 3) acl) c ≡ ok (c', (p, none))
      → IsOwn u w guid root path dat acl c' p
  is_found :
      (c : Conn) (names : List Bytes) (stat : Option Value) (q : Bytes)
      → run w (children u root) c ≡ ok (c', (names, stat, none))
      → Mem q names
      → take 3 (last_part (split b'/' q)) ≡ protected_prefix
      → take 32 (drop 3 (last_part (split b'/' q))) ≡ guid
      → p ≡ root ++ (b'/' ∷ q)
      → IsOwn u w guid root path dat acl c' p

module _ (u : Utf8) (w : World) (guid root path : Bytes) (dat : Option Bytes) (acl : List Acl)
    (c' : Conn) (p : Bytes) where
  abbrev LeadsToOwn : Call (Bytes × Option Error) → Type 0
  LeadsToOwn m = (c : Conn) → run w m c ≡ ok (c', (p, none)) → IsOwn u w guid root path dat acl c' p

  search-IsOwn :
      (again : Call (Bytes × Option Error)) (c₁ c₂ : Conn)
      (r : List Bytes × Option Value × Option Error)
      → LeadsToOwn again
      → run w (children u root) c₁ ≡ ok (c₂, r)
      → run w (search u guid root path dat acl again r) c₂ ≡ ok (c', (p, none))
      → IsOwn u w guid root path dat acl c' p
  unfolding search run
  search-IsOwn again c₁ c₂ (names, stat, some e) l h k = cc
  search-IsOwn again c₁ c₂ (names, stat, none) l h k = go (find_child guid names) refl k
    where
      go :
          (f : Result (Option Bytes))
          → find_child guid names ≡ f
          → run w
              (elim f [
                | ok (some p) ↦ returns (root ++ (b'/' ∷ p), none)
                | ok none ↦ again
                | err e ↦ returns ([], some e)
                | panic f ↦ panics f
              ])
              c₂
            ≡ ok (c', (p, none))
          → IsOwn u w guid root path dat acl c' p
      go (ok (some q)) e k =
          let (m, g) = find_child-Mem guid q names e in
          let (t, d) = has_guid_lem guid q g in
          let place : c₂ ≡ c' = cc in
          is_found c₁ names stat q (h ∙ ap (λ t. ok (t, (names, stat, none))) place) m t d (cc)
      go (ok none) e k = l c₂ k
      go (err x) e k = cc
      go (panic f) e k = cc

  after_create-IsOwn :
      (again : Call (Bytes × Option Error)) (c₁ c₂ : Conn) (r : Bytes × Option Error)
      → LeadsToOwn again
      → run w (create u path dat (pos 3) acl) c₁ ≡ ok (c₂, r)
      → run w (after_create u guid root path dat acl again r) c₂ ≡ ok (c', (p, none))
      → IsOwn u w guid root path dat acl c' p
  unfolding after_create run
  after_create-IsOwn again c₁ c₂ (new_path, none) l h k = is_created c₁ (h ∙ k)
  after_create-IsOwn again c₁ c₂ (new_path, some session_expired) l h k = l c₂ k
  after_create-IsOwn again c₁ c₂ (new_path, some connection_closed) l h k =
      go (run w (children u root) c₂) refl
        (sym (run-bind w (children u root) (search u guid root path dat acl again) c₂) ∙ k)
    where
      go :
          (r : Result (Conn × (List Bytes × Option Value × Option Error)))
          → run w (children u root) c₂ ≡ r
          → run_next w (search u guid root path dat acl again) r ≡ ok (c', (p, none))
          → IsOwn u w guid root path dat acl c' p
      go (ok (c₃, r)) e k = search-IsOwn again c₂ c₃ r l e k
      go (err x) e k = cc
      go (panic f) e k = cc
  after_create-IsOwn again c₁ c₂ (new_path, some e) l h k = cc

  round-IsOwn :
      (n : ℕ) (e : Option Error)
      → ((e' : Error) → LeadsToOwn (create_rounds u guid root path dat acl n (some e')))
      → LeadsToOwn (create_rounds u guid root path dat acl (suc n) e)
  unfolding create_rounds
  round-IsOwn n e ih c h = go (run w (create u path dat (pos 3) acl) c) refl (
      sym (
        run-bind w (create u path dat (pos 3) acl)
          (λ r.
            after_create u guid root path dat acl (create_rounds u guid root path dat acl n r.1) r)
          c)
      ∙ h)
    where
      go :
          (r : Result (Conn × (Bytes × Option Error)))
          → run w (create u path dat (pos 3) acl) c ≡ r
          → run_next w
              (λ r.
                after_create u guid root path dat acl
                  (create_rounds u guid root path dat acl n r.1)
                  r)
              r
            ≡ ok (c', (p, none))
          → IsOwn u w guid root path dat acl c' p
      go (ok (c₂, (new_path, none))) created k =
          unfold after_create run in is_created c (created ∙ k)
      go (ok (c₂, (new_path, some x))) created k =
          after_create-IsOwn (create_rounds u guid root path dat acl n (some x)) c c₂
            (new_path, some x) (ih x) created k
      go (err x) created k = cc
      go (panic f) created k = cc

  rounds-IsOwn :
      (n : ℕ) (e : Error) → LeadsToOwn (create_rounds u guid root path dat acl n (some e))
  rounds-IsOwn zero e c h = unfold create_rounds run in cc
  rounds-IsOwn (suc n) e c h = round-IsOwn n (some e) (rounds-IsOwn n) c h

  drawn_rounds : LeadsToOwn (create_rounds u guid root path dat acl 3 none)
  drawn_rounds c h = round-IsOwn 2 none (rounds-IsOwn 2) c h

-- Where CreateProtectedEphemeralSequential returns a path without an error, the last thing that was done is a
-- Create of the protected path that returned this path, or a Children of the parent that named a
-- child with the GUID which this call drew, and the path is that of the child.
pub create_protected-IsOwn :
    (u : Utf8) (w : World) (path : Bytes) (dat : Option Bytes) (acl : List Acl) (c c' : Conn)
    (p : Bytes)
    → run w (create_protected u path dat acl) c ≡ ok (c', (p, none))
    → (c₀ : Conn) × (guid : Bytes) × (w.random c ≡ (c₀, (none, guid)))
      × IsOwn u w
          (hex guid)
          (join b'/' (but_last (split b'/' path)))
          (join b'/' (protected_parts (hex guid) (split b'/' path)))
          dat
          acl
          c'
          p
unfolding create_protected
create_protected-IsOwn u w path dat acl c c' p h = go (validate_path u path true) refl
  where
    drawn :
        (r : Conn × (Option Error × Bytes))
        → w.random c ≡ r
        → run w
            (elim r.1.0 [
              | some x ↦ returns ([], some x)
              | none ↦
                  create_rounds u
                    (hex r.1.1)
                    (join b'/' (but_last (split b'/' path)))
                    (join b'/' (protected_parts (hex r.1.1) (split b'/' path)))
                    dat
                    acl
                    3
                    none
            ])
            r.0
          ≡ ok (c', (p, none))
        → (c₀ : Conn) × (guid : Bytes) × (w.random c ≡ (c₀, (none, guid)))
          × IsOwn u w
              (hex guid)
              (join b'/' (but_last (split b'/' path)))
              (join b'/' (protected_parts (hex guid) (split b'/' path)))
              dat
              acl
              c'
              p
    drawn (c₀, (none, guid)) e k = (
      c₀,
      guid,
      e,
      drawn_rounds u w (hex guid) (join b'/' (but_last (split b'/' path)))
          (join b'/' (protected_parts (hex guid) (split b'/' path))) dat acl c' p c₀ k,
    )
    drawn (c₀, (some x, guid)) e k = unfold run in cc

    go :
        (r : Result (Unit {0}))
        → validate_path u path true ≡ r
        → (c₀ : Conn) × (guid : Bytes) × (w.random c ≡ (c₀, (none, guid)))
          × IsOwn u w
              (hex guid)
              (join b'/' (but_last (split b'/' path)))
              (join b'/' (protected_parts (hex guid) (split b'/' path)))
              dat
              acl
              c'
              p
    go (ok t) v =
        let k = sym (run-valid u w c path true _ _ v) ∙ h in
        drawn (w.random c) refl (unfold run in k)
    go (err x) v = let k = sym (run-refused u w c path true x _ _ v) ∙ h in cc
    go (panic f) v = let k = sym (run-crashed u w c path true f _ _ v) ∙ h in cc
