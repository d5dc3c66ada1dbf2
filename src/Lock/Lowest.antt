-- ===== src/Lock/Lowest.antt =====
-- Lock of zk/lock.go: a lock that is acquired has the lowest number.
use go_zookeeper.Base.{
  ◌⊎◌, inl, inr, ℕ, ◌≤◌, ◌≡◌, refl, ap, ap₂, ◌∙◌, ℤ, pos, Bytes, bytes_eq, Bool, true, false, not,
  if◌then◌else◌, Option, none, some, List, [], All,
}
use go_zookeeper.Constants.{Error, deadlock}
use go_zookeeper.Wire.{ok}
use go_zookeeper.Wire.Value.{Value}
use go_zookeeper.Conn.{Conn}
use go_zookeeper.Paths.{Utf8}
use go_zookeeper.Client.{returns, ◌>>=◌, World, run}
use go_zookeeper.Client.Calls.{children}
use go_zookeeper.Client.Running.{run-bind_ok}
use go_zookeeper.Lock.{Lock, await, lock, parse_seq, finish, create_node, after_node}
use go_zookeeper.Lock.Choose.{All-imp}
use go_zookeeper.Lock.Exclusive.{acquired-parsed, acquired-lowest}
use go_zookeeper.Lock.Created.{IsCreated, create_node-IsCreated}
use go_zookeeper.Lock.Acquire.{await-HasSeen}

parsed_lem :
    (atoi : Bytes → ℤ × Option Error) (num : Bytes → ℕ) (path : Bytes)
    → ((q : Bytes) → (parse_seq atoi q).1 ≡ none → (parse_seq atoi q).0 ≡ pos (num q))
    → (parse_seq atoi path).1 ≡ none
    → parse_seq atoi path ≡ (pos (num path), none)
parsed_lem atoi num path n e = ap₂ (λ (s : ℤ) (t : Option Error). (s, t)) (n path e) e

-- What a lock that was acquired has done last.
pub record IsLowest (atoi : Bytes → ℤ × Option Error) (num : Bytes → ℕ) (u : Utf8) (w : World)
    (l l' : Lock) (c' : Conn) : Type 0 where
  pub path : Bytes
  pub created : IsCreated u w l path
  pub parsed : (parse_seq atoi path).1 ≡ none
  pub held : l' ≡ record l { seq = pos (num path); lock_path = path }
  pub c : Conn
  pub names : List Bytes
  pub stat : Option Value
  pub listed : run w (children u l.path) c ≡ ok (c', (names, stat, none))
  pub lowest : All (λ p. num path ≤ num p) names

module _ (atoi : Bytes → ℤ × Option Error) (num : Bytes → ℕ) (u : Utf8) (w : World) (l l' : Lock)
    (c' : Conn) (n : (q : Bytes) → (parse_seq atoi q).1 ≡ none → (parse_seq atoi q).0 ≡ pos (num q))
    (x₀ : Error) (no_digits : (atoi []).1 ≡ some x₀) (fuel : ℕ) where
  finished :
      (path : Bytes) (c₂ c₃ : Conn) (e : Option Error)
      → IsCreated u w l path
      → (parse_seq atoi path).1 ≡ none
      → run w (await atoi u l fuel (parse_seq atoi path).0) c₂ ≡ ok (c₃, e)
      → run w (finish u l path (parse_seq atoi path).0 e) c₃ ≡ ok (c', (l', none))
      → IsLowest atoi num u w l l' c'
  finished path c₂ c₃ (some x) m p a k = unfold finish run in cc
  finished path c₂ c₃ none m p a k =
      let s = n path p in
      let place : c₃ ≡ c' = unfold finish run in cc in
      let same : l' ≡ record l { seq = (parse_seq atoi path).0; lock_path = path } =
        unfold finish run in cc in
      let (c₄, names, stat, listed, chosen) =
        await-HasSeen atoi u w l (parse_seq atoi path).0 c' fuel c₂
          (a ∙ ap (λ t. ok (t, none)) place) in
      let numbered =
        All-imp names (λ q e. parsed_lem atoi num q n e) (acquired-parsed atoi _ names chosen) in
      record {
        path = path;
        created = m;
        parsed = p;
        held = same ∙ ap (λ t. record l { seq = t; lock_path = path }) s;
        c = c₄;
        names = names;
        stat = stat;
        listed = listed;
        lowest = acquired-lowest atoi num (num path) names numbered (rw s at chosen);
      }

  parsed :
      (path : Bytes) (c₂ : Conn) (e : Option Error)
      → IsCreated u w l path ⊎ (path ≡ [])
      → (parse_seq atoi path).1 ≡ e
      → run w
          (elim e [
            | some x ↦ returns (l, some x)
            | none ↦
                await atoi u l fuel (parse_seq atoi path).0
                >>= finish u l path (parse_seq atoi path).0
          ])
          c₂
        ≡ ok (c', (l', none))
      → IsLowest atoi num u w l l' c'
  parsed path c₂ (some x) m e k = unfold run in cc
  parsed path c₂ none (inr z) e k =
      let none_read : (atoi []).1 ≡ none = unfold parse_seq in rw z at e in cc
  parsed path c₂ none (inl m) e k =
      let (c₃, r, a, k') =
        run-bind_ok w (await atoi u l fuel (parse_seq atoi path).0)
          (finish u l path (parse_seq atoi path).0) c₂ c' (l', none) k in
      finished path c₂ c₃ r m e a k'

  by_node :
      (r : Bytes × Option Error) (c₂ : Conn)
      → ((p : Bytes) → r ≡ (p, none) → IsCreated u w l p ⊎ (p ≡ []))
      → run w (after_node u l atoi fuel r) c₂ ≡ ok (c', (l', none))
      → IsLowest atoi num u w l l' c'
  by_node (path, some x) c₂ m k = unfold after_node run in cc
  by_node (path, none) c₂ m k =
      parsed path c₂ (parse_seq atoi path).1 (m path refl) refl (unfold after_node in k)

-- Where Lock succeeds, the lock holds the path of a node, which CreateProtectedEphemeralSequential returned
-- without an error for the prefix of the lock, and the number of this path, and the last thing that
-- was done is a Children of the lock's path, none of whose names has a lower number; atoi gives no
-- negative number for what follows the last '-' of a text, and an error for the empty text.
pub lock-IsLowest :
    (atoi : Bytes → ℤ × Option Error) (num : Bytes → ℕ) (u : Utf8) (w : World) (l l' : Lock)
    (fuel : ℕ) (c c' : Conn)
    → ((q : Bytes) → (parse_seq atoi q).1 ≡ none → (parse_seq atoi q).0 ≡ pos (num q))
    → (x : Error) × ((atoi []).1 ≡ some x)
    → run w (lock u l atoi fuel) c ≡ ok (c', (l', none))
    → IsLowest atoi num u w l l' c'
unfolding lock
lock-IsLowest atoi num u w l l' fuel c c' n (x, d) h = by_path (bytes_eq l.lock_path []) h
  where
    by_path :
        (b : Bool)
        → run w
            (if not b
              then returns (l, some deadlock)
              else (create_node u l 3 [] none >>= after_node u l atoi fuel))
            c
          ≡ ok (c', (l', none))
        → IsLowest atoi num u w l l' c'
    by_path false k = unfold run in cc
    by_path true k =
        let (c₂, r, a, k') =
          run-bind_ok w (create_node u l 3 [] none) (after_node u l atoi fuel) c c' (l', none) k in
        by_node atoi num u w l l' c' n x d fuel r c₂
          (λ p e. create_node-IsCreated u w l 3 [] none c c₂ p refl (a ∙ ap (λ t. ok (c₂, t)) e)) k'
