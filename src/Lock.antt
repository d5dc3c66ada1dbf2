-- ===== src/Lock.antt =====
-- zk/lock.go: the Lock recipe, as a program over the calls of the client. strconv.Atoi is the parameter
-- `atoi`.
pub mod Choose
pub mod Exclusive
pub mod Acquire
pub mod Created
pub mod Lowest
pub mod Fewer
pub mod Waiting
use go_zookeeper.Base.{
  ℕ, zero, suc, ◌+◌, ℤ, pos, negsuc, int_eq, int_lt, Bytes, bytes_eq, str, split, Bool, true, false,
  not, ◌⊎◌, inl, inr, ◌&&◌, Option, none, some, List, [], ◌∷◌, ◌++◌, drop, if◌then◌else◌,
}
use go_zookeeper.Constants.{Error, no_node, node_exists, deadlock, not_locked}
use go_zookeeper.Wire.{out_of_fuel}
use go_zookeeper.Wire.Value.{Value}
use go_zookeeper.Watch.{Event}
use go_zookeeper.Paths.{Utf8}
use go_zookeeper.Client.{Call, returns, panics, waits, ◌>>=◌}
use go_zookeeper.Client.Calls.{Acl, create, delete, exists, children, get_w}
use go_zookeeper.Client.Protected.{last_part, create_protected}

-- The connection is the one that the calls run on.
pub record Lock : Type 0 where
  pub path : Bytes
  pub acl : List Acl
  pub lock_path : Bytes
  pub seq : ℤ

abbrev pub new_lock : Bytes → List Acl → Lock
new_lock path acl = record { path = path; acl = acl; lock_path = []; seq = pos 0 }

-- The state of the loop over the children.
pub record Pick : Type 0 where
  pub lowest_seq : ℤ
  pub prev_seq : ℤ
  pub prev_seq_path : Bytes

-- What the children say: the lock is acquired, or there is a node to wait on.
pub data Choice : Type 0 where
  acquired : Choice
  behind : Bytes → Choice
  refused : Error → Choice

-- How the loop over the parents ends: Lock returns an error, or goes on with `err`.
pub data Parents : Type 0 where
  stopped : Error → Parents
  made : Option Error → Parents

-- The body of the loop over the children, for the child `p` with the number `s`.
unfoldable pub pick_child : ℤ → Bytes → ℤ → Pick → Pick
pick_child seq p s k =
    let lowest = if int_lt s k.lowest_seq then s else k.lowest_seq in
    if int_lt s seq && int_lt k.prev_seq s
    then record { lowest_seq = lowest; prev_seq = s; prev_seq_path = p }
    else record { lowest_seq = lowest; prev_seq = k.prev_seq; prev_seq_path = k.prev_seq_path }

module _ (atoi : Bytes → ℤ × Option Error) where
  unfoldable pub parse_seq : Bytes → ℤ × Option Error
  parse_seq path = atoi (last_part (split b'-' path))

  unfoldable pub pick : ℤ → List Bytes → Pick → Error ⊎ Pick
  unfolding parse_seq pick_child
  pick seq [] k = inr k
  pick seq (p ∷ ps) k = elim (parse_seq p).1 [
    | some e ↦ inl e
    | none ↦ pick seq ps (pick_child seq p (parse_seq p).0 k)
  ]

  unfoldable pub choose : ℤ → List Bytes → Choice
  unfolding pick
  choose seq names =
      elim (pick seq names (record { lowest_seq = seq; prev_seq = negsuc 0; prev_seq_path = [] })) [
        | inl e ↦ refused e
        | inr k ↦ if int_eq seq k.lowest_seq then acquired else behind k.prev_seq_path
      ]

  module _ (u : Utf8) (l : Lock) where
    -- The event of the watcher
    unfoldable pub after_event : Call (Option Error) → Event → Call (Option Error)
    after_event again ev = elim ev.err [ some e ↦ returns (some e) | none ↦ again ]

    -- What follows c.GetW of the node to wait on
    unfoldable pub after_watch :
        Call (Option Error)
        → Option Bytes × Option Value × Option ℕ × Option Error
        → Call (Option Error)
    unfolding after_event
    after_watch again (dat, stat, ch, none) = waits ch (after_event again)
    after_watch again (dat, stat, ch, some no_node) = again
    after_watch again (dat, stat, ch, some e) = returns (some e)

    unfoldable pub follow : Call (Option Error) → Choice → Call (Option Error)
    unfolding ◌>>=◌ get_w after_watch
    follow again acquired = returns none
    follow again (refused e) = returns (some e)
    follow again (behind p) = get_w u (l.path ++ (b'/' ∷ p)) >>= after_watch again

    -- What follows c.Children
    unfoldable pub after_children :
        Call (Option Error) → ℤ → List Bytes × Option Value × Option Error → Call (Option Error)
    unfolding choose follow
    after_children again seq (names, stat, some e) = returns (some e)
    after_children again seq (names, stat, none) = follow again (choose seq names)

    -- The loop that waits for the lock, which has no bound in the program.
    unfoldable pub await : ℕ → ℤ → Call (Option Error)
    unfolding ◌>>=◌ children after_children
    await zero seq = panics out_of_fuel
    await (suc n) seq = children u l.path >>= after_children (await n seq) seq

module _ (u : Utf8) (acl : List Acl) where
  -- What follows c.Create of a parent
  unfoldable pub after_parent : (Option Error → Call Parents) → Bytes × Option Error → Call Parents
  after_parent next (p, none) = next none
  after_parent next (p, some node_exists) = next (some node_exists)
  after_parent next (p, some e) = returns (stopped e)

  -- What follows c.Exists of a parent
  unfoldable pub after_exists :
      (Option Error → Call Parents) → Bytes → Bool × Option Value × Option Error → Call Parents
  unfolding ◌>>=◌ create after_parent
  after_exists next pth (found, stat, some e) = returns (stopped e)
  after_exists next pth (true, stat, none) = next none
  after_exists next pth (false, stat, none) =
      create u pth (some []) (pos 0) acl >>= after_parent next

  -- The loop over the parts of the path, with the path so far and `err`.
  unfoldable pub make_parents : Bytes → Option Error → List Bytes → Call Parents
  unfolding ◌>>=◌ exists after_exists
  make_parents pth e [] = returns (made e)
  make_parents pth e (p ∷ ps) =
      exists u (pth ++ (b'/' ∷ p))
      >>= after_exists (λ e'. make_parents (pth ++ (b'/' ∷ p)) e' ps) (pth ++ (b'/' ∷ p))

module _ (u : Utf8) (l : Lock) where
  unfoldable pub after_parents :
      (Option Error → Call (Bytes × Option Error)) → Parents → Call (Bytes × Option Error)
  after_parents again (stopped e) = returns ([], some e)
  after_parents again (made e) = again e

  unfoldable pub after_protected :
      (Bytes → Option Error → Call (Bytes × Option Error))
      → Bytes × Option Error
      → Call (Bytes × Option Error)
  unfolding ◌>>=◌ make_parents after_parents
  after_protected again (path, none) = returns (path, none)
  after_protected again (path, some no_node) =
      make_parents u l.acl [] (some no_node) (drop 1 (split b'/' l.path))
      >>= after_parents (again path)
  after_protected again (path, some e) = returns ([], some e)

  -- The three tries to create the node of the lock: `path` and `err` after them.
  unfoldable pub create_node : ℕ → Bytes → Option Error → Call (Bytes × Option Error)
  unfolding ◌>>=◌ create_protected after_protected
  create_node zero path e = returns (path, e)
  create_node (suc n) path e =
      create_protected u (l.path ++ str "/lock-") (some []) l.acl
      >>= after_protected (create_node n)

  unfoldable pub finish : Bytes → ℤ → Option Error → Call (Lock × Option Error)
  finish path seq (some e) = returns (l, some e)
  finish path seq none = returns (record l { seq = seq; lock_path = path }, none)

  -- What follows the creation of the node
  unfoldable pub after_node :
      (Bytes → ℤ × Option Error) → ℕ → Bytes × Option Error → Call (Lock × Option Error)
  unfolding ◌>>=◌ await parse_seq finish
  after_node atoi fuel (path, some e) = returns (l, some e)
  after_node atoi fuel (path, none) = elim (parse_seq atoi path).1 [
    | some e ↦ returns (l, some e)
    | none ↦ await atoi u l fuel (parse_seq atoi path).0 >>= finish path (parse_seq atoi path).0
  ]

  unfoldable pub lock : (Bytes → ℤ × Option Error) → ℕ → Call (Lock × Option Error)
  unfolding ◌>>=◌ create_node after_node
  lock atoi fuel =
      if not (bytes_eq l.lock_path [])
      then returns (l, some deadlock)
      else (create_node 3 [] none >>= after_node atoi fuel)

  unfoldable pub after_delete : Option Error → Call (Lock × Option Error)
  after_delete (some e) = returns (l, some e)
  after_delete none = returns (record l { lock_path = []; seq = pos 0 }, none)

  unfoldable pub unlock : Call (Lock × Option Error)
  unfolding ◌>>=◌ delete after_delete
  unlock =
      if bytes_eq l.lock_path []
      then returns (l, some not_locked)
      else (delete u l.lock_path (negsuc 0) >>= after_delete)
