-- ===== src/Client/Protected/Panics.antt =====
-- How CreateProtectedEphemeralSequential of zk/conn.go panics.
use go_zookeeper.Base.{
  ℕ, suc, ◌<◌, ◌≡◌, pos, Bytes, bytes_eq, split, true, false, Option, none, some, List, ◌∷◌, arith,
  take, length, leb,
}
use go_zookeeper.Constants.{Error, connection_closed}
use go_zookeeper.Wire.{Fault, ok, panic, slice_bounds}
use go_zookeeper.Wire.Value.{Value}
use go_zookeeper.Conn.{Conn}
use go_zookeeper.Paths.{Utf8}
use go_zookeeper.Client.{Call, World, run}
use go_zookeeper.Client.Calls.{Acl, create, children}
use go_zookeeper.Client.Running.{run-bind}
use go_zookeeper.Client.Protected.{
  has_guid, find_child, search, after_create, create_rounds, protected_prefix, last_part,
}

has_guid_panics :
    (guid q : Bytes)
    → bytes_eq (take 3 (last_part (split b'/' q))) protected_prefix ≡ true
    → length (last_part (split b'/' q)) < 35
    → has_guid guid q ≡ panic slice_bounds
unfolding has_guid
has_guid_panics guid q prefix short =
    let no_room : leb 35 (length (last_part (split b'/' q))) ≡ false = ground arith in
    rw (prefix, no_room)

search_panics :
    (u : Utf8) (w : World) (guid root path : Bytes) (dat : Option Bytes) (acl : List Acl)
    (again : Call (Bytes × Option Error)) (c : Conn) (names : List Bytes) (stat : Option Value)
    (f : Fault)
    → find_child guid names ≡ panic f
    → run w (search u guid root path dat acl again (names, stat, none)) c ≡ panic f
unfolding run search
search_panics u w guid root path dat acl again c names stat f h = rw (search, h)

-- A child of the parent with the prefix "_c_" and a last part shorter than 35 bytes, if it is the first that
-- Children lists, makes the rounds of CreateProtectedEphemeralSequential panic, if its Create reported ErrConnectionClosed.
pub short_child_panics :
    (u : Utf8) (w : World) (guid root path q x : Bytes) (dat : Option Bytes) (acl : List Acl)
    (n : ℕ) (e : Option Error) (c c₁ c₂ : Conn) (names : List Bytes) (stat : Option Value)
    → bytes_eq (take 3 (last_part (split b'/' q))) protected_prefix ≡ true
    → length (last_part (split b'/' q)) < 35
    → run w (create u path dat (pos 3) acl) c ≡ ok (c₁, (x, some connection_closed))
    → run w (children u root) c₁ ≡ ok (c₂, (q ∷ names, stat, none))
    → run w (create_rounds u guid root path dat acl (suc n) e) c ≡ panic slice_bounds
unfolding create_rounds after_create
short_child_panics u w guid root path q x dat acl n e c c₁ c₂ names stat prefix short created
      listed =
    rw
      (
        run-bind w (create u path dat (pos 3) acl)
            (λ (r : Bytes × Option Error).
              after_create u guid root path dat acl (create_rounds u guid root path dat acl n r.1)
                r)
            c,
        created,
        run-bind w (children u root)
            (search u guid root path dat acl
              (create_rounds u guid root path dat acl n (some connection_closed)))
            c₁,
        listed,
      )
      (search_panics u w guid root path dat acl
        (create_rounds u guid root path dat acl n (some connection_closed)) c₂ (q ∷ names) stat
        slice_bounds (unfold find_child in rw (find_child, has_guid_panics guid q prefix short)))
