-- ===== src/Client/Protected.antt =====
-- CreateProtectedEphemeralSequential of zk/conn.go.
pub mod Children
pub mod Owned
pub mod Panics
use go_zookeeper.Base.{
  ℕ, zero, suc, ◌+◌, ◌/◌, ◌%◌, ℤ, pos, Bytes, bytes_eq, str, split, join, Bool, true, false, ◌&&◌,
  ltb, leb, Option, none, some, List, [], ◌∷◌, ◌++◌, length, take, drop, if◌then◌else◌,
}
use go_zookeeper.Constants.{Error, session_expired, connection_closed}
use go_zookeeper.Wire.{Result, ok, err, panic, slice_bounds}
use go_zookeeper.Wire.Value.{Value}
use go_zookeeper.Paths.{Utf8}
use go_zookeeper.Client.{Call, returns, panics, draws, ◌>>=◌, with_valid}
use go_zookeeper.Client.Calls.{Acl, create, children}

abbrev pub protected_prefix : Bytes
protected_prefix = str "_c_"

-- fmt.Sprintf("%x", guid)
abbrev pub hex_digit : ℕ → ℕ
hex_digit n = if ltb n 10 then 48 + n else 87 + n

abbrev pub hex : Bytes → Bytes
hex [] = []
hex (b ∷ bs) = hex_digit (b / 16) ∷ hex_digit (b % 16) ∷ hex bs

-- parts[len(parts)-1] and parts[:len(parts)-1] of what strings.Split returned, which is never empty
abbrev pub last_part : List Bytes → Bytes
last_part [] = []
last_part (s ∷ []) = s
last_part (s ∷ t ∷ ss) = last_part (t ∷ ss)

abbrev pub but_last : List Bytes → List Bytes
but_last [] = []
but_last (s ∷ []) = []
but_last (s ∷ t ∷ ss) = s ∷ but_last (t ∷ ss)

-- The body of the loop over the children: whether `p` carries the GUID. The GUID is taken out of the name
-- without a test of its length.
unfoldable pub has_guid : Bytes → Bytes → Result Bool
has_guid guid p =
    let pth = last_part (split b'/' p) in
    if bytes_eq (take 3 pth) protected_prefix
    then (if leb 35 (length pth)
        then ok (bytes_eq (take 32 (drop 3 pth)) guid)
        else panic slice_bounds)
    else ok false

unfoldable pub find_child : Bytes → List Bytes → Result (Option Bytes)
unfolding has_guid
find_child guid [] = ok none
find_child guid (p ∷ ps) = elim (has_guid guid p) [
  | ok true ↦ ok (some p)
  | ok false ↦ find_child guid ps
  | err e ↦ err e
  | panic f ↦ panic f
]

module _ (u : Utf8) (guid root_path protected_path : Bytes) (dat : Option Bytes)
    (acl : List Acl) where
  -- What follows c.Children; `again` is the next round.
  unfoldable pub search :
      Call (Bytes × Option Error)
      → List Bytes × Option Value × Option Error
      → Call (Bytes × Option Error)
  unfolding find_child
  search again (names, stat, some e) = returns ([], some e)
  search again (names, stat, none) = elim (find_child guid names) [
    | ok (some p) ↦ returns (root_path ++ (b'/' ∷ p), none)
    | ok none ↦ again
    | err e ↦ returns ([], some e)
    | panic f ↦ panics f
  ]

  -- The switch on the error of c.Create
  unfoldable pub after_create :
      Call (Bytes × Option Error) → Bytes × Option Error → Call (Bytes × Option Error)
  unfolding ◌>>=◌ children search
  after_create again (new_path, none) = returns (new_path, none)
  after_create again (new_path, some session_expired) = again
  after_create again (new_path, some connection_closed) = children u root_path >>= search again
  after_create again (new_path, some e) = returns ([], some e)

  -- The loop, with the rounds that are left and the error so far.
  unfoldable pub create_rounds : ℕ → Option Error → Call (Bytes × Option Error)
  unfolding ◌>>=◌ create after_create
  create_rounds zero e = returns ([], e)
  create_rounds (suc n) e =
      create u protected_path dat (pos 3) acl >>= λ r. after_create (create_rounds n r.1) r

-- The path with "_c_", the GUID and a '-' in front of its last part
abbrev pub protected_parts : Bytes → List Bytes → List Bytes
protected_parts guid parts =
    but_last parts ++ ((protected_prefix ++ (guid ++ (b'-' ∷ last_part parts))) ∷ [])

unfoldable pub create_protected :
    Utf8 → Bytes → Option Bytes → List Acl → Call (Bytes × Option Error)
unfolding with_valid create_rounds
create_protected u path dat acl =
    with_valid u path true (λ e. ([], some e))
      (draws (λ e bs. elim e [
        | some x ↦ returns ([], some x)
        | none ↦
            let parts = split b'/' path in
            create_rounds u (hex bs) (join b'/' (but_last parts))
              (join b'/' (protected_parts (hex bs) parts)) dat acl 3 none
      ]))
