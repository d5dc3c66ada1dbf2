-- ===== src/Watch/Tables.antt =====
-- The map of watchers of zk/conn.go: what a look-up finds after a change.
use go_zookeeper.Base.{
  ℕ, ◌≡◌, refl, bytes_eq→eq, bytes_eq_refl, true, false, Option, none, some, List, [], ◌∷◌, ◌++◌,
  arith, if◌then◌else◌, Bool-cases, inl, inr,
}
use go_zookeeper.Watch.{
  WatchType, watch_data, watch_exist, watch_child, watch_type_eq, WatchPath, watch_path_eq, Table,
  append_chan, lookup_watch, delete_watch,
}

pub watch_type_eq→eq : (a b : WatchType) → watch_type_eq a b ≡ true → a ≡ b
unfolding watch_type_eq
watch_type_eq→eq watch_data watch_data h = refl
watch_type_eq→eq watch_exist watch_exist h = refl
watch_type_eq→eq watch_child watch_child h = refl
watch_type_eq→eq a b h = cc

pub watch_type_eq_refl : (a : WatchType) → watch_type_eq a a ≡ true
unfolding watch_type_eq
watch_type_eq_refl watch_data = refl
watch_type_eq_refl _ = refl

pub watch_path_eq→eq : (a b : WatchPath) → watch_path_eq a b ≡ true → a ≡ b
unfolding watch_path_eq
watch_path_eq→eq a b h =
    ground (arith, bytes_eq→eq a.path b.path, watch_type_eq→eq a.w_type b.w_type)

pub watch_path_eq_refl : (a : WatchPath) → watch_path_eq a a ≡ true
unfolding watch_path_eq
watch_path_eq_refl a = rw (bytes_eq_refl a.path, watch_type_eq_refl a.w_type)

-- The channels that wait for a path and a type.
abbrev pub chans_at : Option (List ℕ) → List ℕ
chans_at none = []
chans_at (some chs) = chs

-- A new watcher is the last to wait for its path and type, and changes nothing for any other.
pub lookup-append_chan :
    (k j : WatchPath) (ch : ℕ) (t : Table)
    → lookup_watch j (append_chan k ch t) ≡ (
        if watch_path_eq k j
        then some (chans_at (lookup_watch k t) ++ (ch ∷ []))
        else lookup_watch j t)
unfolding lookup_watch append_chan
lookup-append_chan k j ch [] = refl
lookup-append_chan k j ch ((i, chs) ∷ t) = ground (
  arith,
  watch_path_eq→eq i k,
  watch_path_eq→eq i j,
  watch_path_eq→eq k j,
  watch_path_eq_refl j,
  watch_path_eq_refl i,
  watch_path_eq_refl k,
  lookup-append_chan k j ch t,
)

pub lookup-delete_ne :
    (k j : WatchPath) (t : Table)
    → watch_path_eq k j ≡ false
    → lookup_watch j (delete_watch k t) ≡ lookup_watch j t
unfolding lookup_watch delete_watch
lookup-delete_ne k j [] h = refl
lookup-delete_ne k j ((i, chs) ∷ t) h =
    ground (arith, watch_path_eq→eq i k, watch_path_eq_refl k, lookup-delete_ne k j t h)

-- The map has one entry to a key.
abbrev pub IsMap : Table → Type 0
IsMap [] = Unit
IsMap ((k, chs) ∷ t) = (lookup_watch k t ≡ none) × IsMap t

pub lookup-delete_self :
    (k : WatchPath) (t : Table) → IsMap t → lookup_watch k (delete_watch k t) ≡ none
unfolding lookup_watch delete_watch
lookup-delete_self k [] h = refl
lookup-delete_self k ((i, chs) ∷ t) h =
    ground (arith, watch_path_eq→eq i k, lookup-delete_self k t h.1)

pub IsMap-append_chan : (k : WatchPath) (ch : ℕ) (t : Table) → IsMap t → IsMap (append_chan k ch t)
unfolding lookup_watch append_chan
IsMap-append_chan k ch [] h = (refl, tt)
IsMap-append_chan k ch ((i, chs) ∷ t) h = elim (Bool-cases (watch_path_eq i k)) [
  | inl e ↦ rw e h
  | inr e ↦ rw e (
    rw (lookup-append_chan k i ch t) (ground (arith, watch_path_eq→eq k i, watch_path_eq_refl i)),
    IsMap-append_chan k ch t h.1,
  )
]

pub lookup-delete_none :
    (k j : WatchPath) (t : Table)
    → lookup_watch j t ≡ none
    → lookup_watch j (delete_watch k t) ≡ none
unfolding lookup_watch delete_watch
lookup-delete_none k j [] h = refl
lookup-delete_none k j ((i, chs) ∷ t) h = ground (arith, lookup-delete_none k j t)

pub IsMap-delete_watch : (k : WatchPath) (t : Table) → IsMap t → IsMap (delete_watch k t)
unfolding delete_watch
IsMap-delete_watch k [] h = tt
IsMap-delete_watch k ((i, chs) ∷ t) h = elim (Bool-cases (watch_path_eq i k)) [
  | inl e ↦ rw e h.1
  | inr e ↦ rw e (lookup-delete_none k i t h.0, IsMap-delete_watch k t h.1)
]
