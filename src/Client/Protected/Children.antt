-- ===== src/Client/Protected/Children.antt =====
-- The search of CreateProtectedEphemeralSequential in zk/conn.go for its own node.
use mathlib.Core.List.{Mem, mem-cons_self, mem-cons_of_mem}
use go_zookeeper.Base.{
  ◌≡◌, refl, subst, Bytes, bytes_eq, split, Bool, true, false, some, List, [], ◌∷◌, take, drop,
  length, leb, bytes_eq→eq, if◌then◌else◌,
}
use go_zookeeper.Wire.{Result, ok, err, panic, slice_bounds}
use go_zookeeper.Client.Protected.{has_guid, find_child, protected_prefix, last_part}

pub find_child-Mem :
    (guid q : Bytes) (names : List Bytes)
    → find_child guid names ≡ ok (some q)
    → Mem q names × (has_guid guid q ≡ ok true)
find_child-Mem guid q [] h = unfold find_child in cc
find_child-Mem guid q (p ∷ ps) h =
    go (find_child-Mem guid q ps) (has_guid guid p) refl (unfold find_child in h)
  where
    go :
        (find_child guid ps ≡ ok (some q) → Mem q ps × (has_guid guid q ≡ ok true))
        → (r : Result Bool) → has_guid guid p ≡ r
        → elim r [
          | ok true ↦ ok (some p)
          | ok false ↦ find_child guid ps
          | err e ↦ err e
          | panic f ↦ panic f
        ]
          ≡ ok (some q)
        → Mem q (p ∷ ps) × (has_guid guid q ≡ ok true)
    go ih (ok true) e k =
        let same : p ≡ q = cc in (subst (λ t. Mem t (p ∷ ps)) same mem-cons_self, rw (← same) e)
    go ih (ok false) e k = let (m, g) = ih k in (mem-cons_of_mem p m, g)
    go ih (err x) e k = cc
    go ih (panic f) e k = cc

-- The test of a child compares the prefix and the thirty-two bytes behind it.
pub has_guid_lem :
    (guid q : Bytes)
    → has_guid guid q ≡ ok true
    → (take 3 (last_part (split b'/' q)) ≡ protected_prefix)
      × (take 32 (drop 3 (last_part (split b'/' q))) ≡ guid)
unfolding has_guid
has_guid_lem guid q h =
    go (bytes_eq (take 3 (last_part (split b'/' q))) protected_prefix)
      (leb 35 (length (last_part (split b'/' q)))) refl h
  where
    go :
        (b l : Bool)
        → bytes_eq (take 3 (last_part (split b'/' q))) protected_prefix ≡ b
        → (if b
            then (if l
                then ok (bytes_eq (take 32 (drop 3 (last_part (split b'/' q)))) guid)
                else panic slice_bounds)
            else ok false)
          ≡ ok true
        → (take 3 (last_part (split b'/' q)) ≡ protected_prefix)
          × (take 32 (drop 3 (last_part (split b'/' q))) ≡ guid)
    go true true e k = (bytes_eq→eq _ _ e, bytes_eq→eq _ _ (cc))
    go true false e k = cc
    go false l e k = cc
