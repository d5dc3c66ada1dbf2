-- ===== src/Hosts/Start.antt =====
-- What Init of zk/dnshostprovider.go leaves.
use mathlib.Core.List.{Perm}
use go_zookeeper.Base.{ℕ, ◌≤◌, ◌<◌, ◌≡◌, ◌==◌, false, Bytes, List, length, arith}
use go_zookeeper.Outcome.{done}
use go_zookeeper.Hosts.{Resolver, resolve_all, init}
use go_zookeeper.Hosts.Rotation.{fresh}
use go_zookeeper.Hosts.Shuffle.{string_shuffle-perm}

-- Where every server is resolved and there is an address, Init succeeds, whatever numbers rand.Intn draws
-- within its range: the provider has exactly the addresses that were found, in some order, and
-- starts before the first of them.
pub init-fresh :
    (r : Resolver) (rand : ℕ → ℕ) (servers found : List Bytes)
    → ((k : ℕ) → rand k ≤ k)
    → resolve_all r servers ≡ done found
    → 0 < length found
    → (ys : List Bytes) × (init r rand servers ≡ done (fresh ys)) × Perm ys found
unfolding init
init-fresh r rand servers found hr resolved some_found =
    let (ys, e, p) = string_shuffle-perm rand found hr in
    let busy : (length found == 0) ≡ false = ground arith in (ys, rw (resolved, busy, e), p)
