-- ===== src/Tests/Servers.antt =====
-- zk/dnshostprovider.go and stringShuffle on concrete lists.
use mathlib.Core.List.{Perm}
use go_zookeeper.Base.{ℕ, ◌≡◌, ◌≤◌, ◌++◌, pos, refl, List, [], ◌∷◌, Bytes, str, arith, true}
use go_zookeeper.Outcome.{done, ◌>>=◌}
use go_zookeeper.Hosts.Start.{init-fresh}
use go_zookeeper.Hosts.{Resolver, resolve_all, join_all, init, next, succ_mod, index_server}
use go_zookeeper.Hosts.Rotation.{next_times, fresh, connected_at}

abbrev servers : List Bytes
servers = str "a:1" ∷ str "b:1" ∷ str "c:1" ∷ []

-- The third call after a connection to the second server returns that server and starts over.
third_call :
    (next_times 2 (connected_at servers 1) >>= next)
    ≡ done (record { servers = servers; curr = pos 1; last = pos 1 }, str "b:1", true)
unfolding next next_times succ_mod index_server
third_call = refl

-- A draw of 0 in every round.
abbrev lowest : ℕ → ℕ
lowest k = 0

lowest-le : (k : ℕ) → lowest k ≤ k
lowest-le k = omega arith

-- Every server has the same two addresses; none of the texts is looked at.
abbrev two_addresses : Resolver
two_addresses = record {
  split_host_port = λ s. done (s, str "1");
  lookup_host = λ h. done (str "x" ∷ str "y" ∷ []);
  join_host_port = λ a p. a ++ (b':' ∷ p);
}

abbrev addresses : List Bytes
addresses = str "x:1" ∷ str "y:1" ∷ []

resolved : resolve_all two_addresses (str "zk" ∷ []) ≡ done addresses
unfolding resolve_all join_all
resolved = refl

init-fresh_example :
    (ys : List Bytes) × (init two_addresses lowest (str "zk" ∷ []) ≡ done (fresh ys))
    × Perm ys addresses
init-fresh_example =
    init-fresh two_addresses lowest (str "zk" ∷ []) addresses lowest-le resolved (omega arith)
