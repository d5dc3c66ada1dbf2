-- ===== src/Hosts.antt =====
-- zk/dnshostprovider.go, and FormatServers and stringShuffle of zk/util.go.
--
-- net.LookupHost, which asks the network, is the parameter `lookup_host`, and rand.Intn(i + 1) in the
-- round i of a shuffle is the parameter `rand i`. The mutex is left out: every method holds it for its
-- whole body, so that a method is one step.
pub mod Shuffle
pub mod Rotation
pub mod Start
use go_zookeeper.Base.{
  ℕ, zero, suc, ◌+◌, ◌-◌, ◌%◌, ℤ, pos, negsuc, int_eq, Bytes, bytes_eq, str, Bool, true, false, not,
  ◌&&◌, ◌==◌, Option, none, some, List, [], ◌∷◌, ◌++◌, if◌then◌else◌, length, get_elem?, take, drop,
  set, ltb,
}
use go_zookeeper.Constants.{default_port, no_hosts_found}
use go_zookeeper.Outcome.{Outcome, done, failed, crashed, ◌>>=◌}

-- strings.Contains(s, c) for a text c of one byte
unfoldable pub contains_byte : ℕ → Bytes → Bool
contains_byte c [] = false
contains_byte c (b ∷ bs) = if b == c then true else contains_byte c bs

-- An address with a port; the loop body of FormatServers and of Connect.
unfoldable pub format_server : Bytes → Bytes
unfolding contains_byte
format_server addr = if contains_byte b':' addr then addr else addr ++ (b':' ∷ default_port)

unfoldable pub format_servers : List Bytes → List Bytes
format_servers [] = []
format_servers (s ∷ ss) = format_server s ∷ format_servers ss

-- s[i], s[j] = s[j], s[i], which panics out of range
unfoldable pub swap {ℓ} : {A : Type ℓ} → List A → ℕ → ℕ → Outcome (List A)
swap xs i j = elim (get_elem? xs i) [
  | none ↦ crashed
  | some x ↦ elim (get_elem? xs j) [ none ↦ crashed | some y ↦ done (set (set xs i y) j x) ]
]

-- The loop of stringShuffle, from i down to 1.
unfoldable pub shuffle_from {ℓ} : {A : Type ℓ} → (ℕ → ℕ) → ℕ → List A → Outcome (List A)
shuffle_from rand zero s = done s
shuffle_from rand (suc i) s = swap s (suc i) (rand (suc i)) >>= λ t. shuffle_from rand i t

unfoldable pub string_shuffle {ℓ} : {A : Type ℓ} → (ℕ → ℕ) → List A → Outcome (List A)
string_shuffle rand s = shuffle_from rand (length s - 1) s

pub record DnsHostProvider : Type 0 where
  pub servers : List Bytes
  pub curr : ℤ
  pub last : ℤ

-- What Init takes from the standard library and from the network.
pub record Resolver : Type 0 where
  pub split_host_port : Bytes → Outcome (Bytes × Bytes)
  pub lookup_host : Bytes → Outcome (List Bytes)
  pub join_host_port : Bytes → Bytes → Bytes

unfoldable pub join_all : Resolver → Bytes → List Bytes → List Bytes
join_all r port [] = []
join_all r port (a ∷ as') = r.join_host_port a port ∷ join_all r port as'

-- The loop of Init over the servers; the first error ends it.
unfoldable pub resolve_all : Resolver → List Bytes → Outcome (List Bytes)
resolve_all r [] = done []
resolve_all r (s ∷ ss) = r.split_host_port s >>= λ hp. r.lookup_host hp.0 >>= λ addrs.
    resolve_all r ss >>= λ rest. done (join_all r hp.1 addrs ++ rest)

unfoldable pub init : Resolver → (ℕ → ℕ) → List Bytes → Outcome DnsHostProvider
init r rand servers = resolve_all r servers >>= λ found.
    if length found == 0
    then failed no_hosts_found
    else (string_shuffle rand found >>= λ shuffled.
        done (record { servers = shuffled; curr = negsuc 0; last = negsuc 0 }))

unfoldable pub len : DnsHostProvider → ℕ
len hp = length hp.servers

-- (curr + 1) % n of Go, whose remainder has the sign of the dividend.
unfoldable pub succ_mod : ℤ → ℕ → ℤ
succ_mod (pos c) n = pos ((c + 1) % n)
succ_mod (negsuc zero) n = pos 0
succ_mod (negsuc (suc c)) n = if (suc c) % n == 0 then pos 0 else negsuc ((suc c) % n - 1)

-- servers[i], which panics out of range
unfoldable pub index_server : List Bytes → ℤ → Outcome Bytes
index_server ss (negsuc i) = crashed
index_server ss (pos i) = elim (get_elem? ss i) [ none ↦ crashed | some s ↦ done s ]

-- The new provider, the server, and retryStart. The remainder by 0 is a panic.
unfoldable pub next : DnsHostProvider → Outcome (DnsHostProvider × Bytes × Bool)
unfolding succ_mod index_server
next hp =
    if length hp.servers == 0
    then crashed
    else let c = succ_mod hp.curr (length hp.servers) in
      let retry_start = int_eq c hp.last in
      let l = if int_eq hp.last (negsuc 0) then pos 0 else hp.last in
      (index_server hp.servers c >>= λ s. done (record hp { curr = c; last = l }, s, retry_start))

unfoldable pub connected : DnsHostProvider → DnsHostProvider
connected hp = record hp { last = hp.curr }
