-- ===== src/Hosts/Rotation.antt =====
-- The order in which Next of zk/dnshostprovider.go hands the servers out.
use go_zookeeper.Base.{
  ℕ, zero, suc, ◌+◌, ◌%◌, ◌<◌, ◌≡◌, sym, ap, ◌∙◌, pos, negsuc, Bytes, false, ◌&&◌, ◌==◌, List, some,
  arith, length, get_elem?, get_elem?-lt, ltb, lt→ltb,
}
use native.Mathlib.Nat.{mod-lt, mod-add-mod, zero-mod}
use go_zookeeper.Outcome.{Outcome, done, ◌>>=◌}
use go_zookeeper.Hosts.{DnsHostProvider, next, index_server}

-- k calls of Next, with no call of Connected between them.
unfoldable pub next_times : ℕ → DnsHostProvider → Outcome DnsHostProvider
next_times zero hp = done hp
next_times (suc k) hp = next_times k hp >>= λ h. next h >>= λ r. done r.0

-- The provider that Init leaves.
abbrev pub fresh : List Bytes → DnsHostProvider
fresh ss = record { servers = ss; curr = negsuc 0; last = negsuc 0 }

-- The provider after a connection to the server `c`.
abbrev pub connected_at : List Bytes → ℕ → DnsHostProvider
connected_at ss c = record { servers = ss; curr = pos c; last = pos c }

next_running :
    (ss : List Bytes) (c l : ℕ) {s : Bytes}
    → 0 < length ss
    → get_elem? ss ((c + 1) % length ss) ≡ some s
    → next (record { servers = ss; curr = pos c; last = pos l })
      ≡ done (
        record { servers = ss; curr = pos ((c + 1) % length ss); last = pos l },
        s,
        (c + 1) % length ss == l,
      )
unfolding next
next_running ss c l h e =
    let busy : (length ss == 0) ≡ false = ground arith in rw (busy, e, index_server)

first_call :
    (ss : List Bytes) {s : Bytes}
    → 0 < length ss
    → get_elem? ss 0 ≡ some s
    → next (fresh ss) ≡ done (record { servers = ss; curr = pos 0; last = pos 0 }, s, false)
unfolding next
first_call ss h e = let busy : (length ss == 0) ≡ false = ground arith in rw (busy, e)

at_mod :
    (ss : List Bytes) (i : ℕ)
    → 0 < length ss
    → (s : Bytes) × (get_elem? ss (i % length ss) ≡ some s)
at_mod ss i h = get_elem?-lt ss (i % length ss) (mod-lt i h)

mod_step : (i n : ℕ) → (i % n + 1) % n ≡ suc i % n
mod_step i n = mod-add-mod i n 1 ∙ ap (λ t. t % n) (omega arith)

at_step :
    (ss : List Bytes) (i : ℕ) {s : Bytes}
    → get_elem? ss (suc i % length ss) ≡ some s
    → get_elem? ss ((i % length ss + 1) % length ss) ≡ some s
at_step ss i e = rw (mod_step i (length ss)) e

next_times-fresh :
    (ss : List Bytes) (k : ℕ)
    → 0 < length ss
    → next_times (suc k) (fresh ss)
      ≡ done (record { servers = ss; curr = pos (k % length ss); last = pos 0 })
unfolding next_times
next_times-fresh ss zero h =
    let (s, e) = get_elem?-lt ss 0 h in
    rw (first_call ss h e) (
      ap (λ i. done (record { servers = ss; curr = pos i; last = pos 0 }))
        (sym (zero-mod (length ss))))
next_times-fresh ss (suc k) h =
    let (s, e) = at_mod ss (suc k) h in
    rw (
      next_times-fresh ss k h,
      next_running ss (k % length ss) 0 h (at_step ss k e),
      mod_step k (length ss),
    )

-- From the state in which Init leaves the provider, the call k of Next, from 0, returns the server k
-- modulo their number, and retryStart is true exactly when k is a multiple of that number other than 0.
pub next-fresh :
    (ss : List Bytes) (k : ℕ)
    → 0 < length ss
    → (s : Bytes) × (get_elem? ss (k % length ss) ≡ some s)
      × ((next_times k (fresh ss) >>= next)
          ≡ done (
            record { servers = ss; curr = pos (k % length ss); last = pos 0 },
            s,
            ltb 0 k && k % length ss == 0,
          ))
unfolding next_times
next-fresh ss zero h =
    let (s, e) = get_elem?-lt ss 0 h in
    let here = zero-mod (length ss) in (s, rw here e, rw (first_call ss h e, here))
next-fresh ss (suc k) h =
    let (s, e) = at_mod ss (suc k) h in
    (
      s,
      e,
      rw (
        next_times-fresh ss k h,
        next_running ss (k % length ss) 0 h (at_step ss k e),
        mod_step k (length ss),
        lt→ltb 0 (suc k) (omega arith),
      ),
    )
