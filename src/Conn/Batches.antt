-- ===== src/Conn/Batches.antt =====
-- The requests of sendSetWatches in zk/conn.go: every watch is in one of them, and they are small.
use go_zookeeper.Base.{
  ℕ, ◌+◌, ◌≡◌, inl, inr, ◌==◌, ltb, length, ℤ, Bytes, Option, none, some, List, [], ◌∷◌, ◌++◌,
  if◌then◌else◌, append_assoc, append-nil, arith, Bool-cases, refl, sym, ap, ◌∙◌,
}
use go_zookeeper.Watch.{
  WatchType, watch_data, watch_exist, watch_child, watch_type_eq, WatchPath, Table,
}
use go_zookeeper.Conn.Restore.{
  SetWatches, no_set_watches, Batch, select_request, add_path, add_watch, add_watches, no_batch,
  last_request, set_watches,
}

abbrev pub watches_of : WatchType → SetWatches → List Bytes
watches_of watch_data r = r.data_watches
watches_of watch_exist r = r.exist_watches
watches_of watch_child r = r.child_watches

-- The paths of a type in all requests, in their order.
abbrev pub collect : WatchType → List SetWatches → List Bytes
collect t [] = []
collect t (r ∷ rs) = watches_of t r ++ collect t rs

-- The paths in the table for which somebody watches with the type.
abbrev pub wanted : WatchType → Table → List Bytes
wanted t [] = []
wanted t ((k, []) ∷ m) = wanted t m
wanted t ((k, ch ∷ chs) ∷ m) = if watch_type_eq k.w_type t then k.path ∷ wanted t m else wanted t m

unfoldable pub all_requests : Batch → List SetWatches
all_requests b = b.reqs ++ last_request b.req

collect-append :
    (t : WatchType) (xs ys : List SetWatches) → collect t (xs ++ ys) ≡ collect t xs ++ collect t ys
collect-append t [] ys = refl
collect-append t (x ∷ xs) ys =
    ap (λ l. watches_of t x ++ l) (collect-append t xs ys)
    ∙ sym (append_assoc (watches_of t x) (collect t xs) (collect t ys))

watches_of-add_path :
    (t u : WatchType) (p : Bytes) (r : SetWatches)
    → watches_of t (add_path u p r) ≡ watches_of t r ++ (if watch_type_eq u t then p ∷ [] else [])
unfolding add_path watch_type_eq
watches_of-add_path watch_data watch_data p r = refl
watches_of-add_path watch_exist watch_exist p r = refl
watches_of-add_path watch_child watch_child p r = refl
watches_of-add_path watch_data watch_exist p r = sym (append-nil r.data_watches)
watches_of-add_path watch_data watch_child p r = sym (append-nil r.data_watches)
watches_of-add_path watch_exist watch_data p r = sym (append-nil r.exist_watches)
watches_of-add_path watch_exist watch_child p r = sym (append-nil r.exist_watches)
watches_of-add_path watch_child watch_data p r = sym (append-nil r.child_watches)
watches_of-add_path watch_child watch_exist p r = sym (append-nil r.child_watches)

watches_of-none : (t : WatchType) (z : ℤ) → watches_of t (no_set_watches z) ≡ []
watches_of-none watch_data z = refl
watches_of-none watch_exist z = refl
watches_of-none watch_child z = refl

-- A new last request adds nothing.
collect-new :
    (t : WatchType) (z : ℤ) (reqs : List SetWatches)
    → collect t (reqs ++ (no_set_watches z ∷ [])) ≡ collect t reqs
collect-new t z reqs =
    rw (collect-append t reqs (no_set_watches z ∷ []), watches_of-none t z)
      (append-nil (collect t reqs))

collect-select :
    (t : WatchType) (limit : ℕ) (z : ℤ) (len : ℕ) (reqs : List SetWatches) (req : Option SetWatches)
    (size : ℕ)
    → collect t (
        (select_request limit z len reqs req size).0
        ++ ((select_request limit z len reqs req size).1 ∷ []))
      ≡ collect t (reqs ++ last_request req)
unfolding select_request
collect-select t limit z len reqs none size = rw (append-nil reqs) (collect-new t z reqs)
collect-select t limit z len reqs (some r) size = elim (Bool-cases (ltb limit (size + len))) [
  | inl e ↦ rw e (collect-new t z (reqs ++ (r ∷ [])))
  | inr e ↦ rw e
]

collect-add_watch :
    (t : WatchType) (limit : ℕ) (z : ℤ) (k : WatchPath) (chs : List ℕ) (b : Batch)
    → collect t (all_requests (add_watch limit z k chs b))
      ≡ collect t (all_requests b) ++ wanted t ((k, chs) ∷ [])
unfolding add_watch all_requests
collect-add_watch t limit z k [] b = sym (append-nil (collect t (b.reqs ++ last_request b.req)))
collect-add_watch t limit z k (ch ∷ chs) b =
    let s = select_request limit z (4 + length k.path) b.reqs b.req b.size_so_far in
    let same = collect-select t limit z (4 + length k.path) b.reqs b.req b.size_so_far in
    let w = if watch_type_eq k.w_type t then k.path ∷ [] else [] in
    rw
      (
        ← same,
        collect-append t s.0 (add_path k.w_type k.path s.1 ∷ []),
        collect-append t s.0 (s.1 ∷ []),
        watches_of-add_path t k.w_type k.path s.1,
      )
      (rw (
        append-nil (watches_of t s.1 ++ w),
        append-nil (watches_of t s.1),
        append_assoc (collect t s.0) (watches_of t s.1) w,
      ))

wanted-cons :
    (t : WatchType) (k : WatchPath) (chs : List ℕ) (m : Table)
    → wanted t ((k, chs) ∷ m) ≡ wanted t ((k, chs) ∷ []) ++ wanted t m
wanted-cons t k [] m = refl
wanted-cons t k (ch ∷ chs) m = ground arith

collect-add_watches :
    (t : WatchType) (limit : ℕ) (z : ℤ) (m : Table) (b : Batch)
    → collect t (all_requests (add_watches limit z m b)) ≡ collect t (all_requests b) ++ wanted t m
unfolding add_watches
collect-add_watches t limit z [] b = sym (append-nil (collect t (all_requests b)))
collect-add_watches t limit z ((k, chs) ∷ m) b =
    rw
      (
        collect-add_watches t limit z m (add_watch limit z k chs b),
        collect-add_watch t limit z k chs b,
        wanted-cons t k chs m,
      )
      (append_assoc (collect t (all_requests b)) (wanted t ((k, chs) ∷ [])) (wanted t m))

-- The count of the paths is 0 only where there is no request.
IsCounted : Batch → Type 0
IsCounted b = b.n ≡ 0 → all_requests b ≡ []

add_watches-IsCounted :
    (limit : ℕ) (z : ℤ) (m : Table) (b : Batch) → IsCounted b → IsCounted (add_watches limit z m b)
unfolding add_watches add_watch IsCounted
add_watches-IsCounted limit z [] b h = h
add_watches-IsCounted limit z ((k, []) ∷ m) b h = add_watches-IsCounted limit z m b h
add_watches-IsCounted limit z ((k, ch ∷ chs) ∷ m) b h =
    add_watches-IsCounted limit z m (add_watch limit z k (ch ∷ chs) b)
      (λ e. absurd (omega (arith, e)))

pub set_watches-eq :
    (limit : ℕ) (z : ℤ) (m : Table)
    → set_watches limit z m ≡ all_requests (add_watches limit z m no_batch)
unfolding set_watches all_requests IsCounted
set_watches-eq limit z [] = unfold add_watches in refl
set_watches-eq limit z (e ∷ m) =
    let b = add_watches limit z (e ∷ m) no_batch in
    let counted = add_watches-IsCounted limit z (e ∷ m) no_batch (λ h. refl) in
    elim (Bool-cases (b.n == 0)) [ inl h ↦ rw h (sym (counted (ground (arith, h)))) | inr h ↦ rw h ]

-- Whatever the limit, the requests of sendSetWatches together ask for each path that somebody watches,
-- under the type of its watchers, once for each entry of the map and in the order of the entries.
pub set_watches-wanted :
    (t : WatchType) (limit : ℕ) (z : ℤ) (m : Table) → collect t (set_watches limit z m) ≡ wanted t m
unfolding all_requests
set_watches-wanted t limit z m =
    rw (set_watches-eq limit z m) (collect-add_watches t limit z m no_batch)
