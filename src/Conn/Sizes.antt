-- ===== src/Conn/Sizes.antt =====
-- The size of the requests of sendSetWatches in zk/conn.go.
use go_zookeeper.Base.{
  ℕ, suc, ◌+◌, ◌≤◌, ◌≡◌, ◌⊎◌, inl, inr, ltb, length, ℤ, Bytes, Option, none, some, List, [], ◌∷◌,
  ◌++◌, arith, length-append, Bool-cases, refl, ◌∙◌, All, All-append, uint64,
}
use go_zookeeper.Wire.{be_bytes}
use go_zookeeper.Wire.Memory.{length-be_bytes}
use go_zookeeper.Wire.Spec.{wire, wire_values, wire_counted}
use go_zookeeper.Wire.Value.{slice}
use go_zookeeper.Wire.Encode.{count_values}
use go_zookeeper.Watch.{WatchType, watch_data, watch_exist, watch_child, WatchPath, Table}
use go_zookeeper.Conn.Restore.{
  SetWatches, strings, set_watches_value, no_set_watches, Batch, select_request, add_path,
  add_watch, add_watches, no_batch, last_request, set_watches,
}
use go_zookeeper.Conn.Batches.{all_requests, set_watches-eq}

-- The bytes of a request on the network behind its length: the header of 8 bytes, and the packet.
abbrev pub packet_size : SetWatches → ℕ
packet_size r = 8 + length (wire (set_watches_value r))

-- The number of paths of a request.
abbrev pub path_count : SetWatches → ℕ
path_count r = length r.data_watches + length r.exist_watches + length r.child_watches

strings_size : List Bytes → ℕ
strings_size [] = 0
strings_size (p ∷ ps) = 4 + length p + strings_size ps

length-strings : (ps : List Bytes) → length (wire_values (strings ps)) ≡ strings_size ps
unfolding wire strings_size
length-strings [] = refl
length-strings (p ∷ ps) = omega (
  arith,
  length-append (wire_counted p) (wire_values (strings ps)),
  length-append (be_bytes 4 (length p)) p,
  length-be_bytes 4 (length p),
  length-strings ps,
)

strings_size-last :
    (ps : List Bytes) (p : Bytes) → strings_size (ps ++ (p ∷ [])) ≡ strings_size ps + (4 + length p)
unfolding strings_size
strings_size-last [] p = omega arith
strings_size-last (q ∷ ps) p = omega (arith, strings_size-last ps p)

-- The bytes of a list of paths, in front of others.
strings_field : List Bytes → Bytes → Bytes
strings_field ps rest = wire (slice (strings ps)) ++ rest

length-strings_field :
    (ps : List Bytes) (rest : Bytes)
    → length (strings_field ps rest) ≡ 4 + strings_size ps + length rest
unfolding strings_field wire
length-strings_field ps rest = omega (
  arith,
  length-append (be_bytes 4 (count_values (strings ps)) ++ wire_values (strings ps)) rest,
  length-append (be_bytes 4 (count_values (strings ps))) (wire_values (strings ps)),
  length-be_bytes 4 (count_values (strings ps)),
  length-strings ps,
)

packet_fields :
    (r : SetWatches)
    → wire (set_watches_value r)
      ≡ be_bytes 8 (uint64 r.relative_zxid)
        ++ strings_field r.data_watches
            (strings_field r.exist_watches (strings_field r.child_watches []))
unfolding wire strings_field
packet_fields r = refl

packet_size_lem :
    (r : SetWatches)
    → packet_size r
      ≡ 28
        + strings_size r.data_watches
        + strings_size r.exist_watches
        + strings_size r.child_watches
packet_size_lem r =
    let last = strings_field r.child_watches [] in
    let middle = strings_field r.exist_watches last in
    rw (packet_fields r) (
      omega (
        arith,
        length-append (be_bytes 8 (uint64 r.relative_zxid)) (strings_field r.data_watches middle),
        length-be_bytes 8 (uint64 r.relative_zxid),
        length-strings_field r.data_watches middle,
        length-strings_field r.exist_watches last,
        length-strings_field r.child_watches [],
      ))

packet_size-none : (z : ℤ) → packet_size (no_set_watches z) ≡ 28
packet_size-none z = packet_size_lem (no_set_watches z) ∙ unfold strings_size in refl

packet_size-add_path :
    (t : WatchType) (p : Bytes) (r : SetWatches)
    → packet_size (add_path t p r) ≡ packet_size r + (4 + length p)
unfolding add_path
packet_size-add_path watch_data p r = omega (
  arith,
  packet_size_lem (add_path watch_data p r),
  packet_size_lem r,
  strings_size-last r.data_watches p,
)
packet_size-add_path watch_exist p r = omega (
  arith,
  packet_size_lem (add_path watch_exist p r),
  packet_size_lem r,
  strings_size-last r.exist_watches p,
)
packet_size-add_path watch_child p r = omega (
  arith,
  packet_size_lem (add_path watch_child p r),
  packet_size_lem r,
  strings_size-last r.child_watches p,
)

path_count-add_path :
    (t : WatchType) (p : Bytes) (r : SetWatches) → path_count (add_path t p r) ≡ suc (path_count r)
unfolding add_path
path_count-add_path watch_data p r = omega (arith, length-append r.data_watches (p ∷ []))
path_count-add_path watch_exist p r = omega (arith, length-append r.exist_watches (p ∷ []))
path_count-add_path watch_child p r = omega (arith, length-append r.child_watches (p ∷ []))

-- A request is within the limit, or has one path only.
abbrev pub Fits : ℕ → SetWatches → Type 0
Fits limit r = (packet_size r ≤ limit) ⊎ (path_count r ≡ 1)

-- The loop's count of the bytes is right.
abbrev IsSized : ℕ → Option SetWatches → ℕ → Type 0
IsSized limit none size = Unit
IsSized limit (some r) size = (packet_size r ≡ size) × Fits limit r

record IsSmall (limit : ℕ) (b : Batch) : Type 0 where
  earlier : All (Fits limit) b.reqs
  current : IsSized limit b.req b.size_so_far

-- The request that is selected, before the path is added to it.
record IsSelected (limit : ℕ) (len : ℕ) (s : List SetWatches × SetWatches × ℕ) : Type 0 where
  before : All (Fits limit) s.0
  sized : packet_size s.1 ≡ s.2
  room : (s.2 + len ≤ limit) ⊎ (path_count s.1 ≡ 0)

select_request-IsSelected :
    (limit : ℕ) (z : ℤ) (len : ℕ) (reqs : List SetWatches) (req : Option SetWatches) (size : ℕ)
    → All (Fits limit) reqs
    → IsSized limit req size
    → IsSelected limit len (select_request limit z len reqs req size)
unfolding select_request
select_request-IsSelected limit z len reqs none size hr hs = record {
  before = hr;
  sized = packet_size-none z;
  room = inr refl;
}
select_request-IsSelected limit z len reqs (some r) size hr hs =
    elim (Bool-cases (ltb limit (size + len))) [
      | inl e ↦ rw e (record {
        before = All-append (Fits limit) reqs (r ∷ []) hr (hs.1, tt);
        sized = packet_size-none z;
        room = inr refl;
      })
      | inr e ↦ rw e (record { before = hr; sized = hs.0; room = inl (ground (arith, e)) })
    ]

add_watch-IsSmall :
    (limit : ℕ) (z : ℤ) (k : WatchPath) (chs : List ℕ) (b : Batch)
    → IsSmall limit b
    → IsSmall limit (add_watch limit z k chs b)
unfolding add_watch
add_watch-IsSmall limit z k [] b h = h
add_watch-IsSmall limit z k (ch ∷ chs) b h =
    let len = 4 + length k.path in
    let s = select_request limit z len b.reqs b.req b.size_so_far in
    let i = select_request-IsSelected limit z len b.reqs b.req b.size_so_far h.earlier h.current in
    let size = packet_size-add_path k.w_type k.path s.1 in
    let count = path_count-add_path k.w_type k.path s.1 in
    record {
      earlier = i.before;
      current = (
        omega (arith, size, i.sized),
        elim i.room [
          | inl l ↦ inl (omega (arith, size, i.sized))
          | inr e ↦ inr (omega (arith, count, e))
        ],
      );
    }

add_watches-IsSmall :
    (limit : ℕ) (z : ℤ) (m : Table) (b : Batch)
    → IsSmall limit b
    → IsSmall limit (add_watches limit z m b)
unfolding add_watches
add_watches-IsSmall limit z [] b h = h
add_watches-IsSmall limit z ((k, chs) ∷ m) b h =
    add_watches-IsSmall limit z m (add_watch limit z k chs b) (add_watch-IsSmall limit z k chs b h)

last_request-Fits :
    (limit : ℕ) (req : Option SetWatches) (size : ℕ)
    → IsSized limit req size
    → All (Fits limit) (last_request req)
last_request-Fits limit none size h = tt
last_request-Fits limit (some r) size h = (h.1, tt)

all_requests-Fits : (limit : ℕ) (b : Batch) → IsSmall limit b → All (Fits limit) (all_requests b)
unfolding all_requests
all_requests-Fits limit b h =
    All-append (Fits limit) b.reqs (last_request b.req) h.earlier
      (last_request-Fits limit b.req b.size_so_far h.current)

-- Each request of sendSetWatches, with its header, is within the limit, or asks for one path only.
pub set_watches-Fits : (limit : ℕ) (z : ℤ) (m : Table) → All (Fits limit) (set_watches limit z m)
set_watches-Fits limit z m = rw (set_watches-eq limit z m) (
    all_requests-Fits limit (add_watches limit z m no_batch)
      (add_watches-IsSmall limit z m no_batch (record { earlier = tt; current = tt })))
