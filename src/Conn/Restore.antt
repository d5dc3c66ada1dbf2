-- ===== src/Conn/Restore.antt =====
-- sendSetWatches of zk/conn.go: the watches of an earlier connection, in requests of bounded size. The
-- requests are what the goroutine at its end sends; the range over the map goes over the table in
-- its order.
use go_zookeeper.Base.{
  ℕ, suc, ◌+◌, ◌*◌, ◌==◌, ltb, length, ℤ, Bytes, Option, none, some, List, [], ◌∷◌, ◌++◌,
  if◌then◌else◌,
}
use go_zookeeper.Wire.Value.{Value, Values, int64, string, slice, struct, nil, cons}
use go_zookeeper.Watch.{WatchType, watch_data, watch_exist, watch_child, WatchPath, Table}

-- setWatchesRequest
pub record SetWatches : Type 0 where
  pub relative_zxid : ℤ
  pub data_watches : List Bytes
  pub exist_watches : List Bytes
  pub child_watches : List Bytes

abbrev pub strings : List Bytes → Values
strings [] = nil
strings (p ∷ ps) = cons (string p) (strings ps)

-- The request as the codec sees it.
abbrev pub set_watches_value : SetWatches → Value
set_watches_value r = struct (
    cons (int64 r.relative_zxid) (
      cons (slice (strings r.data_watches))
        (cons (slice (strings r.exist_watches)) (cons (slice (strings r.child_watches)) nil))))

abbrev pub no_set_watches : ℤ → SetWatches
no_set_watches z = record {
  relative_zxid = z;
  data_watches = [];
  exist_watches = [];
  child_watches = [];
}

-- The local variables of the loop.
pub record Batch : Type 0 where
  pub reqs : List SetWatches
  pub req : Option SetWatches
  pub size_so_far : ℕ
  pub n : ℕ

-- The request that a path of `len` bytes goes to, the requests before it, and its size so far. The fixed
-- overhead of a request is 28.
unfoldable pub select_request :
    ℕ → ℤ → ℕ → List SetWatches → Option SetWatches → ℕ → List SetWatches × SetWatches × ℕ
select_request limit z len reqs none size = (reqs, no_set_watches z, 28)
select_request limit z len reqs (some r) size =
    if ltb limit (size + len) then (reqs ++ (r ∷ []), no_set_watches z, 28) else (reqs, r, size)

unfoldable pub add_path : WatchType → Bytes → SetWatches → SetWatches
add_path watch_data p r = record r { data_watches = r.data_watches ++ (p ∷ []) }
add_path watch_exist p r = record r { exist_watches = r.exist_watches ++ (p ∷ []) }
add_path watch_child p r = record r { child_watches = r.child_watches ++ (p ∷ []) }

-- The body of the loop.
unfoldable pub add_watch : ℕ → ℤ → WatchPath → List ℕ → Batch → Batch
unfolding select_request add_path
add_watch limit z k [] b = b
add_watch limit z k (ch ∷ chs) b =
    let len = 4 + length k.path in
    let s = select_request limit z len b.reqs b.req b.size_so_far in
    record {
      reqs = s.0;
      req = some (add_path k.w_type k.path s.1);
      size_so_far = s.2 + len;
      n = suc b.n;
    }

unfoldable pub add_watches : ℕ → ℤ → Table → Batch → Batch
unfolding add_watch
add_watches limit z [] b = b
add_watches limit z ((k, chs) ∷ t) b = add_watches limit z t (add_watch limit z k chs b)

abbrev pub no_batch : Batch
no_batch = record { reqs = []; req = none; size_so_far = 0; n = 0 }

abbrev pub last_request : Option SetWatches → List SetWatches
last_request none = []
last_request (some r) = r ∷ []

-- The limit of the program where no test sets another one.
abbrev pub set_watches_limit : ℕ
set_watches_limit = 128 * 1024

unfoldable pub set_watches : ℕ → ℤ → Table → List SetWatches
unfolding add_watches
set_watches limit z [] = []
set_watches limit z (e ∷ t) =
    let b = add_watches limit z (e ∷ t) no_batch in
    if b.n == 0 then [] else b.reqs ++ last_request b.req
