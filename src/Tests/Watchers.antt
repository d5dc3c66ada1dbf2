-- ===== src/Tests/Watchers.antt =====
-- The watchers of zk/conn.go on concrete maps.
use mathlib.Core.List.{Nodup, Mem}
use go_zookeeper.Base.{ℕ, ◌≡◌, ◌<◌, ◌↔◌, pos, bytes_eq, refl, none, [], ◌∷◌, ◌++◌, Bytes, str}
use go_zookeeper.Constants.{event_node_deleted}
use go_zookeeper.Watch.{
  watch_type_eq, fire, fire_all, delete_watch, watch_data, watch_child, WatchPath, watch_path_eq,
  Event, Watches, lookup_watch, send_all, add_watcher, deliver, watch_types, invalidate_watches,
}
use go_zookeeper.Watch.Once.{Step, Reach, no_watches, waiting, told, Reach-Nodup}

abbrev deleted : Event
deleted = record {
  event_type = event_node_deleted;
  state = pos 3;
  path = str "/a";
  err = none;
  server = [];
}

abbrev data_of : Bytes → WatchPath
data_of p = record { path = p; w_type = watch_data }

-- Two watchers of the data of /a and one of its children, and one of the data of /b.
abbrev four : Watches
four = record {
  table =
      (data_of (str "/a"), 0 ∷ 2 ∷ [])
      ∷ (record { path = str "/a"; w_type = watch_child }, 1 ∷ [])
      ∷ (data_of (str "/b"), 3 ∷ [])
      ∷ [];
  next_chan = 4;
  delivered = [];
}

-- The deletion of /a tells its data watchers, and then its child watcher.
deletion_run : (deliver deleted four).delivered ≡ (0, deleted) ∷ (2, deleted) ∷ (1, deleted) ∷ []
unfolding deliver fire_all fire lookup_watch delete_watch send_all watch_types watch_path_eq
    bytes_eq watch_type_eq
deletion_run = refl

abbrev one_watcher : Watches
one_watcher = (add_watcher (str "/a") watch_data no_watches).0

-- A watcher is added, the node is deleted, and the session ends.
abbrev ended : Watches
ended = invalidate_watches none (deliver deleted one_watcher)

ended-Reach : Reach no_watches ended
ended-Reach =
    Reach.later
      (Reach.later (Reach.later Reach.here (Step.adds (str "/a") watch_data no_watches))
        (Step.delivers deleted one_watcher))
      (Step.invalidates none (deliver deleted one_watcher))

Reach-Nodup_example :
    Nodup (waiting ended.table ++ told ended.delivered)
    × ((a : ℕ) → Mem a (waiting ended.table ++ told ended.delivered) ↔ (a < ended.next_chan))
Reach-Nodup_example = Reach-Nodup ended-Reach
