-- ===== src/Tests/Batching.antt =====
-- The requests of sendSetWatches in zk/conn.go for a small map.
use go_zookeeper.Base.{◌≡◌, pos, refl, [], ◌∷◌, str, All}
use go_zookeeper.Watch.{watch_data, watch_child, Table}
use go_zookeeper.Conn.Restore.{set_watches, add_watches, add_watch, select_request, add_path}
use go_zookeeper.Conn.Batches.{collect, wanted, set_watches-wanted}
use go_zookeeper.Conn.Sizes.{Fits, set_watches-Fits}

-- A path that nobody watches any more, two paths whose data is watched, and one of which the children are.
abbrev watched : Table
watched =
    (record { path = str "/none"; w_type = watch_data }, [])
    ∷ (record { path = str "/a"; w_type = watch_data }, 0 ∷ 2 ∷ [])
    ∷ (record { path = str "/a"; w_type = watch_child }, 1 ∷ [])
    ∷ (record { path = str "/long/path"; w_type = watch_data }, 3 ∷ [])
    ∷ []

-- At the limit of 40 bytes the third path starts a second request.
two_requests :
    set_watches 40 (pos 5) watched
    ≡ record {
      relative_zxid = pos 5;
      data_watches = str "/a" ∷ [];
      exist_watches = [];
      child_watches = str "/a" ∷ [];
    }
      ∷ record {
        relative_zxid = pos 5;
        data_watches = str "/long/path" ∷ [];
        exist_watches = [];
        child_watches = [];
      }
      ∷ []
unfolding set_watches add_watches add_watch select_request add_path
two_requests = refl

set_watches-wanted_example :
    collect watch_data (set_watches 40 (pos 5) watched) ≡ wanted watch_data watched
set_watches-wanted_example = set_watches-wanted watch_data 40 (pos 5) watched

set_watches-Fits_example : All (Fits 40) (set_watches 40 (pos 5) watched)
set_watches-Fits_example = set_watches-Fits 40 (pos 5) watched
