-- ===== src/Watch.antt =====
-- The watchers of a connection in zk/conn.go: addWatcher, invalidateWatches, and the delivery of a watcher
-- event by recvLoop. Each of them holds watchersLock for its whole body, so it is one step.
--
-- A channel is a number, handed out in the order in which the channels are made. A watcher's channel
-- has room for one event, and what was sent on it stands in `delivered`, oldest first; every send
-- is followed by the close of the channel.
pub mod Once
pub mod Tables
pub mod Delivery
use go_zookeeper.Base.{
  ℕ, zero, suc, ◌+◌, ℤ, pos, negsuc, int_eq, Bytes, bytes_eq, Bool, true, false, ◌&&◌, ◌||◌, Option,
  none, some, List, [], ◌∷◌, ◌++◌, if◌then◌else◌,
}
use go_zookeeper.Constants.{
  Error, State, EventType, event_node_created, event_node_deleted, event_node_data_changed,
  event_node_children_changed, event_not_watching, state_disconnected,
}

pub data WatchType : Type 0 where
  watch_data watch_exist watch_child : WatchType

unfoldable pub watch_type_eq : WatchType → WatchType → Bool
watch_type_eq watch_data watch_data = true
watch_type_eq watch_exist watch_exist = true
watch_type_eq watch_child watch_child = true
watch_type_eq _ _ = false

-- watchPathType
pub record WatchPath : Type 0 where
  pub path : Bytes
  pub w_type : WatchType

unfoldable pub watch_path_eq : WatchPath → WatchPath → Bool
watch_path_eq a b = bytes_eq a.path b.path && watch_type_eq a.w_type b.w_type

pub record Event : Type 0 where
  pub event_type : EventType
  pub state : State
  pub path : Bytes
  pub err : Option Error
  pub server : Bytes

-- The map `watchers`, with one entry to a key.
abbrev pub Table : Type 0
Table = List (WatchPath × List ℕ)

pub record Watches : Type 0 where
  pub table : Table
  pub next_chan : ℕ
  pub delivered : List (ℕ × Event)

-- c.watchers[k] = append(c.watchers[k], ch)
unfoldable pub append_chan : WatchPath → ℕ → Table → Table
append_chan k ch [] = (k, ch ∷ []) ∷ []
append_chan k ch ((j, chs) ∷ t) =
    if watch_path_eq j k then (j, chs ++ (ch ∷ [])) ∷ t else (j, chs) ∷ append_chan k ch t

-- c.watchers[k], and none where the map has no such key
unfoldable pub lookup_watch : WatchPath → Table → Option (List ℕ)
lookup_watch k [] = none
lookup_watch k ((j, chs) ∷ t) = if watch_path_eq j k then some chs else lookup_watch k t

-- delete(c.watchers, k)
unfoldable pub delete_watch : WatchPath → Table → Table
delete_watch k [] = []
delete_watch k ((j, chs) ∷ t) = if watch_path_eq j k then t else (j, chs) ∷ delete_watch k t

-- for _, ch := range watchers { ch <- ev; close(ch) }
unfoldable pub send_all : Event → List ℕ → List (ℕ × Event)
send_all ev [] = []
send_all ev (ch ∷ chs) = (ch, ev) ∷ send_all ev chs

unfoldable pub add_watcher : Bytes → WatchType → Watches → Watches × ℕ
unfolding append_chan
add_watcher path t w = (
  record w {
    table = append_chan (record { path = path; w_type = t }) w.next_chan w.table;
    next_chan = suc w.next_chan;
  },
  w.next_chan,
)

-- The round of recvLoop for one watch type of an event.
unfoldable pub fire : Event → WatchType → Watches → Watches
unfolding lookup_watch delete_watch send_all
fire ev t w =
    let k : WatchPath = record { path = ev.path; w_type = t } in
    elim (lookup_watch k w.table) [
      | none ↦ w
      | some chs ↦ record w {
        table = delete_watch k w.table;
        delivered = w.delivered ++ send_all ev chs;
      }
    ]

unfoldable pub fire_all : Event → List WatchType → Watches → Watches
unfolding fire
fire_all ev [] w = w
fire_all ev (t ∷ ts) w = fire_all ev ts (fire ev t w)

-- The switch of recvLoop on the type of the event.
unfoldable pub watch_types : EventType → List WatchType
watch_types t =
    if int_eq t event_node_created
    then watch_exist ∷ []
    else if int_eq t event_node_deleted || int_eq t event_node_data_changed
    then watch_exist ∷ watch_data ∷ watch_child ∷ []
    else if int_eq t event_node_children_changed
    then watch_child ∷ []
    else []

-- recvLoop under watchersLock, for a watcher event of the server.
unfoldable pub deliver : Event → Watches → Watches
unfolding watch_types fire_all
deliver ev w = fire_all ev (watch_types ev.event_type) w

-- The event that invalidateWatches sends for a path.
abbrev pub not_watching : Option Error → Bytes → Event
not_watching err path = record {
  event_type = event_not_watching;
  state = state_disconnected;
  path = path;
  err = err;
  server = [];
}

unfoldable pub send_table : Option Error → Table → List (ℕ × Event)
unfolding send_all
send_table err [] = []
send_table err ((k, chs) ∷ t) = send_all (not_watching err k.path) chs ++ send_table err t

unfoldable pub invalidate_watches : Option Error → Watches → Watches
unfolding send_table
invalidate_watches err w = record w {
  table = [];
  delivered = w.delivered ++ send_table err w.table;
}
