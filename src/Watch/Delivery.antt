-- ===== src/Watch/Delivery.antt =====
-- Which watchers of zk/conn.go an event reaches, and what the map of watchers holds afterwards.
use go_zookeeper.Base.{
  map, ℕ, ◌≡◌, refl, sym, ap, ◌∙◌, Bytes, bytes_eq, Bool, false, ◌&&◌, ◌||◌, none, some, List, [],
  ◌∷◌, ◌++◌, append_assoc, append-nil, arith, if◌then◌else◌, Bool-cases, Option-cases, inl, inr,
}
use go_zookeeper.Constants.{EventType}
use go_zookeeper.Watch.{
  WatchType, watch_type_eq, WatchPath, watch_path_eq, Event, Table, Watches, lookup_watch, send_all,
  add_watcher, fire, fire_all, watch_types, deliver,
}
use go_zookeeper.Watch.Tables.{
  watch_path_eq→eq, chans_at, lookup-append_chan, lookup-delete_ne, IsMap, lookup-delete_self,
  IsMap-append_chan, IsMap-delete_watch,
}

abbrev at : Bytes → WatchType → WatchPath
at path t = record { path = path; w_type = t }

-- The channels that wait for a path and one of the types, in the order of the types.
abbrev pub heard : Bytes → List WatchType → Table → List ℕ
heard path [] t = []
heard path (u ∷ us) t =
    chans_at (lookup_watch (record { path = path; w_type = u }) t) ++ heard path us t

abbrev pub fires : WatchType → List WatchType → Bool
fires t [] = false
fires t (u ∷ us) = watch_type_eq u t || fires t us

abbrev IsDistinct : List WatchType → Type 0
IsDistinct [] = Unit
IsDistinct (t ∷ ts) = (fires t ts ≡ false) × IsDistinct ts

fire-delivered :
    (ev : Event) (t : WatchType) (w : Watches)
    → (fire ev t w).delivered
      ≡ w.delivered ++ send_all ev (chans_at (lookup_watch (at ev.path t) w.table))
unfolding fire send_all
fire-delivered ev t w = elim (Option-cases (lookup_watch (at ev.path t) w.table)) [
  | inl e ↦ rw (e, fire) (sym (append-nil w.delivered))
  | inr (chs, e) ↦ rw (e, fire)
]

fire-lookup :
    (ev : Event) (t : WatchType) (j : WatchPath) (w : Watches)
    → IsMap w.table
    → lookup_watch j (fire ev t w).table
      ≡ (if watch_path_eq (at ev.path t) j then none else lookup_watch j w.table)
unfolding fire
fire-lookup ev t j w m =
    let k = at ev.path t in
    elim (Bool-cases (watch_path_eq k j)) [
      | inl e ↦
          let same = watch_path_eq→eq k j e in ground (arith, same, lookup-delete_self k w.table m)
      | inr e ↦ ground (arith, e, lookup-delete_ne k j w.table e)
    ]

fire-IsMap : (ev : Event) (t : WatchType) (w : Watches) → IsMap w.table → IsMap (fire ev t w).table
unfolding fire
fire-IsMap ev t w m = elim (Option-cases (lookup_watch (at ev.path t) w.table)) [
  | inl e ↦ rw (e, fire) m
  | inr (chs, e) ↦ rw (e, fire) (IsMap-delete_watch (at ev.path t) w.table m)
]

differ :
    (p : Bytes) (t u : WatchType)
    → watch_type_eq u t ≡ false
    → watch_path_eq (at p t) (at p u) ≡ false
unfolding watch_path_eq watch_type_eq
differ p t u h = ground arith

-- A type that is not among them leaves the others' channels.
heard-fire :
    (ev : Event) (t : WatchType) (us : List WatchType) (w : Watches)
    → IsMap w.table
    → fires t us ≡ false
    → heard ev.path us (fire ev t w).table ≡ heard ev.path us w.table
heard-fire ev t [] w m h = refl
heard-fire ev t (u ∷ us) w m h =
    let other = differ ev.path t u (ground (arith, h)) in
    let rest = heard-fire ev t us w m (ground (arith, h)) in
    rw (fire-lookup ev t (at ev.path u) w m, other, rest)

send_all-append :
    (ev : Event) (xs ys : List ℕ) → send_all ev (xs ++ ys) ≡ send_all ev xs ++ send_all ev ys
unfolding send_all
send_all-append ev [] ys = refl
send_all-append ev (x ∷ xs) ys = ap (λ t. (x, ev) ∷ t) (send_all-append ev xs ys)

fire_all-delivered :
    (ev : Event) (ts : List WatchType) (w : Watches)
    → IsMap w.table
    → IsDistinct ts
    → (fire_all ev ts w).delivered ≡ w.delivered ++ send_all ev (heard ev.path ts w.table)
unfolding fire_all
fire_all-delivered ev [] w m d = unfold send_all in sym (append-nil w.delivered)
fire_all-delivered ev (t ∷ ts) w m d = rw (
  fire_all-delivered ev ts (fire ev t w) (fire-IsMap ev t w m) d.1,
  fire-delivered ev t w,
  heard-fire ev t ts w m d.0,
  send_all-append,
  append_assoc,
)

watch_types-IsDistinct : (e : EventType) → IsDistinct (watch_types e)
unfolding watch_types watch_type_eq
watch_types-IsDistinct e = ground arith

send_all-map : (ev : Event) (chs : List ℕ) → send_all ev chs ≡ map (λ ch. (ch, ev)) chs
unfolding send_all
send_all-map ev [] = refl
send_all-map ev (ch ∷ chs) = ap (λ t. (ch, ev) ∷ t) (send_all-map ev chs)

-- The watchers that the server's event reaches are those of its path and of the types that its type
-- fires: the existence watchers of a created node, all watchers of a deleted or changed one, the
-- child watchers of a node whose children changed. Each is sent the event, in the order in which
-- they were added.
pub deliver-delivered :
    (ev : Event) (w : Watches)
    → IsMap w.table
    → (deliver ev w).delivered
      ≡ w.delivered ++ map (λ ch. (ch, ev)) (heard ev.path (watch_types ev.event_type) w.table)
unfolding deliver
deliver-delivered ev w m =
    fire_all-delivered ev (watch_types ev.event_type) w m (watch_types-IsDistinct ev.event_type)
    ∙ ap (λ t. w.delivered ++ t)
        (send_all-map ev (heard ev.path (watch_types ev.event_type) w.table))

fire_all-lookup :
    (ev : Event) (ts : List WatchType) (j : WatchPath) (w : Watches)
    → IsMap w.table
    → lookup_watch j (fire_all ev ts w).table
      ≡ (if bytes_eq ev.path j.path && fires j.w_type ts then none else lookup_watch j w.table)
unfolding fire_all
fire_all-lookup ev [] j w m = ground arith
fire_all-lookup ev (t ∷ ts) j w m =
    fire_all-lookup ev ts j (fire ev t w) (fire-IsMap ev t w m)
    ∙ rw (fire-lookup ev t j w m) (unfold watch_path_eq in ground arith)

fire_all-IsMap :
    (ev : Event) (ts : List WatchType) (w : Watches)
    → IsMap w.table
    → IsMap (fire_all ev ts w).table
unfolding fire_all
fire_all-IsMap ev [] w m = m
fire_all-IsMap ev (t ∷ ts) w m = fire_all-IsMap ev ts (fire ev t w) (fire-IsMap ev t w m)

-- After the delivery the map has no watcher of that path and of a type that was fired, and every other
-- entry is as it was; it still has one entry to a key.
pub deliver-lookup :
    (ev : Event) (j : WatchPath) (w : Watches)
    → IsMap w.table
    → (lookup_watch j (deliver ev w).table ≡ (
        if bytes_eq ev.path j.path && fires j.w_type (watch_types ev.event_type)
        then none
        else lookup_watch j w.table))
      × IsMap (deliver ev w).table
unfolding deliver
deliver-lookup ev j w m = (
  fire_all-lookup ev (watch_types ev.event_type) j w m,
  fire_all-IsMap ev (watch_types ev.event_type) w m,
)

-- A call of addWatcher on a map with one entry to a key leaves such a map, in which the new channel is
-- the last that waits for its path and type, and every other entry is as it was.
pub add_watcher-lookup :
    (path : Bytes) (t : WatchType) (j : WatchPath) (w : Watches)
    → IsMap w.table
    → (lookup_watch j (add_watcher path t w).0.table ≡ (
        if watch_path_eq (record { path = path; w_type = t }) j
        then some (
            chans_at (lookup_watch (record { path = path; w_type = t }) w.table)
            ++ ((add_watcher path t w).1 ∷ []))
        else lookup_watch j w.table))
      × IsMap (add_watcher path t w).0.table
unfolding add_watcher
add_watcher-lookup path t j w m = (
  lookup-append_chan (at path t) j w.next_chan w.table,
  IsMap-append_chan (at path t) w.next_chan w.table m,
)
