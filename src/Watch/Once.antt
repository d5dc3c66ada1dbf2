-- ===== src/Watch/Once.antt =====
-- No watcher of zk/conn.go is told twice.
use mathlib.Core.List.{Perm, Nodup, Mem, perm_middle, perm_append_comm, map-append}
use mathlib.Core.List.Perm
use go_zookeeper.Base.{
  ℕ, suc, ◌<◌, ◌≡◌, ◌↔◌, refl, ap, ap₂, ◌∙◌, Bytes, Option, some, List, [], ◌∷◌, ◌++◌, map,
  append_assoc, arith, Bool-cases, Option-cases, inl, inr,
}
use go_zookeeper.Channels.{AllBelow, AllBelow-nil, AllBelow-perm, AllBelow-cons, swap_front}
use go_zookeeper.Constants.{Error}
use go_zookeeper.Watch.{
  WatchType, WatchPath, Event, Table, Watches, watch_path_eq, append_chan, lookup_watch,
  delete_watch, send_all, add_watcher, fire, fire_all, deliver, send_table, invalidate_watches,
  not_watching, watch_types,
}

-- Every channel that waits for an event.
abbrev pub waiting : Table → List ℕ
waiting [] = []
waiting ((k, chs) ∷ t) = chs ++ waiting t

-- Every channel that was told.
abbrev pub told : List (ℕ × Event) → List ℕ
told = map (λ p. p.0)

abbrev pub channels : Watches → List ℕ
channels w = waiting w.table ++ told w.delivered

told-send_all : (ev : Event) (chs : List ℕ) → told (send_all ev chs) ≡ chs
unfolding send_all
told-send_all ev [] = refl
told-send_all ev (ch ∷ chs) = ap (λ t. ch ∷ t) (told-send_all ev chs)

told-send_table : (err : Option Error) (t : Table) → told (send_table err t) ≡ waiting t
unfolding send_table
told-send_table err [] = refl
told-send_table err ((k, chs) ∷ t) =
    map-append _ (send_all (not_watching err k.path) chs) (send_table err t)
    ∙ ap₂ (λ a b. a ++ b) (told-send_all (not_watching err k.path) chs) (told-send_table err t)

waiting-append_chan :
    (k : WatchPath) (ch : ℕ) (t : Table) → Perm (waiting (append_chan k ch t)) (ch ∷ waiting t)
unfolding append_chan
waiting-append_chan k ch [] = Perm.rfl
waiting-append_chan k ch ((j, chs) ∷ t) = elim (Bool-cases (watch_path_eq j k)) [
  | inl e ↦ rw e (rw (append_assoc chs (ch ∷ []) (waiting t)) (perm_middle chs (waiting t)))
  | inr e ↦
      rw e (
        Perm.trans (Perm.append_left chs (waiting-append_chan k ch t))
          (perm_middle chs (waiting t)))
]

waiting-delete_watch :
    (k : WatchPath) (t : Table) {chs : List ℕ}
    → lookup_watch k t ≡ some chs
    → Perm (waiting t) (chs ++ waiting (delete_watch k t))
unfolding lookup_watch delete_watch
waiting-delete_watch k [] e = cc
waiting-delete_watch k ((j, js) ∷ t) {chs} e = elim (Bool-cases (watch_path_eq j k)) [
  | inl h ↦ rw h (let same : js ≡ chs = ground (arith, e) in rw same Perm.rfl)
  | inr h ↦ rw h (
      let found : lookup_watch k t ≡ some chs = ground (arith, e) in
      Perm.trans (Perm.append_left js (waiting-delete_watch k t found))
        (swap_front js chs (waiting (delete_watch k t))))
]

regroup :
    (left old out all : List ℕ) → Perm all (out ++ left) → Perm (left ++ (old ++ out)) (all ++ old)
regroup left old out all h = Perm.trans (swap_front left old out) (
    Perm.trans (perm_append_comm old (left ++ out))
      (Perm.append_right old (Perm.trans (perm_append_comm left out) (Perm.symm h))))

fire-perm : (ev : Event) (t : WatchType) (w : Watches) → Perm (channels (fire ev t w)) (channels w)
unfolding fire
fire-perm ev t w =
    let k : WatchPath = record { path = ev.path; w_type = t } in
    elim (Option-cases (lookup_watch k w.table)) [
      | inl e ↦ rw (e, fire) Perm.rfl
      | inr (chs, e) ↦
          rw (e, fire)
            (rw (map-append (λ p. p.0) w.delivered (send_all ev chs), told-send_all ev chs)
              (regroup (waiting (delete_watch k w.table)) (told w.delivered) chs (waiting w.table)
                (waiting-delete_watch k w.table e)))
    ]

fire_all-perm :
    (ev : Event) (ts : List WatchType) (w : Watches)
    → Perm (channels (fire_all ev ts w)) (channels w)
unfolding fire_all
fire_all-perm ev [] w = Perm.rfl
fire_all-perm ev (t ∷ ts) w = Perm.trans (fire_all-perm ev ts (fire ev t w)) (fire-perm ev t w)

deliver-perm : (ev : Event) (w : Watches) → Perm (channels (deliver ev w)) (channels w)
unfolding deliver
deliver-perm ev w = fire_all-perm ev (watch_types ev.event_type) w

invalidate_watches-perm :
    (err : Option Error) (w : Watches) → Perm (channels (invalidate_watches err w)) (channels w)
unfolding invalidate_watches
invalidate_watches-perm err w =
    rw (map-append (λ p. p.0) w.delivered (send_table err w.table), told-send_table err w.table)
      (perm_append_comm (told w.delivered) (waiting w.table))

add_watcher-perm :
    (path : Bytes) (t : WatchType) (w : Watches)
    → Perm (channels (add_watcher path t w).0) (w.next_chan ∷ channels w)
unfolding add_watcher
add_watcher-perm path t w =
    Perm.append_right (told w.delivered) (waiting-append_chan _ w.next_chan w.table)

-- What the callers and the two loops of a connection do with the watchers, in any order.
pub data Step : Watches → Watches → Type 0 where
  adds : (path : Bytes) (t : WatchType) (w : Watches) → Step w (add_watcher path t w).0
  delivers : (ev : Event) (w : Watches) → Step w (deliver ev w)
  invalidates : (err : Option Error) (w : Watches) → Step w (invalidate_watches err w)

pub data Reach (s : Watches) : Watches → Type 0 where
  here : Reach s s
  later : {t u : Watches} → Reach s t → Step t u → Reach s u

-- The watchers of a connection that Connect has made.
abbrev pub no_watches : Watches
no_watches = record { table = []; next_chan = 0; delivered = [] }

fire-next_chan : (ev : Event) (t : WatchType) (w : Watches) → (fire ev t w).next_chan ≡ w.next_chan
unfolding fire
fire-next_chan ev t w = ground arith

fire_all-next_chan :
    (ev : Event) (ts : List WatchType) (w : Watches) → (fire_all ev ts w).next_chan ≡ w.next_chan
unfolding fire_all
fire_all-next_chan ev [] w = refl
fire_all-next_chan ev (t ∷ ts) w = fire_all-next_chan ev ts (fire ev t w) ∙ fire-next_chan ev t w

deliver-next_chan : (ev : Event) (w : Watches) → (deliver ev w).next_chan ≡ w.next_chan
unfolding deliver
deliver-next_chan ev w = fire_all-next_chan ev (watch_types ev.event_type) w

invalidate_watches-next_chan :
    (err : Option Error) (w : Watches) → (invalidate_watches err w).next_chan ≡ w.next_chan
unfolding invalidate_watches
invalidate_watches-next_chan err w = refl

add_watcher-next_chan :
    (path : Bytes) (t : WatchType) (w : Watches)
    → (add_watcher path t w).0.next_chan ≡ suc w.next_chan
unfolding add_watcher
add_watcher-next_chan path t w = refl

IsFresh : Watches → Type 0
IsFresh w = AllBelow (channels w) w.next_chan

Step-IsFresh : {v w : Watches} → Step v w → IsFresh v → IsFresh w
unfolding IsFresh
Step-IsFresh (adds path t w) f =
    rw (add_watcher-next_chan path t w)
      (AllBelow-perm (add_watcher-perm path t w) (AllBelow-cons f))
Step-IsFresh (delivers ev w) f = rw (deliver-next_chan ev w) (AllBelow-perm (deliver-perm ev w) f)
Step-IsFresh (invalidates err w) f =
    rw (invalidate_watches-next_chan err w) (AllBelow-perm (invalidate_watches-perm err w) f)

Reach-IsFresh : {w : Watches} → Reach no_watches w → IsFresh w
unfolding IsFresh
Reach-IsFresh here = AllBelow-nil
Reach-IsFresh (later r s) = Step-IsFresh s (Reach-IsFresh r)

-- After any sequence of calls of addWatcher, of deliveries and of invalidations, the channels that were
-- told and those that still wait are all different and are exactly the channels that were handed out:
-- no watcher is told twice, none that was told waits for more, and none is lost.
pub Reach-Nodup :
    {w : Watches}
    → Reach no_watches w
    → Nodup (waiting w.table ++ told w.delivered)
      × ((a : ℕ) → Mem a (waiting w.table ++ told w.delivered) ↔ (a < w.next_chan))
unfolding IsFresh
Reach-Nodup r = let f = Reach-IsFresh r in (f.distinct, λ a. (f.below a, f.all_stand a))
