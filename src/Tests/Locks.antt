-- ===== src/Tests/Locks.antt =====
-- The lock of zk/lock.go on a small server.
use mathlib.Core.List.{Mem}
use go_zookeeper.Base.{
  inl, suc, ◌+◌, ◌%◌, ◌^◌, ◌≡◌, ◌<◌, ◌≤◌, refl, ap, ◌⊎◌, pos, negsuc, Bytes, bytes_eq, str, false,
  none, some, List, [], ◌∷◌, All, arith,
}
use go_zookeeper.Constants.{bad_number, deadlock, not_locked}
use go_zookeeper.Wire.{ok}
use go_zookeeper.Wire.Structs.{stat_type}
use go_zookeeper.Conn.{Conn, new_request, next_xid}
use go_zookeeper.Paths.{
  validate_path, check_runes, check_rune, check_slash, check_dot, check_next, rune_before, byte_at,
  text_from, text_to,
}
use go_zookeeper.Client.{◌>>=◌, run, with_valid, zero_value}
use go_zookeeper.Client.Calls.{children, create, get_w, delete, texts_of}
use go_zookeeper.Client.Protected.{create_protected, create_rounds, after_create}
use go_zookeeper.Lock.{
  Lock, new_lock, acquired, behind, choose, pick, pick_child, parse_seq, lock, create_node,
  after_protected, after_node, await, after_children, follow, after_watch, after_event, finish,
  unlock,
}
use go_zookeeper.Lock.Choose.{choose_lem}
use go_zookeeper.Lock.Lowest.{IsLowest, lock-IsLowest}
use go_zookeeper.Lock.Waiting.{Advances, await-ends, lock-guards}
use go_zookeeper.Lock.Fewer.{Loses, has-behind}
use go_zookeeper.Tests.Requests.{new_conn}
use go_zookeeper.Tests.Worlds.{ascii, atoi, num, string_values, names_of, queue_world, the_lock}

abbrev names : List Bytes
names = str "lock-3" ∷ str "lock-7" ∷ str "lock-5" ∷ []

names-numbered : All (λ p. parse_seq atoi p ≡ (pos (num p), none)) names
unfolding parse_seq
names-numbered = (refl, (refl, (refl, tt)))

choose_lem_example :
    ((choose atoi (pos 7) names ≡ acquired) × All (λ p. 7 ≤ num p) names)
    ⊎ ((q : Bytes) × (choose atoi (pos 7) names ≡ behind q)
        × Mem q names
        × (num q < 7)
        × All (λ p. num p < 7 → num p ≤ num q) names)
choose_lem_example = choose_lem atoi num 7 names names-numbered

lock_3_acquired : choose atoi (pos 3) names ≡ acquired
unfolding choose pick pick_child parse_seq
lock_3_acquired = refl

abbrev locked : Lock
locked = record { path = str "/l"; acl = []; lock_path = str "/l/lock-7"; seq = pos 7 }

abbrev last_conn : Conn
last_conn = record new_conn { xid = 4; next_chan = 4; server = [] }

run-lock : run queue_world (lock ascii the_lock atoi 2) new_conn ≡ ok (last_conn, (locked, none))
unfolding run ◌>>=◌ with_valid validate_path check_runes check_rune check_slash check_dot check_next
    rune_before byte_at text_from text_to children create get_w create_protected create_rounds
    after_create lock create_node after_protected after_node await after_children follow after_watch
    after_event finish choose pick pick_child parse_seq new_request next_xid bytes_eq
run-lock = refl

atoi_natural : (q : Bytes) → (parse_seq atoi q).1 ≡ none → (parse_seq atoi q).0 ≡ pos (num q)
unfolding parse_seq
atoi_natural q h = refl

lock-IsLowest_example : IsLowest atoi num ascii queue_world the_lock locked last_conn
lock-IsLowest_example =
    lock-IsLowest atoi num ascii queue_world the_lock locked 2 new_conn last_conn atoi_natural
      (bad_number, refl) run-lock

abbrev names_at : Bytes → List Bytes
names_at server = elim server [ [] ↦ str "lock-7" ∷ [] | s ∷ ss ↦ str "lock-3" ∷ str "lock-7" ∷ [] ]

numbered_at : (server : Bytes) → All (λ p. parse_seq atoi p ≡ (pos (num p), none)) (names_at server)
unfolding parse_seq
numbered_at [] = (refl, tt)
numbered_at (s ∷ ss) = (refl, (refl, tt))

front_at : (server q : Bytes) → choose atoi (pos 7) (names_at server) ≡ behind q → q ≡ str "lock-3"
unfolding choose pick pick_child parse_seq
front_at [] q h = cc
front_at (s ∷ ss) q h = cc

lost_at :
    (server q : Bytes)
    → choose atoi (pos 7) (names_at server) ≡ behind q
    → Loses num 7 q (names_at server) (str "lock-7" ∷ [])
unfolding choose pick pick_child parse_seq bytes_eq
lost_at [] q h = cc
lost_at (s ∷ ss) q h =
    let front : q ≡ str "lock-3" = front_at (s ∷ ss) q h in
    ((refl, tt), rw (front) refl, λ p m l. has-behind p (str "lock-3") (str "lock-7" ∷ []) m)

abbrev asked : Conn → Conn
asked c = record c { xid = (c.xid + 1) % 2 ^ 32; next_chan = suc c.next_chan }

texts-string_values : (ns : List Bytes) → texts_of (string_values ns) ≡ ns
texts-string_values [] = refl
texts-string_values (n ∷ ns) = ap (λ t. n ∷ t) (texts-string_values ns)

queue-Advances : Advances atoi num ascii queue_world the_lock 7 names_of
unfolding run with_valid validate_path check_runes check_rune check_slash check_dot check_next
    rune_before byte_at text_from text_to children get_w new_request next_xid
queue-Advances = record {
  numbered = λ c. numbered_at c.server;
  listed = λ c. (
    asked c,
    some (zero_value stat_type),
    ap (λ ns. ok (asked c, (ns, some (zero_value stat_type), none)))
        (texts-string_values (names_of c)),
    refl,
  );
  watched = λ c q h. (
    asked c,
    none,
    some (zero_value stat_type),
    some 0,
    inl (
      (let e : q ≡ str "lock-3" = front_at c.server q h in rw (e) refl),
      refl,
      lost_at c.server q h,
    ),
  );
}

await-ends_example :
    (c' : Conn) × (run queue_world (await atoi ascii the_lock 2 (pos 7)) new_conn ≡ ok (c', none))
await-ends_example =
    await-ends atoi num ascii queue_world the_lock 7 names_of 2 new_conn queue-Advances
      (omega arith)

run-delete :
    run queue_world (delete ascii locked.lock_path (negsuc 0)) new_conn
    ≡ ok (record new_conn { xid = 1; next_chan = 1 }, none)
unfolding run with_valid validate_path check_runes check_rune check_slash check_dot check_next
    rune_before byte_at text_from text_to delete new_request next_xid
run-delete = refl

lock-guards_example :
    ((bytes_eq locked.lock_path [] ≡ false)
      × (run queue_world (lock ascii locked atoi 0) new_conn
          ≡ ok (new_conn, (locked, some deadlock)))
      × (run queue_world (unlock ascii locked) new_conn
          ≡ ok (record new_conn { xid = 1; next_chan = 1 }, (new_lock (str "/l") [], none))))
    ⊎ ((locked.lock_path ≡ [])
        × (run queue_world (unlock ascii locked) new_conn
            ≡ ok (new_conn, (locked, some not_locked))))
lock-guards_example =
    lock-guards atoi ascii queue_world locked 0 new_conn
      (record new_conn { xid = 1; next_chan = 1 }) none run-delete
