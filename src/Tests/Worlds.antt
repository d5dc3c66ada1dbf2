-- ===== src/Tests/Worlds.antt =====
-- A decoder of ASCII text, a decimal Atoi and a small server, on which the theorems about the calls of the
-- client are applied.
use go_zookeeper.Base.{
  ℕ, ◌+◌, ◌-◌, ◌*◌, ◌<◌, ◌≡◌, refl, ℤ, pos, int_eq, Bytes, str, Bool, ◌&&◌, leb, split, Option,
  none, some, List, [], ◌∷◌, ◌++◌, if◌then◌else◌,
}
use go_zookeeper.Constants.{
  Error, bad_number, op_create, op_get_children2, event_node_deleted, state_has_session,
  connection_closed,
}
use go_zookeeper.Wire.Value.{Values, string, slice, struct, nil, cons}
use go_zookeeper.Wire.Structs.{stat_type}
use go_zookeeper.Watch.{Event}
use go_zookeeper.Conn.{Conn, Request, Response}
use go_zookeeper.Paths.{Utf8}
use go_zookeeper.Paths.Ascii.{ReadsAscii}
use go_zookeeper.Client.{World, zero_value}
use go_zookeeper.Client.Protected.{last_part}
use go_zookeeper.Lock.{Lock}

abbrev pub first_rune : Bytes → ℕ × ℕ
first_rune [] = (0xfffd, 0)
first_rune (b ∷ r) = (b, 1)

abbrev pub last_rune : Bytes → ℕ × ℕ
last_rune [] = (0xfffd, 0)
last_rune (b ∷ []) = (b, 1)
last_rune (b ∷ c ∷ r) = last_rune (c ∷ r)

abbrev pub ascii : Utf8
ascii = record { first_rune = first_rune; last_rune = last_rune }

last_byte : (before : Bytes) (b : ℕ) → b < 128 → last_rune (before ++ (b ∷ [])) ≡ (b, 1)
last_byte [] b h = refl
last_byte (a ∷ []) b h = refl
last_byte (a ∷ c ∷ before) b h = last_byte (c ∷ before) b h

pub ascii-ReadsAscii : ReadsAscii ascii
ascii-ReadsAscii = record { first_byte = λ b rest h. refl; last_byte = last_byte; no_last = refl }

abbrev pub number : ℕ → Bytes → ℕ
number n [] = n
number n (b ∷ r) = number (n * 10 + (b - b'0')) r

abbrev pub is_number : Bytes → Bool
is_number [] = Bool.true
is_number (b ∷ r) = let rest = is_number r in leb b'0' b && leb b b'9' && rest

abbrev pub is_numeral : Bytes → Bool
is_numeral [] = Bool.false
is_numeral (b ∷ r) = is_number (b ∷ r)

abbrev pub atoi : Bytes → ℤ × Option Error
atoi s = (pos (number 0 s), if is_numeral s then none else some bad_number)

abbrev pub num : Bytes → ℕ
num q = number 0 (last_part (split b'-' q))

abbrev pub string_values : List Bytes → Values
string_values [] = nil
string_values (s ∷ ss) = cons (string s) (string_values ss)

-- The children of "/l": until the server's name is taken away, there is one in front of the lock.
abbrev pub names_of : Conn → List Bytes
names_of c = elim c.server [ [] ↦ str "lock-7" ∷ [] | s ∷ ss ↦ str "lock-3" ∷ str "lock-7" ∷ [] ]

abbrev pub respond_to : Request → Conn → Response
respond_to rq c = record {
  zxid = pos 1;
  err = none;
  body =
      if int_eq rq.opcode op_create
      then some (struct (cons (string (str "/l/lock-7")) nil))
      else if int_eq rq.opcode op_get_children2
      then some
          (struct (cons (slice (string_values (names_of c))) (cons (zero_value stat_type) nil)))
      else none;
  watcher = some 0;
}

abbrev pub deleted : Event
deleted = record {
  event_type = event_node_deleted;
  state = state_has_session;
  path = str "/l/lock-3";
  err = none;
  server = [];
}

abbrev pub queue_world : World
queue_world = record {
  exchange = λ rq c. (c, respond_to rq c);
  random = λ c. (c, (none, 0xab ∷ []));
  event = λ ch c. (record c { server = [] }, deleted);
}

-- A server that loses the connection at each Create, and has one short child with the prefix.
abbrev pub losing_world : World
losing_world = record {
  exchange = λ rq c. (
    c,
    record {
      zxid = pos 1;
      err = if int_eq rq.opcode op_create then some connection_closed else none;
      body =
          if int_eq rq.opcode op_create
          then none
          else some (
              struct
                (cons (slice (string_values (str "_c_x" ∷ []))) (cons (zero_value stat_type) nil)));
      watcher = none;
    },
  );
  random = λ c. (c, (none, []));
  event = λ ch c. (c, deleted);
}

abbrev pub the_lock : Lock
the_lock = record { path = str "/l"; acl = []; lock_path = []; seq = pos 0 }
