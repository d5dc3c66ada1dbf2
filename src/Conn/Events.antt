-- ===== src/Conn/Events.antt =====
-- What recvLoop of zk/conn.go does with the packets that answer no request.
use go_zookeeper.Base.{
  pos, ◌||◌, map, List, ◌∷◌, ltb, bytes_eq, not, ◌&&◌, ℤ, negsuc, [], Bool-cases, inl, inr, ℕ, ◌+◌,
  ◌≡◌, refl, is_neg, is_pos, int_eq, Bytes, true, false, none, ◌++◌, arith, length, if◌then◌else◌,
}
use go_zookeeper.Wire.{ok, Slice, slice_range}
use go_zookeeper.Wire.Value.{string, Value, int32, struct, nil, cons}
use go_zookeeper.Wire.Structs.{watcher_event_type}
use go_zookeeper.Wire.Spec.{HasKind, wire}
use go_zookeeper.Wire.Packets.{decode_packet-wire}
use go_zookeeper.Conn.{event_chan_size, send_event, Conn, lookup_request}
use go_zookeeper.Watch.{
  WatchType, watch_exist, watch_data, watch_child, Event, deliver, Watches, WatchPath, watch_types,
  lookup_watch,
}
use go_zookeeper.Watch.Tables.{IsMap}
use go_zookeeper.Watch.Delivery.{heard, fires, deliver-delivered, deliver-lookup}
use go_zookeeper.Conn.Receive.{
  notify, event_of, handle_event, ResponseHeader, answer, handle_response, handle_packet,
  recv_packet,
}
use go_zookeeper.Conn.Replies.{
  header_value, InRange, length-header, body_slice, recv_packet_lem, dispatch_response,
}

-- An event as the server sends it.
abbrev pub event_value : ℤ → ℤ → Bytes → Value
event_value t s path = struct (cons (int32 t) (cons (int32 s) (cons (string path) nil)))

abbrev pub server_event : ℤ → ℤ → Bytes → Event
server_event t s path = record { event_type = t; state = s; path = path; err = none; server = [] }

-- The events in the event channel and those handed to the callback, once `ev` was published.
abbrev pub queued : Event → Conn → List Event
queued ev c =
    if ltb (length c.event_chan) event_chan_size then c.event_chan ++ (ev ∷ []) else c.event_chan

abbrev pub called : Event → Conn → List Event
called ev c = if c.event_callback then c.calls ++ (ev ∷ []) else c.calls

recv_packet-published :
    (h : ResponseHeader) (t s : ℤ) (path rest : Bytes) (c : Conn)
    → InRange h
    → h.xid ≡ negsuc 0
    → HasKind watcher_event_type (event_value t s path)
    → recv_packet
        (record {
          len = 16 + length (wire (event_value t s path));
          mem = wire (header_value h) ++ (wire (event_value t s path) ++ rest);
        })
        c
      ≡ ok (
        record c {
          event_chan = queued (server_event t s path) c;
          calls = called (server_event t s path) c;
          watches = deliver (server_event t s path) c.watches;
        },
        none,
      )
unfolding handle_packet handle_event notify event_of send_event
recv_packet-published h t s path rest c r x k =
    let v = event_value t s path in
    let p : Slice = record {
      len = 16 + length (wire v);
      mem = wire (header_value h) ++ (wire v ++ rest);
    } in
    let z : int_eq h.xid (negsuc 0) ≡ true = rw x refl in
    let rest_of : slice_range 16 (16 + length (wire v)) p
        ≡ ok (record { len = length (wire v); mem = wire v ++ rest }) =
      body_slice (wire (header_value h)) (wire v) rest (length-header h) in
    let value = decode_packet-wire rest (length (wire v)) k (omega arith) in
    rw (recv_packet_lem h (wire v ++ rest) (16 + length (wire v)) c r)
      (rw (z, rest_of) (rw (value)))

-- The types of watchers that an event of the server fires: 1 is a node that was created, 2 one that was
-- deleted, 3 one whose data changed and 4 one whose children changed.
abbrev pub fired : ℤ → List WatchType
fired t =
    if int_eq t (pos 1)
    then watch_exist ∷ []
    else if int_eq t (pos 2) || int_eq t (pos 3)
    then watch_exist ∷ watch_data ∷ watch_child ∷ []
    else if int_eq t (pos 4)
    then watch_child ∷ []
    else []

watch_types-fired : (t : ℤ) → watch_types t ≡ fired t
unfolding watch_types
watch_types-fired t = refl

-- Where the map of watchers has one entry to a key, a packet with the xid -1 and a watcher event is put on
-- the event channel, if this holds less than six events, and handed to the callback, if there is
-- one. The watchers of its path that its type fires (those for the existence of a created node, all
-- those of a deleted or changed one, those for the children of a node whose children changed) are
-- each sent the event, in the order of their types and then in that of their addition, and are taken
-- out of the map, whose other entries stay. Nothing else changes, and the loop goes on.
pub recv_packet-event :
    (h : ResponseHeader) (t s : ℤ) (path rest : Bytes) (c : Conn)
    → InRange h
    → h.xid ≡ negsuc 0
    → HasKind watcher_event_type (event_value t s path)
    → IsMap c.watches.table
    → (w : Watches) × (recv_packet
          (record {
            len = 16 + length (wire (event_value t s path));
            mem = wire (header_value h) ++ (wire (event_value t s path) ++ rest);
          })
          c
        ≡ ok (
          record c {
            event_chan =
                if ltb (length c.event_chan) 6
                then c.event_chan ++ (server_event t s path ∷ [])
                else c.event_chan;
            calls = if c.event_callback then c.calls ++ (server_event t s path ∷ []) else c.calls;
            watches = w;
          },
          none,
        ))
      × (w.delivered
          ≡ c.watches.delivered
            ++ map (λ ch. (ch, server_event t s path)) (heard path (fired t) c.watches.table))
      × ((j : WatchPath)
          → lookup_watch j w.table ≡ (
              if bytes_eq path j.path && fires j.w_type (fired t)
              then none
              else lookup_watch j c.watches.table))
recv_packet-event h t s path rest c r x k m =
    let ev = server_event t s path in
    (
      deliver ev c.watches,
      recv_packet-published h t s path rest c r x k,
      rw (← watch_types-fired t) (deliver-delivered ev c.watches m),
      λ j. rw (← watch_types-fired t) (deliver-lookup ev j c.watches m).0,
    )

-- A ping response, a packet with another xid below 0, and a response to no pending request change
-- nothing but the last zxid, and that only for the last, where its zxid is positive; the loop
-- goes on.
pub recv_packet-ignored :
    (h : ResponseHeader) (rest : Bytes) (len : ℕ) (c : Conn)
    → InRange h
    → int_eq h.xid (negsuc 0) ≡ false
    → lookup_request h.xid c.requests ≡ none
    → recv_packet (record { len = len; mem = wire (header_value h) ++ rest }) c
      ≡ ok (
        record c {
          last_zxid = if not (is_neg h.xid) && is_pos h.zxid then h.zxid else c.last_zxid;
        },
        none,
      )
unfolding handle_packet handle_response answer
recv_packet-ignored h rest len c r x e =
    rw (recv_packet_lem h rest len c r) (elim (Bool-cases (is_neg h.xid)) [
      | inl n ↦
          rw (x, n) (elim (Bool-cases (int_eq h.xid (negsuc 1))) [ inl y ↦ rw y | inr y ↦ rw y ])
      | inr n ↦ rw (
        dispatch_response (record { len = len; mem = wire (header_value h) ++ rest }) h c n,
        e,
        n,
      )
    ])
