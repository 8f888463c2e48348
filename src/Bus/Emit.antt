-- ===== src/Bus/Emit.antt =====
-- `emit` of `class EventBus` (monitor/event_bus.py) in synchronous mode. A handler that emits in turn is
-- an emit of its own.
use trading_hub.Base.{
  ℕ, ◌+◌, String, Bool, true, not, ◌&&◌, List, [], ◌∷◌, ◌++◌, ltb, leb, if◌then◌else◌, get_or_else,
  length, nat_eq, string_eq, pair_eq,
}
use trading_hub.Base.Dict.{Dict, lookup, contains, insert, erase}
use trading_hub.Base.Recent.{drop_first_entry}
use trading_hub.Bus.State.{Event, EventBus, World, StreamKey, Subscription, subscribers_of}
use trading_hub.Bus.Deliver.{deliver}

-- The id is remembered; beyond the window the oldest is forgotten.
unfoldable pub remember_id : ℕ → String → Dict String Bool → Dict String Bool
remember_id window eid ids =
    let more = ids ++ ((eid, true) ∷ []) in
    if ltb window (length more) then drop_first_entry more else more

-- The next number of a stream, which becomes the most recently used; a new stream may evict the oldest.
unfoldable pub next_seq : ℕ → StreamKey → Dict StreamKey ℕ → ℕ × Dict StreamKey ℕ
next_seq max_streams k d =
    let room =
      if contains k d then d else if leb max_streams (length d) then drop_first_entry d else d in
    let n = get_or_else (lookup k room) 0 + 1 in (n, erase k room ++ ((k, n) ∷ []))

abbrev pub stream_of : Event → StreamKey
stream_of e = (e.kind, e.ticker)

-- The numbers that the bus gives to an event.
unfoldable pub number : Event → EventBus → ℕ × EventBus
unfolding next_seq
number e b =
    let (n, d) = next_seq b.max_streams (stream_of e) b.stream_seqs in
    (
      n,
      record b {
        sequence = b.sequence + 1;
        stream_seqs = d;
        emit_counts = insert e.kind (get_or_else (lookup e.kind b.emit_counts) 0 + 1) b.emit_counts;
      },
    )

abbrev pub all_return : World → List String → Bool
all_return w [] = true
all_return w (h ∷ hs) = w.hook_returns h && all_return w hs

-- The handlers that the snapshot lists, in order.
unfoldable pub deliver_all : World → Event → List Subscription → EventBus → EventBus
unfolding deliver
deliver_all w e [] b = b
deliver_all w e (s ∷ ss) b = deliver_all w e ss (deliver w e s.handler b)

pub data Emitted : Type 0 where
  type_error duplicate hook_failed : Emitted
  sent : ℕ → Emitted

abbrev pub is_seen : Event → EventBus → Bool
is_seen e b = ltb 0 b.idempotency_window && contains e.event_id b.seen_ids

abbrev pub note_id : Event → EventBus → EventBus
note_id e b =
    if ltb 0 b.idempotency_window
    then record b { seen_ids = remember_id b.idempotency_window e.event_id b.seen_ids }
    else b

unfoldable pub emit_new : World → Bool → Event → EventBus → Emitted × EventBus
unfolding number deliver_all
emit_new w durable e b =
    let (n, numbered) = number e b in
    if durable && b.durable_fail_fast && not (all_return w b.before_emit_hooks)
    then (hook_failed, numbered)
    else (sent n, deliver_all w e (subscribers_of e.kind numbered) numbered)

unfoldable pub emit : World → Bool → Event → EventBus → Emitted × EventBus
unfolding remember_id emit_new
emit w durable e b =
    if not e.well_typed
    then (type_error, b)
    else if is_seen e b
    then (duplicate, record b { dup_dropped = b.dup_dropped + 1 })
    else emit_new w durable e (note_id e b)
