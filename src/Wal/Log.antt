-- ===== src/Wal/Log.antt =====
-- `class OrderWAL` of monitor/order_wal.py. Its files, one for each day, are part of the state, since a
-- restart reads them. A call takes what the world answers it: the day, the time, and whether the write
-- of a line succeeds. A failed write leaves nothing, or the line in the buffer of the open file (the flush
-- failed), from where the next write that is flushed takes it along, or on the file (the sync failed).
use trading_hub.Base.{
  ℕ, ◌+◌, String, Bool, true, false, not, ◌&&◌, Option, none, some, List, [], ◌∷◌, ◌++◌, ltb, eqb,
  if◌then◌else◌, get_or_else, ◌==◌, nat_eq, string_eq, pair_eq,
}
use trading_hub.Base.Dict.{Dict, lookup, contains, insert, erase}
use trading_hub.Base.Text.{upper}
use trading_hub.Wal.Entry.{
  OrderState, intent, is_terminal, is_valid_transition, WalEntry, blank_entry, LogLine, entry,
  undecodable,
}

abbrev pub Key : Type 0
Key = String × String

pub data Left : Type 0 where
  nothing_left in_buffer on_file : Left

pub record World : Type 0 where
  pub today : ℕ
  pub now : ℕ
  pub write_ok : Bool
  pub left : Left
  pub close_ok : Bool

pub record OrderWal : Type 0 where
  pub initialized : Bool
  pub current_date : ℕ
  pub seq : ℕ
  pub order_states : Dict String OrderState
  pub active_orders : Dict Key String
  pub last_terminal : Dict Key ℕ
  pub files : Dict ℕ (List LogLine)
  pub buffer : List LogLine

-- A process that has just started, over the files that it finds.
abbrev pub start : Dict ℕ (List LogLine) → OrderWal
start files = record {
  initialized = false;
  current_date = 0;
  seq = 0;
  order_states = [];
  active_orders = [];
  last_terminal = [];
  files = files;
  buffer = [];
}

abbrev pub file_of : ℕ → Dict ℕ (List LogLine) → List LogLine
file_of day files = get_or_else (lookup day files) []

-- What `_replay_file` gathers from the lines: the counter, the states, and ticker and side by order.
pub record Replayed : Type 0 where
  pub seq : ℕ
  pub states : Dict String OrderState
  pub keys : Dict String Key

abbrev pub is_text : String → Bool
is_text s = not (s == "")

unfoldable pub replay_entry : WalEntry → Replayed → Replayed
replay_entry e r =
    let with_state : Replayed = record r {
      seq = if ltb r.seq e.seq then e.seq else r.seq;
      states = if is_text e.client_id then insert e.client_id e.state r.states else r.states;
    } in
    let has_key = is_text e.client_id && (is_text e.ticker && is_text e.side) in
    record with_state {
      keys = if has_key then insert e.client_id (e.ticker, upper e.side) r.keys else r.keys;
    }

unfoldable pub replay_lines : List LogLine → Replayed → Replayed
unfolding replay_entry
replay_lines [] r = r
replay_lines (entry e ∷ lines) r = replay_lines lines (replay_entry e r)
replay_lines (undecodable ∷ lines) r = replay_lines lines r

-- The index of the active orders is built again from the states of all known orders.
unfoldable pub rebuild :
    ℕ
    → Dict String Key
    → Dict String OrderState
    → Dict Key String × Dict Key ℕ
    → Dict Key String × Dict Key ℕ
rebuild now keys [] r = r
rebuild now keys ((cid, state) ∷ states) (active, terminal) =
    rebuild now keys states (elim (lookup cid keys) [
      | none ↦ (active, terminal)
      | some key ↦
          if is_terminal state
          then (active, insert key now terminal)
          else (insert key cid active, terminal)
    ])

unfoldable pub replay_file : World → OrderWal → OrderWal
unfolding replay_lines rebuild
replay_file e w =
    let from : Replayed = record { seq = w.seq; states = w.order_states; keys = [] } in
    let r = replay_lines (file_of e.today w.files) from in
    let (active, terminal) = rebuild e.now r.keys r.states ([], w.last_terminal) in
    record w {
      seq = r.seq;
      order_states = r.states;
      active_orders = active;
      last_terminal = terminal;
    }

-- Closing the file of the day before flushes its buffer, or loses it.
unfoldable pub close_lines : Bool → List LogLine → OrderWal → OrderWal
close_lines ok [] w = w
close_lines ok (l ∷ ls) w =
    let emptied : OrderWal = record w { buffer = [] } in
    if ok
    then record emptied {
      files = insert w.current_date (file_of w.current_date w.files ++ (l ∷ ls)) w.files;
    }
    else emptied

-- `_open_file`, where the file is not open for today yet.
unfoldable pub open_file : World → OrderWal → OrderWal
unfolding replay_file close_lines
open_file e w =
    let closed = close_lines e.close_ok w.buffer w in
    replay_file e (record closed { current_date = e.today })

-- `_ensure_initialized`, and the check for a new day.
unfoldable pub ensure_initialized : World → OrderWal → OrderWal
unfolding open_file
ensure_initialized e w = if w.initialized then w else record (open_file e w) { initialized = true }

unfoldable pub rotate : World → OrderWal → OrderWal
unfolding open_file
rotate e w = if eqb e.today w.current_date then w else open_file e w

-- The key under which an order stands in the index.
unfoldable pub key_of_order : String → Dict Key String → Option Key
key_of_order cid [] = none
key_of_order cid ((k, v) ∷ d) = if v == cid then some k else key_of_order cid d

abbrev pub key_of_entry : WalEntry → Dict Key String → Option Key
key_of_entry e active =
    if is_text e.ticker && is_text (upper e.side)
    then some (e.ticker, upper e.side)
    else key_of_order e.client_id active

unfoldable pub update_index_at : ℕ → WalEntry → Option Key → OrderWal → OrderWal
update_index_at now e none w = w
update_index_at now e (some key) w =
    if is_terminal e.state
    then record w {
      active_orders = erase key w.active_orders;
      last_terminal = insert key now w.last_terminal;
    }
    else record w { active_orders = insert key e.client_id w.active_orders }

unfoldable pub update_index : ℕ → WalEntry → OrderWal → OrderWal
update_index now e w = update_index_at now e (key_of_entry e w.active_orders) w

abbrev pub append_lines :
    ℕ → List LogLine → WalEntry → Dict ℕ (List LogLine) → Dict ℕ (List LogLine)
append_lines day buffer e files = insert day (file_of day files ++ (buffer ++ (entry e ∷ []))) files

-- The line reaches the file, with all that was still in the buffer.
abbrev pub flush_line : WalEntry → OrderWal → OrderWal
flush_line e w = record w { files = append_lines w.current_date w.buffer e w.files; buffer = [] }

-- What a write that fails leaves behind; the memory is not updated.
unfoldable pub failed_write : Left → WalEntry → OrderWal → OrderWal
failed_write nothing_left e w = w
failed_write in_buffer e w = record w { buffer = w.buffer ++ (entry e ∷ []) }
failed_write on_file e w = flush_line e w

-- A transition that the table does not list is logged as a warning, and is written all the same.
unfoldable pub is_warned : WalEntry → OrderWal → Bool
is_warned e w = elim (lookup e.client_id w.order_states) [
  | none ↦ false
  | some prev ↦ not (is_terminal prev) && not (is_valid_transition prev e.state)
]

-- `_write`, once the file of the day is open.
unfoldable pub write_open : World → WalEntry → OrderWal → OrderWal
unfolding failed_write
write_open world e w =
    let numbered : WalEntry = record e { seq = w.seq + 1 } in
    let counted : OrderWal = record w { seq = w.seq + 1 } in
    let written : OrderWal = record (flush_line numbered counted) {
      order_states = insert e.client_id e.state w.order_states;
    } in
    if world.write_ok
    then update_index world.now e written
    else failed_write world.left numbered counted

unfoldable pub write : World → WalEntry → OrderWal → OrderWal
write world e w = write_open world e (rotate world (ensure_initialized world w))

unfoldable pub has_pending_order : World → String → String → OrderWal → Bool × OrderWal
unfolding ensure_initialized
has_pending_order world ticker side w =
    let w' = ensure_initialized world w in (contains (ticker, upper side) w'.active_orders, w')

-- The check and the write of the intent, under one lock.
unfoldable pub intent_open : World → String → Key → WalEntry → OrderWal → Bool × OrderWal
unfolding failed_write
intent_open world cid key e w =
    let numbered : WalEntry = record e { seq = w.seq + 1 } in
    let counted : OrderWal = record w { seq = w.seq + 1 } in
    let written : OrderWal = record (flush_line numbered counted) {
      order_states = insert cid intent w.order_states;
      active_orders = insert key cid w.active_orders;
    } in
    if world.write_ok then (true, written) else (false, failed_write world.left numbered counted)

abbrev pub intent_entry : World → String → String → String → ℕ → ℕ → String → WalEntry
intent_entry world cid ticker side qty price reason = record (blank_entry intent cid world.now) {
  ticker = ticker;
  side = side;
  qty = qty;
  price = price;
  reason = reason;
}

unfoldable pub check_and_intent :
    World → String → String → String → ℕ → ℕ → String → OrderWal → Bool × OrderWal
check_and_intent world cid ticker side qty price reason w =
    let w' = ensure_initialized world w in
    let key : Key = (ticker, upper side) in
    let e = intent_entry world cid ticker side qty price reason in
    if contains key w'.active_orders
    then (false, w')
    else intent_open world cid key e (rotate world w')
