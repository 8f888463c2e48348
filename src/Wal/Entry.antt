-- ===== src/Wal/Entry.antt =====
-- The order states, their transitions and the entries of the log (monitor/order_wal.py). Quantities
-- and prices are numbers of some fixed unit: the log only stores them.
use trading_hub.Base.{
  ℕ, String, Bool, true, false, eqb, if◌then◌else◌, ◌==◌, nat_eq, string_eq, pair_eq,
}

pub data OrderState : Type 0 where
  intent submitted acked partial filled recorded cancelled rejected orphaned failed : OrderState

-- `TERMINAL_STATES`
abbrev pub is_terminal : OrderState → Bool
is_terminal recorded = true
is_terminal cancelled = true
is_terminal rejected = true
is_terminal failed = true
is_terminal _ = false

-- `VALID_TRANSITIONS`
abbrev pub is_valid_transition : OrderState → OrderState → Bool
is_valid_transition intent submitted = true
is_valid_transition intent cancelled = true
is_valid_transition intent failed = true
is_valid_transition submitted acked = true
is_valid_transition submitted filled = true
is_valid_transition submitted rejected = true
is_valid_transition submitted cancelled = true
is_valid_transition submitted failed = true
is_valid_transition acked partial = true
is_valid_transition acked filled = true
is_valid_transition acked cancelled = true
is_valid_transition partial filled = true
is_valid_transition partial cancelled = true
is_valid_transition filled recorded = true
is_valid_transition orphaned recorded = true
is_valid_transition orphaned cancelled = true
is_valid_transition _ _ = false

-- `reason` and `extra` are free text that nothing reads.
pub record WalEntry : Type 0 where
  pub seq : ℕ
  pub state : OrderState
  pub client_id : String
  pub ts : ℕ
  pub ticker : String
  pub side : String
  pub qty : ℕ
  pub price : ℕ
  pub broker : String
  pub broker_order_id : String
  pub client_order_id : String
  pub fill_price : ℕ
  pub fill_qty : ℕ
  pub lot_id : String
  pub reason : String
  pub attempt : ℕ

-- An entry with the defaults of the data class.
abbrev pub blank_entry : OrderState → String → ℕ → WalEntry
blank_entry state client_id ts = record {
  seq = 0;
  state = state;
  client_id = client_id;
  ts = ts;
  ticker = "";
  side = "";
  qty = 0;
  price = 0;
  broker = "";
  broker_order_id = "";
  client_order_id = "";
  fill_price = 0;
  fill_qty = 0;
  lot_id = "";
  reason = "";
  attempt = 0;
}

-- A line of the file: an entry, or text that does not decode.
pub data LogLine : Type 0 where
  entry : WalEntry → LogLine
  undecodable : LogLine

-- `dict.update`: `to_dict` leaves default fields out, so they do not override.
abbrev pub newer : String → String → String
newer old new = if new == "" then old else new

abbrev pub newer_number : ℕ → ℕ → ℕ
newer_number old new = if eqb new 0 then old else new

unfoldable pub merge : WalEntry → WalEntry → WalEntry
merge a b = record {
  seq = b.seq;
  state = b.state;
  client_id = b.client_id;
  ts = b.ts;
  ticker = newer a.ticker b.ticker;
  side = newer a.side b.side;
  qty = newer_number a.qty b.qty;
  price = newer_number a.price b.price;
  broker = newer a.broker b.broker;
  broker_order_id = newer a.broker_order_id b.broker_order_id;
  client_order_id = newer a.client_order_id b.client_order_id;
  fill_price = newer_number a.fill_price b.fill_price;
  fill_qty = newer_number a.fill_qty b.fill_qty;
  lot_id = newer a.lot_id b.lot_id;
  reason = newer a.reason b.reason;
  attempt = newer_number a.attempt b.attempt;
}
