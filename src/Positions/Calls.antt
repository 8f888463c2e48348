-- ===== src/Positions/Calls.antt =====
-- Histories of calls of `class PositionManager` (monitor/position_manager.py).
use trading_hub.Base.{Option, none, List, [], ◌∷◌, nat_eq, string_eq, pair_eq, some}
use trading_hub.Positions.Model.{FillEvent, OrderFailPayload, PositionManager, World}
use trading_hub.Positions.Manager.{on_fill, on_order_fail}
use trading_hub.Ledger.Book.{FillLedger}

pub data Call : Type 0 where
  fills : World → FillEvent → Call
  order_fails : World → OrderFailPayload → Call

abbrev pub perform : Call → PositionManager → PositionManager
perform (fills w ev) pm = on_fill w ev pm
perform (order_fails w p) pm = on_order_fail w p pm

abbrev pub world_of : Call → World
world_of (fills w ev) = w
world_of (order_fails w p) = w

abbrev pub event_of : Call → Option FillEvent
event_of (fills w ev) = some ev
event_of (order_fails w p) = none

unfoldable pub perform_all : List Call → PositionManager → PositionManager
perform_all [] pm = pm
perform_all (c ∷ cs) pm = perform_all cs (perform c pm)

-- A new manager, with or without a ledger.
abbrev pub new_manager : Option FillLedger → PositionManager
new_manager g = record {
  positions = [];
  reclaimed_today = [];
  last_order_time = [];
  trade_log = [];
  processed_fill_ids = [];
  processed_sell_keys = [];
  ledger = g;
  bot_state = none;
  outbox = [];
  recorded = [];
}
