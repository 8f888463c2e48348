-- ===== src/Positions/Model.antt =====
-- The payloads and the state of `class PositionManager` (monitor/position_manager.py and the
-- payloads of monitor/events.py). Quantities and prices are in the units of the fill lots; a stop or a
-- target of a position is a number of thousandths of a price unit, so that the fallbacks by percentage
-- and the half target are whole numbers.
use trading_hub.Base.{ℕ, String, Bool, Option, List, nat_eq, string_eq, pair_eq}
use trading_hub.Base.Dict.{Dict}
use trading_hub.Base.Int.{ℤ}
use trading_hub.Ledger.Lot.{Side}
use trading_hub.Ledger.Book.{FillLedger}

pub record FillPayload : Type 0 where
  pub ticker : String
  pub side : Side
  pub qty : ℕ
  pub fill_price : ℕ
  pub order_id : String
  pub reason : String
  pub stop_price : Option ℕ
  pub target_price : Option ℕ
  pub atr_value : Option ℕ

-- The event around it: `_routed_broker` and `_wal_client_id` may be missing.
pub record FillEvent : Type 0 where
  pub event_id : String
  pub routed_broker : Option String
  pub wal_client_id : Option String
  pub payload : FillPayload

pub record OrderFailPayload : Type 0 where
  pub ticker : String
  pub side : String
  pub reason : String

-- A position dict. `_broker` and `_broker_qty` are there only if a reconciliation put them there.
pub record Position : Type 0 where
  pub entry_price : ℕ
  pub entry_time : ℕ
  pub quantity : ℕ
  pub partial_done : Bool
  pub order_id : String
  pub stop_price : ℕ
  pub target_price : ℕ
  pub half_target : ℕ
  pub atr_value : Option ℕ
  pub strategy : String
  pub broker : Option String
  pub broker_qty : Option (Dict String ℕ)

pub record PositionSnapshot : Type 0 where
  pub entry_price : ℕ
  pub entry_time : ℕ
  pub quantity : ℕ
  pub partial_done : Bool
  pub order_id : String
  pub stop_price : ℕ
  pub target_price : ℕ
  pub half_target : ℕ
  pub atr_value : Option ℕ

abbrev pub snapshot_of_position : Position → PositionSnapshot
snapshot_of_position p = record {
  entry_price = p.entry_price;
  entry_time = p.entry_time;
  quantity = p.quantity;
  partial_done = p.partial_done;
  order_id = p.order_id;
  stop_price = p.stop_price;
  target_price = p.target_price;
  half_target = p.half_target;
  atr_value = p.atr_value;
}

pub data PositionAction : Type 0 where
  opened partial_exit closed : PositionAction

-- The close detail is reduced to the strategy, the broker and the reason.
pub record PositionPayload : Type 0 where
  pub ticker : String
  pub action : PositionAction
  pub position : Option PositionSnapshot
  pub pnl : Option ℤ
  pub detail : Option (String × String × String)

pub record Trade : Type 0 where
  pub ticker : String
  pub entry_price : ℕ
  pub entry_time : ℕ
  pub exit_price : ℕ
  pub qty : ℕ
  pub pnl : ℤ
  pub reason : String
  pub time : ℕ
  pub is_win : Bool

-- The document that `save_state` writes.
pub record Saved : Type 0 where
  pub positions : Dict String Position
  pub reclaimed_today : List String
  pub trade_log : List Trade

-- `outbox` has the POSITION events in the order of their emission, `recorded` the calls of
-- `wal.recorded` with the client id and the lot id.
pub record PositionManager : Type 0 where
  pub positions : Dict String Position
  pub reclaimed_today : List String
  pub last_order_time : Dict String ℕ
  pub trade_log : List Trade
  pub processed_fill_ids : Dict String ℕ
  pub processed_sell_keys : List String
  pub ledger : Option FillLedger
  pub bot_state : Option Saved
  pub outbox : List PositionPayload
  pub recorded : List (String × String)

-- What a call learns from outside: the monotonic clock, the local time, the uuid that it draws,
-- whether the state file could be written, the order in which Python lists a set, and what the difference
-- of two quantities is in binary floating point, which is exact for whole shares and not for 0.8 - 0.7.
pub record World : Type 0 where
  pub mono : ℕ
  pub now : ℕ
  pub uuid : String
  pub save_ok : Bool
  pub order : List String → List String
  pub difference : ℕ → ℕ → ℕ
