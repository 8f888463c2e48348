-- ===== src/Positions/Shadow.antt =====
-- What `class PositionManager` (monitor/position_manager.py) writes to the fill ledger, where it has one.
-- An exception on the way is caught, and a lot without a positive quantity raises one.
use trading_hub.Base.{
  String, Bool, true, false, ◌&&◌, Option, none, some, List, [], ◌∷◌, ◌++◌, ltb, if◌then◌else◌,
  is_some, get_or_else, ◌==◌, nat_eq, string_eq, pair_eq,
}
use trading_hub.Positions.Model.{FillEvent, PositionManager, World, Position}
use trading_hub.Ledger.Lot.{FillLot, buy, sell, make_lot, PositionMeta, qty_epsilon}
use trading_hub.Ledger.Book.{FillLedger, total_qty, set_meta}
use trading_hub.Ledger.Ops.{append, patch_partial_done}

abbrev pub broker_of : FillEvent → String
broker_of ev = get_or_else ev.routed_broker "unknown"

-- `if _wal_cid: wal.recorded(_wal_cid, lot_id)`
abbrev pub wal_recorded : Option String → String → List (String × String)
wal_recorded none lot_id = []
wal_recorded (some cid) lot_id = if cid == "" then [] else (cid, lot_id) ∷ []

abbrev pub buy_lot : World → FillEvent → String → FillLot
buy_lot w ev strategy = record {
  lot_id = w.uuid;
  ticker = ev.payload.ticker;
  side = buy;
  qty = ev.payload.qty;
  fill_price = ev.payload.fill_price;
  timestamp = w.now;
  broker = broker_of ev;
  strategy = strategy;
  synthetic = false;
}

abbrev pub sell_lot : World → FillEvent → FillLot
sell_lot w ev = record {
  lot_id = w.uuid;
  ticker = ev.payload.ticker;
  side = sell;
  qty = ev.payload.qty;
  fill_price = ev.payload.fill_price;
  timestamp = w.now;
  broker = broker_of ev;
  strategy = "";
  synthetic = false;
}

abbrev pub phantom_lot : World → String → Position → FillLot
phantom_lot w ticker held = record {
  lot_id = w.uuid;
  ticker = ticker;
  side = sell;
  qty = held.quantity;
  fill_price = held.entry_price;
  timestamp = w.now;
  broker = get_or_else held.broker "unknown";
  strategy = held.strategy;
  synthetic = true;
}

abbrev pub meta_of_position : Position → PositionMeta
meta_of_position held = record {
  stop_price = held.stop_price;
  target_price = held.target_price;
  half_target = held.half_target;
  atr_value = held.atr_value;
  partial_done = false;
}

unfoldable pub book_buy : World → FillEvent → Position → FillLedger → FillLedger
book_buy w ev held g = elim (make_lot (buy_lot w ev held.strategy)) [
  | none ↦ g
  | some lot ↦ set_meta w.now lot.ticker (meta_of_position held) (append w.order w.now lot g).1
]

unfoldable pub book_sell : World → FillEvent → FillLedger → FillLedger
book_sell w ev g = elim (make_lot (sell_lot w ev)) [
  | none ↦ g
  | some lot ↦
      let g' = (append w.order w.now lot g).1 in
      if ltb qty_epsilon (total_qty g' lot.ticker) && (ev.payload.reason == "PARTIAL_SELL")
      then patch_partial_done lot.ticker g'
      else g'
]

unfoldable pub book_phantom : World → String → Position → FillLedger → FillLedger
book_phantom w ticker held g = elim (make_lot (phantom_lot w ticker held)) [
  | none ↦ g
  | some lot ↦ (append w.order w.now lot g).1
]

abbrev pub is_lot : FillLot → Bool
is_lot lot = is_some (make_lot lot)

unfoldable pub shadow_buy : World → FillEvent → Position → PositionManager → PositionManager
unfolding book_buy
shadow_buy w ev held pm = elim pm.ledger [
  | none ↦ pm
  | some g ↦ record pm {
    ledger = some (book_buy w ev held g);
    recorded =
        pm.recorded
        ++ (if is_lot (buy_lot w ev held.strategy)
            then wal_recorded ev.wal_client_id w.uuid
            else []);
  }
]

unfoldable pub shadow_sell : World → FillEvent → PositionManager → PositionManager
unfolding book_sell
shadow_sell w ev pm = elim pm.ledger [
  | none ↦ pm
  | some g ↦ record pm {
    ledger = some (book_sell w ev g);
    recorded =
        pm.recorded
        ++ (if is_lot (sell_lot w ev) then wal_recorded ev.wal_client_id w.uuid else []);
  }
]

unfoldable pub shadow_phantom : World → String → Position → PositionManager → PositionManager
unfolding book_phantom
shadow_phantom w ticker held pm = elim pm.ledger [
  | none ↦ pm
  | some g ↦ record pm { ledger = some (book_phantom w ticker held g) }
]
