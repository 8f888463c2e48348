-- ===== src/Positions/Tests.antt =====
-- Runs of the position manager with a fill ledger and a state engine.
use trading_hub.Ledger.Ops.{record_lot, apply_buy, finish_append, append}
use trading_hub.Base.Text.{until_colon, cat, text_leb, after_colon}
use trading_hub.Ledger.Matcher.{open_lots}
use trading_hub.Base.{
  ℕ, ◌+◌, String, ◌≡◌, refl, true, false, none, some, List, [], ◌∷◌, arith, nat_eq, string_eq,
  pair_eq, ne_of_beq, ◌-◌,
}
use trading_hub.Base.Dict.{contains}
use trading_hub.Base.Int.{pos, ◌+ℤ◌}
use trading_hub.Ledger.Lot.{buy, sell, make_lot}
use trading_hub.Ledger.Book.{empty_ledger, total_qty, set_meta}
use trading_hub.Positions.Model.{FillEvent, OrderFailPayload, World, PositionManager}
use trading_hub.Positions.Manager.{strategy_of, on_fill, on_order_fail}
use trading_hub.Positions.Calls.{Call, fills, order_fails, perform_all, new_manager}
use trading_hub.Positions.Engine.{new_engine, follow, snapshot, sorted_keys}
use trading_hub.Positions.Mirror.{Mirrors, perform_all-Mirrors}
use trading_hub.Positions.Agree.{Agrees, open_quantity, perform-Agrees}
use trading_hub.Positions.Once.{on_fill-once}

abbrev keep_order : List String → List String
keep_order xs = xs

abbrev exact_difference : ℕ → ℕ → ℕ
exact_difference a b = a - b

abbrev world_at : ℕ → String → World
world_at t uuid = record {
  mono = t;
  now = 36000 + t;
  uuid = uuid;
  save_ok = true;
  order = keep_order;
  difference = exact_difference;
}

-- Two shares at 10 dollars.
abbrev bought : FillEvent
bought = record {
  event_id = "e1";
  routed_broker = some "alpaca";
  wal_client_id = some "c1";
  payload = record {
    ticker = "AAPL";
    side = buy;
    qty = 2_000_000;
    fill_price = 100_000;
    order_id = "o1";
    reason = "pro:sr_flip:T1:long";
    stop_price = none;
    target_price = some 110_000;
    atr_value = none;
  };
}

abbrev sold : String → String → ℕ → FillEvent
sold eid oid qty = record {
  event_id = eid;
  routed_broker = some "alpaca";
  wal_client_id = none;
  payload = record {
    ticker = "AAPL";
    side = sell;
    qty = qty;
    fill_price = 105_000;
    order_id = oid;
    reason = "SELL_TARGET";
    stop_price = none;
    target_price = none;
    atr_value = none;
  };
}

abbrev no_position : OrderFailPayload
no_position = record { ticker = "AAPL"; side = "sell"; reason = "No position at alpaca" }

abbrev opened_at_10 : PositionManager
opened_at_10 = on_fill (world_at 10 "u1") bought (new_manager (some empty_ledger))

abbrev half_sold : PositionManager
half_sold = on_fill (world_at 20 "u2") (sold "e2" "o2" 1_000_000) opened_at_10

strategy : strategy_of "pro:sr_flip:T1:long" ≡ "pro:sr_flip"
unfolding strategy_of after_colon cat until_colon
strategy = refl

strategy_plain : strategy_of "VWAP reclaim" ≡ "vwap_reclaim"
unfolding strategy_of after_colon
strategy_plain = refl

opened_quantity : open_quantity "AAPL" opened_at_10.positions ≡ 2_000_000
unfolding on_fill
opened_quantity = refl

-- The rest stays open and the ledger follows.
half_quantity : open_quantity "AAPL" half_sold.positions ≡ 1_000_000
unfolding on_fill
half_quantity = refl

-- An overfill closes the position.
overfilled :
    open_quantity "AAPL" (on_fill (world_at 30 "u3") (sold "e3" "o3" 9_000_000) half_sold).positions
    ≡ 0
unfolding on_fill cat
overfilled = refl

-- The same order does not sell twice.
same_order :
    open_quantity "AAPL" (on_fill (world_at 30 "u3") (sold "e3" "o2" 1_000_000) half_sold).positions
    ≡ 1_000_000
unfolding on_fill cat
same_order = refl

phantom_gone :
    contains "AAPL" (on_order_fail (world_at 40 "u4") no_position half_sold).positions ≡ false
unfolding on_order_fail on_fill
phantom_gone = refl

-- Half a share more at 10.50: 50 cents on one share.
half_summary : (snapshot none 0 (follow half_sold.outbox new_engine)).total_pnl ≡ pos 50
unfolding snapshot follow on_fill ◌+ℤ◌
half_summary = refl

sorted : sorted_keys ("MSFT" ∷ "AAPL" ∷ "AMD" ∷ []) ≡ ("AAPL" ∷ "AMD" ∷ "MSFT" ∷ [])
unfolding sorted_keys text_leb
sorted = refl

abbrev day : List Call
day =
    fills (world_at 20 "u2") (sold "e2" "o2" 1_000_000)
    ∷ order_fails (world_at 40 "u4") no_position
    ∷ []

opened-Mirrors : Mirrors new_engine opened_at_10
unfolding on_fill follow
opened-Mirrors = (refl, refl)

perform_all-Mirrors_example : Mirrors new_engine (perform_all day opened_at_10)
perform_all-Mirrors_example = perform_all-Mirrors day new_engine opened_at_10 opened-Mirrors

opened-Agrees : Agrees opened_at_10
unfolding empty_ledger total_qty open_lots
opened-Agrees =
    perform-Agrees (fills (world_at 10 "u1") bought) (new_manager (some empty_ledger)) (tt, refl)
      (λ ev held e found less. refl) (tt, λ t. refl)

perform-Agrees_example : Agrees half_sold
unfolding on_fill make_lot set_meta append empty_ledger finish_append apply_buy record_lot
perform-Agrees_example =
    perform-Agrees (fills (world_at 20 "u2") (sold "e2" "o2" 1_000_000)) opened_at_10
      ((ne_of_beq "u1" "u2" refl, tt), refl) (λ ev held e found less. refl) opened-Agrees

abbrev after_day : PositionManager
after_day = perform_all day opened_at_10

on_fill-once_example : on_fill (world_at 50 "u5") bought after_day ≡ after_day
on_fill-once_example =
    on_fill-once (world_at 10 "u1") (world_at 50 "u5") bought bought day
      (new_manager (some empty_ledger)) refl (omega arith, (omega arith, tt)) refl
