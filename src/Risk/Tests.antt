-- ===== src/Risk/Tests.antt =====
-- Runs of the risk engine.
use trading_hub.Base.Text.{after_colon, starts_with}
use trading_hub.Base.{
  ℕ, ◌*◌, ◌≤◌, ◌<◌, String, ◌≡◌, refl, ◌⊎◌, true, false, none, some, List, [], arith, nat_eq,
  string_eq, pair_eq, ◌-◌,
}
use trading_hub.Base.Dict.{lookup, contains}
use trading_hub.Ledger.Lot.{buy, sell}
use trading_hub.Positions.Model.{Position, PositionManager, FillEvent, World}
use trading_hub.Positions.Signal.{SignalPayload, buy_signal, sell_stop}
use trading_hub.Positions.Calls.{new_manager}
use trading_hub.Positions.Manager.{on_fill, new_position}
use trading_hub.Wal.Log as Log
use trading_hub.Wal.Log.{
  OrderWal, write, start, ensure_initialized, intent_open, check_and_intent, nothing_left,
}
use trading_hub.Risk.Sizing.{get_spread, adjust_size, max}
use trading_hub.Risk.Bounds.{adjust_size-bounds}
use trading_hub.Risk.Engine.{
  Config, Outside, Desk, requested, blocked, ignored, cooldown_active, spread_too_wide,
  max_positions_reached, sell_order, on_signal, order_shares,
}
use trading_hub.Risk.Exits.{on_signal-exits}

abbrev config : Config
config = record {
  max_positions = 5;
  order_cooldown = 300;
  trade_budget = 10_000_000;
  target_risk = 1_000_000;
  min_rvol = 200;
  etf_rvol_min = 100;
  rsi_low = 4000;
  rsi_high = 7500;
  max_spread = 2000;
  read_only = false;
}

abbrev empty_log : OrderWal
empty_log = record {
  initialized = true;
  current_date = 1;
  seq = 0;
  order_states = [];
  active_orders = [];
  last_terminal = [];
  files = [];
  buffer = [];
}

abbrev outside : Outside
outside = record {
  mono = 1000;
  regime_allows = true;
  holder = none;
  sentiment = 0;
  is_etf = false;
  stream = some (99_950, 100_000);
  rest = none;
  correlation_ok = true;
  beta_ok = true;
  beta = 100;
  conviction = none;
  regime_factor = 100;
  client_id = "c1";
  log_world = record {
    today = 1;
    now = 1000;
    write_ok = true;
    left = nothing_left;
    close_ok = true;
  };
}

abbrev entry_signal : SignalPayload
entry_signal = record {
  ticker = "AAPL";
  action = buy_signal;
  current_price = 100_000;
  ask_price = 100_000;
  stop_price = 98_000;
  target_price = 110_000;
  half_target = 105_000;
  atr_value = 5_000;
  rsi_value = 5500;
  rvol = 300;
}

abbrev exit_signal : SignalPayload
exit_signal = record entry_signal { action = sell_stop }

abbrev desk : Desk
desk = record { pending_tickers = []; wal = empty_log }

abbrev manager : PositionManager
manager = new_manager none

abbrev keep_order : List String → List String
keep_order xs = xs

abbrev world : World
world = record {
  mono = 1001;
  now = 36_000;
  uuid = "u1";
  save_ok = true;
  order = keep_order;
  difference = λ a b. a - b;
}

abbrev fill_of : String → String → ℕ → FillEvent
fill_of eid oid qty = record {
  event_id = eid;
  routed_broker = some "alpaca";
  wal_client_id = some "c1";
  payload = record {
    ticker = "AAPL";
    side = buy;
    qty = qty;
    fill_price = 100_000;
    order_id = oid;
    reason = "VWAP reclaim";
    stop_price = none;
    target_price = none;
    atr_value = none;
  };
}

abbrev exit_fill : FillEvent
exit_fill = record (fill_of "e2" "o2" 99_000_000) {
  payload = record (fill_of "e2" "o2" 99_000_000).payload { side = sell };
}

abbrev asked : Desk
asked = (on_signal config outside entry_signal manager desk).1

abbrev holding : PositionManager
holding = on_fill world (fill_of "e1" "o1" 99_000_000) manager

abbrev held : Position
held = new_position world (fill_of "e1" "o1" 99_000_000).payload

-- 1,000 dollars at 10 dollars and a hundredth of a percent.
shares : order_shares config outside entry_signal 100_000 ≡ 99
unfolding order_shares
shares = refl

pending : contains "AAPL" asked.pending_tickers ≡ true
unfolding on_signal Log.check_and_intent Log.ensure_initialized Log.intent_open
pending = refl

twice : (on_signal config outside entry_signal holding asked).0 ≡ blocked cooldown_active
unfolding on_signal on_fill starts_with after_colon Log.check_and_intent Log.ensure_initialized
    Log.intent_open
twice = refl

wide :
    (on_signal config
      (record outside { stream = some (99_000, 100_000) })
      entry_signal
      manager
      desk).0
    ≡ blocked spread_too_wide
unfolding on_signal
wide = refl

full :
    (on_signal (record config { max_positions = 0 }) outside entry_signal manager desk).0
    ≡ blocked max_positions_reached
unfolding on_signal
full = refl

no_exit : (on_signal config outside exit_signal manager desk).0 ≡ ignored
unfolding on_signal
no_exit = refl

far_ask : get_spread 100_000 (some (100_550, 100_600)) none ≡ none
unfolding get_spread
far_ask = refl

on_signal-exits_example :
    let (out, d') = on_signal config outside exit_signal holding asked in
    (out ≡ requested (sell_order outside exit_signal 99_000_000))
    × (d'.pending_tickers ≡ asked.pending_tickers)
    × (lookup "AAPL" (on_fill world exit_fill holding).positions ≡ none)
unfolding on_fill
on_signal-exits_example =
    on_signal-exits config outside exit_signal held holding asked world exit_fill refl refl refl
      (omega arith) refl refl refl refl refl

adjust_size-bounds_example :
    let q = adjust_size 300 1_000_000 99 100_000 5_000 10_000_000 in
    (1 ≤ q)
    × ((q ≡ 1)
        ⊎ ((q * 100_000 ≤ 10_000_000)
            × (q * max 300 30 ≤ 99 * 100)
            × (0 < 5_000 → q * (5_000 * 2) ≤ 1_000_000)))
adjust_size-bounds_example =
    adjust_size-bounds 300 1_000_000 99 100_000 5_000 10_000_000 (omega arith)
