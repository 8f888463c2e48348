-- ===== src/Feedback/Tests.antt =====
-- Runs of the execution feedback.
use trading_hub.Base.{◌≡◌, refl, true, false, none, List, [], ◌∷◌, nat_eq, string_eq, pair_eq}
use trading_hub.Base.Dict.{insert}
use trading_hub.Ledger.Lot.{buy}
use trading_hub.Positions.Model.{FillPayload, Position}
use trading_hub.Positions.Signal.{SignalPayload, buy_signal}
use trading_hub.Feedback.Handlers.{Positions, new_feedback, flush, diverges}
use trading_hub.Feedback.Idle.{
  Happening, signals, fills, flushes, writes, handle_all, others, handle_all-idle,
}

abbrev signal : SignalPayload
signal = record {
  ticker = "AAPL";
  action = buy_signal;
  current_price = 100_000;
  ask_price = 100_000;
  stop_price = 98_000;
  target_price = 110_000;
  half_target = 105_000;
  atr_value = 900;
  rsi_value = 5500;
  rvol = 300;
}

abbrev position : Position
position = record {
  entry_price = 100_100;
  entry_time = 0;
  quantity = 1_000_000;
  partial_done = false;
  order_id = "o1";
  stop_price = 99_600_000;
  target_price = 101_000_000;
  half_target = 100_500_000;
  atr_value = none;
  strategy = "vwap_reclaim";
  broker = none;
  broker_qty = none;
}

abbrev fill : FillPayload
fill = record {
  ticker = "AAPL";
  side = buy;
  qty = 1_000_000;
  fill_price = 100_100;
  order_id = "o1";
  reason = "VWAP reclaim";
  stop_price = none;
  target_price = none;
  atr_value = none;
}

abbrev open_it : Positions → Positions
open_it ps = insert "AAPL" position ps

-- A patch would be applied within 2 %, and dropped beyond.
near : diverges 100_100 100_000 ≡ false
near = refl

far : diverges 103_000 100_000 ≡ true
far = refl

deferred : (flush (("AAPL", (signal, 4)) ∷ []) []).0 ≡ (("AAPL", (signal, 5)) ∷ [])
unfolding flush
deferred = refl

given_up : (flush (("AAPL", (signal, 5)) ∷ []) []).0 ≡ []
unfolding flush
given_up = refl

abbrev session : List Happening
session = signals 5 signal ∷ writes open_it ∷ fills 6 fill ∷ flushes ∷ []

handle_all-idle_example : handle_all session (new_feedback, []) ≡ (new_feedback, others session [])
handle_all-idle_example = handle_all-idle session []
