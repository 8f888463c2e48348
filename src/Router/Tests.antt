-- ===== src/Router/Tests.antt =====
-- Runs of the smart router with two brokers.
use trading_hub.Base.{
  ◌≤◌, String, ◌≡◌, refl, Bool, true, false, some, List, [], ◌∷◌, ltb, ◌==◌, nat_eq, string_eq,
  pair_eq, ℕ, ◌*◌, arith,
}
use trading_hub.Router.Health.{
  SmartRouter, BrokerHealth, max_failures, record_failure, is_healthy, ask_health,
}
use trading_hub.Router.Circuit.{Happening, failed, asked, run, failure_streak, run-available}
use trading_hub.Router.Route.{Order, get_fallback, note_order, split_sell, on_order_req}
use trading_hub.Router.Routing.{handle_all, on_order_req-once}
use trading_hub.Router.Split.{total_called, total_returned, split_sell-total_called}

abbrev up : BrokerHealth
up = record {
  available = true;
  consecutive_failures = 0;
  last_failure_time = 0;
  total_orders = 0;
  total_fills = 0;
  total_failures = 0;
}

abbrev router : SmartRouter
router = record {
  brokers = "alpaca" ∷ "tradier" ∷ [];
  default_broker = "alpaca";
  health = ("alpaca", up) ∷ ("tradier", up) ∷ [];
  routed_event_ids = [];
  all_brokers_down_alerted = false;
  order_counter = 0;
  position_broker = [];
}

abbrev never : String → Bool
never b = false

abbrev buy_order : Order
buy_order = record {
  event_id = "e1";
  ticker = "AAPL";
  is_sell = false;
  qty = 10;
  is_blocked = false;
  names_tradier = false;
  names_alpaca = true;
  broker_qty = [];
  has_position = never;
  raises = never;
}

abbrev sell_order : Order
sell_order = record buy_order {
  event_id = "e2";
  is_sell = true;
  qty = 12;
  broker_qty = ("alpaca", 8) ∷ ("tradier", 6) ∷ [];
}

sell_calls :
    (on_order_req 5 sell_order router).0
    ≡ record { broker = "alpaca"; qty = 8 } ∷ record { broker = "tradier"; qty = 4 } ∷ []
unfolding on_order_req is_healthy ask_health
sell_calls = refl

-- Round robin: the first order goes to the second healthy broker.
round_robin :
    (on_order_req 5 (record buy_order { names_alpaca = false }) router).0
    ≡ record { broker = "tradier"; qty = 10 } ∷ []
unfolding on_order_req is_healthy ask_health
round_robin = refl

abbrev between : List (ℕ × Order)
between = (6, record buy_order { event_id = "e7" }) ∷ (7, buy_order) ∷ []

on_order_req-once_example :
    let r' = handle_all between (on_order_req 5 buy_order router).1 in
    on_order_req 9 buy_order r' ≡ ([], r')
on_order_req-once_example =
    on_order_req-once 5 9 buy_order buy_order between router refl refl refl (omega arith)

abbrev raising : Order
raising = record buy_order { raises = λ b. b == "alpaca" }

abbrev raising_sell : Order
raising_sell = record sell_order { raises = λ b. b == "alpaca" }

split_sell-total_called_example :
    let calls = (split_sell 5 raising_sell 12 (("alpaca", 8) ∷ ("tradier", 6) ∷ []) router).0 in
    (total_returned raising_sell calls ≤ 12) × (total_called calls ≤ 2 * 12)
split_sell-total_called_example =
    split_sell-total_called 5 raising_sell 12 (("alpaca", 8) ∷ ("tradier", 6) ∷ []) router

fallback_up :
    (is_healthy 5 "tradier" (record_failure 5 "alpaca" (note_order "alpaca" raising router))).0
    ≡ true
unfolding is_healthy record_failure note_order ask_health
fallback_up = refl

fallback_is : get_fallback "alpaca" router.brokers ≡ some "tradier"
unfolding get_fallback
fallback_is = refl

abbrev history : List Happening
history = failed 1 ∷ failed 2 ∷ asked 3 ∷ failed 4 ∷ asked 10 ∷ asked 400 ∷ failed 401 ∷ []

run-available_example :
    (run history up).available ≡ ltb (failure_streak 0 up.last_failure_time history) max_failures
run-available_example = run-available history up refl refl

-- Three failures, the cooldown, and one more failure.
streak_of_one : failure_streak 0 0 history ≡ 1
streak_of_one = refl
