-- ===== src/Router/Health.antt =====
-- The circuit breakers of `class SmartRouter` (monitor/smart_router.py) and the state of the router. The
-- clock never goes back, so the routed ids stand in the order of their times.
use trading_hub.Base.{
  ℕ, ◌+◌, String, Bool, true, false, none, some, List, ltb, leb, if◌then◌else◌, nat_eq, string_eq,
  pair_eq, Option,
}
use trading_hub.Base.Dict.{Dict, lookup, insert, erase}

pub record BrokerHealth : Type 0 where
  pub available : Bool
  pub consecutive_failures : ℕ
  pub last_failure_time : ℕ
  pub total_orders : ℕ
  pub total_fills : ℕ
  pub total_failures : ℕ

abbrev pub max_failures : ℕ
max_failures = 3

abbrev pub cooldown_seconds : ℕ
cooldown_seconds = 300

pub record SmartRouter : Type 0 where
  pub brokers : List String
  pub default_broker : String
  pub health : Dict String BrokerHealth
  pub routed_event_ids : List String
  pub all_brokers_down_alerted : Bool
  pub order_counter : ℕ
  pub position_broker : Dict String String

unfoldable pub fail_health : ℕ → BrokerHealth → BrokerHealth
fail_health now h = record h {
  consecutive_failures = h.consecutive_failures + 1;
  total_failures = h.total_failures + 1;
  last_failure_time = now;
  available = if leb max_failures (h.consecutive_failures + 1) then false else h.available;
}

unfoldable pub fill_health : BrokerHealth → BrokerHealth
fill_health h = record h {
  consecutive_failures = 0;
  total_fills = h.total_fills + 1;
  available = true;
}

-- A broker that is down comes back after the cooldown; the question itself brings it back.
unfoldable pub ask_health : ℕ → BrokerHealth → Bool × BrokerHealth
ask_health now h =
    let recovered : BrokerHealth = record h { available = true; consecutive_failures = 0 } in
    if h.available
    then (true, h)
    else if ltb (h.last_failure_time + cooldown_seconds) now
    then (true, recovered)
    else (false, h)

unfoldable pub record_failure : ℕ → String → SmartRouter → SmartRouter
record_failure now name r = elim (lookup name r.health) [
  | none ↦ r
  | some h ↦ record r { health = insert name (fail_health now h) r.health }
]

unfoldable pub record_success : String → SmartRouter → SmartRouter
record_success name r = elim (lookup name r.health) [
  | none ↦ record r { all_brokers_down_alerted = false }
  | some h ↦ record r {
    health = insert name (fill_health h) r.health;
    all_brokers_down_alerted = false;
  }
]

unfoldable pub is_healthy : ℕ → String → SmartRouter → Bool × SmartRouter
is_healthy now name r = elim (lookup name r.health) [
  | none ↦ (false, r)
  | some h ↦
      let (ok, h') = ask_health now h in
      (ok, if h.available then r else record r { health = insert name h' r.health })
]

-- A FILL or an ORDER_FAIL that carries the broker it was routed to.
unfoldable pub on_fill : Option String → SmartRouter → SmartRouter
unfolding record_success
on_fill none r = r
on_fill (some name) r = record_success name r

unfoldable pub on_order_fail : ℕ → Option String → SmartRouter → SmartRouter
unfolding record_failure
on_order_fail now none r = r
on_order_fail now (some name) r = record_failure now name r

-- POSITION with the action CLOSED.
unfoldable pub on_position_closed : String → SmartRouter → SmartRouter
on_position_closed ticker r = record r { position_broker = erase ticker r.position_broker }
