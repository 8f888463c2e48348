-- ===== src/Bus/Tests.antt =====
-- Runs of the event bus with two handlers.
use trading_hub.Base.{
  ℕ, ◌+◌, String, ◌≡◌, refl, Bool, true, false, not, none, some, List, [], ◌∷◌, arith, ltb,
  if◌then◌else◌, ◌==◌, nat_eq, string_eq, pair_eq, ne_of_beq,
}
use trading_hub.Bus.State.{Event, EventBus, World, subscribe, subscribers_of, Subscription}
use trading_hub.Bus.Deliver.{deliver, cb_state_of, retries_of}
use trading_hub.Bus.Emit.{emit, sent, duplicate, hook_failed, stream_of}
use trading_hub.Bus.Once.{Emission, emitted, emit_all, emit-once}
use trading_hub.Bus.Streams.{emit-next}
use trading_hub.Bus.Circuit.{Delivery, deliver_each, machine_run, deliver_each-machine}
use trading_hub.Bus.Lost.{emit-lost}
use trading_hub.Stream.Monitor.{StreamMonitor, check}

abbrev empty_bus : EventBus
empty_bus = record {
  idempotency_window = 3;
  max_streams = 2;
  durable_fail_fast = true;
  subscribers = [];
  sub_counter = 0;
  handler_states = [];
  cb_states = [];
  before_emit_hooks = "log" ∷ [];
  seen_ids = [];
  dup_dropped = 0;
  sequence = 0;
  stream_seqs = [];
  emit_counts = [];
  circuit_breaks = 0;
  sla_breaches = 0;
  dead_letters = [];
  dlq_count = 0;
  retried_deliveries = 0;
  calls = [];
}

-- `slow` fails at its first attempt, `broken` always.
abbrev returns : String → String → ℕ → Bool
returns h eid i = if h == "slow" then ltb 0 i else not (h == "broken")

abbrev never : String → Bool
never h = false

abbrev always : String → Bool
always h = true

abbrev world_at : ℕ → World
world_at t = record { now = t; returns = returns; failed_at = t; hook_returns = always }

abbrev event_of : String → String → Event
event_of eid ticker = record {
  event_id = eid;
  kind = "BAR";
  ticker = ticker;
  well_typed = true;
  expiry_ts = none;
  deadline = none;
}

abbrev emission_of : String → String → Emission
emission_of eid ticker = record { world = world_at 1; durable = false; event = event_of eid ticker }

abbrev bus : EventBus
bus =
    subscribe "BAR" "broken" 0 0
      (subscribe "BAR" "slow" 5 2 (subscribe "BAR" "quick" 1 0 empty_bus))

abbrev handlers_of : List Subscription → List String
handlers_of [] = []
handlers_of (s ∷ ss) = s.handler ∷ handlers_of ss

in_order : handlers_of (subscribers_of "BAR" bus) ≡ ("slow" ∷ "quick" ∷ "broken" ∷ [])
unfolding subscribe
in_order = refl

called :
    (emitted (emission_of "e1" "AAPL") bus).calls
    ≡ (("slow", "e1") ∷ ("slow", "e1") ∷ ("quick", "e1") ∷ ("broken", "e1") ∷ [])
unfolding emit subscribe
called = refl

dead : (emitted (emission_of "e1" "AAPL") bus).dlq_count ≡ 1
unfolding emit subscribe
dead = refl

first_number : (emit (world_at 1) false (event_of "e1" "AAPL") bus).0 ≡ sent 1
unfolding emit subscribe
first_number = refl

abbrev failing : String → ℕ → Delivery
failing ticker t = record { world = world_at t; event = event_of "e1" ticker; handler = "broken" }

abbrev five : List Delivery
five =
    failing "AAPL" 1
    ∷ failing "AAPL" 2
    ∷ failing "AAPL" 3
    ∷ failing "AAPL" 4
    ∷ failing "AAPL" 5
    ∷ []

tripped : (cb_state_of "broken" "AAPL" (deliver_each five bus)).disabled_until ≡ 65
unfolding deliver_each deliver subscribe
tripped = refl

not_called :
    (deliver_each (failing "AAPL" 64 ∷ []) (deliver_each five bus)).calls
    ≡ (deliver_each five bus).calls
unfolding subscribe deliver_each deliver
not_called = refl

other_ticker : (cb_state_of "broken" "MSFT" (deliver_each five bus)).disabled_until ≡ 0
unfolding deliver_each deliver subscribe
other_ticker = refl

deliver_each-machine_example :
    cb_state_of "broken" "AAPL" (deliver_each five bus)
    ≡ machine_run "broken" "AAPL" (retries_of "broken" bus) five (cb_state_of "broken" "AAPL" bus)
deliver_each-machine_example = deliver_each-machine five "broken" "AAPL" bus

abbrev between : List Emission
between = emission_of "e2" "MSFT" ∷ []

abbrev after_between : EventBus
after_between = emit_all between (emitted (emission_of "e1" "AAPL") bus)

emit-once_example :
    emit (world_at 1) false (event_of "e1" "AAPL") after_between
    ≡ (duplicate, record after_between { dup_dropped = after_between.dup_dropped + 1 })
unfolding subscribe
emit-once_example =
    emit-once (emission_of "e1" "AAPL") (emission_of "e1" "AAPL") between bus refl refl
      (omega arith) (omega arith) refl refl

abbrev monitor : StreamMonitor
monitor = record { gap_count = 0; ooo_count = 0; last = (("BAR", "AAPL"), 1) ∷ [] }

emit-next_example :
    (2 ≡ 1 + 1) × ((check (record { key = ("BAR", "AAPL"); stream_seq = some 2 }) monitor).0 ≡ none)
unfolding emit subscribe emit_all
emit-next_example =
    emit-next (emission_of "e1" "AAPL") (emission_of "e3" "AAPL") between bus 1 2 monitor refl
      (ne_of_beq (stream_of (event_of "e2" "MSFT")) (stream_of (event_of "e1" "AAPL")) refl, tt)
      (omega arith) refl refl refl

abbrev durable_emission : Emission
durable_emission = record {
  world = record (world_at 1) { hook_returns = never };
  durable = true;
  event = event_of "e1" "AAPL";
}

emit-lost_example :
    let b' = emitted durable_emission bus in
    let out = emit (world_at 1) false (event_of "e1" "AAPL") b' in
    ((emit (record (world_at 1) { hook_returns = never }) true (event_of "e1" "AAPL") bus).0
      ≡ hook_failed)
    × (out.0 ≡ duplicate)
    × (out.1.calls ≡ bus.calls)
unfolding subscribe
emit-lost_example =
    emit-lost durable_emission (emission_of "e1" "AAPL") bus refl refl (omega arith) refl refl refl
      refl
