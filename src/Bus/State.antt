-- ===== src/Bus/State.antt =====
-- The state of `class EventBus` (monitor/event_bus.py). A handler is named by a string, an event type
-- too; times are those of the monotonic clock. Latencies and the counter of slow calls are left out.
use trading_hub.Base.{
  ℕ, ◌+◌, String, Bool, false, not, ◌&&◌, ◌||◌, Option, List, [], ◌∷◌, ltb, leb, eqb, if◌then◌else◌,
  get_or_else, length, keep, ◌==◌, nat_eq, string_eq, pair_eq,
}
use trading_hub.Base.Dict.{Dict, lookup, insert, erase}

pub record Event : Type 0 where
  pub event_id : String
  pub kind : String
  pub ticker : String
  pub well_typed : Bool
  pub expiry_ts : Option ℕ
  pub deadline : Option ℕ

pub record HandlerState : Type 0 where
  pub consecutive_failures : ℕ
  pub disabled_until : ℕ
  pub error_count : ℕ
  pub call_count : ℕ
  pub trip_count : ℕ
  pub max_retries : ℕ

abbrev pub new_handler_state : HandlerState
new_handler_state = record {
  consecutive_failures = 0;
  disabled_until = 0;
  error_count = 0;
  call_count = 0;
  trip_count = 0;
  max_retries = 0;
}

pub data CircuitState : Type 0 where
  closed_circuit open_circuit half_open : CircuitState

unfoldable pub circuit_state : ℕ → HandlerState → CircuitState
circuit_state now s =
    if eqb s.disabled_until 0
    then closed_circuit
    else if ltb now s.disabled_until
    then open_circuit
    else half_open

-- An entry of the dead-letter queue: the event, the handler, the attempts.
pub record DlqEntry : Type 0 where
  pub event_id : String
  pub handler_name : String
  pub attempts : ℕ

-- A subscription has its priority, the higher first, and its place in the order of registration.
pub record Subscription : Type 0 where
  pub priority : ℕ
  pub place : ℕ
  pub handler : String

abbrev pub StreamKey : Type 0
StreamKey = String × String

pub record EventBus : Type 0 where
  pub idempotency_window : ℕ
  pub max_streams : ℕ
  pub durable_fail_fast : Bool
  pub subscribers : Dict String (List Subscription)
  pub sub_counter : ℕ
  pub handler_states : Dict String HandlerState
  pub cb_states : Dict (String × String) HandlerState
  pub before_emit_hooks : List String
  pub seen_ids : Dict String Bool
  pub dup_dropped : ℕ
  pub sequence : ℕ
  pub stream_seqs : Dict StreamKey ℕ
  pub emit_counts : Dict String ℕ
  pub circuit_breaks : ℕ
  pub sla_breaches : ℕ
  pub dead_letters : List DlqEntry
  pub dlq_count : ℕ
  pub retried_deliveries : ℕ
  pub calls : List (String × String)

-- What an emit learns from outside: the clock, whether a handler returns from an event at an attempt,
-- the clock when it failed, and whether a hook returns.
pub record World : Type 0 where
  pub now : ℕ
  pub returns : String → String → ℕ → Bool
  pub failed_at : ℕ
  pub hook_returns : String → Bool

abbrev goes_before : Subscription → Subscription → Bool
goes_before s t = ltb t.priority s.priority || (eqb t.priority s.priority && ltb s.place t.place)

-- A new subscription keeps the list sorted.
insert_subscription : Subscription → List Subscription → List Subscription
insert_subscription s [] = s ∷ []
insert_subscription s (t ∷ ts) =
    let rest = insert_subscription s ts in if goes_before s t then s ∷ t ∷ ts else t ∷ rest

abbrev pub subscribers_of : String → EventBus → List Subscription
subscribers_of kind b = get_or_else (lookup kind b.subscribers) []

unfoldable pub subscribe : String → String → ℕ → ℕ → EventBus → EventBus
unfolding insert_subscription
subscribe kind handler priority max_retries b =
    let s : Subscription = record {
      priority = priority;
      place = b.sub_counter;
      handler = handler;
    } in
    let st = get_or_else (lookup handler b.handler_states) new_handler_state in
    record b {
      subscribers = insert kind (insert_subscription s (subscribers_of kind b)) b.subscribers;
      sub_counter = b.sub_counter + 1;
      handler_states = insert handler (record st { max_retries = max_retries }) b.handler_states;
    }

abbrev is_registered : String → Dict String (List Subscription) → Bool
is_registered handler [] = false
is_registered handler ((kind, ss) ∷ d) =
    leb 1 (length (keep (λ s. s.handler == handler) ss)) || is_registered handler d

unfoldable pub unsubscribe : String → String → EventBus → EventBus
unsubscribe kind handler b =
    let subs =
      insert kind (keep (λ s. not (s.handler == handler)) (subscribers_of kind b)) b.subscribers in
    record b {
      subscribers = subs;
      handler_states =
          if is_registered handler subs then b.handler_states else erase handler b.handler_states;
    }
