-- ===== src/Bus/Deliver.antt =====
-- `_deliver` of `class EventBus` (monitor/event_bus.py): one event to one handler.
use trading_hub.Base.{
  ℕ, zero, suc, ◌+◌, ◌-◌, String, Bool, true, false, Option, none, some, List, [], ◌∷◌, ◌++◌, ltb,
  leb, if◌then◌else◌, get_or_else, length, nat_eq, string_eq, pair_eq,
}
use trading_hub.Base.Dict.{Dict, lookup, insert}
use trading_hub.Bus.State.{
  Event, HandlerState, new_handler_state, closed_circuit, open_circuit, half_open, circuit_state,
  DlqEntry, EventBus, World,
}

abbrev pub circuit_breaker_threshold : ℕ
circuit_breaker_threshold = 5

abbrev pub circuit_breaker_cooldown : ℕ
circuit_breaker_cooldown = 60

abbrev pub is_past : Option ℕ → ℕ → Bool
is_past none now = false
is_past (some t) now = ltb t now

-- Attempts until one succeeds, and their number; the first argument says which succeed.
unfoldable pub attempt_loop : (ℕ → Bool) → ℕ → ℕ → Bool × ℕ
attempt_loop ok i zero = (false, 0)
attempt_loop ok i (suc n) =
    let (done, tries) = attempt_loop ok (i + 1) n in if ok i then (true, 1) else (done, tries + 1)

abbrev pub repeat_call : ℕ → String → String → List (String × String)
repeat_call zero handler eid = []
repeat_call (suc n) handler eid = (handler, eid) ∷ repeat_call n handler eid

abbrev pub succeeded : HandlerState → HandlerState
succeeded s = record s { consecutive_failures = 0; call_count = s.call_count + 1 }

-- The circuit of a handler and a ticker, after a success and after a failure at the time `at`.
abbrev pub cb_success : HandlerState → HandlerState
cb_success s = record s { consecutive_failures = 0; disabled_until = 0 }

abbrev pub is_tripped : HandlerState → Bool
is_tripped s = leb circuit_breaker_threshold (s.consecutive_failures + 1)

abbrev pub cb_failure : ℕ → HandlerState → HandlerState
cb_failure at s = record s {
  consecutive_failures = s.consecutive_failures + 1;
  error_count = s.error_count + 1;
  disabled_until = if is_tripped s then at + circuit_breaker_cooldown else s.disabled_until;
  trip_count = if is_tripped s then s.trip_count + 1 else s.trip_count;
}

abbrev pub failed_handler : Bool → HandlerState → HandlerState
failed_handler tripped s = record s {
  error_count = s.error_count + 1;
  trip_count = if tripped then s.trip_count + 1 else s.trip_count;
}

-- A handler that was unsubscribed meanwhile has no state.
abbrev pub update_state :
    String → (HandlerState → HandlerState) → Dict String HandlerState → Dict String HandlerState
update_state h f d = elim (lookup h d) [ none ↦ d | some s ↦ insert h (f s) d ]

-- `deque(maxlen=1000)`
abbrev pub push_dead : DlqEntry → List DlqEntry → List DlqEntry
push_dead e [] = e ∷ []
push_dead e (d ∷ ds) = if leb 1000 (length (d ∷ ds)) then ds ++ (e ∷ []) else d ∷ ds ++ (e ∷ [])

abbrev pub retries_of : String → EventBus → ℕ
retries_of h b = (get_or_else (lookup h b.handler_states) new_handler_state).max_retries

abbrev pub cb_state_of : String → String → EventBus → HandlerState
cb_state_of h ticker b = get_or_else (lookup (h, ticker) b.cb_states) new_handler_state

-- The handler is called, again after a failure as often as its policy says.
unfoldable pub invoke : World → Event → String → EventBus → EventBus
unfolding attempt_loop
invoke w e h b =
    let cb = cb_state_of h e.ticker b in
    let max_attempts = suc (retries_of h b) in
    let (done, tries) = attempt_loop (w.returns h e.event_id) 0 max_attempts in
    let called : EventBus = record b {
      calls = b.calls ++ repeat_call tries h e.event_id;
      retried_deliveries = b.retried_deliveries + (tries - 1);
      cb_states =
          insert (h, e.ticker) (if done then cb_success cb else cb_failure w.failed_at cb)
            b.cb_states;
      handler_states =
          update_state h (if done then succeeded else failed_handler (is_tripped cb))
            b.handler_states;
    } in
    let letter : DlqEntry = record {
      event_id = e.event_id;
      handler_name = h;
      attempts = max_attempts;
    } in
    let dead : EventBus = record called {
      circuit_breaks = if is_tripped cb then b.circuit_breaks + 1 else b.circuit_breaks;
      dead_letters = push_dead letter b.dead_letters;
      dlq_count = b.dlq_count + 1;
    } in
    if done then called else dead

-- An expired event is skipped; a late one is counted and delivered; an open circuit skips.
unfoldable pub deliver : World → Event → String → EventBus → EventBus
unfolding circuit_state invoke
deliver w e h b =
    let late : EventBus = record b {
      sla_breaches = if is_past e.deadline w.now then b.sla_breaches + 1 else b.sla_breaches;
    } in
    let known : EventBus = record late {
      cb_states = insert (h, e.ticker) (cb_state_of h e.ticker b) b.cb_states;
    } in
    if is_past e.expiry_ts w.now then b else elim (circuit_state w.now (cb_state_of h e.ticker b)) [
      | open_circuit ↦ known
      | closed_circuit ↦ invoke w e h known
      | half_open ↦ invoke w e h known
    ]
