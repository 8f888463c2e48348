-- ===== src/Bus/Circuit.antt =====
-- The circuit of a handler and a ticker in `class EventBus` (monitor/event_bus.py), against a machine
-- that sees only its own events.
use trading_hub.Base.{
  ℕ, suc, ◌+◌, String, ◌≡◌, refl, sym, ap, ◌∙◌, ◌≢◌, inl, inr, Bool, ◌&&◌, List, [], ◌∷◌,
  if◌then◌else◌, Bool-cases, Option-cases, get_or_else, ◌==◌, nat_eq, string_eq, pair_eq, ap₂,
  subst, eq_of_beq, ne_of_beq,
}
use trading_hub.Base.Dict.{
  Dict, lookup, insert, lookup-insert, lookup-insert_self, lookup-insert_ne,
}
use trading_hub.Bus.State.{
  Event, HandlerState, new_handler_state, closed_circuit, open_circuit, half_open, circuit_state,
  EventBus, World,
}
use trading_hub.Bus.Deliver.{
  attempt_loop, cb_success, cb_failure, cb_state_of, retries_of, is_past, update_state, succeeded,
  failed_handler, is_tripped, invoke, deliver,
}
use trading_hub.Bus.Frame.{CircuitState-cases}

-- An attempted delivery: an event for a handler.
pub record Delivery : Type 0 where
  pub world : World
  pub event : Event
  pub handler : String

unfoldable pub deliver_each : List Delivery → EventBus → EventBus
deliver_each [] b = b
deliver_each (d ∷ ds) b = deliver_each ds (deliver d.world d.event d.handler b)

-- Does one of `retries` + 1 attempts succeed?
abbrev pub is_handled : ℕ → Delivery → Bool
is_handled retries d = (attempt_loop (d.world.returns d.handler d.event.event_id) 0 (suc retries)).0

-- One event at the circuit: nothing if it has expired or the circuit is open.
unfoldable pub machine : ℕ → Delivery → HandlerState → HandlerState
machine retries d s =
    if is_past d.event.expiry_ts d.world.now then s else elim (circuit_state d.world.now s) [
      | open_circuit ↦ s
      | closed_circuit ↦
          if is_handled retries d then cb_success s else cb_failure d.world.failed_at s
      | half_open ↦ if is_handled retries d then cb_success s else cb_failure d.world.failed_at s
    ]

abbrev pub is_for : String → String → Delivery → Bool
is_for h ticker d = d.handler == h && d.event.ticker == ticker

unfoldable pub machine_run : String → String → ℕ → List Delivery → HandlerState → HandlerState
unfolding machine
machine_run h ticker retries [] s = s
machine_run h ticker retries (d ∷ ds) s =
    machine_run h ticker retries ds (if is_for h ticker d then machine retries d s else s)

-- The retries that a handler has are not touched.
update_state-retries :
    (g : String) (f : HandlerState → HandlerState) (d : Dict String HandlerState) (h : String)
    → ((s : HandlerState) → (f s).max_retries ≡ s.max_retries)
    → (get_or_else (lookup h (update_state g f d)) new_handler_state).max_retries
      ≡ (get_or_else (lookup h d) new_handler_state).max_retries
update_state-retries g f d h same = elim (Option-cases (lookup g d)) [
  | inl e ↦
      let kept : update_state g f d ≡ d = rw (update_state, e) refl in
      ap (λ x. (get_or_else (lookup h x) new_handler_state).max_retries) kept
  | inr (s, e) ↦
      let put : update_state g f d ≡ insert g (f s) d = rw (update_state, e) refl in
      ap (λ x. (get_or_else (lookup h x) new_handler_state).max_retries) put
      ∙ elim (Bool-cases (g == h)) [
        | inl hit ↦
            let here : g ≡ h = eq_of_beq g h hit in
            rw (lookup-insert g h (f s) d, hit)
              (same s
                ∙ ap (λ o. (get_or_else o new_handler_state).max_retries)
                    (sym e ∙ ap (λ z. lookup z d) here))
        | inr miss ↦ rw (lookup-insert g h (f s) d, miss) refl
      ]
]

module _ (w : World) (e : Event) (g : String) where
  was_handled : EventBus → Bool
  was_handled b = (attempt_loop (w.returns g e.event_id) 0 (suc (retries_of g b))).0

  invoke-retries : (b : EventBus) (h : String) → retries_of h (invoke w e g b) ≡ retries_of h b
  unfolding invoke was_handled
  invoke-retries b h = elim (Bool-cases (was_handled b)) [
    | inl ok ↦ rw ok (update_state-retries g succeeded b.handler_states h (λ s. refl))
    | inr bad ↦ rw bad (
        update_state-retries g (failed_handler (is_tripped (cb_state_of g e.ticker b)))
          b.handler_states h (λ s. refl))
  ]

  -- What the invocation writes to the circuit.
  result : EventBus → HandlerState
  result b =
      if was_handled b
      then cb_success (cb_state_of g e.ticker b)
      else cb_failure w.failed_at (cb_state_of g e.ticker b)

  invoke-cb_states :
      (b : EventBus) → (invoke w e g b).cb_states ≡ insert (g, e.ticker) (result b) b.cb_states
  unfolding invoke was_handled result
  invoke-cb_states b = elim (Bool-cases (was_handled b)) [
    | inl ok ↦ rw ok refl
    | inr bad ↦ rw bad refl
  ]

  known : EventBus → EventBus
  known b = record b {
    sla_breaches = if is_past e.deadline w.now then b.sla_breaches + 1 else b.sla_breaches;
    cb_states = insert (g, e.ticker) (cb_state_of g e.ticker b) b.cb_states;
  }

  deliver-retries : (b : EventBus) (h : String) → retries_of h (deliver w e g b) ≡ retries_of h b
  unfolding deliver known
  deliver-retries b h = elim (Bool-cases (is_past e.expiry_ts w.now)) [
    | inl past ↦ rw past refl
    | inr live ↦ elim (CircuitState-cases (circuit_state w.now (cb_state_of g e.ticker b))) [
      | inl c ↦ rw (live, c) (invoke-retries (known b) h)
      | inr (inl c) ↦ rw (live, c) refl
      | inr (inr c) ↦ rw (live, c) (invoke-retries (known b) h)
    ]
  ]

  known-own : (b : EventBus) → cb_state_of g e.ticker (known b) ≡ cb_state_of g e.ticker b
  unfolding known
  known-own b =
      ap (λ o. get_or_else o new_handler_state)
        (lookup-insert_self (g, e.ticker) (cb_state_of g e.ticker b) b.cb_states)

  invoke-own : (b : EventBus) → cb_state_of g e.ticker (invoke w e g b) ≡ result b
  invoke-own b =
      ap (λ d. get_or_else (lookup (g, e.ticker) d) new_handler_state) (invoke-cb_states b)
      ∙ ap (λ o. get_or_else o new_handler_state)
          (lookup-insert_self (g, e.ticker) (result b) b.cb_states)

  result-known :
      (b : EventBus)
      → result (known b) ≡ (
          if is_handled (retries_of g b) (record { world = w; event = e; handler = g })
          then cb_success (cb_state_of g e.ticker b)
          else cb_failure w.failed_at (cb_state_of g e.ticker b))
  unfolding result was_handled known
  result-known b =
      ap (λ s. if was_handled b then cb_success s else cb_failure w.failed_at s) (known-own b)

  deliver-own :
      (b : EventBus)
      → cb_state_of g e.ticker (deliver w e g b)
        ≡ machine
            (retries_of g b)
            (record { world = w; event = e; handler = g })
            (cb_state_of g e.ticker b)
  unfolding deliver machine known
  deliver-own b = elim (Bool-cases (is_past e.expiry_ts w.now)) [
    | inl past ↦ rw past refl
    | inr live ↦ elim (CircuitState-cases (circuit_state w.now (cb_state_of g e.ticker b))) [
      | inl c ↦ rw (live, c) (invoke-own (known b) ∙ result-known b)
      | inr (inl c) ↦ rw (live, c) (known-own b)
      | inr (inr c) ↦ rw (live, c) (invoke-own (known b) ∙ result-known b)
    ]
  ]

  module _ (h ticker : String) (other : ◌≢◌ {A = String × String} (g, e.ticker) (h, ticker)) where
    known-other : (b : EventBus) → cb_state_of h ticker (known b) ≡ cb_state_of h ticker b
    unfolding known
    known-other b =
        ap (λ o. get_or_else o new_handler_state)
          (lookup-insert_ne (g, e.ticker) (h, ticker) (cb_state_of g e.ticker b) b.cb_states other)

    invoke-other : (b : EventBus) → cb_state_of h ticker (invoke w e g b) ≡ cb_state_of h ticker b
    invoke-other b =
        ap (λ d. get_or_else (lookup (h, ticker) d) new_handler_state) (invoke-cb_states b)
        ∙ ap (λ o. get_or_else o new_handler_state)
            (lookup-insert_ne (g, e.ticker) (h, ticker) (result b) b.cb_states other)

    deliver-other : (b : EventBus) → cb_state_of h ticker (deliver w e g b) ≡ cb_state_of h ticker b
    unfolding deliver known
    deliver-other b = elim (Bool-cases (is_past e.expiry_ts w.now)) [
      | inl past ↦ rw past refl
      | inr live ↦ elim (CircuitState-cases (circuit_state w.now (cb_state_of g e.ticker b))) [
        | inl c ↦ rw (live, c) (invoke-other (known b) ∙ known-other b)
        | inr (inl c) ↦ rw (live, c) (known-other b)
        | inr (inr c) ↦ rw (live, c) (invoke-other (known b) ∙ known-other b)
      ]
    ]

-- One delivery at the circuit of `h` and `ticker`.
deliver-machine :
    (d : Delivery) (h ticker : String) (b : EventBus)
    → cb_state_of h ticker (deliver d.world d.event d.handler b) ≡ (
        if is_for h ticker d
        then machine (retries_of h b) d (cb_state_of h ticker b)
        else cb_state_of h ticker b)
deliver-machine d h ticker b = elim (Bool-cases (is_for h ticker d)) [
  | inl mine ↦
      let same : (d.handler, d.event.ticker) ≡ (h, ticker) =
        (pair_eq.is_same_iff (d.handler, d.event.ticker) (h, ticker)).0 mine in
      rw mine (
        subst
          (λ z.
            cb_state_of z.0 z.1 (deliver d.world d.event d.handler b)
            ≡ machine (retries_of z.0 b) d (cb_state_of z.0 z.1 b))
          same (deliver-own d.world d.event d.handler b))
  | inr away ↦ rw away (
      deliver-other d.world d.event d.handler h ticker
        (ne_of_beq (d.handler, d.event.ticker) (h, ticker) away) b)
]

-- A bad handler or ticker does not spread: after any deliveries to all handlers, the circuit of a handler
-- and a ticker is in the state of a machine that was given only their own events.
pub deliver_each-machine :
    (ds : List Delivery) (h ticker : String) (b : EventBus)
    → cb_state_of h ticker (deliver_each ds b)
      ≡ machine_run h ticker (retries_of h b) ds (cb_state_of h ticker b)
unfolding deliver_each machine_run
deliver_each-machine [] h ticker b = refl
deliver_each-machine (d ∷ ds) h ticker b =
    let b' = deliver d.world d.event d.handler b in
    deliver_each-machine ds h ticker b'
    ∙ ap₂ (λ n s. machine_run h ticker n ds s) (deliver-retries d.world d.event d.handler b h)
        (deliver-machine d h ticker b)
