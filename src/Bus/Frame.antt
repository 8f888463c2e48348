-- ===== src/Bus/Frame.antt =====
-- What a delivery of `class EventBus` (monitor/event_bus.py) leaves alone.
use trading_hub.Base.{
  ℕ, suc, String, ◌≡◌, refl, ◌∙◌, ◌⊎◌, inl, inr, Bool, List, [], ◌∷◌, Bool-cases, nat_eq, string_eq,
  pair_eq,
}
use trading_hub.Base.Dict.{Dict}
use trading_hub.Bus.State.{
  Event, CircuitState, closed_circuit, open_circuit, half_open, circuit_state, EventBus, World,
  StreamKey, Subscription,
}
use trading_hub.Bus.Deliver.{attempt_loop, cb_state_of, retries_of, is_past, invoke, deliver}
use trading_hub.Bus.Emit.{deliver_all}

-- The ids and the numbers, with their limits.
abbrev pub frame : EventBus → ℕ × Dict String Bool × ℕ × Dict StreamKey ℕ
frame b = (b.idempotency_window, b.seen_ids, b.max_streams, b.stream_seqs)

pub CircuitState-cases :
    (c : CircuitState) → (c ≡ closed_circuit) ⊎ ((c ≡ open_circuit) ⊎ (c ≡ half_open))
CircuitState-cases closed_circuit = inl refl
CircuitState-cases open_circuit = inr (inl refl)
CircuitState-cases half_open = inr (inr refl)

invoke-frame :
    (w : World) (e : Event) (h : String) (b : EventBus) → frame (invoke w e h b) ≡ frame b
unfolding invoke
invoke-frame w e h b =
    elim (Bool-cases (attempt_loop (w.returns h e.event_id) 0 (suc (retries_of h b))).0) [
      | inl ok ↦ rw ok refl
      | inr bad ↦ rw bad refl
    ]

pub deliver-frame :
    (w : World) (e : Event) (h : String) (b : EventBus) → frame (deliver w e h b) ≡ frame b
unfolding deliver
deliver-frame w e h b = elim (Bool-cases (is_past e.expiry_ts w.now)) [
  | inl past ↦ rw past refl
  | inr live ↦ elim (CircuitState-cases (circuit_state w.now (cb_state_of h e.ticker b))) [
    | inl c ↦ rw (live, c, invoke-frame) refl
    | inr (inl c) ↦ rw (live, c) refl
    | inr (inr c) ↦ rw (live, c, invoke-frame) refl
  ]
]

pub deliver_all-frame :
    (w : World) (e : Event) (ss : List Subscription) (b : EventBus)
    → frame (deliver_all w e ss b) ≡ frame b
unfolding deliver_all
deliver_all-frame w e [] b = refl
deliver_all-frame w e (s ∷ ss) b =
    deliver_all-frame w e ss (deliver w e s.handler b) ∙ deliver-frame w e s.handler b
