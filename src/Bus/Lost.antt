-- ===== src/Bus/Lost.antt =====
-- A durable event whose hook fails, in `emit` of `class EventBus` (monitor/event_bus.py).
use trading_hub.Base.{
  ◌<◌, ◌≡◌, refl, ap, ◌∙◌, inl, inr, true, false, none, [], arith, ltb, Bool-cases, nat_eq,
  string_eq, pair_eq,
}
use trading_hub.Base.Dict.{lookup}
use trading_hub.Bus.State.{Event, EventBus, World}
use trading_hub.Bus.Emit.{
  number, all_return, duplicate, hook_failed, is_seen, note_id, emit_new, emit,
}
use trading_hub.Bus.Once.{Emission, emitted, emit_all, emit-accepted, emit-once}

emit_new-failed :
    (w : World) (e : Event) (b : EventBus)
    → b.durable_fail_fast ≡ true
    → all_return w b.before_emit_hooks ≡ false
    → ((emit_new w true e b).0 ≡ hook_failed) × ((emit_new w true e b).1.calls ≡ b.calls)
unfolding emit_new number
emit_new-failed w e b fast bad = rw (fast, bad) (refl, refl)

note_id-fields :
    (e : Event) (b : EventBus)
    → ((note_id e b).durable_fail_fast ≡ b.durable_fail_fast)
      × ((note_id e b).before_emit_hooks ≡ b.before_emit_hooks)
      × ((note_id e b).calls ≡ b.calls)
note_id-fields e b = elim (Bool-cases (ltb 0 b.idempotency_window)) [
  | inl on ↦ rw on (refl, refl, refl)
  | inr off ↦ rw off (refl, refl, refl)
]

-- A durable event that a bus with `durable_fail_fast` accepts while a hook fails is lost: the emit fails
-- and calls no handler, and a second emit of the event, whether its hooks return or not, is dropped as a
-- duplicate without a call, for the id stays in the window (of two at least).
pub emit-lost :
    (m again : Emission) (b : EventBus)
    → m.event.well_typed ≡ true
    → lookup m.event.event_id b.seen_ids ≡ none
    → 1 < b.idempotency_window
    → m.durable ≡ true
    → b.durable_fail_fast ≡ true
    → all_return m.world b.before_emit_hooks ≡ false
    → again.event ≡ m.event
    → let b' = emitted m b in
      let out = emit again.world again.durable again.event b' in
      ((emit m.world m.durable m.event b).0 ≡ hook_failed)
      × (out.0 ≡ duplicate)
      × (out.1.calls ≡ b.calls)
unfolding emit_all
emit-lost m again b typed new wide durable fast bad same =
    let fresh : is_seen m.event b ≡ false = ground (arith, new) in
    let (fast', hooks, calls) = note_id-fields m.event b in
    let bad' : all_return m.world (note_id m.event b).before_emit_hooks ≡ false =
      ap (all_return m.world) hooks ∙ bad in
    let failed = emit_new-failed m.world m.event (note_id m.event b) (fast' ∙ fast) bad' in
    let taken =
      emit-accepted m b typed fresh
      ∙ ap (λ x. emit_new m.world x m.event (note_id m.event b)) durable in
    let twice =
      emit-once m again [] b typed new wide (omega (arith, wide))
        (ap (λ e. e.well_typed) same ∙ typed) (ap (λ e. e.event_id) same) in
    (
      ap (λ o. o.0) taken ∙ failed.0,
      ap (λ o. o.0) twice,
      ap (λ o. o.1.calls) twice ∙ ap (λ o. o.1.calls) taken ∙ failed.1 ∙ calls,
    )
