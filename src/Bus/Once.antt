-- ===== src/Bus/Once.antt =====
-- Duplicates: the ids that `emit` of `class EventBus` (monitor/event_bus.py) remembers.
use trading_hub.Base.{
  ℕ, suc, ◌+◌, ◌<◌, String, ◌≡◌, refl, sym, ap, ◌∙◌, ◌⊎◌, inl, inr, Bool, true, false, not, ◌&&◌,
  none, List, [], ◌∷◌, ◌++◌, arith, ltb, Bool-cases, length, nat_eq, string_eq, pair_eq, subst,
}
use trading_hub.Base.Dict.{Dict, lookup}
use trading_hub.Base.Recent.{
  Holds, Holds-lookup, snoc-Holds, last-Holds, drop_first-Holds, Holds-weaken,
}
use trading_hub.Bus.State.{Event, EventBus, World, subscribers_of}
use trading_hub.Bus.Emit.{
  remember_id, number, all_return, type_error, duplicate, is_seen, note_id, emit_new, emit,
}
use trading_hub.Bus.Frame.{deliver_all-frame}

-- A call of `emit`.
pub record Emission : Type 0 where
  pub world : World
  pub durable : Bool
  pub event : Event

abbrev pub emitted : Emission → EventBus → EventBus
emitted m b = (emit m.world m.durable m.event b).1

unfoldable pub emit_all : List Emission → EventBus → EventBus
emit_all [] b = b
emit_all (m ∷ ms) b = emit_all ms (emitted m b)

-- What an accepted event does to the ids and their limit.
pub emit_new-ids :
    (w : World) (durable : Bool) (e : Event) (b : EventBus)
    → let b' = (emit_new w durable e b).1 in
      (b'.idempotency_window ≡ b.idempotency_window) × (b'.seen_ids ≡ b.seen_ids)
unfolding emit_new number
emit_new-ids w durable e b =
    let numbered = (number e b).1 in
    elim (Bool-cases (durable && b.durable_fail_fast && not (all_return w b.before_emit_hooks))) [
      | inl bad ↦ rw bad (refl, refl)
      | inr good ↦
          let same = deliver_all-frame w e (subscribers_of e.kind numbered) numbered in
          rw good (ap (λ f. f.0) same, ap (λ f. f.1) same)
    ]

remember_id-Holds :
    (window n : ℕ) (k j : String) (ids : Dict String Bool)
    → suc n < window
    → Holds n k true ids
    → Holds (suc n) k true (remember_id window j ids)
unfolding remember_id
remember_id-Holds window n k j ids lt h =
    let more = ids ++ ((j, true) ∷ []) in
    let longer = snoc-Holds n k true j true ids h in
    elim (Bool-cases (ltb window (length more))) [
      | inl over ↦ rw over (drop_first-Holds (suc n) k true more (ground (arith, over, lt)) longer)
      | inr fits ↦ rw fits longer
    ]

-- The id that was just accepted is the youngest.
remember_id-last :
    (window : ℕ) (k : String) (ids : Dict String Bool)
    → 1 < window
    → lookup k ids ≡ none
    → Holds 0 k true (remember_id window k ids)
unfolding remember_id
remember_id-last window k ids lt new =
    let more = ids ++ ((k, true) ∷ []) in
    let here = last-Holds k true ids new in
    elim (Bool-cases (ltb window (length more))) [
      | inl over ↦ rw over (drop_first-Holds 0 k true more (ground (arith, over, lt)) here)
      | inr fits ↦ rw fits here
    ]

-- The bus holds an id with at most `n` younger ones.
abbrev Remembers : ℕ → ℕ → String → EventBus → Type 0
Remembers window n k b = (b.idempotency_window ≡ window) × Holds n k true b.seen_ids

pub emit-mistyped :
    (m : Emission) (b : EventBus)
    → m.event.well_typed ≡ false
    → emit m.world m.durable m.event b ≡ (type_error, b)
unfolding emit
emit-mistyped m b bad = rw bad refl

pub emit-seen :
    (m : Emission) (b : EventBus)
    → m.event.well_typed ≡ true
    → is_seen m.event b ≡ true
    → emit m.world m.durable m.event b ≡ (duplicate, record b { dup_dropped = b.dup_dropped + 1 })
unfolding emit
emit-seen m b typed seen = rw (typed, seen) refl

pub emit-accepted :
    (m : Emission) (b : EventBus)
    → m.event.well_typed ≡ true
    → is_seen m.event b ≡ false
    → emit m.world m.durable m.event b ≡ emit_new m.world m.durable m.event (note_id m.event b)
unfolding emit
emit-accepted m b typed fresh = rw (typed, fresh) refl

-- The ids stay, or one is remembered.
IdsStep : Emission → EventBus → EventBus → Type 0
IdsStep m b b' =
    (b'.idempotency_window ≡ b.idempotency_window)
    × ((b'.seen_ids ≡ b.seen_ids)
        ⊎ (b'.seen_ids ≡ remember_id b.idempotency_window m.event.event_id b.seen_ids))

note_id-IdsStep : (m : Emission) (b : EventBus) → IdsStep m b (note_id m.event b)
unfolding IdsStep
note_id-IdsStep m b = elim (Bool-cases (ltb 0 b.idempotency_window)) [
  | inl on ↦ rw on (refl, inr refl)
  | inr off ↦ rw off (refl, inl refl)
]

emitted-IdsStep : (m : Emission) (b : EventBus) → IdsStep m b (emitted m b)
unfolding IdsStep
emitted-IdsStep m b = elim (Bool-cases m.event.well_typed) [
  | inr bad ↦ subst (λ r. IdsStep m b r.1) (sym (emit-mistyped m b bad)) (refl, inl refl)
  | inl good ↦ elim (Bool-cases (is_seen m.event b)) [
    | inl seen ↦ subst (λ r. IdsStep m b r.1) (sym (emit-seen m b good seen)) (refl, inl refl)
    | inr fresh ↦
        let same = emit_new-ids m.world m.durable m.event (note_id m.event b) in
        let (size, ids) = note_id-IdsStep m b in
        subst (λ r. IdsStep m b r.1) (sym (emit-accepted m b good fresh))
          (same.0 ∙ size, elim ids [ inl e ↦ inl (same.1 ∙ e) | inr e ↦ inr (same.1 ∙ e) ])
  ]
]

emitted-Remembers :
    (window n : ℕ) (k : String) (m : Emission) (b : EventBus)
    → suc n < window
    → Remembers window n k b
    → Remembers window (suc n) k (emitted m b)
unfolding IdsStep
emitted-Remembers window n k m b lt (size, h) =
    let (kept, ids) = emitted-IdsStep m b in
    (
      kept ∙ size,
      elim ids [
        | inl same ↦ subst (Holds (suc n) k true) (sym same) (Holds-weaken n k true b.seen_ids h)
        | inr more ↦
            subst (Holds (suc n) k true)
              (sym (more ∙ ap (λ z. remember_id z m.event.event_id b.seen_ids) size))
              (remember_id-Holds window n k m.event.event_id b.seen_ids lt h)
      ],
    )

emit_all-Remembers :
    (window n : ℕ) (k : String) (ms : List Emission) (b : EventBus)
    → n + length ms < window
    → Remembers window n k b
    → Remembers window (n + length ms) k (emit_all ms b)
unfolding emit_all
emit_all-Remembers window n k [] b lt h = subst (λ z. Remembers window z k b) (omega arith) h
emit_all-Remembers window n k (m ∷ ms) b lt h =
    subst (λ z. Remembers window z k (emit_all ms (emitted m b))) (omega arith)
      (emit_all-Remembers window (suc n) k ms (emitted m b) (omega (arith, lt))
        (emitted-Remembers window n k m b (omega (arith, lt)) h))

accepted-Remembers :
    (m : Emission) (b : EventBus)
    → m.event.well_typed ≡ true
    → lookup m.event.event_id b.seen_ids ≡ none
    → 1 < b.idempotency_window
    → Remembers b.idempotency_window 0 m.event.event_id (emitted m b)
accepted-Remembers m b typed new wide =
    let on : ltb 0 b.idempotency_window ≡ true = ground (arith, wide) in
    let same = emit_new-ids m.world m.durable m.event (note_id m.event b) in
    let noted : note_id m.event b
        ≡ record b { seen_ids = remember_id b.idempotency_window m.event.event_id b.seen_ids } =
      rw on refl in
    let fresh : is_seen m.event b ≡ false = rw (on, new) refl in
    subst (λ r. Remembers b.idempotency_window 0 m.event.event_id r.1)
      (sym (emit-accepted m b typed fresh))
      (
        same.0 ∙ ap (λ x. x.idempotency_window) noted,
        subst (Holds 0 m.event.event_id true) (sym (same.1 ∙ ap (λ x. x.seen_ids) noted))
            (remember_id-last b.idempotency_window m.event.event_id b.seen_ids wide new),
      )

Remembers-is_seen :
    (window n : ℕ) (m : Emission) (k : String) (b : EventBus)
    → 1 < window
    → m.event.event_id ≡ k
    → Remembers window n k b
    → is_seen m.event b ≡ true
Remembers-is_seen window n m k b wide same (size, h) =
    let found = ap (λ z. lookup z b.seen_ids) same ∙ Holds-lookup n k true b.seen_ids h in
    let on : ltb 0 b.idempotency_window ≡ true = rw size (ground (arith, wide)) in
    rw (on, found) refl

-- An event is delivered once: if the bus accepts it, then as long as fewer events than the window (of two
-- at least) were emitted since, a well-typed event with its id is reported as a duplicate, and only the
-- count of duplicates changes.
pub emit-once :
    (m again : Emission) (ms : List Emission) (b : EventBus)
    → m.event.well_typed ≡ true
    → lookup m.event.event_id b.seen_ids ≡ none
    → 1 < b.idempotency_window
    → length ms < b.idempotency_window
    → again.event.well_typed ≡ true
    → again.event.event_id ≡ m.event.event_id
    → let b' = emit_all ms (emitted m b) in
      emit again.world again.durable again.event b'
      ≡ (duplicate, record b' { dup_dropped = b'.dup_dropped + 1 })
emit-once m again ms b typed new wide short typed' same =
    let b' = emit_all ms (emitted m b) in
    let held =
      emit_all-Remembers b.idempotency_window 0 m.event.event_id ms (emitted m b)
        (omega (arith, short)) (accepted-Remembers m b typed new wide) in
    emit-seen again b' typed' (
      Remembers-is_seen b.idempotency_window (0 + length ms) again m.event.event_id b' wide same
        held)
