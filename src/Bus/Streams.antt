-- ===== src/Bus/Streams.antt =====
-- The stream numbers that `emit` of `class EventBus` (monitor/event_bus.py) gives, and the
-- `StreamMonitor` of that file, which checks them.
use trading_hub.Base.{
  ℕ, suc, ◌+◌, ◌<◌, ◌≡◌, refl, sym, ap, ◌∙◌, ◌≢◌, ◌⊎◌, inl, inr, Bool, true, false, not, ◌&&◌, none,
  some, List, [], ◌∷◌, ◌++◌, arith, ltb, leb, if◌then◌else◌, Bool-cases, get_or_else, length, All,
  nat_eq, string_eq, pair_eq, ap₂, subst,
}
use trading_hub.Base.Dict.{Dict, lookup, contains, erase, lookup-erase_self}
use trading_hub.Base.Recent.{
  Holds, Holds-weaken, Holds-lookup, erase-Holds, snoc-Holds, last-Holds, drop_first-Holds,
  drop_first_entry,
}
use trading_hub.Bus.State.{Event, EventBus, World, StreamKey, subscribers_of}
use trading_hub.Bus.Emit.{
  next_seq, number, all_return, stream_of, Emitted, type_error, duplicate, hook_failed, sent,
  is_seen, note_id, emit_new, emit,
}
use trading_hub.Bus.Frame.{deliver_all-frame}
use trading_hub.Bus.Once.{Emission, emitted, emit_all, emit-mistyped, emit-seen, emit-accepted}
use trading_hub.Stream.Monitor.{StreamMonitor, check, check_seq, warning_for}

module _ (max_streams : ℕ) (k : StreamKey) where
  move-Holds :
      (n v : ℕ) (j : StreamKey) (room : Dict StreamKey ℕ)
      → j ≢ k
      → Holds n k v room
      → Holds (suc n) k v (erase j room ++ ((j, get_or_else (lookup j room) 0 + 1) ∷ []))
  move-Holds n v j room ne h =
      snoc-Holds n k v j (get_or_else (lookup j room) 0 + 1) (erase j room)
        (erase-Holds n k v j room ne h)

  next_seq-other :
      (n v : ℕ) (j : StreamKey) (d : Dict StreamKey ℕ)
      → j ≢ k
      → suc n < max_streams
      → Holds n k v d
      → Holds (suc n) k v (next_seq max_streams j d).1
  unfolding next_seq
  next_seq-other n v j d ne lt h = elim (Bool-cases (contains j d)) [
    | inl old ↦ rw old (move-Holds n v j d ne h)
    | inr new ↦ elim (Bool-cases (leb max_streams (length d))) [
      | inl full ↦
          rw (new, full)
            (move-Holds n v j (drop_first_entry d) ne
              (drop_first-Holds n k v d (ground (arith, full, lt)) h))
      | inr room ↦ rw (new, room) (move-Holds n v j d ne h)
    ]
  ]

  next_seq-own :
      (d : Dict StreamKey ℕ) → Holds 0 k (next_seq max_streams k d).0 (next_seq max_streams k d).1
  unfolding next_seq
  next_seq-own d =
      let room =
        if contains k d then d else if leb max_streams (length d) then drop_first_entry d else d in
      last-Holds k (get_or_else (lookup k room) 0 + 1) (erase k room) (lookup-erase_self k room)

  next_seq-again :
      (n v : ℕ) (d : Dict StreamKey ℕ) → Holds n k v d → (next_seq max_streams k d).0 ≡ v + 1
  unfolding next_seq
  next_seq-again n v d h =
      let found = Holds-lookup n k v d h in
      let old : contains k d ≡ true = rw found refl in rw old (ap (λ o. get_or_else o 0 + 1) found)

-- The numbers and their limit after an event: they stay, or the event's stream goes on.
abbrev StreamsStep : Event → EventBus → EventBus → Type 0
StreamsStep e b b' =
    (b'.max_streams ≡ b.max_streams)
    × ((b'.stream_seqs ≡ b.stream_seqs)
        ⊎ (b'.stream_seqs ≡ (next_seq b.max_streams (stream_of e) b.stream_seqs).1))

emit_new-streams :
    (w : World) (durable : Bool) (e : Event) (b : EventBus)
    → let b' = (emit_new w durable e b).1 in
      let r = next_seq b.max_streams (stream_of e) b.stream_seqs in
      (b'.max_streams ≡ b.max_streams)
      × (b'.stream_seqs ≡ r.1)
      × (((emit_new w durable e b).0 ≡ hook_failed) ⊎ ((emit_new w durable e b).0 ≡ sent r.0))
unfolding emit_new number
emit_new-streams w durable e b =
    let numbered = (number e b).1 in
    elim (Bool-cases (durable && b.durable_fail_fast && not (all_return w b.before_emit_hooks))) [
      | inl bad ↦ rw bad (refl, refl, inl refl)
      | inr good ↦
          let same = deliver_all-frame w e (subscribers_of e.kind numbered) numbered in
          rw good (ap (λ f. f.2) same, ap (λ f. f.3) same, inr refl)
    ]

note_id-streams :
    (e : Event) (b : EventBus)
    → ((note_id e b).max_streams ≡ b.max_streams) × ((note_id e b).stream_seqs ≡ b.stream_seqs)
note_id-streams e b = elim (Bool-cases (ltb 0 b.idempotency_window)) [
  | inl on ↦ rw on (refl, refl)
  | inr off ↦ rw off (refl, refl)
]

-- An accepted event gets the next number, unless a hook fails.
accepted-streams :
    (m : Emission) (b : EventBus)
    → m.event.well_typed ≡ true
    → is_seen m.event b ≡ false
    → let out = emit m.world m.durable m.event b in
      let r = next_seq b.max_streams (stream_of m.event) b.stream_seqs in
      (out.1.max_streams ≡ b.max_streams)
      × (out.1.stream_seqs ≡ r.1)
      × ((out.0 ≡ hook_failed) ⊎ (out.0 ≡ sent r.0))
accepted-streams m b typed fresh =
    let (size, streams) = note_id-streams m.event b in
    let (a, s, r) = emit_new-streams m.world m.durable m.event (note_id m.event b) in
    let there = ap₂ (λ x y. next_seq x (stream_of m.event) y) size streams in
    let taken = emit-accepted m b typed fresh in
    (
      ap (λ o. o.1.max_streams) taken ∙ a ∙ size,
      ap (λ o. o.1.stream_seqs) taken ∙ s ∙ ap (λ z. z.1) there,
      elim r [
        | inl bad ↦ inl (ap (λ o. o.0) taken ∙ bad)
        | inr good ↦ inr (ap (λ o. o.0) taken ∙ good ∙ ap (λ z. sent z.0) there)
      ],
    )

emitted-StreamsStep : (m : Emission) (b : EventBus) → StreamsStep m.event b (emitted m b)
emitted-StreamsStep m b = elim (Bool-cases m.event.well_typed) [
  | inr bad ↦ subst (λ r. StreamsStep m.event b r.1) (sym (emit-mistyped m b bad)) (refl, inl refl)
  | inl good ↦ elim (Bool-cases (is_seen m.event b)) [
    | inl seen ↦
        subst (λ r. StreamsStep m.event b r.1) (sym (emit-seen m b good seen)) (refl, inl refl)
    | inr fresh ↦ let (size, streams, out) = accepted-streams m b good fresh in (size, inr streams)
  ]
]

value_of : Emitted → ℕ
value_of (sent n) = n
value_of _ = 0

-- A number that was given out is the next of its stream.
sent-streams :
    (m : Emission) (b : EventBus) (n : ℕ)
    → (emit m.world m.durable m.event b).0 ≡ sent n
    → let r = next_seq b.max_streams (stream_of m.event) b.stream_seqs in
      ((emitted m b).max_streams ≡ b.max_streams) × ((emitted m b).stream_seqs ≡ r.1) × (n ≡ r.0)
unfolding value_of
sent-streams m b n h = elim (Bool-cases m.event.well_typed) [
  | inr bad ↦
      let clash : type_error ≡ sent n = sym (ap (λ o. o.0) (emit-mistyped m b bad)) ∙ h in cc
  | inl good ↦ elim (Bool-cases (is_seen m.event b)) [
    | inl seen ↦
        let clash : duplicate ≡ sent n = sym (ap (λ o. o.0) (emit-seen m b good seen)) ∙ h in cc
    | inr fresh ↦
        let (size, streams, out) = accepted-streams m b good fresh in
        (
          size,
          streams,
          elim out [
            | inl failed ↦ let clash : hook_failed ≡ sent n = sym failed ∙ h in cc
            | inr got ↦ ap value_of (sym h ∙ got)
          ],
        )
  ]
]

-- The bus holds the number `v` of the stream with at most `n` other streams used since.
abbrev Numbers : ℕ → ℕ → StreamKey → ℕ → EventBus → Type 0
Numbers size n k v b = (b.max_streams ≡ size) × Holds n k v b.stream_seqs

emitted-Numbers :
    (size n v : ℕ) (k : StreamKey) (m : Emission) (b : EventBus)
    → stream_of m.event ≢ k
    → suc n < size
    → Numbers size n k v b
    → Numbers size (suc n) k v (emitted m b)
emitted-Numbers size n v k m b ne lt (same, h) =
    let (kept, streams) = emitted-StreamsStep m b in
    (
      kept ∙ same,
      elim streams [
        | inl e ↦ subst (Holds (suc n) k v) (sym e) (Holds-weaken n k v b.stream_seqs h)
        | inr e ↦
            subst (Holds (suc n) k v)
              (sym (e ∙ ap (λ z. (next_seq z (stream_of m.event) b.stream_seqs).1) same))
              (next_seq-other size k n v (stream_of m.event) b.stream_seqs ne lt h)
      ],
    )

emit_all-Numbers :
    (size n v : ℕ) (k : StreamKey) (ms : List Emission) (b : EventBus)
    → All (λ m. stream_of m.event ≢ k) ms
    → n + length ms < size
    → Numbers size n k v b
    → Numbers size (n + length ms) k v (emit_all ms b)
unfolding emit_all
emit_all-Numbers size n v k [] b other lt h = subst (λ z. Numbers size z k v b) (omega arith) h
emit_all-Numbers size n v k (m ∷ ms) b other lt h =
    subst (λ z. Numbers size z k v (emit_all ms (emitted m b))) (omega arith)
      (emit_all-Numbers size (suc n) v k ms (emitted m b) other.1 (omega (arith, lt))
        (emitted-Numbers size n v k m b other.0 (omega (arith, lt)) h))

next-quiet :
    (k : StreamKey) (n : ℕ) (mon : StreamMonitor)
    → lookup k mon.last ≡ some n
    → (check (record { key = k; stream_seq = some (n + 1) }) mon).0 ≡ none
unfolding check check_seq warning_for
next-quiet k n mon h = rw h (ground arith)

-- If the bus sends an event with the stream number `n`, and then fewer events than it has room for
-- streams, all of other streams, whatever becomes of them, and then sends the next event of the first
-- stream, then its number is `n + 1`, and a stream monitor that saw `n` last does not warn.
pub emit-next :
    (m again : Emission) (ms : List Emission) (b : EventBus) (n p : ℕ) (mon : StreamMonitor)
    → (emit m.world m.durable m.event b).0 ≡ sent n
    → All (λ x. stream_of x.event ≢ stream_of m.event) ms
    → length ms < b.max_streams
    → stream_of again.event ≡ stream_of m.event
    → (emit again.world again.durable again.event (emit_all ms (emitted m b))).0 ≡ sent p
    → lookup (stream_of m.event) mon.last ≡ some n
    → (p ≡ n + 1)
      × ((check (record { key = stream_of again.event; stream_seq = some p }) mon).0 ≡ none)
emit-next m again ms b n p mon first other short same second seen =
    let k = stream_of m.event in
    let (size, streams, got) = sent-streams m b n first in
    let start : Numbers b.max_streams 0 k n (emitted m b) = (
      size,
      subst (λ z. Holds 0 k z (emitted m b).stream_seqs) (sym got)
          (subst (Holds 0 k (next_seq b.max_streams k b.stream_seqs).0) (sym streams)
            (next_seq-own b.max_streams k b.stream_seqs)),
    ) in
    let b' = emit_all ms (emitted m b) in
    let held =
      emit_all-Numbers b.max_streams 0 n k ms (emitted m b) other (omega (arith, short)) start in
    let number : p ≡ n + 1 =
      (sent-streams again b' p second).2
      ∙ ap (λ z. (next_seq b'.max_streams z b'.stream_seqs).0) same
      ∙ next_seq-again b'.max_streams k (0 + length ms) n b'.stream_seqs held.1 in
    (
      number,
      ap₂ (λ z q. (check (record { key = z; stream_seq = some q }) mon).0) same number
          ∙ next-quiet k n mon seen,
    )
