-- ===== src/Bars/Covers.antt =====
-- The tickers of which monitor/bar_builder.py emits a BAR event, against those that it says it covers, for
-- which REST then emits none.
use trading_hub.Base.{
  ℕ, ◌-◌, ◌≤◌, String, ◌≡◌, refl, sym, ap, ◌∙◌, inl, inr, Bool, true, false, not, ◌&&◌, ◌||◌, List,
  [], ◌∷◌, ◌++◌, arith, ltb, leb, eqb, if◌then◌else◌, le→leb, Bool-cases, get_or_else, length,
  length-append, ◌==◌, nat_eq, string_eq, pair_eq, subst, eq_of_beq, beq_self,
}
use trading_hub.Base.Dict.{Dict, lookup, insert, lookup-insert, lookup-insert_self}
use trading_hub.Ledger.Book.{has, add}
use trading_hub.Bars.Tick.{BarAccumulator, Bar, is_valid, to_dict}
use trading_hub.Bars.Builder.{
  BarBuilder, Flush, push_bar, flush_bar, flush_bars, flush_minute, end_flush, no_flush, get_bars,
  covers_ticker,
}
use trading_hub.Bars.Length.{length-drop_first}

or_false : (x : Bool) → x ≡ x || false
or_false true = refl
or_false false = refl

or_true : (x : Bool) → true ≡ x || true
or_true true = refl
or_true false = refl

has_snoc : (k t : String) (ks : List String) → has k (ks ++ (t ∷ [])) ≡ has k ks || (t == k)
has_snoc k t [] = elim (Bool-cases (t == k)) [ inl e ↦ rw e refl | inr e ↦ rw e refl ]
has_snoc k t (x ∷ ks) = elim (Bool-cases (x == k)) [
  | inl e ↦ rw e refl
  | inr e ↦ rw e (has_snoc k t ks)
]

maybe_snoc :
    (c : Bool) (k t : String) (ks : List String)
    → (t == k) ≡ false
    → has k (if c then ks ++ (t ∷ []) else ks) ≡ has k ks
maybe_snoc true k t ks miss = has_snoc k t ks ∙ rw miss (sym (or_false (has k ks)))
maybe_snoc false k t ks miss = refl

has_add : (k t : String) (ks : List String) → has k (add t ks) ≡ has k ks || (t == k)
has_add k t ks = elim (Bool-cases (has t ks)) [
  | inl e ↦ elim (Bool-cases (t == k)) [
    | inl h ↦
        let here : has k ks ≡ true = ap (λ z. has z ks) (sym (eq_of_beq t k h)) ∙ e in
        rw (e, here) refl
    | inr h ↦ rw (e, h) (or_false (has k ks))
  ]
  | inr e ↦ rw e (has_snoc k t ks)
]

-- Two bars are left where there was one.
push_bar-two :
    (m : ℕ) (bar : Bar) (h : List Bar) → 2 ≤ m → 1 ≤ length h → 2 ≤ length (push_bar m bar h)
push_bar-two m bar h room le =
    let longer = length-append h (bar ∷ []) in
    let cut = length-drop_first (length (h ++ (bar ∷ [])) - m) (h ++ (bar ∷ [])) in
    elim (Bool-cases (ltb m (length (h ++ (bar ∷ []))) && not (eqb m 0))) [
      | inl e ↦ rw (push_bar, e) (ground (arith, longer, cut, le, room, e))
      | inr e ↦ rw (push_bar, e) (omega (arith, longer, le))
    ]

module _ (b : BarBuilder) (k : String) (has_bus : b.has_bus ≡ true) (emits : b.emit_bars ≡ true)
    (room : 2 ≤ b.max_history) where
  abbrev Covers : Flush → Type 0
  Covers f =
      (1 ≤ length (get_or_else (lookup k f.history) []))
      × (has k f.to_emit ≡ has k b.seeded_tickers && has k f.tickers_this_flush)

  flush_bar_own-Covers : (a : BarAccumulator) (f : Flush) → Covers f → Covers (flush_bar b k a f)
  unfolding flush_bar
  flush_bar_own-Covers a f (some_bar, same) = elim (Bool-cases (is_valid a)) [
    | inr e ↦ rw e (some_bar, same)
    | inl e ↦
        let h = push_bar b.max_history (to_dict a) (get_or_else (lookup k f.history) []) in
        let two : 2 ≤ length h =
          push_bar-two b.max_history (to_dict a) (get_or_else (lookup k f.history) []) room
            some_bar in
        let now_there : has k (add k f.tickers_this_flush) ≡ true =
          has_add k k f.tickers_this_flush
          ∙ rw (beq_self k) (sym (or_true (has k f.tickers_this_flush))) in
        elim (Bool-cases (has k b.seeded_tickers)) [
          | inl seeded ↦
              rw (e, emits, has_bus, seeded, le→leb 2 (length h) two, lookup-insert_self, now_there)
                (
                  omega (arith, two),
                  has_snoc k k f.to_emit ∙ rw (beq_self k) (sym (or_true (has k f.to_emit))),
                )
          | inr other ↦
              rw (e, emits, has_bus, other, lookup-insert_self)
                (omega (arith, two), same ∙ rw other refl)
        ]
  ]

  flush_bar_other-Covers :
      (t : String) (a : BarAccumulator) (f : Flush)
      → (t == k) ≡ false
      → Covers f
      → Covers (flush_bar b t a f)
  unfolding flush_bar
  flush_bar_other-Covers t a f miss (some_bar, same) = elim (Bool-cases (is_valid a)) [
    | inr e ↦ rw e (some_bar, same)
    | inl e ↦
        let h = push_bar b.max_history (to_dict a) (get_or_else (lookup t f.history) []) in
        let kept : lookup k (insert t h f.history) ≡ lookup k f.history =
          lookup-insert t k h f.history ∙ rw miss refl in
        let told : has k (add t f.tickers_this_flush) ≡ has k f.tickers_this_flush =
          has_add k t f.tickers_this_flush
          ∙ rw miss (sym (or_false (has k f.tickers_this_flush))) in
        rw e (
          subst (λ o. 1 ≤ length (get_or_else o [])) (sym kept) some_bar,
          maybe_snoc (b.emit_bars && b.has_bus && has t b.seeded_tickers && leb 2 (length h)) k t
                f.to_emit miss
              ∙ same
              ∙ ap (λ z. has k b.seeded_tickers && z) (sym told),
        )
  ]

  flush_bars-Covers :
      (d : Dict String BarAccumulator) (f : Flush) → Covers f → Covers (flush_bars b d f)
  unfolding flush_bars
  flush_bars-Covers [] f c = c
  flush_bars-Covers ((t, a) ∷ d) f c =
      flush_bars-Covers d (flush_bar b t a f) (elim (Bool-cases (t == k)) [
        | inl hit ↦
            subst (λ z. Covers (flush_bar b z a f)) (sym (eq_of_beq t k hit))
              (flush_bar_own-Covers a f c)
        | inr miss ↦ flush_bar_other-Covers t a f miss c
      ])

  no_bar : (x : Bool) → false ≡ x && false
  no_bar true = refl
  no_bar false = refl

  -- Where the builder has a bus and emits bars and keeps two or more, a flush that has some accumulator
  -- emits a BAR event for a ticker of which there was a bar before exactly if the builder then says that
  -- it covers the ticker.
  pub flush_minute-covers :
      (now : ℕ) (e : String × BarAccumulator) (d : Dict String BarAccumulator)
      → b.current ≡ e ∷ d
      → 1 ≤ length (get_bars k b)
      → has k ((flush_minute now b).1) ≡ covers_ticker k ((flush_minute now b).0)
  unfolding flush_minute end_flush
  flush_minute-covers now e d current some_bar =
      let f = flush_bars b b.current (no_flush b) in
      let c =
        flush_bars-Covers b.current (no_flush b) (some_bar, no_bar (has k b.seeded_tickers)) in
      subst (λ z. has k ((end_flush now z b f).1) ≡ covers_ticker k ((end_flush now z b f).0))
        (sym current) (c.1)
