-- ===== src/Bars/Flush.antt =====
-- What a flush of monitor/bar_builder.py makes of the bars of one ticker.
use trading_hub.Base.{
  ℕ, String, ◌≡◌, refl, sym, ap, ◌∙◌, inl, inr, false, Option, none, some, List, [], ◌∷◌,
  if◌then◌else◌, Bool-cases, get_or_else, ◌==◌, nat_eq, string_eq, pair_eq, subst, eq_of_beq,
}
use trading_hub.Base.Dict.{Dict, lookup, lookup-insert, lookup-insert_self, IsUnique}
use trading_hub.Bars.Tick.{BarAccumulator, Bar, is_valid, to_dict}
use trading_hub.Bars.Builder.{
  BarBuilder, Flush, push_bar, flush_bar, flush_bars, flush_minute, get_bars, end_flush, no_flush,
}

-- The bars of a ticker after its accumulator, if it has one, is flushed.
unfoldable pub closed : ℕ → Option BarAccumulator → List Bar → List Bar
closed m none h = h
closed m (some a) h = if is_valid a then push_bar m (to_dict a) h else h

abbrev bars_at : String → Flush → List Bar
bars_at k f = get_or_else (lookup k f.history) []

flush_bar-own :
    (b : BarBuilder) (t : String) (a : BarAccumulator) (f : Flush)
    → bars_at t (flush_bar b t a f) ≡ closed b.max_history (some a) (bars_at t f)
unfolding flush_bar closed
flush_bar-own b t a f = elim (Bool-cases (is_valid a)) [
  | inl e ↦ rw e (
      ap (λ o. get_or_else o [])
        (lookup-insert_self t (push_bar b.max_history (to_dict a) (bars_at t f)) f.history))
  | inr e ↦ rw e refl
]

flush_bar-other :
    (b : BarBuilder) (t k : String) (a : BarAccumulator) (f : Flush)
    → (t == k) ≡ false
    → bars_at k (flush_bar b t a f) ≡ bars_at k f
unfolding flush_bar
flush_bar-other b t k a f miss = elim (Bool-cases (is_valid a)) [
  | inl e ↦ rw e (
      ap (λ o. get_or_else o []) {y = lookup k f.history}
        (lookup-insert t k (push_bar b.max_history (to_dict a) (bars_at t f)) f.history
          ∙ rw miss refl))
  | inr e ↦ rw e refl
]

flush_bars-closed :
    (b : BarBuilder) (k : String) (d : Dict String BarAccumulator) (f : Flush)
    → IsUnique d
    → bars_at k (flush_bars b d f) ≡ closed b.max_history (lookup k d) (bars_at k f)
unfolding flush_bars closed
flush_bars-closed b k [] f unique = refl
flush_bars-closed b k ((t, a) ∷ d) f (new, unique) =
    flush_bars-closed b k d (flush_bar b t a f) unique ∙ elim (Bool-cases (t == k)) [
      | inl hit ↦
          let same : t ≡ k = eq_of_beq t k hit in
          let gone : lookup k d ≡ none = ap (λ z. lookup z d) (sym same) ∙ new in
          let own : bars_at k (flush_bar b t a f) ≡ closed b.max_history (some a) (bars_at k f) =
            subst (λ z. bars_at z (flush_bar b t a f) ≡ closed b.max_history (some a) (bars_at z f))
              same (flush_bar-own b t a f) in
          ap (λ o. closed b.max_history o (bars_at k (flush_bar b t a f))) gone ∙ own ∙ rw hit refl
      | inr miss ↦
          ap (closed b.max_history (lookup k d)) (flush_bar-other b t k a f miss) ∙ rw miss refl
    ]

end_flush-current :
    (now : ℕ) (d : Dict String BarAccumulator) (b : BarBuilder) (f : Flush)
    → b.current ≡ d
    → (end_flush now d b f).0.current ≡ []
unfolding end_flush
end_flush-current now [] b f e = e
end_flush-current now (x ∷ d) b f e = refl

pub flush_minute-current : (now : ℕ) (b : BarBuilder) → (flush_minute now b).0.current ≡ []
unfolding flush_minute
flush_minute-current now b =
    end_flush-current now b.current b (flush_bars b b.current (no_flush b)) refl

end_flush-max_history :
    (now : ℕ) (d : Dict String BarAccumulator) (b : BarBuilder) (f : Flush)
    → (end_flush now d b f).0.max_history ≡ b.max_history
unfolding end_flush
end_flush-max_history now [] b f = refl
end_flush-max_history now (x ∷ d) b f = refl

pub flush_minute-max_history :
    (now : ℕ) (b : BarBuilder) → (flush_minute now b).0.max_history ≡ b.max_history
unfolding flush_minute
flush_minute-max_history now b =
    end_flush-max_history now b.current b (flush_bars b b.current (no_flush b))

end_flush-history :
    (now : ℕ) (d : Dict String BarAccumulator) (b : BarBuilder)
    → (end_flush now d b (flush_bars b d (no_flush b))).0.history
      ≡ (flush_bars b d (no_flush b)).history
unfolding end_flush flush_bars
end_flush-history now [] b = refl
end_flush-history now (x ∷ d) b = refl

pub flush_minute-bars :
    (now : ℕ) (k : String) (b : BarBuilder)
    → IsUnique b.current
    → get_bars k ((flush_minute now b).0) ≡ closed b.max_history (lookup k b.current) (get_bars k b)
unfolding flush_minute
flush_minute-bars now k b unique =
    ap (λ h. get_or_else (lookup k h) []) (end_flush-history now b.current b)
    ∙ flush_bars-closed b k b.current (no_flush b) unique
