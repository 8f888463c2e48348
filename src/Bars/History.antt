-- ===== src/Bars/History.antt =====
-- The bars of one ticker after any calls of monitor/bar_builder.py, against the minutes of its own trades.
use trading_hub.Bars.Last.{last_bars, push_bar-last, last_bars-nil}
use trading_hub.Registry.Gate.{add}
use trading_hub.Base.{
  ℕ, ◌+◌, ◌/◌, String, ◌≡◌, refl, sym, ap, ◌∙◌, inl, inr, Bool, true, false, ◌||◌, Option, none,
  some, List, [], ◌∷◌, arith, ltb, eqb, if◌then◌else◌, Bool-cases, get_or_else, ◌==◌, nat_eq,
  string_eq, pair_eq, ap₂, subst, eq_of_beq, ◌++◌,
}
use trading_hub.Base.Dict.{lookup, insert, lookup-insert, IsUnique, insert-IsUnique}
use trading_hub.Bars.Tick.{Tick, BarAccumulator, Bar, new_accumulator, add_tick}
use trading_hub.Bars.Reference.{add_ticks, bar_of, ticks-bar, ticks-is_valid}
use trading_hub.Bars.Builder.{
  BarBuilder, new_builder, flush_minute, check_minute, put_tick, on_trade, get_bars,
  get_current_bar,
}
use trading_hub.Bars.Flush.{
  flush_minute-bars, flush_minute-current, flush_minute-max_history, closed,
}

pub data Happening : Type 0 where
  trade : ℕ → String → Tick → Happening
  clock : ℕ → Happening

unfoldable pub perform : Happening → BarBuilder → BarBuilder
unfolding on_trade
perform (trade now ticker t) b = (on_trade now ticker t b).0
perform (clock now) b = (check_minute now b).0

unfoldable pub run : List Happening → BarBuilder → BarBuilder
run [] b = b
run (h ∷ hs) b = run hs (perform h b)

-- The trades of a ticker in the running minute, the last one first, and its bars before.
pub record View : Type 0 where
  pub minute : ℕ
  pub ticks : List Tick
  pub bars : List Bar

abbrev pub new_view : View
new_view = record { minute = 0; ticks = []; bars = [] }

-- The bar that a list of trades, the last one first, has so far.
abbrev pub bar_so_far : List Tick → Option Bar
bar_so_far [] = none
bar_so_far (t ∷ ts) = some (bar_of t ts)

module _ (m : ℕ) (k : String) where
  -- All bars, none of them cut.
  abbrev pub end_minute : List Tick → List Bar → List Bar
  end_minute [] h = h
  end_minute (t ∷ ts) h = h ++ (bar_of t ts ∷ [])

  abbrev pub turn : ℕ → View → View
  turn now v =
      if ltb v.minute (now / 60)
      then record { minute = now / 60; ticks = []; bars = end_minute v.ticks v.bars }
      else v

  abbrev pub note_tick : String → Tick → View → View
  note_tick s t v = if s == k then record v { ticks = t ∷ v.ticks } else v

  unfoldable pub observe : Happening → View → View
  observe (clock now) v = turn now v
  observe (trade now s t) v =
      let time = if eqb t.time 0 then now else t.time in
      if eqb t.price 0 || eqb t.size 0
      then v
      else note_tick s (record t { time = time }) (turn now v)

  unfoldable pub observe_all : List Happening → View → View
  observe_all [] v = v
  observe_all (h ∷ hs) v = observe_all hs (observe h v)

  abbrev Held : Option BarAccumulator → List Tick → Type 0
  Held o [] = o ≡ none
  Held o (t ∷ ts) = (o ≡ some (add_ticks (t ∷ ts))) × (ltb 0 t.price ≡ true)

  abbrev Matches : BarBuilder → View → Type 0
  Matches b v =
      (b.current_minute ≡ v.minute)
      × (get_bars k b ≡ last_bars m v.bars)
      × Held (lookup k b.current) v.ticks
      × IsUnique b.current
      × (b.max_history ≡ m)

  end_minute-Held :
      (o : Option BarAccumulator) (ts : List Tick) (h : List Bar)
      → Held o ts
      → closed m o (last_bars m h) ≡ last_bars m (end_minute ts h)
  unfolding closed
  end_minute-Held o [] h held = rw held refl
  end_minute-Held o (t ∷ ts) h (held, priced) =
      rw (held, ticks-is_valid t ts priced, ticks-bar t ts) (push_bar-last m (bar_of t ts) h)

  flush_minute-Matches :
      (now minute : ℕ) (b : BarBuilder) (v : View)
      → Matches b v
      → Matches
          (record ((flush_minute now b).0) { current_minute = minute })
          (record { minute = minute; ticks = []; bars = end_minute v.ticks v.bars })
  flush_minute-Matches now minute b v (same, bars, held, unique, max) = (
    refl,
    flush_minute-bars now k b unique
        ∙ ap₂ (λ n h. closed n (lookup k b.current) h) max bars
        ∙ end_minute-Held (lookup k b.current) v.ticks v.bars held,
    ap (lookup k) (flush_minute-current now b),
    subst IsUnique (sym (flush_minute-current now b)) tt,
    flush_minute-max_history now b ∙ max,
  )

  check_minute-Matches :
      (now : ℕ) (b : BarBuilder) (v : View)
      → Matches b v
      → Matches ((check_minute now b).0) (turn now v)
  unfolding check_minute
  check_minute-Matches now b v h = elim (Bool-cases (ltb v.minute (now / 60))) [
    | inl e ↦
        let e' : ltb b.current_minute (now / 60) ≡ true = ap (λ n. ltb n (now / 60)) h.0 ∙ e in
        rw (e, e') (flush_minute-Matches now (now / 60) b v h)
    | inr e ↦
        let e' : ltb b.current_minute (now / 60) ≡ false = ap (λ n. ltb n (now / 60)) h.0 ∙ e in
        rw (e, e') h
  ]

  add_tick-Held :
      (o : Option BarAccumulator) (ts : List Tick) (t : Tick)
      → ltb 0 t.price ≡ true
      → Held o ts
      → Held (some (add_tick t (get_or_else o new_accumulator))) (t ∷ ts)
  unfolding add_ticks
  add_tick-Held o [] t priced held = rw held (refl, priced)
  add_tick-Held o (s ∷ ts) t priced (held, more) =
      (ap (λ x. some (add_tick t (get_or_else x new_accumulator))) held, priced)

  put_tick-Matches :
      (s : String) (t : Tick) (b : BarBuilder) (v : View)
      → ltb 0 t.price ≡ true
      → Matches b v
      → Matches (put_tick s t b) (note_tick s t v)
  put_tick-Matches s t b v priced (same, bars, held, unique, max) = elim (Bool-cases (s == k)) [
    | inl hit ↦
        let a = add_tick t (get_or_else (lookup s b.current) new_accumulator) in
        let name : s ≡ k = eq_of_beq s k hit in
        let put : lookup k (insert s a b.current)
            ≡ some (add_tick t (get_or_else (lookup k b.current) new_accumulator)) =
          lookup-insert s k a b.current
          ∙ rw hit (
              ap (λ z. some (add_tick t (get_or_else (lookup z b.current) new_accumulator)))
                name) in
        rw hit (
          same,
          bars,
          subst (λ o. Held o (t ∷ v.ticks)) (sym put)
              (add_tick-Held (lookup k b.current) v.ticks t priced held),
          insert-IsUnique s a b.current unique,
          max,
        )
    | inr miss ↦
        let a = add_tick t (get_or_else (lookup s b.current) new_accumulator) in
        let put : lookup k (insert s a b.current) ≡ lookup k b.current =
          lookup-insert s k a b.current ∙ rw miss refl in
        rw miss (
          same,
          bars,
          subst (λ o. Held o v.ticks) (sym put) held,
          insert-IsUnique s a b.current unique,
          max,
        )
  ]

  abbrev timed : ℕ → Tick → Tick
  timed now t = record t { time = if eqb t.time 0 then now else t.time }

  abbrev received : String → BarBuilder → BarBuilder
  received s b = record b {
    ticks_received = b.ticks_received + 1;
    tickers_active = add s b.tickers_active;
  }

  on_trade-taken :
      (now : ℕ) (s : String) (t : Tick) (b : BarBuilder)
      → (on_trade now s t b).0 ≡ (
          if eqb t.price 0 || eqb t.size 0
          then b
          else put_tick s (timed now t) ((check_minute now (received s b)).0))
  unfolding on_trade
  on_trade-taken now s t b = elim (Bool-cases (eqb t.price 0 || eqb t.size 0)) [
    | inl e ↦ simp (e)
    | inr e ↦ simp (e)
  ]

  observe-Matches :
      (h : Happening) (b : BarBuilder) (v : View)
      → Matches b v
      → Matches (perform h b) (observe h v)
  unfolding perform observe
  observe-Matches (clock now) b v h = check_minute-Matches now b v h
  observe-Matches (trade now s t) b v h =
      subst (λ x. Matches x (observe (trade now s t) v)) (sym (on_trade-taken now s t b))
        (elim (Bool-cases (eqb t.price 0 || eqb t.size 0)) [
          | inl bad ↦ rw bad h
          | inr good ↦
              let priced : ltb 0 t.price ≡ true = ground (arith, good) in
              let turned = check_minute-Matches now (received s b) v h in
              rw good (
                put_tick-Matches s (timed now t) ((check_minute now (received s b)).0) (turn now v)
                  priced turned)
        ])

  observe_all-Matches :
      (hs : List Happening) (b : BarBuilder) (v : View)
      → Matches b v
      → Matches (run hs b) (observe_all hs v)
  unfolding run observe_all
  observe_all-Matches [] b v h = h
  observe_all-Matches (x ∷ hs) b v h =
      observe_all-Matches hs (perform x b) (observe x v) (observe-Matches x b v h)

  current_bar-Held :
      (b : BarBuilder) (ts : List Tick)
      → Held (lookup k b.current) ts
      → get_current_bar k b ≡ bar_so_far ts
  current_bar-Held b [] held = rw (get_current_bar, held) refl
  current_bar-Held b (t ∷ ts) (held, priced) =
      rw (get_current_bar, held, ticks-is_valid t ts priced, ticks-bar t ts) refl

  -- After any trades of any tickers and any checks of the clock, whatever the order of their times, the
  -- bars of a ticker are the last `max_history` ones (all of them, if that is zero) of the bars of its
  -- minutes, where the bar of a minute is that of the list of the ticker's own trades in it with a price
  -- and a size, and its running bar is that of the trades of the running minute.
  pub run-bars :
      (hs : List Happening) (has_bus emit_bars : Bool)
      → (get_bars k (run hs (new_builder m has_bus emit_bars))
          ≡ last_bars m (observe_all hs new_view).bars)
        × (get_current_bar k (run hs (new_builder m has_bus emit_bars))
            ≡ bar_so_far (observe_all hs new_view).ticks)
  run-bars hs has_bus emit_bars =
      let h =
        observe_all-Matches hs (new_builder m has_bus emit_bars) new_view
          (refl, last_bars-nil m, refl, tt, refl) in
      (
        h.1,
        current_bar-Held (run hs (new_builder m has_bus emit_bars)) (observe_all hs new_view).ticks
            h.2,
      )
