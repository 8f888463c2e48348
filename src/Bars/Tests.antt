-- ===== src/Bars/Tests.antt =====
-- Runs of the bar builder.
use trading_hub.Registry.Gate.{has}
use trading_hub.Base.{ℕ, ◌≡◌, refl, true, some, List, [], ◌∷◌, arith, nat_eq, string_eq, pair_eq}
use trading_hub.Bars.Tick.{Tick, Bar, BarAccumulator, new_accumulator, add_tick}
use trading_hub.Bars.Builder.{
  new_builder, get_bars, get_current_bar, BarBuilder, flush_minute, covers_ticker,
}
use trading_hub.Bars.History.{
  Happening, trade, clock, run, observe_all, new_view, bar_so_far, run-bars, perform,
}
use trading_hub.Bars.Last.{last_bars}
use trading_hub.Bars.Covers.{flush_minute-covers}

abbrev tick : ℕ → ℕ → Tick
tick price size = record { price = price; size = size; time = 0 }

-- Two minutes of trades of two tickers, and the start of a third minute.
abbrev two_minutes : List Happening
two_minutes =
    trade 61 "AAPL" (tick 500 10)
    ∷ trade 70 "MSFT" (tick 40 1)
    ∷ trade 75 "AAPL" (tick 520 5)
    ∷ trade 80 "AAPL" (tick 0 5)
    ∷ trade 90 "AAPL" (tick 490 1)
    ∷ clock 119
    ∷ trade 125 "MSFT" (tick 41 2)
    ∷ trade 130 "AAPL" (tick 495 2)
    ∷ clock 180
    ∷ trade 185 "AAPL" (tick 498 3)
    ∷ []

abbrev flat : ℕ → ℕ → Bar
flat price size = record {
  first_price = price;
  high = price;
  low = price;
  close = price;
  volume = size;
}

minutes_of_two :
    get_bars "AAPL" (run two_minutes (new_builder 200 true true))
    ≡ record { first_price = 500; high = 520; low = 490; close = 490; volume = 16 }
      ∷ flat 495 2
      ∷ []
unfolding run perform
minutes_of_two = refl

running_bar :
    get_current_bar "AAPL" (run two_minutes (new_builder 200 true true)) ≡ some (flat 498 3)
unfolding run perform
running_bar = refl

last_only : get_bars "AAPL" (run two_minutes (new_builder 1 true true)) ≡ flat 495 2 ∷ []
unfolding run perform
last_only = refl

run-bars_example :
    (get_bars "AAPL" (run two_minutes (new_builder 200 true true))
      ≡ last_bars 200 (observe_all 200 "AAPL" two_minutes new_view).bars)
    × (get_current_bar "AAPL" (run two_minutes (new_builder 200 true true))
        ≡ bar_so_far (observe_all 200 "AAPL" two_minutes new_view).ticks)
run-bars_example = run-bars 200 "AAPL" two_minutes true true

abbrev aapl : BarAccumulator
aapl = add_tick (tick 510 4) new_accumulator

-- A builder that has seen one bar of a seeded ticker, with trades in the running minute.
abbrev seeded_builder : BarBuilder
seeded_builder = record (new_builder 200 true true) {
  seeded_tickers = "AAPL" ∷ [];
  history = ("AAPL", flat 500 1 ∷ []) ∷ [];
  current = ("AAPL", aapl) ∷ [];
}

flush_minute-covers_example :
    has "AAPL" ((flush_minute 180 seeded_builder).1)
    ≡ covers_ticker "AAPL" ((flush_minute 180 seeded_builder).0)
flush_minute-covers_example =
    flush_minute-covers seeded_builder "AAPL" refl refl (omega arith) 180 ("AAPL", aapl) [] refl
      (omega arith)

emits_covered : (flush_minute 180 seeded_builder).1 ≡ "AAPL" ∷ []
unfolding flush_minute
emits_covered = refl
