-- ===== src/Stream/Tests.antt =====
-- A run of the stream monitor over two streams.
use trading_hub.Base.{
  ℕ, ◌+◌, String, ◌≡◌, refl, some, List, [], ◌∷◌, arith, nat_eq, string_eq, pair_eq,
}
use trading_hub.Base.Dict.{lookup}
use trading_hub.Stream.Monitor.{
  Event, StreamMonitor, out_of_order, check, run, missed, arrived, Rises, run-missed, warning_for,
  check_seq,
}

abbrev bar_of : String → ℕ → Event
bar_of ticker seq = record { key = ("BAR", ticker); stream_seq = some seq }

abbrev started : StreamMonitor
started = record { gap_count = 0; ooo_count = 0; last = (("BAR", "AAPL"), 4) ∷ [] }

abbrev events : List Event
events = bar_of "AAPL" 5 ∷ bar_of "MSFT" 1 ∷ bar_of "AAPL" 8 ∷ bar_of "MSFT" 2 ∷ []

gap_of_two : missed ("BAR", "AAPL") events started ≡ 2
unfolding check check_seq warning_for
gap_of_two = refl

went_back : (check (bar_of "AAPL" 3) started).0 ≡ some out_of_order
unfolding check check_seq warning_for
went_back = refl

events-Rises : Rises ("BAR", "AAPL") 4 events
events-Rises = (omega arith, (omega arith, tt))

run-missed_example :
    lookup ("BAR", "AAPL") (run events started).last
    ≡ some (4 + missed ("BAR", "AAPL") events started + arrived ("BAR", "AAPL") events)
run-missed_example = run-missed ("BAR", "AAPL") events 4 started refl events-Rises
