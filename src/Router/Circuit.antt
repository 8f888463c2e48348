-- ===== src/Router/Circuit.antt =====
-- The circuit breaker of a broker over any history.
use trading_hub.Base.{
  ℕ, ◌+◌, ◌≡◌, refl, true, ◌&&◌, List, [], ◌∷◌, arith, ltb, leb, if◌then◌else◌, nat_eq, string_eq,
  pair_eq,
}
use trading_hub.Router.Health.{
  BrokerHealth, max_failures, cooldown_seconds, fail_health, fill_health, ask_health,
}

-- What happens to a broker: a failure, a fill, or a question whether it is healthy, each at its time.
pub data Happening : Type 0 where
  failed fine asked : ℕ → Happening

abbrev pub happen : Happening → BrokerHealth → BrokerHealth
happen (failed now) h = fail_health now h
happen (fine now) h = fill_health h
happen (asked now) h = (ask_health now h).1

abbrev pub run : List Happening → BrokerHealth → BrokerHealth
run [] h = h
run (x ∷ xs) h = run xs (happen x h)

-- The failures in a row, where there were `n` before, the latest at the time `last`. A fill ends the
-- streak, and so does a question after the cooldown, if the streak has reached the limit.
abbrev pub failure_streak : ℕ → ℕ → List Happening → ℕ
failure_streak n last [] = n
failure_streak n last (failed now ∷ xs) = failure_streak (n + 1) now xs
failure_streak n last (fine now ∷ xs) = failure_streak 0 last xs
failure_streak n last (asked now ∷ xs) =
    let over = leb max_failures n && ltb (last + cooldown_seconds) now in
    failure_streak (if over then 0 else n) last xs

abbrev Tracks : ℕ → ℕ → BrokerHealth → Type 0
Tracks n last h =
    (h.consecutive_failures ≡ n) × (h.available ≡ ltb n max_failures) × (h.last_failure_time ≡ last)

run-Tracks :
    (xs : List Happening) (n last : ℕ) (h : BrokerHealth)
    → Tracks n last h
    → (run xs h).available ≡ ltb (failure_streak n last xs) max_failures
unfolding fail_health fill_health ask_health
run-Tracks [] n last h t = t.1
run-Tracks (failed now ∷ xs) n last h t =
    run-Tracks xs (n + 1) now (fail_health now h) (ground (arith, t))
run-Tracks (fine now ∷ xs) n last h t = run-Tracks xs 0 last (fill_health h) (ground (arith, t))
run-Tracks (asked now ∷ xs) n last h t =
    let over = leb max_failures n && ltb (last + cooldown_seconds) now in
    run-Tracks xs (if over then 0 else n) last (ask_health now h).1 (ground (arith, t))

-- A broker that starts healthy, with no failure counted, is available exactly as long as fewer than
-- three failures stand in a row, over any failures, fills and questions at any times, where a streak
-- of three or more ends at the first question after the cooldown.
pub run-available :
    (xs : List Happening) (h : BrokerHealth)
    → h.consecutive_failures ≡ 0
    → h.available ≡ true
    → (run xs h).available ≡ ltb (failure_streak 0 h.last_failure_time xs) max_failures
run-available xs h none_yet up =
    run-Tracks xs 0 h.last_failure_time h (none_yet, ground (arith, up), refl)
