-- ===== src/Stops/Buffer.antt =====
-- The functions of monitor/smart_stop.py. The average true range and the prices are in one unit of price; a
-- stop distance is in thousandths of it, so that every product of the scalars is exact: those of the
-- volatility are in hundredths and those of the time of day in tenths. An average that is not above 0 is a
-- 0. The clock is an argument, and the number of recent bars is the default, which every caller takes.
use trading_hub.Base.{
  ℕ, ◌+◌, ◌-◌, ◌*◌, min, String, Bool, false, ◌&&◌, ◌||◌, Option, none, some, List, [], ◌∷◌, ltb,
  leb, eqb, if◌then◌else◌, length, ◌==◌, nat_eq, string_eq, pair_eq,
}
use trading_hub.Ledger.Ops.{drop_first}
use trading_hub.Bars.Tick.{larger}

pub record RecentBar : Type 0 where
  pub high : ℕ
  pub low : ℕ

-- `_volatility_scalar` times `atr`. Between the two thresholds the scalar is 0.3 + (ratio - 0.5) * 0.5, which
-- times `atr` is 0.05 * atr + 0.5 * recent_range.
unfoldable pub volatility_scalar : ℕ → ℕ → ℕ
volatility_scalar recent_range atr =
    if eqb atr 0
    then 50 * atr
    else if ltb (2 * recent_range) atr
    then 30 * atr
    else if ltb (3 * atr) (2 * recent_range)
    then 80 * atr
    else 5 * atr + 50 * recent_range

-- The first entry of the table that holds the hour and the minute. All but the first hold the whole hour.
unfoldable pub time_scalar : ℕ → ℕ → ℕ
time_scalar hour minute =
    if eqb hour 9 && leb 30 minute && leb minute 59
    then 15
    else if eqb hour 10 && leb minute 59
    then 12
    else if (eqb hour 11 || eqb hour 12 || eqb hour 13) && leb minute 59
    then 8
    else if eqb hour 14 && leb minute 59
    then 10
    else if eqb hour 15 && leb minute 59
    then 13
    else 10

abbrev pub max_high : List RecentBar → ℕ
max_high [] = 0
max_high (b ∷ bs) = larger b.high (max_high bs)

abbrev pub min_low : ℕ → List RecentBar → ℕ
min_low low [] = low
min_low low (b ∷ bs) = min_low (min low b.low) bs

-- A range below 0, of bars whose lows are above their highs, is calm as a range of 0 is.
abbrev pub range_of : List RecentBar → ℕ
range_of [] = 0
range_of (b ∷ bs) = max_high (b ∷ bs) - min_low b.low bs

-- `df` is `none` where it is missing.
unfoldable pub recent_range : ℕ → Option (List RecentBar) → ℕ → ℕ
recent_range atr df tick_range =
    let fallback = if ltb 0 tick_range then tick_range else atr in
    elim df [
      | none ↦ fallback
      | some bars ↦
          if leb 2 (length bars) then range_of (drop_first (length bars - 10) bars) else fallback
    ]

-- The clamps of the buffer to 0.25 and 1.5 times `atr`.
unfoldable pub clamp_buffer : ℕ → ℕ → ℕ
clamp_buffer atr buffer = min (larger buffer (250 * atr)) (1500 * atr)

unfoldable pub compute_stop_buffer : ℕ → Option (List RecentBar) → ℕ → ℕ → ℕ → ℕ
unfolding recent_range volatility_scalar time_scalar clamp_buffer
compute_stop_buffer atr df tick_range hour minute =
    if eqb atr 0
    then 0
    else clamp_buffer atr
        (volatility_scalar (recent_range atr df tick_range) atr * time_scalar hour minute)

-- `_STRATEGY_MAX_RISK_ATR`, in tenths, with its default.
unfoldable pub max_risk_atr : String → ℕ
max_risk_atr name =
    if name == "gap_and_go"
    then 40
    else if (name == "trend_pullback") || (name == "orb")
    then 30
    else if (name == "flag_pennant") || (name == "inside_bar") || (name == "breakout")
    then 25
    else if name == "mean_reversion"
    then 15
    else 20

unfoldable pub should_reject_wide_stop : ℕ → ℕ → String → Bool
unfolding max_risk_atr
should_reject_wide_stop stop_distance atr name =
    if eqb atr 0 then false else ltb (atr * max_risk_atr name * 100) stop_distance
