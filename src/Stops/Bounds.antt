-- ===== src/Stops/Bounds.antt =====
-- How far a stop of monitor/smart_stop.py stands from the entry.
use trading_hub.Base.{
  ℕ, ◌*◌, ◌≤◌, String, arith, nat_eq, string_eq, pair_eq, ◌<◌, ◌≡◌, Bool, true, false, Option, none,
  List, eqb, refl, if◌then◌else◌,
}
use trading_hub.Stops.Buffer.{
  volatility_scalar, time_scalar, clamp_buffer, max_risk_atr, RecentBar, recent_range,
  compute_stop_buffer, should_reject_wide_stop,
}

volatility-bounds :
    (r atr : ℕ) → (30 * atr ≤ volatility_scalar r atr) × (volatility_scalar r atr ≤ 80 * atr)
unfolding volatility_scalar
volatility-bounds r atr = ground arith

scaled-bound : (x h m : ℕ) → x * time_scalar h m ≤ 15 * x
unfolding time_scalar
scaled-bound x h m = ground arith

scaled_mono : (x y h m : ℕ) → x ≤ y → x * time_scalar h m ≤ y * time_scalar h m
unfolding time_scalar
scaled_mono x y h m le = ground (arith, le)

volatility_mono : (r r' atr : ℕ) → r ≤ r' → volatility_scalar r atr ≤ volatility_scalar r' atr
unfolding volatility_scalar
volatility_mono r r' atr le = ground (arith, le)

clamp-bounds :
    (atr x : ℕ)
    → x ≤ 1200 * atr
    → (250 * atr ≤ clamp_buffer atr x) × (clamp_buffer atr x ≤ 1200 * atr)
unfolding clamp_buffer
clamp-bounds atr x le = ground (arith, le)

clamp_mono : (atr x y : ℕ) → x ≤ y → clamp_buffer atr x ≤ clamp_buffer atr y
unfolding clamp_buffer
clamp_mono atr x y le = ground (arith, le)

max_risk_atr-least : (atr : ℕ) (name : String) → 1500 * atr ≤ atr * max_risk_atr name * 100
unfolding max_risk_atr
max_risk_atr-least atr name = ground arith

either-holds :
    (b : Bool) (P : ℕ → Type 0) (x y : ℕ) → (b ≡ true → P x) → P y → P (if b then x else y)
either-holds true P x y px py = px refl
either-holds false P x y px py = py

either_mono :
    (b : Bool) (x x' y y' : ℕ) → x ≤ x' → y ≤ y' → (if b then x else y) ≤ (if b then x' else y')
either_mono true x x' y y' le le' = le
either_mono false x x' y y' le le' = le'

recent_range-ticks : (atr range : ℕ) → 0 < range → recent_range atr none range ≡ range
unfolding recent_range
recent_range-ticks atr range some_range = ground (arith, some_range)

-- The buffer is at least 0.25 and at most 1.2 times the average true range, whatever the bars, the range
-- of the ticks and the time of day: the clamp to 1.5 times is never reached.
pub compute_stop_buffer-bounds :
    (atr : ℕ) (df : Option (List RecentBar)) (tick_range hour minute : ℕ)
    → (250 * atr ≤ compute_stop_buffer atr df tick_range hour minute)
      × (compute_stop_buffer atr df tick_range hour minute ≤ 1200 * atr)
unfolding compute_stop_buffer
compute_stop_buffer-bounds atr df tick_range hour minute =
    let r = recent_range atr df tick_range in
    let x = volatility_scalar r atr in
    let below : x * time_scalar hour minute ≤ 1200 * atr =
      omega (arith, scaled-bound x hour minute, volatility-bounds r atr) in
    either-holds (eqb atr 0) (λ b. (250 * atr ≤ b) × (b ≤ 1200 * atr)) 0
      (clamp_buffer atr (x * time_scalar hour minute)) (λ e. ground (arith, e))
      (clamp-bounds atr (x * time_scalar hour minute) below)

-- At one time of day, a wider range of the ticks never gives a smaller buffer, where both ranges are
-- above 0.
pub compute_stop_buffer_mono :
    (atr range range' hour minute : ℕ)
    → 0 < range
    → range ≤ range'
    → compute_stop_buffer atr none range hour minute
      ≤ compute_stop_buffer atr none range' hour minute
unfolding compute_stop_buffer
compute_stop_buffer_mono atr range range' hour minute some_range le =
    let r = recent_range atr none range in
    let r' = recent_range atr none range' in
    let wider : r ≤ r' = omega (
      arith,
      le,
      recent_range-ticks atr range some_range,
      recent_range-ticks atr range' (omega (arith, some_range, le)),
    ) in
    let x = volatility_scalar r atr in
    let y = volatility_scalar r' atr in
    either_mono (eqb atr 0) 0 0 (clamp_buffer atr (x * time_scalar hour minute))
      (clamp_buffer atr (y * time_scalar hour minute)) (omega arith)
      (clamp_mono atr (x * time_scalar hour minute) (y * time_scalar hour minute)
        (scaled_mono x y hour minute (volatility_mono r r' atr wider)))

-- A stop at the buffer is never rejected as too wide, for any strategy.
pub compute_stop_buffer-accepted :
    (atr : ℕ) (df : Option (List RecentBar)) (tick_range hour minute : ℕ) (name : String)
    → should_reject_wide_stop (compute_stop_buffer atr df tick_range hour minute) atr name ≡ false
unfolding should_reject_wide_stop
compute_stop_buffer-accepted atr df tick_range hour minute name =
    let bounds = compute_stop_buffer-bounds atr df tick_range hour minute in
    ground (arith, bounds, max_risk_atr-least atr name)
