-- ===== src/Risk/Sizing.antt =====
-- Quotes and sizes: `_get_spread` of monitor/risk_engine.py and `adjust_size` of
-- monitor/risk_sizing.py. Prices are in the units of the fill lots. A spread is a fraction, as a pair of
-- numerator and denominator; a beta is a number of hundredths without its sign.
use trading_hub.Base.{
  ℕ, ◌+◌, ◌-◌, ◌*◌, ◌/◌, min, Bool, ◌&&◌, Option, none, some, ltb, leb, eqb, if◌then◌else◌, nat_eq,
  string_eq, pair_eq,
}

pub record Quote : Type 0 where
  pub spread : ℕ × ℕ
  pub ask : ℕ

-- The stream gives bid and ask. A bid above the ask makes a spread below zero, which passes as zero.
abbrev pub stream_quote : Option (ℕ × ℕ) → Option Quote
stream_quote none = none
stream_quote (some (bid, ask)) =
    if ltb 0 ask && ltb 0 bid
    then some (record { spread = ((ask - bid) * 2, ask + bid); ask = ask })
    else none

-- More than half a percent away from the ask of the signal.
abbrev pub is_far : ℕ → ℕ → Bool
is_far ask signal_ask =
    ltb 0 signal_ask && ltb (signal_ask * 5) (((ask - signal_ask) + (signal_ask - ask)) * 1000)

abbrev pub checked_quote : ℕ → Quote → Option Quote
checked_quote signal_ask q =
    if eqb q.ask 0 then none else if is_far q.ask signal_ask then none else some q

-- The stream first, then the REST call, which may fail or return nothing.
unfoldable pub get_spread : ℕ → Option (ℕ × ℕ) → Option Quote → Option Quote
get_spread signal_ask stream rest = elim (stream_quote stream) [
  | some q ↦ checked_quote signal_ask q
  | none ↦ elim rest [ none ↦ none | some q ↦ checked_quote signal_ask q ]
]

abbrev pub max : ℕ → ℕ → ℕ
max a b = if leb a b then b else a

-- The quantity for the beta, that for the ATR, and that of the budget; at least one share.
unfoldable pub adjust_size : ℕ → ℕ → ℕ → ℕ → ℕ → ℕ → ℕ
adjust_size beta target_risk base_qty price atr trade_budget =
    let beta_qty = max 1 (base_qty * 100 / max beta 30) in
    let vol_qty = if ltb 0 atr && ltb 0 price then max 1 (target_risk / (atr * 2)) else base_qty in
    let max_by_budget = if ltb 0 price then trade_budget / price else base_qty in
    max 1 (min (min beta_qty vol_qty) max_by_budget)
