-- ===== src/Options/RiskGate.antt =====
-- `class OptionsRiskGate` of options/risk.py. Money is a number of cents and the clock a number of
-- seconds. A risk is never negative; a cost may be, for a credit.
use trading_hub.Base.{
  ℕ, ◌+◌, ◌-◌, String, Bool, true, false, not, ◌&&◌, ◌||◌, Option, none, some, List, [], ◌∷◌, ◌++◌,
  ltb, leb, if◌then◌else◌, get_or_else, length, ◌==◌, nat_eq, string_eq, pair_eq,
}
use trading_hub.Base.Dict.{Dict, lookup, contains, insert, erase}
use trading_hub.Base.Int.{ℤ, pos_part}

-- Why an entry is refused.
pub data Rejection : Type 0 where
  already_open execution_pending loss_blocked loss_lockout max_positions_reached : Rejection
  daily_limit cooldown over_trade_budget over_capital : Rejection

pub record OptionsRiskGate : Type 0 where
  pub max_positions : ℕ
  pub trade_budget : ℕ
  pub total_budget : ℕ
  pub order_cooldown : ℕ
  pub max_daily_trades : ℕ
  pub open_positions : Dict String ℕ
  pub last_order : Dict String ℕ
  pub deployed_capital : ℕ
  pub daily_trade_count : ℕ
  pub pending_tickers : List String
  pub loss_lockout_until : Dict String ℕ
  pub loss_count : Dict String ℕ

abbrev pub loss_lockout_seconds : ℕ
loss_lockout_seconds = 3600

abbrev pub max_consecutive_losses : ℕ
max_consecutive_losses = 2

abbrev pub has : String → List String → Bool
has k [] = false
has k (j ∷ ks) = j == k || has k ks

abbrev pub discard : String → List String → List String
discard k [] = []
discard k (j ∷ ks) = let rest = discard k ks in if j == k then rest else j ∷ rest

abbrev pub count_of : String → Dict String ℕ → ℕ
count_of k d = get_or_else (lookup k d) 0

-- The checks on the books: capacity, pace and money.
unfoldable pub check_limits : ℕ → String → ℕ → OptionsRiskGate → Option Rejection
check_limits now ticker max_risk g =
    if leb g.max_positions (length g.open_positions)
    then some max_positions_reached
    else if leb g.max_daily_trades g.daily_trade_count
    then some daily_limit
    else if ltb now (count_of ticker g.last_order + g.order_cooldown)
    then some cooldown
    else if ltb g.trade_budget max_risk
    then some over_trade_budget
    else if ltb g.total_budget (max_risk + g.deployed_capital)
    then some over_capital
    else none

-- `check`: nothing is changed, and no answer means that the entry may go ahead.
unfoldable pub check : ℕ → String → ℕ → Bool → OptionsRiskGate → Option Rejection
check now ticker max_risk skip_pending g =
    if contains ticker g.open_positions
    then some already_open
    else if not skip_pending && has ticker g.pending_tickers
    then some execution_pending
    else if leb max_consecutive_losses (count_of ticker g.loss_count)
    then some loss_blocked
    else if ltb now (count_of ticker g.loss_lockout_until)
    then some loss_lockout
    else check_limits now ticker max_risk g

unfoldable pub reserve : String → OptionsRiskGate → Bool × OptionsRiskGate
reserve ticker g =
    if has ticker g.pending_tickers || contains ticker g.open_positions
    then (false, g)
    else if leb g.max_positions (length g.open_positions + length g.pending_tickers)
    then (false, g)
    else if leb g.max_daily_trades g.daily_trade_count
    then (false, g)
    else (true, record g { pending_tickers = g.pending_tickers ++ (ticker ∷ []) })

unfoldable pub unreserve : String → OptionsRiskGate → OptionsRiskGate
unreserve ticker g = record g { pending_tickers = discard ticker g.pending_tickers }

-- The risk if it is positive, else what was paid.
abbrev pub risk_amount : ℤ → ℕ → ℕ
risk_amount cost max_risk = if ltb 0 max_risk then max_risk else pos_part cost

unfoldable pub acquire : ℕ → String → ℤ → ℕ → OptionsRiskGate → OptionsRiskGate
acquire now ticker cost max_risk g =
    let risk = risk_amount cost max_risk in
    record g {
      open_positions = insert ticker risk g.open_positions;
      last_order = insert ticker now g.last_order;
      deployed_capital = g.deployed_capital + risk;
      daily_trade_count = g.daily_trade_count + 1;
      pending_tickers = discard ticker g.pending_tickers;
    }

-- `max(deployed - risk, 0.0)`: subtraction on ℕ stops at 0.
unfoldable pub release : String → OptionsRiskGate → OptionsRiskGate
release ticker g = record g {
  open_positions = erase ticker g.open_positions;
  deployed_capital = g.deployed_capital - count_of ticker g.open_positions;
}

unfoldable pub record_loss : ℕ → String → OptionsRiskGate → OptionsRiskGate
record_loss now ticker g = record g {
  loss_count = insert ticker (count_of ticker g.loss_count + 1) g.loss_count;
  loss_lockout_until = insert ticker (now + loss_lockout_seconds) g.loss_lockout_until;
}

unfoldable pub record_win : String → OptionsRiskGate → OptionsRiskGate
record_win ticker g = record g {
  loss_count = erase ticker g.loss_count;
  loss_lockout_until = erase ticker g.loss_lockout_until;
}
