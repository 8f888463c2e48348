-- ===== src/Options/Tests.antt =====
-- Runs of the options gate.
use trading_hub.Base.{◌≡◌, refl, false, none, some, [], nat_eq, string_eq, pair_eq}
use trading_hub.Base.Int.{negsuc}
use trading_hub.Options.RiskGate.{
  reserve, OptionsRiskGate, already_open, over_trade_budget, check, acquire, check_limits,
}

abbrev fresh_gate : OptionsRiskGate
fresh_gate = record {
  max_positions = 5;
  trade_budget = 50_000;
  total_budget = 1_000_000;
  order_cooldown = 300;
  max_daily_trades = 20;
  open_positions = [];
  last_order = [];
  deployed_capital = 0;
  daily_trade_count = 0;
  pending_tickers = [];
  loss_lockout_until = [];
  loss_count = [];
}

passes : check 1_000 "AAPL" 40_000 false fresh_gate ≡ none
unfolding check check_limits
passes = refl

-- A credit of $1.20 with a risk of $400.
abbrev entered : OptionsRiskGate
entered = acquire 1_000 "AAPL" (negsuc 119) 40_000 fresh_gate

abbrev reserved : OptionsRiskGate
reserved = (reserve "AAPL" fresh_gate).1

-- The recovery of an orphan that the restored books already hold counts its risk twice.
counted_twice : (acquire 2_000 "AAPL" (negsuc 119) 40_000 entered).deployed_capital ≡ 80_000
unfolding acquire
counted_twice = refl

refused :
    (check 1_001 "AAPL" 40_000 false entered ≡ some already_open)
    × (check 1_001 "MSFT" 60_000 false entered ≡ some over_trade_budget)
unfolding check acquire check_limits
refused = (refl, refl)
