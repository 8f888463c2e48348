-- ===== src/KillSwitch/Tests.antt =====
-- Runs of the two kill switches.
use trading_hub.Base.Dict.{contains}
use trading_hub.KillSwitch.Halts
use trading_hub.Base.{◌≡◌, refl, true, false, ◌||◌, none, List, [], ◌∷◌, nat_eq, string_eq, pair_eq}
use trading_hub.Base.Int.{pos, negsuc, ◌+ℤ◌}
use trading_hub.KillSwitch.Strategy.{
  KillSwitch, flag, is_halted, add_strategy, add_broker, on_closed,
}
use trading_hub.KillSwitch.Halts.{run-halted, Closed, run, ever_breached}
use trading_hub.KillSwitch.Satellite.{Satellite, start, IsKept}

abbrev switch : KillSwitch
switch = record {
  limits = ("vwap", negsuc 99_999) ∷ ("pro", negsuc 199_999) ∷ [];
  pnl = ("vwap", pos 0) ∷ ("pro", pos 0) ∷ [];
  halted = ("vwap", false) ∷ ("pro", false) ∷ [];
  broker_loss_limit = negsuc 149_999;
  broker_pnl = [];
  broker_halted = [];
}

abbrev day : List Closed
day =
    record { prefix = "vwap"; broker = "alpaca"; pnl = negsuc 59_999 }
    ∷ record { prefix = "vwap"; broker = "tradier"; pnl = negsuc 49_999 }
    ∷ record { prefix = "pro"; broker = "alpaca"; pnl = negsuc 94_999 }
    ∷ []

-- VWAP loses $1,100 of its $1,000, and Alpaca $1,550 of its $1,500.
after_day :
    (flag "vwap" (Halts.run day switch).halted ≡ true)
    × (flag "pro" (Halts.run day switch).halted ≡ false)
    × (is_halted "pro" "alpaca" (Halts.run day switch) ≡ true)
    × (is_halted "pro" "tradier" (Halts.run day switch) ≡ false)
unfolding run on_closed add_broker add_strategy ◌+ℤ◌ is_halted
after_day = (refl, refl, refl, refl)

known : contains "vwap" switch.pnl ≡ true
known = refl

run-halted_example :
    flag "vwap" (Halts.run day switch).halted
    ≡ (false || ever_breached "vwap" (negsuc 99_999) (pos 0) day)
run-halted_example = run-halted "vwap" day switch known

abbrev engine : Satellite
engine = start 7 (negsuc 99_999) none

engine-IsKept : IsKept 7 engine
unfolding start
engine-IsKept = refl
