-- ===== src/Positions/Signal.antt =====
-- The signal payload and the string enums of monitor/events.py.
use trading_hub.Base.{ℕ, String, nat_eq, string_eq, pair_eq}
use trading_hub.Ledger.Lot.{Side, buy, sell}

-- `class SignalAction(str, Enum)` and `class Side(str, Enum)` of monitor/events.py: a member compares
-- with a string by its value.
pub data SignalAction : Type 0 where
  buy_signal sell_stop sell_target sell_rsi sell_vwap partial_sell partial_done hold : SignalAction

abbrev pub action_value : SignalAction → String
action_value buy_signal = "BUY"
action_value sell_stop = "SELL_STOP"
action_value sell_target = "SELL_TARGET"
action_value sell_rsi = "SELL_RSI"
action_value sell_vwap = "SELL_VWAP"
action_value partial_sell = "PARTIAL_SELL"
action_value partial_done = "PARTIAL_DONE"
action_value hold = "HOLD"

abbrev pub side_value : Side → String
side_value buy = "BUY"
side_value sell = "SELL"

-- The RSI and the relative volume are numbers of hundredths.
pub record SignalPayload : Type 0 where
  pub ticker : String
  pub action : SignalAction
  pub current_price : ℕ
  pub ask_price : ℕ
  pub stop_price : ℕ
  pub target_price : ℕ
  pub half_target : ℕ
  pub atr_value : ℕ
  pub rsi_value : ℕ
  pub rvol : ℕ
