-- ===== src/Portfolio/Tests.antt =====
-- Runs of the portfolio gate on integers.
use trading_hub.Base.{
  ◌+◌, ◌*◌, ◌/◌, ◌≡◌, refl, true, false, not, ◌||◌, none, some, List, [], ◌∷◌, is_some, nat_eq,
  string_eq, pair_eq,
}
use trading_hub.Base.Int.{ℤ, pos, negsuc, pos_part, neg_part, sub_ℕ, ◌+ℤ◌, ◌-ℤ◌, leb_ℤ}
use trading_hub.Portfolio.Gate.{
  Number, PortfolioRiskGate, OrderReq, drawdown, over_buying_power, total_pnl, on_order_req,
  buy_fill, on_bar, total_notional, check_exposure, check_buy,
}
use trading_hub.Portfolio.Admission.{
  Event, is_admissible, on_order_req-passes, order, bar, StaysLow,
}

abbrev int_mul : ℤ → ℤ → ℤ
int_mul a b =
    sub_ℕ (pos_part a * pos_part b + neg_part a * neg_part b)
      (pos_part a * neg_part b + neg_part a * pos_part b)

-- Only positive amounts are divided.
abbrev int_div : ℤ → ℤ → ℤ
int_div a b = pos (pos_part a / pos_part b)

abbrev ints : Number ℤ
ints = record {
  nought = pos 0;
  add = ◌+ℤ◌;
  sub = ◌-ℤ◌;
  mul = int_mul;
  div = int_div;
  magnitude = λ a. pos (pos_part a + neg_part a);
  at_most = leb_ℤ;
}

abbrev empty_gate : PortfolioRiskGate ℤ
empty_gate = record {
  limits = record {
    max_drawdown = negsuc 4_999;
    recovery = negsuc 3_999;
    max_notional = pos 100_000;
    max_delta = pos 5;
    max_gamma = pos 1;
  };
  realized_pnl = pos 0;
  positions = [];
  halted = false;
  block_count = 0;
}

abbrev buy_of : ℤ → ℤ → OrderReq ℤ
buy_of qty price = record {
  ticker = "AAPL";
  is_sell = false;
  qty = qty;
  price = price;
  buying_power = some (pos 50_000);
  delta = pos 0;
  gamma = pos 0;
}

-- 100 shares at $150, then $60 of loss on each.
abbrev fallen : PortfolioRiskGate ℤ
fallen = on_bar ints "AAPL" (pos 90) (buy_fill ints "AAPL" (pos 100) (pos 150) empty_gate)

fallen_pnl : total_pnl ints fallen ≡ negsuc 5_999
unfolding total_pnl ◌+ℤ◌ on_bar buy_fill ◌-ℤ◌
fallen_pnl = refl

averaged_entry :
    (buy_fill ints "AAPL"
      (pos 100)
      (pos 170)
      (buy_fill ints "AAPL" (pos 100) (pos 150) empty_gate)).positions
    ≡ ("AAPL", record { qty = pos 200; entry_price = pos 160; current_price = pos 170 }) ∷ []
unfolding buy_fill ◌+ℤ◌
averaged_entry = refl

answers :
    ((on_order_req ints (buy_of (pos 10) (pos 100)) fallen).0 ≡ some drawdown)
    × ((on_order_req ints (buy_of (pos 600) (pos 100)) empty_gate).0 ≡ some over_buying_power)
    × ((on_order_req ints (buy_of (pos 10) (pos 100)) empty_gate).0 ≡ none)
unfolding on_order_req on_bar buy_fill check_buy total_pnl ◌+ℤ◌ ◌-ℤ◌ check_exposure total_notional
answers = (refl, refl, refl)

on_order_req-passes_example :
    is_some (on_order_req ints (buy_of (pos 10) (pos 100)) fallen).0
    ≡ not (false || is_admissible ints (buy_of (pos 10) (pos 100)) fallen)
on_order_req-passes_example = on_order_req-passes ints (buy_of (pos 10) (pos 100)) fallen

abbrev halted_gate : PortfolioRiskGate ℤ
halted_gate = record empty_gate { halted = true; realized_pnl = negsuc 4_499 }

abbrev attempts : List (Event ints)
attempts =
    order (buy_of (pos 10) (pos 100)) ∷ bar "AAPL" (pos 91) ∷ order (buy_of (pos 1) (pos 100)) ∷ []

attempts-StaysLow : StaysLow ints attempts halted_gate
unfolding total_pnl ◌+ℤ◌ on_order_req on_bar
attempts-StaysLow = (refl, (refl, (refl, tt)))
