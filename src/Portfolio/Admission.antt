-- ===== src/Portfolio/Admission.antt =====
-- Which orders the portfolio gate lets through, and how long a halt lasts.
use trading_hub.Base.{
  String, ◌≡◌, refl, Bool, true, false, not, ◌&&◌, ◌||◌, Option, none, some, List, [], ◌∷◌, arith,
  is_some, nat_eq, string_eq, pair_eq,
}
use trading_hub.Portfolio.Gate.{
  Number, PortfolioRiskGate, OrderReq, total_pnl, total_notional, above, check_exposure, check_buy,
  on_order_req, buy_fill, sell_fill, on_bar, on_closed, on_partial_exit, Reason, finish,
}

module _ {R : Type 0} (num : Number R) where
  -- The order's notional is covered by the buying power, if that is known.
  abbrev pub covers : OrderReq R → Bool
  covers o = elim o.buying_power [ none ↦ false | some bp ↦ num.at_most (num.mul o.qty o.price) bp ]

  -- No halt stands in the way, and every limit holds with the order added.
  abbrev pub is_admissible : OrderReq R → PortfolioRiskGate R → Bool
  is_admissible o g =
      (not g.halted || above num (total_pnl num g) g.limits.recovery)
      && (above num (total_pnl num g) g.limits.max_drawdown
          && (num.at_most (num.add (total_notional num g) (num.mul o.qty o.price))
                g.limits.max_notional
              && (covers o
                  && (num.at_most (num.magnitude o.delta) g.limits.max_delta
                      && num.at_most o.gamma g.limits.max_gamma))))

  check_exposure-passes :
      (o : OrderReq R) (g : PortfolioRiskGate R)
      → is_some (check_exposure num o g)
        ≡ not (
            num.at_most
              (num.add (total_notional num g) (num.mul o.qty o.price))
              g.limits.max_notional
            && (covers o
                && (num.at_most (num.magnitude o.delta) g.limits.max_delta
                    && num.at_most o.gamma g.limits.max_gamma)))
  unfolding check_exposure
  check_exposure-passes o g = ground arith

  finish-passes :
      (r : Option Reason) (g : PortfolioRiskGate R) → is_some (finish num r g).0 ≡ is_some r
  finish-passes none g = refl
  finish-passes (some r) g = refl

  -- An order passes exactly if it is a SELL or admissible: no halt stands (or the P&L is above the
  -- recovery threshold), the P&L is above the drawdown limit, exposure and buying power suffice with
  -- the order added, and the greeks are within their limits. Unknown buying power blocks.
  pub on_order_req-passes :
      (o : OrderReq R) (g : PortfolioRiskGate R)
      → is_some (on_order_req num o g).0 ≡ not (o.is_sell || is_admissible o g)
  unfolding on_order_req check_buy total_pnl total_notional
  on_order_req-passes o g = ground (
    arith,
    finish-passes (check_exposure num o (record g { halted = false }))
        (record g { halted = false }),
    check_exposure-passes o (record g { halted = false }),
  )

  -- An event that reaches the gate.
  pub data Event : Type 0 where
    order : OrderReq R → Event
    bought sold : String → R → R → Event
    bar partial_exit : String → R → Event
    closed : String → Event

  abbrev pub handle : Event → PortfolioRiskGate R → PortfolioRiskGate R
  handle (order o) g = (on_order_req num o g).1
  handle (bought t qty price) g = buy_fill num t qty price g
  handle (sold t qty price) g = sell_fill num t qty price g
  handle (bar t close) g = on_bar num t close g
  handle (partial_exit t qty) g = on_partial_exit num t qty g
  handle (closed t) g = on_closed num t g

  -- Whether the event is a BUY that the gate lets through.
  abbrev pub passes_buy : Event → PortfolioRiskGate R → Bool
  passes_buy (order o) g = not o.is_sell && not (is_some (on_order_req num o g).0)
  passes_buy _ g = false

  abbrev pub any_buy : List Event → PortfolioRiskGate R → Bool
  any_buy [] g = false
  any_buy (e ∷ es) g = passes_buy e g || any_buy es (handle e g)

  -- The P&L is at or below the recovery threshold before every event.
  abbrev pub StaysLow : List Event → PortfolioRiskGate R → Type 0
  StaysLow [] g = Unit
  StaysLow (e ∷ es) g =
      (num.at_most (total_pnl num g) g.limits.recovery ≡ true) × StaysLow es (handle e g)

  handle-halted :
      (e : Event) (g : PortfolioRiskGate R)
      → g.halted ≡ true
      → num.at_most (total_pnl num g) g.limits.recovery ≡ true
      → (passes_buy e g ≡ false) × ((handle e g).halted ≡ true)
  unfolding on_order_req buy_fill sell_fill on_bar on_partial_exit on_closed
  handle-halted (order o) g h low = ground (arith, h, low)
  handle-halted (bought t qty price) g h low = ground (arith, h)
  handle-halted (sold t qty price) g h low = ground (arith, h)
  handle-halted (bar t close) g h low = ground (arith, h)
  handle-halted (partial_exit t qty) g h low = ground (arith, h)
  handle-halted (closed t) g h low = ground (arith, h)

  -- A halt has hysteresis: once the gate is halted, it lets no BUY through, whatever fills, prices and
  -- orders come, as long as the P&L stays at or below the recovery threshold.
  pub any_buy-halted :
      (es : List Event) (g : PortfolioRiskGate R)
      → g.halted ≡ true
      → StaysLow es g
      → any_buy es g ≡ false
  any_buy-halted [] g h low = refl
  any_buy-halted (e ∷ es) g h low =
      let (blocked, still) = handle-halted e g h low.0 in
      rw blocked (any_buy-halted es (handle e g) still low.1)
