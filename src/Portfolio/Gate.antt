-- ===== src/Portfolio/Gate.antt =====
-- `class PortfolioRiskGate` of monitor/portfolio_risk.py. Its arithmetic is that of floats: a parameter,
-- of which the proofs use no law. What an order check asks of the brokers and of the options engine
-- (buying power, delta, gamma) comes with the order. Alerts and emitted events are left out.
use trading_hub.Base.{
  ℕ, ◌+◌, String, Bool, true, false, not, ◌&&◌, Option, none, some, [], ◌∷◌, if◌then◌else◌, nat_eq,
  string_eq, pair_eq,
}
use trading_hub.Base.Dict.{Dict, lookup, insert, erase}

-- The operations on numbers.
pub record Number (R : Type 0) : Type 0 where
  pub nought : R
  pub add : R → R → R
  pub sub : R → R → R
  pub mul : R → R → R
  pub div : R → R → R
  pub magnitude : R → R
  pub at_most : R → R → Bool

pub record Position (R : Type 0) : Type 0 where
  pub qty : R
  pub entry_price : R
  pub current_price : R

-- The limits of the module; `recovery` is 80% of the drawdown limit.
pub record Limits (R : Type 0) : Type 0 where
  pub max_drawdown : R
  pub recovery : R
  pub max_notional : R
  pub max_delta : R
  pub max_gamma : R

pub record PortfolioRiskGate (R : Type 0) : Type 0 where
  pub limits : Limits R
  pub realized_pnl : R
  pub positions : Dict String (Position R)
  pub halted : Bool
  pub block_count : ℕ

pub record OrderReq (R : Type 0) : Type 0 where
  pub ticker : String
  pub is_sell : Bool
  pub qty : R
  pub price : R
  pub buying_power : Option R
  pub delta : R
  pub gamma : R

pub data Reason : Type 0 where
  halt_active drawdown notional no_buying_power over_buying_power delta gamma : Reason

module _ {R : Type 0} (num : Number R) where
  abbrev pub sum_pnl : R → Dict String (Position R) → R
  sum_pnl acc [] = acc
  sum_pnl acc ((t, p) ∷ d) =
      sum_pnl (num.add acc (num.mul (num.sub p.current_price p.entry_price) p.qty)) d

  abbrev pub sum_notional : R → Dict String (Position R) → R
  sum_notional acc [] = acc
  sum_notional acc ((t, p) ∷ d) = sum_notional (num.add acc (num.mul p.current_price p.qty)) d

  unfoldable pub total_pnl : PortfolioRiskGate R → R
  total_pnl g = num.add g.realized_pnl (sum_pnl num.nought g.positions)

  unfoldable pub total_notional : PortfolioRiskGate R → R
  total_notional g = sum_notional num.nought g.positions

  abbrev pub above : R → R → Bool
  above x y = not (num.at_most x y)

  -- Checks 2 to 4.
  unfoldable pub check_exposure : OrderReq R → PortfolioRiskGate R → Option Reason
  check_exposure o g =
      let order_notional = num.mul o.qty o.price in
      if above (num.add (total_notional g) order_notional) g.limits.max_notional
      then some notional
      else elim o.buying_power [
        | none ↦ some no_buying_power
        | some bp ↦
            if above order_notional bp
            then some over_buying_power
            else if above (num.magnitude o.delta) g.limits.max_delta
            then some delta
            else if above o.gamma g.limits.max_gamma
            then some gamma
            else none
      ]

  abbrev pub block : Reason → PortfolioRiskGate R → Option Reason × PortfolioRiskGate R
  block r g = (some r, record g { block_count = g.block_count + 1 })

  abbrev pub finish : Option Reason → PortfolioRiskGate R → Option Reason × PortfolioRiskGate R
  finish none g = (none, g)
  finish (some r) g = block r g

  -- A BUY once a halt is out of the way.
  unfoldable pub check_buy : OrderReq R → PortfolioRiskGate R → Option Reason × PortfolioRiskGate R
  check_buy o g =
      if num.at_most (total_pnl g) g.limits.max_drawdown
      then block drawdown (record g { halted = true })
      else finish (check_exposure o g) g

  -- Nothing where the order passes, or why it is blocked. A halt ends above the recovery threshold.
  unfoldable pub on_order_req :
      OrderReq R → PortfolioRiskGate R → Option Reason × PortfolioRiskGate R
  on_order_req o g =
      if o.is_sell
      then (none, g)
      else if g.halted && not (above (total_pnl g) g.limits.recovery)
      then block halt_active g
      else check_buy o (record g { halted = false })

  -- A BUY averages in; a SELL books the P&L of what it sells.
  unfoldable pub buy_fill : String → R → R → PortfolioRiskGate R → PortfolioRiskGate R
  buy_fill ticker qty price g =
      let fresh : Position R = record { qty = qty; entry_price = price; current_price = price } in
      elim (lookup ticker g.positions) [
        | none ↦ record g { positions = insert ticker fresh g.positions }
        | some p ↦
            let total = num.add p.qty qty in
            let cost = num.add (num.mul p.entry_price p.qty) (num.mul price qty) in
            let averaged : Position R = record {
              qty = total;
              entry_price = num.div cost total;
              current_price = price;
            } in
            record g { positions = insert ticker averaged g.positions }
      ]

  unfoldable pub sell_fill : String → R → R → PortfolioRiskGate R → PortfolioRiskGate R
  sell_fill ticker qty price g = elim (lookup ticker g.positions) [
    | none ↦ g
    | some p ↦
        let left = num.sub p.qty qty in
        let pnl = num.mul (num.sub price p.entry_price) qty in
        let booked : PortfolioRiskGate R = record g { realized_pnl = num.add g.realized_pnl pnl } in
        if num.at_most left num.nought
        then record booked { positions = erase ticker g.positions }
        else record booked { positions = insert ticker (record p { qty = left }) g.positions }
  ]

  -- A new price, and the quantity after a partial exit, for a position that is there.
  unfoldable pub on_bar : String → R → PortfolioRiskGate R → PortfolioRiskGate R
  on_bar ticker close g = elim (lookup ticker g.positions) [
    | none ↦ g
    | some p ↦ record g {
      positions = insert ticker (record p { current_price = close }) g.positions;
    }
  ]

  unfoldable pub on_closed : String → PortfolioRiskGate R → PortfolioRiskGate R
  on_closed ticker g = record g { positions = erase ticker g.positions }

  unfoldable pub on_partial_exit : String → R → PortfolioRiskGate R → PortfolioRiskGate R
  on_partial_exit ticker qty g = elim (lookup ticker g.positions) [
    | none ↦ g
    | some p ↦ record g { positions = insert ticker (record p { qty = qty }) g.positions }
  ]

  abbrev pub seed : Dict String (R × R) → Dict String (Position R) → Dict String (Position R)
  seed [] d = d
  seed ((t, (qty, entry)) ∷ held) d =
      seed held (insert t (record { qty = qty; entry_price = entry; current_price = entry }) d)

  -- `overnight` are the positions of the monitor: quantity and entry price.
  unfoldable pub reset_day : Dict String (R × R) → PortfolioRiskGate R → PortfolioRiskGate R
  reset_day overnight g = record g {
    realized_pnl = num.nought;
    positions = seed overnight [];
    halted = false;
    block_count = 0;
  }
