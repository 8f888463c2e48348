-- ===== src/Ledger/Lot.antt =====
-- The fill lot data model, monitor/fill_lot.py. A quantity is a number of millionths of a share
-- (the matcher rounds every remainder to six decimals), a price a number of hundredths of a cent,
-- a P&L a number of cents, and a timestamp a number of seconds of local time.
use trading_hub.Base.{
  ℕ, ◌+◌, ◌*◌, ◌-◌, ◌/◌, ◌%◌, String, Bool, Option, none, some, List, [], if◌then◌else◌, leb, ltb,
  eqb,
}
use trading_hub.Base.Int.{ℤ, pos, sub_ℕ}

pub data Side : Type 0 where
  buy sell : Side

-- A float tolerance of 1e-9 shares is below one millionth.
abbrev pub qty_epsilon : ℕ
qty_epsilon = 0

pub record FillLot : Type 0 where
  pub lot_id : String
  pub ticker : String
  pub side : Side
  pub qty : ℕ
  pub fill_price : ℕ
  pub timestamp : ℕ
  pub broker : String
  pub strategy : String
  pub synthetic : Bool

-- `__post_init__` raises unless the quantity is positive. (A side other than the two cannot be
-- written here.)
unfoldable pub make_lot : FillLot → Option FillLot
make_lot lot = if leb lot.qty qty_epsilon then none else some lot

pub record LotState : Type 0 where
  pub lot_id : String
  pub original_qty : ℕ
  pub remaining_qty : ℕ
  pub matched_sells : List String

abbrev pub is_closed : LotState → Bool
is_closed s = leb s.remaining_qty qty_epsilon

abbrev pub new_state : FillLot → LotState
new_state lot = record {
  lot_id = lot.lot_id;
  original_qty = lot.qty;
  remaining_qty = lot.qty;
  matched_sells = [];
}

pub record LotMatch : Type 0 where
  pub buy_lot_id : String
  pub sell_lot_id : String
  pub matched_qty : ℕ
  pub buy_price : ℕ
  pub sell_price : ℕ
  pub realized_pnl : ℤ
  pub ticker : String
  pub matched_at : ℕ
  pub estimated : Bool

pub record PositionMeta : Type 0 where
  pub stop_price : ℕ
  pub target_price : ℕ
  pub half_target : ℕ
  pub atr_value : Option ℕ
  pub partial_done : Bool

abbrev pub date_of : ℕ → ℕ
date_of t = t / 86400

-- Python's `round` goes to the nearest, and from the middle to the even neighbour. The argument
-- counts 10^-10 dollars, the result cents.
abbrev pub cent : ℕ
cent = 100_000_000

unfoldable pub round_half_even : ℕ → ℕ
round_half_even n =
    let q = n / cent in
    let r = n % cent in
    if ltb (2 * r) cent
    then q
    else if ltb cent (2 * r)
    then q + 1
    else if eqb (q % 2) 0
    then q
    else q + 1

abbrev pub negate : ℕ → ℤ
negate n = sub_ℕ 0 n

-- `round((sell_price - buy_price) * qty, 2)`
unfoldable pub round_pnl : ℕ → ℕ → ℕ → ℤ
unfolding round_half_even
round_pnl sell_price buy_price qty =
    if leb buy_price sell_price
    then pos (round_half_even ((sell_price - buy_price) * qty))
    else negate (round_half_even ((buy_price - sell_price) * qty))
