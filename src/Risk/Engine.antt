-- ===== src/Risk/Engine.antt =====
-- `class RiskEngine` of monitor/risk_engine.py. What it asks of other components, the regime filter, the
-- registry, the data feeds, the correlation and beta checks, arrives with the signal. An order's quantity
-- is a number of millionths of a share, its price of ten-thousandths of a price unit, its stop and
-- target of millionths of one.
use trading_hub.Base.{
  ℕ, ◌+◌, ◌-◌, ◌*◌, ◌/◌, min, String, Bool, false, not, ◌&&◌, ◌||◌, Option, none, some, [], ◌∷◌,
  ltb, leb, eqb, if◌then◌else◌, get_or_else, length, keep, ◌==◌, nat_eq, string_eq, pair_eq,
}
use trading_hub.Base.Dict.{Dict, lookup, insert, erase}
use trading_hub.Base.Text.{starts_with}
use trading_hub.Positions.Model.{Position, PositionManager}
use trading_hub.Positions.Signal.{SignalPayload, SignalAction, action_value}
use trading_hub.Ledger.Lot.{Side, buy, sell}
use trading_hub.Ledger.Book.{has}
use trading_hub.Risk.Sizing.{Quote, get_spread, max, adjust_size}
use trading_hub.Wal.Log.{OrderWal, check_and_intent, start, write}
use trading_hub.Wal.Api.{record_intent}
use trading_hub.Wal.Log as Log

-- The constants are those of the environment; RVOL, RSI in hundredths, the spread in millionths.
pub record Config : Type 0 where
  pub max_positions : ℕ
  pub order_cooldown : ℕ
  pub trade_budget : ℕ
  pub target_risk : ℕ
  pub min_rvol : ℕ
  pub etf_rvol_min : ℕ
  pub rsi_low : ℕ
  pub rsi_high : ℕ
  pub max_spread : ℕ
  pub read_only : Bool

-- What a signal's handling learns from outside. A factor is a number of hundredths.
pub record Outside : Type 0 where
  pub mono : ℕ
  pub regime_allows : Bool
  pub holder : Option String
  pub sentiment : ℕ
  pub is_etf : Bool
  pub stream : Option (ℕ × ℕ)
  pub rest : Option Quote
  pub correlation_ok : Bool
  pub beta_ok : Bool
  pub beta : ℕ
  pub conviction : Option ℕ
  pub regime_factor : ℕ
  pub client_id : String
  pub log_world : Log.World

pub data BlockReason : Type 0 where
  regime_hostile held_by_layer max_positions_reached cooldown_active already_reclaimed rvol_low :
      BlockReason
  rsi_out_of_band no_live_quote spread_too_wide correlated beta_exposure stop_too_wide : BlockReason
  order_pending : BlockReason

pub record OrderRequest : Type 0 where
  pub ticker : String
  pub side : Side
  pub qty : ℕ
  pub price : ℕ
  pub reason : String
  pub stop_price : Option ℕ
  pub target_price : Option ℕ
  pub layer : Option String
  pub wal_client_id : String

pub data Outcome : Type 0 where
  ignored : Outcome
  blocked : BlockReason → Outcome
  requested : OrderRequest → Outcome

-- The engine's own state, and the write-ahead log that it calls.
pub record Desk : Type 0 where
  pub pending_tickers : Dict String ℕ
  pub wal : OrderWal

abbrev pub is_vwap : Position → Bool
is_vwap p = not (starts_with p.strategy "pro:")

abbrev pub count_vwap : Dict String Position → ℕ
count_vwap [] = 0
count_vwap ((t, p) ∷ ps) = (if is_vwap p then 1 else 0) + count_vwap ps

-- Pending tickers go after 60 seconds.
unfoldable pub evict_pending : ℕ → Desk → Desk
evict_pending mono d = record d {
  pending_tickers = keep (λ e. leb (mono - e.1) 60) d.pending_tickers;
}

abbrev pub held_elsewhere : Option String → Bool
held_elsewhere none = false
held_elsewhere (some layer) = not (layer == "") && not (layer == "vwap")

abbrev pub rvol_threshold : Config → Outside → ℕ
rvol_threshold c o =
    let base = if o.is_etf then c.etf_rvol_min else c.min_rvol in
    if ltb 60 o.sentiment then min base 150 else base

abbrev pub rsi_fits : Config → Outside → ℕ → Bool
rsi_fits c o rsi =
    if ltb 60 o.sentiment
    then leb 3500 rsi && leb rsi 8000
    else leb c.rsi_low rsi && leb rsi c.rsi_high

-- The checks 1 to 5, in order; `pending` counts the orders in flight.
unfoldable pub entry_block :
    Config → Outside → SignalPayload → PositionManager → ℕ → Option BlockReason
entry_block c o p pm pending =
    let elapsed = o.mono - get_or_else (lookup p.ticker pm.last_order_time) 0 in
    if leb c.max_positions (count_vwap pm.positions + pending)
    then some max_positions_reached
    else if ltb elapsed c.order_cooldown
    then some cooldown_active
    else if has p.ticker pm.reclaimed_today
    then some already_reclaimed
    else if ltb p.rvol (rvol_threshold c o)
    then some rvol_low
    else if rsi_fits c o p.rsi_value
    then none
    else some rsi_out_of_band

-- The checks that follow the quote.
unfoldable pub quote_block : Config → Outside → SignalPayload → Quote → Option BlockReason
quote_block c o p q =
    if ltb (c.max_spread * q.spread.1) (q.spread.0 * 1_000_000)
    then some spread_too_wide
    else if not o.correlation_ok
    then some correlated
    else if not o.beta_ok
    then some beta_exposure
    else if ltb 0 p.atr_value && ltb 0 p.stop_price && ltb (p.atr_value * 3) (q.ask - p.stop_price)
    then some stop_too_wide
    else none

abbrev conviction_qty : Option ℕ → ℕ → ℕ
conviction_qty none qty = qty
conviction_qty (some m) qty = if eqb m 100 then qty else max 1 (qty * m / 100)

-- The number of shares: the budget, the sizer, the conviction, the regime.
unfoldable pub order_shares : Config → Outside → SignalPayload → ℕ → ℕ
unfolding adjust_size
order_shares c o p ask =
    let base = max 1 (c.trade_budget * 10_000 / (ask * 10_001)) in
    let sized = adjust_size o.beta c.target_risk base ask p.atr_value c.trade_budget in
    let convinced = conviction_qty o.conviction sized in
    if ltb o.regime_factor 100 then max 1 (convinced * o.regime_factor / 100) else convinced

abbrev pub buy_order : Config → Outside → SignalPayload → ℕ → OrderRequest
buy_order c o p ask = record {
  ticker = p.ticker;
  side = buy;
  qty = order_shares c o p ask * 1_000_000;
  price = ask * 10_001;
  reason = "VWAP reclaim";
  stop_price = some (if eqb p.stop_price 0 then ask * 10_001 * 97 else p.stop_price * 1_000_000);
  target_price =
      some (if eqb p.target_price 0 then ask * 10_001 * 105 else p.target_price * 1_000_000);
  layer = some "vwap";
  wal_client_id = o.client_id;
}

-- The log decides last, in one step with the intent.
unfoldable pub submit : Config → Outside → SignalPayload → ℕ → Desk → Outcome × Desk
unfolding order_shares
submit c o p ask d =
    let r = buy_order c o p ask in
    let (fresh, wal') =
      check_and_intent o.log_world o.client_id r.ticker "BUY" r.qty r.price r.reason d.wal in
    let logged : Desk = record d { wal = wal' } in
    if fresh
    then (requested r, record logged { pending_tickers = insert p.ticker o.mono d.pending_tickers })
    else (blocked order_pending, logged)

unfoldable pub check_quote : Config → Outside → SignalPayload → Desk → Outcome × Desk
unfolding get_spread quote_block submit
check_quote c o p d = elim (get_spread p.ask_price o.stream o.rest) [
  | none ↦ (blocked no_live_quote, d)
  | some q ↦ elim (quote_block c o p q) [ some r ↦ (blocked r, d) | none ↦ submit c o p q.ask d ]
]

unfoldable pub handle_buy :
    Config → Outside → SignalPayload → PositionManager → Desk → Outcome × Desk
unfolding evict_pending entry_block check_quote
handle_buy c o p pm d =
    let d' = evict_pending o.mono d in
    if not o.regime_allows
    then (blocked regime_hostile, d)
    else if held_elsewhere o.holder
    then (blocked held_by_layer, d)
    else elim (entry_block c o p pm (length d'.pending_tickers)) [
      | some r ↦ (blocked r, d')
      | none ↦ check_quote c o p d'
    ]

abbrev pub is_partial : SignalAction → Bool
is_partial a = action_value a == "PARTIAL_SELL"

-- A partial exit sells `qty // 2`, in whole shares.
abbrev pub exit_qty : SignalAction → ℕ → ℕ
exit_qty a qty = if is_partial a then qty / 2_000_000 * 1_000_000 else qty

abbrev pub sell_order : Outside → SignalPayload → ℕ → OrderRequest
sell_order o p qty = record {
  ticker = p.ticker;
  side = sell;
  qty = qty;
  price = p.current_price * 10_000;
  reason = action_value p.action;
  stop_price = none;
  target_price = none;
  layer = none;
  wal_client_id = o.client_id;
}

unfoldable pub emit_sell_order : Outside → SignalPayload → PositionManager → Desk → Outcome × Desk
emit_sell_order o p pm d = elim (lookup p.ticker pm.positions) [
  | none ↦ (ignored, d)
  | some held ↦
      let r = sell_order o p (exit_qty p.action held.quantity) in
      let wal' =
        record_intent o.log_world o.client_id r.ticker "SELL" r.qty r.price r.reason d.wal in
      if eqb held.quantity 0 || eqb r.qty 0
      then (ignored, d)
      else (requested r, record d { wal = wal' })
]

-- The handler of SIGNAL, for one worker alone. The source takes no lock between the count of the positions
-- and the entry among the pending tickers, so two workers can both read the count before either enters.
unfoldable pub on_signal :
    Config → Outside → SignalPayload → PositionManager → Desk → Outcome × Desk
unfolding handle_buy emit_sell_order
on_signal c o p pm d =
    if action_value p.action == "BUY"
    then if c.read_only then (ignored, d) else handle_buy c o p pm d
    else emit_sell_order o p pm d

-- The handlers of FILL and of ORDER_FAIL.
unfoldable pub on_fill_clear_pending : Side → String → Desk → Desk
on_fill_clear_pending buy ticker d = record d { pending_tickers = erase ticker d.pending_tickers }
on_fill_clear_pending sell ticker d = d

unfoldable pub on_fail_clear_pending : String → Desk → Desk
on_fail_clear_pending ticker d = record d { pending_tickers = erase ticker d.pending_tickers }
