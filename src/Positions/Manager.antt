-- ===== src/Positions/Manager.antt =====
-- The handlers of `class PositionManager` (monitor/position_manager.py). The lock makes each of them
-- atomic. Alerts, logs and the lifecycle data that pass through a position are left out.
use trading_hub.Base.{
  ℕ, ◌+◌, ◌-◌, ◌*◌, String, true, false, ◌&&◌, Option, none, some, [], ◌∷◌, ◌++◌, ltb, leb, eqb,
  if◌then◌else◌, get_or_else, length, ◌==◌, nat_eq, string_eq, pair_eq,
}
use trading_hub.Base.Dict.{Dict, lookup, contains, insert, erase}
use trading_hub.Base.Int.{ℤ, pos, leb_ℤ}
use trading_hub.Base.Text.{cat, lower, upper, has_text, until_colon, after_colon}
use trading_hub.Positions.Model.{
  FillPayload, FillEvent, OrderFailPayload, PositionManager, World, Position, PositionPayload,
  opened, partial_exit, closed, Trade, snapshot_of_position,
}
use trading_hub.Positions.Seen.{remember_fill, sell_key, remember_sell, emit, persist_state}
use trading_hub.Positions.Shadow.{broker_of, shadow_buy, shadow_sell, shadow_phantom}
use trading_hub.Ledger.Lot.{buy, sell, round_pnl}
use trading_hub.Ledger.Book.{has, add}

-- "pro:sr_flip:T1:long" gives "pro:sr_flip"; a reason without a colon gives "vwap_reclaim".
unfoldable pub strategy_of : String → String
strategy_of reason = elim (after_colon reason) [
  | none ↦ "vwap_reclaim"
  | some rest ↦ cat (until_colon reason) (cat ":" (until_colon rest))
]

-- A price that is missing or zero is not one.
abbrev pub given : Option ℕ → Option ℕ
given none = none
given (some n) = if eqb n 0 then none else some n

-- The stop, the target and the half target, with the fallbacks of 0.5 %, 1 % and 0.5 %.
unfoldable pub stop_of : FillPayload → ℕ
stop_of p = elim (given p.stop_price) [ none ↦ p.fill_price * 995 | some s ↦ s * 1000 ]

unfoldable pub target_of : FillPayload → ℕ × ℕ
target_of p = elim (given p.target_price) [
  | none ↦ (p.fill_price * 1010, p.fill_price * 1005)
  | some t ↦ (t * 1000, (p.fill_price + t) * 500)
]

unfoldable pub new_position : World → FillPayload → Position
unfolding strategy_of stop_of target_of
new_position w p = record {
  entry_price = p.fill_price;
  entry_time = w.now;
  quantity = p.qty;
  partial_done = false;
  order_id = p.order_id;
  stop_price = stop_of p;
  target_price = (target_of p).0;
  half_target = (target_of p).1;
  atr_value = p.atr_value;
  strategy = strategy_of p.reason;
  broker = none;
  broker_qty = none;
}

abbrev pub opened_event : FillEvent → Position → PositionPayload
opened_event ev held = record {
  ticker = ev.payload.ticker;
  action = opened;
  position = some (snapshot_of_position held);
  pnl = none;
  detail = some (held.strategy, broker_of ev, ev.payload.reason);
}

-- A BUY fill for a ticker that is already open is ignored.
unfoldable pub open_position : World → FillEvent → PositionManager → PositionManager
unfolding new_position shadow_buy
open_position w ev pm =
    let p = ev.payload in
    let held = new_position w p in
    let taken : PositionManager = record pm {
      last_order_time = insert p.ticker w.mono pm.last_order_time;
      reclaimed_today = add p.ticker pm.reclaimed_today;
      positions = insert p.ticker held pm.positions;
    } in
    if contains p.ticker pm.positions
    then pm
    else shadow_buy w ev held (persist_state w (emit (opened_event ev held) taken))

-- `max(0, bq[b] - qty)`, dropped at zero; with at most one broker left the breakdown goes.
unfoldable pub sell_at_broker : Option String → ℕ → Option (Dict String ℕ) → Option (Dict String ℕ)
sell_at_broker none qty bq = bq
sell_at_broker (some b) qty none = none
sell_at_broker (some b) qty (some bq) = elim (if b == "" then none else lookup b bq) [
  | none ↦ some bq
  | some n ↦
      let bq' = if eqb (n - qty) 0 then erase b bq else insert b (n - qty) bq in
      if leb (length bq') 1 then none else some bq'
]

unfoldable pub trade_of : World → FillPayload → Position → ℕ → Trade
unfolding round_pnl
trade_of w p held qty = record {
  ticker = p.ticker;
  entry_price = held.entry_price;
  entry_time = held.entry_time;
  exit_price = p.fill_price;
  qty = qty;
  pnl = round_pnl p.fill_price held.entry_price qty;
  reason = p.reason;
  time = w.now;
  is_win = leb_ℤ (pos 0) (round_pnl p.fill_price held.entry_price qty);
}

abbrev pub reduced : World → FillEvent → Position → ℕ → Position
reduced w ev held qty = record held {
  quantity = w.difference held.quantity qty;
  partial_done = true;
  stop_price =
      if leb (held.entry_price * 1000) held.stop_price
      then held.stop_price
      else held.entry_price * 1000;
  broker_qty = sell_at_broker ev.routed_broker qty held.broker_qty;
}

abbrev pub partial_event : FillEvent → Position → ℤ → PositionPayload
partial_event ev held pnl = record {
  ticker = ev.payload.ticker;
  action = partial_exit;
  position = some (snapshot_of_position held);
  pnl = some pnl;
  detail = none;
}

abbrev pub closed_event : FillEvent → Position → ℤ → PositionPayload
closed_event ev held pnl = record {
  ticker = ev.payload.ticker;
  action = closed;
  position = none;
  pnl = some pnl;
  detail = some (held.strategy, broker_of ev, ev.payload.reason);
}

-- Less than the position was sold: the rest stays open, with its stop at the entry or above.
unfoldable pub partial_close : World → FillEvent → Position → ℕ → PositionManager → PositionManager
unfolding trade_of sell_at_broker shadow_sell
partial_close w ev held qty pm =
    let left = reduced w ev held qty in
    let trade = trade_of w ev.payload held qty in
    let kept : PositionManager = record pm {
      positions = insert ev.payload.ticker left pm.positions;
      trade_log = pm.trade_log ++ (trade ∷ []);
    } in
    shadow_sell w ev (persist_state w (emit (partial_event ev left trade.pnl) kept))

unfoldable pub full_close : World → FillEvent → Position → ℕ → PositionManager → PositionManager
unfolding trade_of shadow_sell
full_close w ev held qty pm =
    let trade = trade_of w ev.payload held qty in
    let gone : PositionManager = record pm {
      positions = erase ev.payload.ticker pm.positions;
      last_order_time = insert ev.payload.ticker w.mono pm.last_order_time;
      trade_log = pm.trade_log ++ (trade ∷ []);
    } in
    shadow_sell w ev (persist_state w (emit (closed_event ev held trade.pnl) gone))

-- An overfill is clamped to the quantity of the position. The difference of two floats is above 0 exactly
-- where the first is larger, so the test needs no rounding.
unfoldable pub sell_position : World → FillEvent → Position → PositionManager → PositionManager
unfolding partial_close full_close
sell_position w ev held pm =
    let qty = if ltb held.quantity ev.payload.qty then held.quantity else ev.payload.qty in
    if ltb 0 (held.quantity - qty)
    then partial_close w ev held qty pm
    else full_close w ev held qty pm

-- The same order is sold once, and a ticker without a position is passed over.
unfoldable pub close_position : World → FillEvent → PositionManager → PositionManager
unfolding remember_sell sell_position
close_position w ev pm =
    let key = sell_key ev.payload in
    let noted = remember_sell w key pm in
    if has key pm.processed_sell_keys then pm else elim (lookup ev.payload.ticker pm.positions) [
      | none ↦ noted
      | some held ↦ sell_position w ev held noted
    ]

unfoldable pub take_fill : World → FillEvent → PositionManager → PositionManager
unfolding open_position close_position
take_fill w ev pm = elim ev.payload.side [
  | buy ↦ open_position w ev pm
  | sell ↦ close_position w ev pm
]

-- The handler of FILL: an event that was seen in the last hour is skipped.
unfoldable pub on_fill : World → FillEvent → PositionManager → PositionManager
unfolding remember_fill take_fill
on_fill w ev pm =
    if contains ev.event_id pm.processed_fill_ids
    then pm
    else take_fill w ev (remember_fill w ev.event_id pm)

abbrev pub phantom_event : String → Position → PositionPayload
phantom_event ticker p = record {
  ticker = ticker;
  action = closed;
  position = none;
  pnl = some (pos 0);
  detail = some (p.strategy, get_or_else p.broker "unknown", "phantom_cleanup");
}

unfoldable pub drop_phantom : World → String → Position → PositionManager → PositionManager
unfolding shadow_phantom
drop_phantom w ticker p pm =
    let gone : PositionManager = record pm { positions = erase ticker pm.positions } in
    shadow_phantom w ticker p (emit (phantom_event ticker p) (persist_state w gone))

-- The handler of ORDER_FAIL: a SELL that fails because the broker has no position removes it here.
unfoldable pub on_order_fail : World → OrderFailPayload → PositionManager → PositionManager
unfolding upper lower has_text drop_phantom
on_order_fail w p pm =
    if (upper p.side == "SELL") && has_text "no position" (lower p.reason)
    then elim (lookup p.ticker pm.positions) [
      | none ↦ pm
      | some found ↦ drop_phantom w p.ticker found pm
    ]
    else pm
