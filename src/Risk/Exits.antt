-- ===== src/Risk/Exits.antt =====
-- Exits: a SELL signal of `class RiskEngine` (monitor/risk_engine.py), and the fill of its order by
-- `class PositionManager` (monitor/position_manager.py).
use trading_hub.Base.{
  ◌-◌, ◌≤◌, ◌<◌, ◌≡◌, refl, sym, ap, ◌∙◌, false, none, some, arith, ltb, eqb, if◌then◌else◌, ◌==◌,
  nat_eq, string_eq, pair_eq,
}
use trading_hub.Base.Dict.{lookup, contains, lookup-erase_self}
use trading_hub.Positions.Model.{Position, PositionManager, FillEvent, World}
use trading_hub.Positions.Signal.{SignalPayload, action_value}
use trading_hub.Positions.Seen.{remember_fill, remember_sell, sell_key}
use trading_hub.Positions.Shadow.{shadow_sell}
use trading_hub.Positions.Manager.{on_fill, close_position, sell_position, full_close}
use trading_hub.Positions.Change.{take_fill-sell, shadow_sell-view}
use trading_hub.Ledger.Lot.{sell}
use trading_hub.Ledger.Book.{has}
use trading_hub.Risk.Engine.{
  Config, Outside, Desk, requested, is_partial, sell_order, on_signal, emit_sell_order,
}

shadow_sell-positions :
    (w : World) (ev : FillEvent) (pm : PositionManager)
    → (shadow_sell w ev pm).positions ≡ pm.positions
shadow_sell-positions w ev pm = ap (λ v. v.0) (shadow_sell-view w ev pm)

-- A SELL fill of at least the position closes it.
sell_position-closes :
    (w : World) (ev : FillEvent) (held : Position) (pm : PositionManager)
    → held.quantity ≤ ev.payload.qty
    → lookup ev.payload.ticker (sell_position w ev held pm).positions ≡ none
unfolding sell_position full_close
sell_position-closes w ev held pm le =
    let qty = if ltb held.quantity ev.payload.qty then held.quantity else ev.payload.qty in
    let all : ltb 0 (held.quantity - qty) ≡ false = ground (arith, le) in
    rw (all, shadow_sell-positions) (lookup-erase_self ev.payload.ticker pm.positions)

close_position-closes :
    (w : World) (ev : FillEvent) (held : Position) (pm : PositionManager)
    → has (sell_key ev.payload) pm.processed_sell_keys ≡ false
    → lookup ev.payload.ticker pm.positions ≡ some held
    → held.quantity ≤ ev.payload.qty
    → lookup ev.payload.ticker (close_position w ev pm).positions ≡ none
unfolding close_position remember_sell
close_position-closes w ev held pm unsold found le =
    rw (unsold, found)
      (sell_position-closes w ev held (remember_sell w (sell_key ev.payload) pm) le)

on_fill-closes :
    (w : World) (ev : FillEvent) (held : Position) (pm : PositionManager)
    → contains ev.event_id pm.processed_fill_ids ≡ false
    → ev.payload.side ≡ sell
    → has (sell_key ev.payload) pm.processed_sell_keys ≡ false
    → lookup ev.payload.ticker pm.positions ≡ some held
    → held.quantity ≤ ev.payload.qty
    → lookup ev.payload.ticker (on_fill w ev pm).positions ≡ none
unfolding on_fill remember_fill
on_fill-closes w ev held pm new s unsold found le =
    let noted = remember_fill w ev.event_id pm in
    rw new (
      ap (λ x. lookup ev.payload.ticker x.positions) (take_fill-sell w ev noted s)
      ∙ close_position-closes w ev held noted unsold found le)

-- No check gates an exit: for a position with a positive quantity, any signal but a BUY or a partial sale
-- gives an order for that quantity, in read-only mode too, and leaves the pending tickers alone; and a
-- new fill event of that order for the whole quantity, with an order id that was not sold before,
-- closes the position.
pub on_signal-exits :
    (c : Config) (o : Outside) (p : SignalPayload) (held : Position) (pm : PositionManager)
    (d : Desk) (w : World) (ev : FillEvent)
    → (action_value p.action == "BUY") ≡ false
    → is_partial p.action ≡ false
    → lookup p.ticker pm.positions ≡ some held
    → 0 < held.quantity
    → contains ev.event_id pm.processed_fill_ids ≡ false
    → has (sell_key ev.payload) pm.processed_sell_keys ≡ false
    → ev.payload.side ≡ sell
    → ev.payload.ticker ≡ p.ticker
    → ev.payload.qty ≡ held.quantity
    → let (out, d') = on_signal c o p pm d in
      (out ≡ requested (sell_order o p held.quantity))
      × (d'.pending_tickers ≡ d.pending_tickers)
      × (lookup p.ticker (on_fill w ev pm).positions ≡ none)
unfolding on_signal emit_sell_order
on_signal-exits c o p held pm d w ev exit whole found some_left new unsold s same all =
    let left : eqb held.quantity 0 ≡ false = ground (arith, some_left) in
    let closed =
      on_fill-closes w ev held pm new s unsold (ap (λ t. lookup t pm.positions) same ∙ found)
        (omega (arith, all)) in
    let gone = ap (λ t. lookup t (on_fill w ev pm).positions) (sym same) ∙ closed in
    rw (emit_sell_order, exit, found, whole, left) (refl, refl, gone)
