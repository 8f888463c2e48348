-- ===== src/Positions/Change.antt =====
-- What a call of `class PositionManager` (monitor/position_manager.py) does to the positions, the trade
-- log and the events, as a step relation.
use trading_hub.Base.Text.{upper, lower, has_text}
use trading_hub.Base.{
  ℕ, ◌-◌, ◌<◌, String, ◌≡◌, refl, ◌⊎◌, inl, inr, ◌&&◌, none, some, List, [], ◌∷◌, ◌++◌, arith, ltb,
  if◌then◌else◌, Bool-cases, Option-cases, ◌==◌, nat_eq, string_eq, pair_eq, ◌≤◌, Option, sym, ap,
  subst,
}
use trading_hub.Base.Dict.{Dict, lookup, contains, insert, erase}
use trading_hub.Positions.Model.{
  FillEvent, OrderFailPayload, PositionManager, World, Position, PositionPayload, Trade,
}
use trading_hub.Positions.Seen.{remember_fill, sell_key, remember_sell}
use trading_hub.Positions.Shadow.{
  shadow_buy, shadow_sell, shadow_phantom, book_buy, book_sell, book_phantom,
}
use trading_hub.Positions.Manager.{
  new_position, opened_event, reduced, trade_of, partial_event, closed_event, phantom_event,
  open_position, close_position, sell_position, partial_close, full_close, take_fill, on_fill,
  drop_phantom, on_order_fail,
}
use trading_hub.Positions.Calls.{event_of, world_of, Call, fills, order_fails, perform}
use trading_hub.Ledger.Lot.{Side, buy, sell}
use trading_hub.Ledger.Book.{has, FillLedger}

abbrev pub View : Type 0
View = Dict String Position × List Trade × List PositionPayload × Option FillLedger

abbrev pub view : PositionManager → View
view pm = (pm.positions, pm.trade_log, pm.outbox, pm.ledger)

-- A ledger that is attached is written to.
abbrev pub shadowed : (FillLedger → FillLedger) → Option FillLedger → Option FillLedger
shadowed f none = none
shadowed f (some g) = some (f g)

-- A position is opened by a BUY fill, and by that of the call.
pub data Change (c : Call) : View → View → Type 0 where
  idle : {v : View} → Change c v v
  opens :
      (ev : FillEvent) {ps : Dict String Position} {ts : List Trade} {out : List PositionPayload}
      {l : Option FillLedger}
      → event_of c ≡ some ev
      → ev.payload.side ≡ buy
      → lookup ev.payload.ticker ps ≡ none
      → Change c
          (ps, ts, out, l)
          (
            insert ev.payload.ticker (new_position (world_of c) ev.payload) ps,
            ts,
            out ++ (opened_event ev (new_position (world_of c) ev.payload) ∷ []),
            shadowed (book_buy (world_of c) ev (new_position (world_of c) ev.payload)) l,
          )
  reduces :
      (ev : FillEvent) (held : Position) (qty : ℕ) {ps : Dict String Position} {ts : List Trade}
      {out : List PositionPayload} {l : Option FillLedger}
      → lookup ev.payload.ticker ps ≡ some held
      → qty < held.quantity
      → qty ≡ ev.payload.qty
      → event_of c ≡ some ev
      → Change c
          (ps, ts, out, l)
          (
            insert ev.payload.ticker (reduced (world_of c) ev held qty) ps,
            ts ++ (trade_of (world_of c) ev.payload held qty ∷ []),
            out
                ++ (partial_event ev
                      (reduced (world_of c) ev held qty)
                      (trade_of (world_of c) ev.payload held qty).pnl
                    ∷ []),
            shadowed (book_sell (world_of c) ev) l,
          )
  closes :
      (ev : FillEvent) (held : Position) {ps : Dict String Position} {ts : List Trade}
      {out : List PositionPayload} {l : Option FillLedger}
      → lookup ev.payload.ticker ps ≡ some held
      → held.quantity ≤ ev.payload.qty
      → Change c
          (ps, ts, out, l)
          (
            erase ev.payload.ticker ps,
            ts ++ (trade_of (world_of c) ev.payload held held.quantity ∷ []),
            out
                ++ (closed_event ev held (trade_of (world_of c) ev.payload held held.quantity).pnl
                    ∷ []),
            shadowed (book_sell (world_of c) ev) l,
          )
  drops :
      (ticker : String) (held : Position) {ps : Dict String Position} {ts : List Trade}
      {out : List PositionPayload} {l : Option FillLedger}
      → lookup ticker ps ≡ some held
      → Change c
          (ps, ts, out, l)
          (
            erase ticker ps,
            ts,
            out ++ (phantom_event ticker held ∷ []),
            shadowed (book_phantom (world_of c) ticker held) l,
          )

pub Side-cases : (s : Side) → (s ≡ buy) ⊎ (s ≡ sell)
Side-cases buy = inl refl
Side-cases sell = inr refl

shadow_buy-view :
    (w : World) (ev : FillEvent) (held : Position) (pm : PositionManager)
    → view (shadow_buy w ev held pm)
      ≡ (pm.positions, pm.trade_log, pm.outbox, shadowed (book_buy w ev held) pm.ledger)
unfolding shadow_buy
shadow_buy-view w ev held pm = elim (Option-cases pm.ledger) [
  | inl e ↦ rw e refl
  | inr (g, e) ↦ rw e refl
]

pub shadow_sell-view :
    (w : World) (ev : FillEvent) (pm : PositionManager)
    → view (shadow_sell w ev pm)
      ≡ (pm.positions, pm.trade_log, pm.outbox, shadowed (book_sell w ev) pm.ledger)
unfolding shadow_sell
shadow_sell-view w ev pm = elim (Option-cases pm.ledger) [
  | inl e ↦ rw e refl
  | inr (g, e) ↦ rw e refl
]

shadow_phantom-view :
    (w : World) (ticker : String) (held : Position) (pm : PositionManager)
    → view (shadow_phantom w ticker held pm)
      ≡ (pm.positions, pm.trade_log, pm.outbox, shadowed (book_phantom w ticker held) pm.ledger)
unfolding shadow_phantom
shadow_phantom-view w ticker held pm = elim (Option-cases pm.ledger) [
  | inl e ↦ rw e refl
  | inr (g, e) ↦ rw e refl
]

open_position-Change :
    (w : World) (ev : FillEvent) (pm : PositionManager)
    → ev.payload.side ≡ buy
    → Change (fills w ev) (view pm) (view (open_position w ev pm))
unfolding open_position
open_position-Change w ev pm b = elim (Option-cases (lookup ev.payload.ticker pm.positions)) [
  | inl e ↦ rw (e, shadow_buy-view) (opens ev refl b e)
  | inr (held, e) ↦ rw e idle
]

sell_position-Change :
    (w : World) (ev : FillEvent) (held : Position) (pm : PositionManager)
    → lookup ev.payload.ticker pm.positions ≡ some held
    → Change (fills w ev) (view pm) (view (sell_position w ev held pm))
unfolding sell_position partial_close full_close
sell_position-Change w ev held pm h =
    let qty = if ltb held.quantity ev.payload.qty then held.quantity else ev.payload.qty in
    elim (Bool-cases (ltb 0 (held.quantity - qty))) [
      | inl more ↦
          rw (more, shadow_sell-view)
            (reduces ev held qty h (ground (arith, more)) (ground (arith, more)) refl)
      | inr all ↦
          let sold : qty ≡ held.quantity = ground (arith, all) in
          rw (all, shadow_sell-view, sold) (closes ev held h (ground (arith, all)))
    ]

close_position-Change :
    (w : World) (ev : FillEvent) (pm : PositionManager)
    → Change (fills w ev) (view pm) (view (close_position w ev pm))
unfolding close_position remember_sell
close_position-Change w ev pm =
    elim (Bool-cases (has (sell_key ev.payload) pm.processed_sell_keys)) [
      | inl seen ↦ rw seen idle
      | inr unseen ↦ elim (Option-cases (lookup ev.payload.ticker pm.positions)) [
        | inl e ↦ rw (unseen, e) idle
        | inr (held, e) ↦
            rw (unseen, e)
              (sell_position-Change w ev held (remember_sell w (sell_key ev.payload) pm) e)
      ]
    ]

module _ (w : World) (ev : FillEvent) (pm : PositionManager) where
  take_fill-buy : ev.payload.side ≡ buy → take_fill w ev pm ≡ open_position w ev pm
  unfolding take_fill
  take_fill-buy e =
      ap (λ s. elim s [ buy ↦ open_position w ev pm | sell ↦ close_position w ev pm ]) e

  pub take_fill-sell : ev.payload.side ≡ sell → take_fill w ev pm ≡ close_position w ev pm
  unfolding take_fill
  take_fill-sell e =
      ap (λ s. elim s [ buy ↦ open_position w ev pm | sell ↦ close_position w ev pm ]) e

on_fill-Change :
    (w : World) (ev : FillEvent) (pm : PositionManager)
    → Change (fills w ev) (view pm) (view (on_fill w ev pm))
unfolding on_fill remember_fill
on_fill-Change w ev pm = elim (Bool-cases (contains ev.event_id pm.processed_fill_ids)) [
  | inl seen ↦ rw seen idle
  | inr fresh ↦
      let noted = remember_fill w ev.event_id pm in
      rw fresh (elim (Side-cases ev.payload.side) [
        | inl e ↦
            subst (λ x. Change (fills w ev) (view pm) (view x)) (sym (take_fill-buy w ev noted e))
              (open_position-Change w ev noted e)
        | inr e ↦
            subst (λ x. Change (fills w ev) (view pm) (view x)) (sym (take_fill-sell w ev noted e))
              (close_position-Change w ev noted)
      ])
]

on_order_fail-Change :
    (w : World) (p : OrderFailPayload) (pm : PositionManager)
    → Change (order_fails w p) (view pm) (view (on_order_fail w p pm))
unfolding on_order_fail drop_phantom
on_order_fail-Change w p pm =
    elim (Bool-cases ((upper p.side == "SELL") && has_text "no position" (lower p.reason))) [
      | inl gone ↦ elim (Option-cases (lookup p.ticker pm.positions)) [
        | inl e ↦ rw (gone, e) idle
        | inr (held, e) ↦ rw (gone, e, shadow_phantom-view) (drops p.ticker held e)
      ]
      | inr other ↦ rw other idle
    ]

pub perform-Change : (c : Call) (pm : PositionManager) → Change c (view pm) (view (perform c pm))
perform-Change (fills w ev) pm = on_fill-Change w ev pm
perform-Change (order_fails w p) pm = on_order_fail-Change w p pm
