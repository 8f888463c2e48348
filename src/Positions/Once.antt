-- ===== src/Positions/Once.antt =====
-- The two guards of `class PositionManager` (monitor/position_manager.py) against repeated fills.
use trading_hub.Base.Text.{lower, has_text, upper}
use trading_hub.Base.{
  ℕ, ◌+◌, ◌-◌, ◌≤◌, String, ◌≡◌, refl, ◌∙◌, ◌≢◌, inl, inr, false, ◌&&◌, some, List, [], ◌∷◌, arith,
  ltb, if◌then◌else◌, Bool-cases, Option-cases, All, ◌==◌, nat_eq, string_eq, pair_eq,
}
use trading_hub.Base.Dict.{Dict, lookup, contains, insert, lookup-insert_self, lookup-insert_ne}
use trading_hub.Positions.Model.{FillEvent, OrderFailPayload, PositionManager, World, Position}
use trading_hub.Positions.Seen.{evict_seen, remember_fill, remember_sell, sell_key}
use trading_hub.Positions.Shadow.{shadow_buy, shadow_sell, shadow_phantom}
use trading_hub.Positions.Manager.{
  open_position, close_position, sell_position, partial_close, full_close, take_fill, on_fill,
  drop_phantom, on_order_fail,
}
use trading_hub.Positions.Calls.{Call, fills, order_fails, world_of, perform, perform_all}
use trading_hub.Positions.Change.{Side-cases}
use trading_hub.Ledger.Book.{has}

evict_seen-keeps :
    (m t : ℕ) (k : String) (d : Dict String ℕ)
    → lookup k d ≡ some t
    → m ≤ t + 3600
    → lookup k (evict_seen m d) ≡ some t
unfolding evict_seen
evict_seen-keeps m t k [] h le = h
evict_seen-keeps m t k ((j, s) ∷ d) h le = ground (arith, evict_seen-keeps m t k d)

shadow_buy-ids :
    (w : World) (ev : FillEvent) (held : Position) (pm : PositionManager)
    → (shadow_buy w ev held pm).processed_fill_ids ≡ pm.processed_fill_ids
unfolding shadow_buy
shadow_buy-ids w ev held pm = elim (Option-cases pm.ledger) [
  | inl e ↦ rw e refl
  | inr (g, e) ↦ rw e refl
]

shadow_sell-ids :
    (w : World) (ev : FillEvent) (pm : PositionManager)
    → (shadow_sell w ev pm).processed_fill_ids ≡ pm.processed_fill_ids
unfolding shadow_sell
shadow_sell-ids w ev pm = elim (Option-cases pm.ledger) [
  | inl e ↦ rw e refl
  | inr (g, e) ↦ rw e refl
]

open_position-ids :
    (w : World) (ev : FillEvent) (pm : PositionManager)
    → (open_position w ev pm).processed_fill_ids ≡ pm.processed_fill_ids
unfolding open_position
open_position-ids w ev pm = elim (Bool-cases (contains ev.payload.ticker pm.positions)) [
  | inl e ↦ rw e refl
  | inr e ↦ rw (e, shadow_buy-ids) refl
]

sell_position-ids :
    (w : World) (ev : FillEvent) (held : Position) (pm : PositionManager)
    → (sell_position w ev held pm).processed_fill_ids ≡ pm.processed_fill_ids
unfolding sell_position partial_close full_close
sell_position-ids w ev held pm =
    let qty = if ltb held.quantity ev.payload.qty then held.quantity else ev.payload.qty in
    elim (Bool-cases (ltb 0 (held.quantity - qty))) [
      | inl e ↦ rw (e, shadow_sell-ids) refl
      | inr e ↦ rw (e, shadow_sell-ids) refl
    ]

close_position-ids :
    (w : World) (ev : FillEvent) (pm : PositionManager)
    → (close_position w ev pm).processed_fill_ids ≡ pm.processed_fill_ids
unfolding close_position remember_sell
close_position-ids w ev pm = elim (Bool-cases (has (sell_key ev.payload) pm.processed_sell_keys)) [
  | inl e ↦ rw e refl
  | inr e ↦ elim (Option-cases (lookup ev.payload.ticker pm.positions)) [
    | inl f ↦ rw (e, f) refl
    | inr (held, f) ↦
        rw (e, f) (sell_position-ids w ev held (remember_sell w (sell_key ev.payload) pm))
  ]
]

take_fill-ids :
    (w : World) (ev : FillEvent) (pm : PositionManager)
    → (take_fill w ev pm).processed_fill_ids ≡ pm.processed_fill_ids
unfolding take_fill
take_fill-ids w ev pm = elim (Side-cases ev.payload.side) [
  | inl e ↦ rw e (open_position-ids w ev pm)
  | inr e ↦ rw e (close_position-ids w ev pm)
]

drop_phantom-ids :
    (w : World) (ticker : String) (held : Position) (pm : PositionManager)
    → (drop_phantom w ticker held pm).processed_fill_ids ≡ pm.processed_fill_ids
unfolding drop_phantom shadow_phantom
drop_phantom-ids w ticker held pm = elim (Option-cases pm.ledger) [
  | inl e ↦ rw e refl
  | inr (g, e) ↦ rw e refl
]

on_order_fail-ids :
    (w : World) (p : OrderFailPayload) (pm : PositionManager)
    → (on_order_fail w p pm).processed_fill_ids ≡ pm.processed_fill_ids
unfolding on_order_fail
on_order_fail-ids w p pm =
    elim (Bool-cases ((upper p.side == "SELL") && has_text "no position" (lower p.reason))) [
      | inl gone ↦ elim (Option-cases (lookup p.ticker pm.positions)) [
        | inl e ↦ rw (gone, e) refl
        | inr (held, e) ↦ rw (gone, e) (drop_phantom-ids w p.ticker held pm)
      ]
      | inr other ↦ rw other refl
    ]

-- A first fill is remembered with its time.
on_fill-remembers :
    (w : World) (ev : FillEvent) (pm : PositionManager)
    → contains ev.event_id pm.processed_fill_ids ≡ false
    → lookup ev.event_id (on_fill w ev pm).processed_fill_ids ≡ some w.mono
unfolding on_fill remember_fill
on_fill-remembers w ev pm new =
    rw (new, take_fill-ids)
      (evict_seen-keeps w.mono w.mono ev.event_id (insert ev.event_id w.mono pm.processed_fill_ids)
        (lookup-insert_self ev.event_id w.mono pm.processed_fill_ids) (omega arith))

-- A call within the hour keeps what is remembered.
perform-keeps :
    (c : Call) (k : String) (t : ℕ) (pm : PositionManager)
    → lookup k pm.processed_fill_ids ≡ some t
    → (world_of c).mono ≤ t + 3600
    → lookup k (perform c pm).processed_fill_ids ≡ some t
unfolding on_fill remember_fill
perform-keeps (order_fails w p) k t pm h le = rw on_order_fail-ids h
perform-keeps (fills w ev) k t pm h le =
    elim (Bool-cases (contains ev.event_id pm.processed_fill_ids)) [
      | inl seen ↦ rw seen h
      | inr new ↦
          let other : ev.event_id ≢ k = λ e. cc in
          rw (new, take_fill-ids)
            (evict_seen-keeps w.mono t k (insert ev.event_id w.mono pm.processed_fill_ids)
              (lookup-insert_ne ev.event_id k w.mono pm.processed_fill_ids other ∙ h) le)
    ]

perform_all-keeps :
    (cs : List Call) (k : String) (t : ℕ) (pm : PositionManager)
    → lookup k pm.processed_fill_ids ≡ some t
    → All (λ c. (world_of c).mono ≤ t + 3600) cs
    → lookup k (perform_all cs pm).processed_fill_ids ≡ some t
unfolding perform_all
perform_all-keeps [] k t pm h le = h
perform_all-keeps (c ∷ cs) k t pm h le =
    perform_all-keeps cs k t (perform c pm) (perform-keeps c k t pm h le.0) le.1

-- If a fill event is new when it is handled, then whatever fills and failed orders are handled up to
-- an hour later, the same event, or any other with its id, changes nothing any more.
pub on_fill-once :
    (w w' : World) (ev ev' : FillEvent) (cs : List Call) (pm : PositionManager)
    → contains ev.event_id pm.processed_fill_ids ≡ false
    → All (λ c. (world_of c).mono ≤ w.mono + 3600) cs
    → ev'.event_id ≡ ev.event_id
    → let pm' = perform_all cs (on_fill w ev pm) in on_fill w' ev' pm' ≡ pm'
unfolding on_fill
on_fill-once w w' ev ev' cs pm new within same =
    let there =
      perform_all-keeps cs ev.event_id w.mono (on_fill w ev pm) (on_fill-remembers w ev pm new)
        within in
    rw (same, there) refl
