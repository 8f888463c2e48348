-- ===== src/Positions/Mirror.antt =====
-- `class StateEngine` (monitor/state_engine.py) behind `class PositionManager`
-- (monitor/position_manager.py): the snapshot follows the POSITION events.
use trading_hub.Base.{
  String, ◌≡◌, refl, sym, ap, ◌∙◌, inl, inr, List, [], ◌∷◌, ◌++◌, arith, Bool-cases, ◌==◌, nat_eq,
  string_eq, pair_eq,
}
use trading_hub.Base.Dict.{Dict, insert, erase}
use trading_hub.Base.Int.{ℤ, pos, ◌+ℤ◌, +ℤ_parts, eq_of_parts, int_laws}
use trading_hub.Positions.Model.{PositionPayload, PositionManager, Trade, snapshot_of_position}
use trading_hub.Positions.Engine.{Outcome, StateEngine, map_values, on_position, follow, sum_pnl}
use trading_hub.Positions.Calls.{Call, perform, perform_all, world_of}
use trading_hub.Positions.Change.{
  View, view, Change, idle, opens, reduces, closes, drops, perform-Change,
}
use trading_hub.Positions.Manager.{trade_of, new_position, reduced}

module _ {ℓ κ} {A : Type ℓ} {B : Type κ} (f : A → B) where
  map_values-insert :
      (k : String) (v : A) (d : Dict String A)
      → map_values f (insert k v d) ≡ insert k (f v) (map_values f d)
  map_values-insert k v [] = refl
  map_values-insert k v ((j, w) ∷ d) = elim (Bool-cases (j == k)) [
    | inl e ↦ rw e refl
    | inr e ↦ rw e (ap (λ t. (j, f w) ∷ t) (map_values-insert k v d))
  ]

  map_values-erase :
      (k : String) (d : Dict String A) → map_values f (erase k d) ≡ erase k (map_values f d)
  map_values-erase k [] = refl
  map_values-erase k ((j, w) ∷ d) = elim (Bool-cases (j == k)) [
    | inl e ↦ rw e (map_values-erase k d)
    | inr e ↦ rw e (ap (λ t. (j, f w) ∷ t) (map_values-erase k d))
  ]

follow-snoc :
    (es : List PositionPayload) (e : PositionPayload) (s : StateEngine)
    → follow (es ++ (e ∷ [])) s ≡ on_position e (follow es s)
unfolding follow
follow-snoc [] e s = refl
follow-snoc (d ∷ es) e s = follow-snoc es e (on_position d s)

+ℤ_zero : (a : ℤ) → a +ℤ pos 0 ≡ a
+ℤ_zero a = eq_of_parts (a +ℤ pos 0) a (omega (arith, +ℤ_parts a (pos 0)))

sum_pnl-snoc : (os : List Outcome) (o : Outcome) → sum_pnl (os ++ (o ∷ [])) ≡ sum_pnl os +ℤ o.pnl
sum_pnl-snoc [] o = grind int_laws
sum_pnl-snoc (x ∷ os) o = grind (int_laws, sum_pnl-snoc os o)

abbrev pub sum_trades : List Trade → ℤ
sum_trades [] = pos 0
sum_trades (t ∷ ts) = t.pnl +ℤ sum_trades ts

sum_trades-snoc :
    (ts : List Trade) (t : Trade) → sum_trades (ts ++ (t ∷ [])) ≡ sum_trades ts +ℤ t.pnl
sum_trades-snoc [] t = grind int_laws
sum_trades-snoc (x ∷ ts) t = grind (int_laws, sum_trades-snoc ts t)

-- The engine that followed the events from `s` shows the positions, and has the P&L of the trades.
abbrev pub MirrorsView : StateEngine → View → Type 0
MirrorsView s (ps, ts, out, l) =
    ((follow out s).positions ≡ map_values snapshot_of_position ps)
    × (sum_pnl (follow out s).trade_log ≡ sum_trades ts)

Change-MirrorsView :
    (s : StateEngine) (c : Call) {v v' : View} → Change c v v' → MirrorsView s v → MirrorsView s v'
unfolding on_position
Change-MirrorsView s c idle h = h
Change-MirrorsView s c (opens ev {ps} {ts} {out} _ _ fresh) h =
    let held = new_position (world_of c) ev.payload in
    rw follow-snoc (
      ap (insert ev.payload.ticker (snapshot_of_position held)) h.0
          ∙ sym (map_values-insert snapshot_of_position ev.payload.ticker held ps),
      h.1,
    )
Change-MirrorsView s c (reduces ev held qty {ps} {ts} {out} found less whole is_event) h =
    let left = reduced (world_of c) ev held qty in
    let trade = trade_of (world_of c) ev.payload held qty in
    rw (follow-snoc, sum_pnl-snoc, sum_trades-snoc)
      (
        ap (insert ev.payload.ticker (snapshot_of_position left)) h.0
            ∙ sym (map_values-insert snapshot_of_position ev.payload.ticker left ps),
        ap (λ z. z +ℤ trade.pnl) h.1,
      )
Change-MirrorsView s c (closes ev held {ps} {ts} {out} found over) h =
    let trade = trade_of (world_of c) ev.payload held held.quantity in
    rw (follow-snoc, sum_pnl-snoc, sum_trades-snoc)
      (
        ap (erase ev.payload.ticker) h.0
            ∙ sym (map_values-erase snapshot_of_position ev.payload.ticker ps),
        ap (λ z. z +ℤ trade.pnl) h.1,
      )
Change-MirrorsView s c (drops ticker held {ps} {ts} {out} found) h =
    rw (follow-snoc, sum_pnl-snoc)
      (
        ap (erase ticker) h.0 ∙ sym (map_values-erase snapshot_of_position ticker ps),
        +ℤ_zero (sum_pnl (follow out s).trade_log) ∙ h.1,
      )

abbrev pub Mirrors : StateEngine → PositionManager → Type 0
Mirrors s pm = MirrorsView s (view pm)

-- After any history of fills and failed orders, the state engine that followed the POSITION events from
-- a snapshot that mirrors the manager mirrors it again: it has the same open positions in the same
-- order, with the fields of the manager, and the P&L of its outcomes is the sum over the trade log.
pub perform_all-Mirrors :
    (cs : List Call) (s : StateEngine) (pm : PositionManager)
    → Mirrors s pm
    → Mirrors s (perform_all cs pm)
unfolding perform_all
perform_all-Mirrors [] s pm h = h
perform_all-Mirrors (c ∷ cs) s pm h =
    perform_all-Mirrors cs s (perform c pm) (Change-MirrorsView s c (perform-Change c pm) h)
