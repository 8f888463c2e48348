-- ===== src/Positions/Agree.antt =====
-- The positions of `class PositionManager` (monitor/position_manager.py) against the lots of
-- `class FillLedger` (monitor/fill_ledger.py), which it writes alongside.
use trading_hub.Base.{
  ℕ, ◌+◌, ◌-◌, String, ◌≡◌, refl, sym, ap, ◌∙◌, inl, inr, Option, none, some, arith, if◌then◌else◌,
  Bool-cases, ◌==◌, nat_eq, string_eq, pair_eq, eq_of_beq, ◌<◌, subst,
}
use trading_hub.Base.Dict.{Dict, lookup, insert, erase, lookup-insert, lookup-erase}
use trading_hub.Positions.Model.{Position, PositionManager, FillEvent}
use trading_hub.Positions.Calls.{Call, perform, world_of, event_of}
use trading_hub.Positions.Change.{View, Change, idle, opens, reduces, closes, drops, perform-Change}
use trading_hub.Positions.Books.{
  IsNew, BookMoves, book_buy-moves, book_sell-moves, book_phantom-moves,
}
use trading_hub.Positions.Manager.{new_position, reduced}
use trading_hub.Positions.Shadow.{book_buy, book_sell, book_phantom}
use trading_hub.Ledger.Fifo.{Distinct}
use trading_hub.Ledger.Book.{FillLedger, total_qty}

abbrev quantity_of : Option Position → ℕ
quantity_of none = 0
quantity_of (some p) = p.quantity

abbrev pub open_quantity : String → Dict String Position → ℕ
open_quantity t ps = quantity_of (lookup t ps)

-- Every ticker has the same quantity on both sides, and no two lots share an id.
abbrev pub AgreesWith : Dict String Position → Option FillLedger → Type 0
AgreesWith ps none = Unit
AgreesWith ps (some g) = Distinct g.lots × ((t : String) → total_qty g t ≡ open_quantity t ps)

abbrev pub IsNewTo : String → Option FillLedger → Type 0
IsNewTo k none = Unit
IsNewTo k (some g) = IsNew k g

-- A move of the ledger is matched by a change of the positions.
AgreesWith-moves :
    (ticker : String) (f : ℕ → ℕ) (ps ps' : Dict String Position) (g g' : FillLedger)
    → BookMoves ticker f g g'
    → ((t : String)
        → open_quantity t ps'
          ≡ (if ticker == t then f (open_quantity t ps) else open_quantity t ps))
    → AgreesWith ps (some g)
    → AgreesWith ps' (some g')
AgreesWith-moves ticker f ps ps' g g' m q h =
    (m.0, λ t. m.1 t ∙ ap (λ n. if ticker == t then f n else n) (h.1 t) ∙ sym (q t))

module _ (ticker : String) (ps : Dict String Position) where
  quantity-insert :
      (f : ℕ → ℕ) (p : Position)
      → p.quantity ≡ f (open_quantity ticker ps)
      → (t : String)
      → open_quantity t (insert ticker p ps)
        ≡ (if ticker == t then f (open_quantity t ps) else open_quantity t ps)
  quantity-insert f p e t = elim (Bool-cases (ticker == t)) [
    | inl same ↦
        let here : ticker ≡ t = eq_of_beq ticker t same in
        rw (lookup-insert ticker t p ps, same) (e ∙ ap (λ u. f (open_quantity u ps)) here)
    | inr other ↦ rw (lookup-insert ticker t p ps, other) refl
  ]

  quantity-erase :
      (f : ℕ → ℕ)
      → 0 ≡ f (open_quantity ticker ps)
      → (t : String)
      → open_quantity t (erase ticker ps)
        ≡ (if ticker == t then f (open_quantity t ps) else open_quantity t ps)
  quantity-erase f e t = elim (Bool-cases (ticker == t)) [
    | inl same ↦
        let here : ticker ≡ t = eq_of_beq ticker t same in
        rw (lookup-erase ticker t ps, same) (e ∙ ap (λ u. f (open_quantity u ps)) here)
    | inr other ↦ rw (lookup-erase ticker t ps, other) refl
  ]

abbrev AgreesView : View → Type 0
AgreesView (ps, ts, out, l) = AgreesWith ps l

abbrev IsNewView : String → View → Type 0
IsNewView k (ps, ts, out, l) = IsNewTo k l

-- The difference that a partial sale by the call takes of the position it finds is exact, as it is for
-- whole shares.
abbrev pub IsExactFor : Call → Dict String Position → Type 0
IsExactFor c ps =
    (ev : FillEvent) (held : Position)
    → event_of c ≡ some ev
    → lookup ev.payload.ticker ps ≡ some held
    → ev.payload.qty < held.quantity
    → (world_of c).difference held.quantity ev.payload.qty ≡ held.quantity - ev.payload.qty

Change-AgreesView :
    (c : Call) {v v' : View}
    → Change c v v'
    → IsNewView (world_of c).uuid v
    → IsExactFor c v.0
    → AgreesView v
    → AgreesView v'
unfolding new_position
Change-AgreesView c idle n x h = h
Change-AgreesView c (opens ev {ps} {ts} {out} {l = none} _ _ fresh) n x h = tt
Change-AgreesView c (opens ev {ps} {ts} {out} {l = some g} _ _ fresh) n x h =
    let held = new_position (world_of c) ev.payload in
    AgreesWith-moves ev.payload.ticker (λ k. k + ev.payload.qty) ps
      (insert ev.payload.ticker held ps) g (book_buy (world_of c) ev held g)
      (book_buy-moves (world_of c) g h.0 n ev held)
      (quantity-insert ev.payload.ticker ps (λ k. k + ev.payload.qty) held (rw fresh (omega arith)))
      h
Change-AgreesView c (reduces ev held qty {ps} {ts} {out} {l = none} found less whole is_event) n x
      h =
    tt
Change-AgreesView c (reduces ev held qty {ps} {ts} {out} {l = some g} found less whole is_event) n x
      h =
    let left = reduced (world_of c) ev held qty in
    AgreesWith-moves ev.payload.ticker (λ k. k - ev.payload.qty) ps
      (insert ev.payload.ticker left ps) g (book_sell (world_of c) ev g)
      (book_sell-moves (world_of c) g h.0 n ev)
      (quantity-insert ev.payload.ticker ps (λ k. k - ev.payload.qty) left
        (rw found (
          ap ((world_of c).difference held.quantity) whole
          ∙ x ev held is_event found (subst (λ k. k < held.quantity) whole less))))
      h
Change-AgreesView c (closes ev held {ps} {ts} {out} {l = none} found over) n x h = tt
Change-AgreesView c (closes ev held {ps} {ts} {out} {l = some g} found over) n x h =
    AgreesWith-moves ev.payload.ticker (λ k. k - ev.payload.qty) ps (erase ev.payload.ticker ps) g
      (book_sell (world_of c) ev g) (book_sell-moves (world_of c) g h.0 n ev)
      (quantity-erase ev.payload.ticker ps (λ k. k - ev.payload.qty) (rw found (omega arith))) h
Change-AgreesView c (drops ticker held {ps} {ts} {out} {l = none} found) n x h = tt
Change-AgreesView c (drops ticker held {ps} {ts} {out} {l = some g} found) n x h =
    AgreesWith-moves ticker (λ k. k - held.quantity) ps (erase ticker ps) g
      (book_phantom (world_of c) ticker held g)
      (book_phantom-moves (world_of c) g h.0 n ticker held)
      (quantity-erase ticker ps (λ k. k - held.quantity) (rw found (omega arith))) h

abbrev pub Agrees : PositionManager → Type 0
Agrees pm = AgreesWith pm.positions pm.ledger

-- If the id that a call draws for its lot is new to the ledger and the difference that a partial sale takes
-- is exact, and before the call every ticker had the same open quantity in the positions and in the
-- ledger and no two lots shared an id, then all this holds after the call too: for opening and ignored
-- fills, partial and full sales, overfills, repeated orders and events, and the removal of a phantom.
-- (Without a ledger nothing is claimed.)
pub perform-Agrees :
    (c : Call) (pm : PositionManager)
    → IsNewTo (world_of c).uuid pm.ledger
    → IsExactFor c pm.positions
    → Agrees pm
    → Agrees (perform c pm)
perform-Agrees c pm = Change-AgreesView c (perform-Change c pm)
