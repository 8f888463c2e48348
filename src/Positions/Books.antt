-- ===== src/Positions/Books.antt =====
-- What the writes of `class PositionManager` (monitor/position_manager.py) to the fill ledger do to its
-- open quantities.
use trading_hub.Base.{
  ℕ, ◌+◌, ◌-◌, String, ◌≡◌, refl, sym, ap, ◌∙◌, ◌≢◌, ◌⊎◌, inl, inr, false, ◌&&◌, none, some, List,
  arith, ltb, leb, if◌then◌else◌, Bool-cases, Option-cases, All, ◌==◌, nat_eq, string_eq, pair_eq,
  ap₂, subst,
}
use trading_hub.Base.Dict.{lookup}
use trading_hub.Positions.Model.{FillEvent, World, Position}
use trading_hub.Positions.Shadow.{
  buy_lot, sell_lot, phantom_lot, book_buy, book_sell, book_phantom, meta_of_position,
}
use trading_hub.Ledger.Lot.{FillLot, make_lot, PositionMeta, qty_epsilon}
use trading_hub.Ledger.Matcher.{is_buy, open_lots, total_remaining}
use trading_hub.Ledger.Fifo.{Distinct}
use trading_hub.Ledger.Book.{
  FillLedger, has, total_qty, set_meta, open_lots_of, open_tickers, persist,
}
use trading_hub.Ledger.Ops.{
  append, is_empty, patch_partial_done, finish_append, apply_buy, record_lot,
}
use trading_hub.Ledger.Append.{append-buy, append-sell, append-no_open, apply_sell_fields}
use trading_hub.Ledger.Counter.{append-total_qty, moved, Distinct-snoc}

-- The id of a new lot occurs nowhere in the ledger.
abbrev pub IsNew : String → FillLedger → Type 0
IsNew k g = All (λ c. c.lot_id ≢ k) g.lots × (has k g.processed_lot_ids ≡ false)

module _ (order : List String → List String) (now : ℕ) (lot : FillLot) (g : FillLedger)
    (distinct : Distinct g.lots) (new : IsNew lot.lot_id g) where
  append-Distinct : Distinct (append order now lot g).1.lots
  unfolding record_lot apply_buy finish_append
  append-Distinct =
      let longer = Distinct-snoc g.lots lot distinct new.0 in
      elim (Bool-cases (is_buy lot)) [
        | inl b ↦ rw (append-buy order now lot g new.1 b) longer
        | inr b ↦ elim (Bool-cases (is_empty (open_lots_of g lot.ticker))) [
          | inl e ↦ rw (append-no_open order now lot g b e) distinct
          | inr e ↦
              subst Distinct
                (sym (
                  ap (λ r. r.1.lots) (append-sell order now lot g new.1 b e)
                  ∙ (apply_sell_fields lot (record_lot order lot g)).0))
                longer
        ]
      ]

  append-moves :
      (t : String)
      → total_qty (append order now lot g).1 t
        ≡ (if lot.ticker == t then moved lot (total_qty g t) else total_qty g t)
  append-moves = append-total_qty order now lot g distinct new.0 new.1

-- The open quantity of one ticker moves, every other one stays.
abbrev pub BookMoves : String → (ℕ → ℕ) → FillLedger → FillLedger → Type 0
BookMoves ticker f g g' =
    Distinct g'.lots
    × ((t : String) → total_qty g' t ≡ (if ticker == t then f (total_qty g t) else total_qty g t))

-- Only the lots and their states count.
BookMoves-same :
    (ticker : String) (f : ℕ → ℕ) (g a b : FillLedger)
    → b.lots ≡ a.lots
    → b.lot_states ≡ a.lot_states
    → BookMoves ticker f g a
    → BookMoves ticker f g b
unfolding total_qty open_lots_of
BookMoves-same ticker f g a b l s h =
    (subst Distinct (sym l) h.0, λ t. ap₂ (λ x y. total_remaining y (open_lots t x y)) l s ∙ h.1 t)

set_meta_fields :
    (now : ℕ) (ticker : String) (meta : PositionMeta) (g : FillLedger)
    → ((set_meta now ticker meta g).lots ≡ g.lots)
      × ((set_meta now ticker meta g).lot_states ≡ g.lot_states)
unfolding set_meta persist open_tickers
set_meta_fields now ticker meta g = elim (Option-cases g.open_tickers_cache) [
  | inl e ↦ rw e (refl, refl)
  | inr (ts, e) ↦ rw e (refl, refl)
]

patch_fields :
    (ticker : String) (g : FillLedger)
    → ((patch_partial_done ticker g).lots ≡ g.lots)
      × ((patch_partial_done ticker g).lot_states ≡ g.lot_states)
unfolding patch_partial_done
patch_fields ticker g = elim (Option-cases (lookup ticker g.position_meta)) [
  | inl e ↦ rw (patch_partial_done, e) (refl, refl)
  | inr (m, e) ↦ rw (patch_partial_done, e) (refl, refl)
]

make_lot-cases :
    (lot : FillLot) → ((make_lot lot ≡ none) × (lot.qty ≡ 0)) ⊎ (make_lot lot ≡ some lot)
unfolding make_lot
make_lot-cases lot = elim (Bool-cases (leb lot.qty qty_epsilon)) [
  | inl e ↦ inl (rw e refl, ground (arith, e))
  | inr e ↦ inr (rw e refl)
]

module _ (w : World) (g : FillLedger) (distinct : Distinct g.lots) (new : IsNew w.uuid g) where
  taken :
      (lot : FillLot)
      → lot.lot_id ≡ w.uuid
      → BookMoves lot.ticker (moved lot) g (append w.order w.now lot g).1
  taken lot e =
      let new' : IsNew lot.lot_id g = subst (λ k. IsNew k g) (sym e) new in
      (
        append-Distinct w.order w.now lot g distinct new',
        append-moves w.order w.now lot g distinct new',
      )

  pub book_buy-moves :
      (ev : FillEvent) (held : Position)
      → BookMoves ev.payload.ticker (λ n. n + ev.payload.qty) g (book_buy w ev held g)
  unfolding book_buy
  book_buy-moves ev held =
      let lot = buy_lot w ev held.strategy in
      let ticker = ev.payload.ticker in
      let g' = (append w.order w.now lot g).1 in
      elim (make_lot-cases lot) [
        | inl (e, z) ↦
            let goes : book_buy w ev held g ≡ g = rw (book_buy, e) refl in
            subst (BookMoves ticker (λ n. n + ev.payload.qty) g) (sym goes)
              (distinct, λ t. ground (arith, z))
        | inr e ↦
            let same = set_meta_fields w.now ticker (meta_of_position held) g' in
            let goes : book_buy w ev held g ≡ set_meta w.now ticker (meta_of_position held) g' =
              rw (book_buy, e) refl in
            subst (BookMoves ticker (λ n. n + ev.payload.qty) g) (sym goes) (
              BookMoves-same ticker (moved lot) g g'
                (set_meta w.now ticker (meta_of_position held) g') same.0 same.1 (taken lot refl))
      ]

  pub book_sell-moves :
      (ev : FillEvent) → BookMoves ev.payload.ticker (λ n. n - ev.payload.qty) g (book_sell w ev g)
  unfolding book_sell
  book_sell-moves ev =
      let lot = sell_lot w ev in
      let ticker = ev.payload.ticker in
      let g' = (append w.order w.now lot g).1 in
      let meets = ltb qty_epsilon (total_qty g' ticker) && (ev.payload.reason == "PARTIAL_SELL") in
      elim (make_lot-cases lot) [
        | inl (e, z) ↦
            let goes : book_sell w ev g ≡ g = rw (book_sell, e) refl in
            subst (BookMoves ticker (λ n. n - ev.payload.qty) g) (sym goes)
              (distinct, λ t. ground (arith, z))
        | inr e ↦ elim (Bool-cases meets) [
          | inl m ↦
              let same = patch_fields ticker g' in
              let goes : book_sell w ev g ≡ patch_partial_done ticker g' =
                rw (book_sell, e, m) refl in
              subst (BookMoves ticker (λ n. n - ev.payload.qty) g) (sym goes) (
                BookMoves-same ticker (moved lot) g g' (patch_partial_done ticker g') same.0 same.1
                  (taken lot refl))
          | inr m ↦
              let goes : book_sell w ev g ≡ g' = rw (book_sell, e, m) refl in
              subst (BookMoves ticker (λ n. n - ev.payload.qty) g) (sym goes) (taken lot refl)
        ]
      ]

  pub book_phantom-moves :
      (ticker : String) (held : Position)
      → BookMoves ticker (λ n. n - held.quantity) g (book_phantom w ticker held g)
  unfolding book_phantom
  book_phantom-moves ticker held =
      let lot = phantom_lot w ticker held in
      elim (make_lot-cases lot) [
        | inl (e, z) ↦
            let goes : book_phantom w ticker held g ≡ g = rw (book_phantom, e) refl in
            subst (BookMoves ticker (λ n. n - held.quantity) g) (sym goes)
              (distinct, λ t. ground (arith, z))
        | inr e ↦
            let goes : book_phantom w ticker held g ≡ (append w.order w.now lot g).1 =
              rw (book_phantom, e) refl in
            subst (BookMoves ticker (λ n. n - held.quantity) g) (sym goes) (taken lot refl)
      ]
