-- ===== src/Ledger/Append.antt =====
-- The branches of `append` of monitor/fill_ledger.py, and the fields that each changes.
use trading_hub.Base.{
  ℕ, String, ◌≡◌, refl, inl, inr, true, false, List, [], ◌∷◌, ◌++◌, leb, Bool-cases, nat_eq,
  string_eq, pair_eq,
}
use trading_hub.Ledger.Lot.{FillLot, qty_epsilon, LotMatch}
use trading_hub.Ledger.Matcher.{match_sell, is_buy, open_lots}
use trading_hub.Ledger.Book.{FillLedger, has, add, total_qty, open_lots_of}
use trading_hub.Ledger.Ops.{
  append, trim_ids, is_empty, record_lot, apply_sell, apply_buy, finish_append,
}

pub apply_sell_fields :
    (lot : FillLot) (g : FillLedger)
    → let g' = (apply_sell lot g).1 in
      let sold = match_sell lot (open_lots lot.ticker g.lots g.lot_states) g.lot_states in
      (g'.lots ≡ g.lots)
      × (g'.lot_states ≡ sold.1)
      × (g'.processed_lot_ids ≡ g.processed_lot_ids)
      × (g'.matches ≡ g.matches ++ sold.0)
unfolding apply_sell
apply_sell_fields lot g =
    let (ms, states) = match_sell lot (open_lots lot.ticker g.lots g.lot_states) g.lot_states in
    let g' : FillLedger = record g { lot_states = states; matches = g.matches ++ ms } in
    elim (Bool-cases (leb (total_qty g' lot.ticker) qty_epsilon)) [
      | inl e ↦ rw e (refl, refl, refl, refl)
      | inr e ↦ rw e (refl, refl, refl, refl)
    ]

-- What is written behind the lots leaves them and their states alone.
pub finish_append_fields :
    (now : ℕ) (r : List LotMatch × FillLedger)
    → let g' = (finish_append now r).1 in
      (g'.lots ≡ r.1.lots)
      × (g'.lot_states ≡ r.1.lot_states)
      × (g'.processed_lot_ids ≡ r.1.processed_lot_ids)
      × (g'.matches ≡ r.1.matches)
unfolding finish_append
finish_append_fields now r = (refl, refl, refl, refl)

module _ (order : List String → List String) (now : ℕ) (lot : FillLot) (g : FillLedger) where
  pub append-duplicate :
      has lot.lot_id g.processed_lot_ids ≡ true → append order now lot g ≡ ([], g)
  unfolding append
  append-duplicate h = rw h

  pub append-no_open :
      is_buy lot ≡ false
      → is_empty (open_lots_of g lot.ticker) ≡ true
      → append order now lot g ≡ ([], g)
  unfolding append
  append-no_open b e = elim (Bool-cases (has lot.lot_id g.processed_lot_ids)) [
    | inl h ↦ rw h
    | inr h ↦ rw (h, b, e)
  ]

  pub append-buy :
      has lot.lot_id g.processed_lot_ids ≡ false
      → is_buy lot ≡ true
      → append order now lot g ≡ finish_append now (apply_buy lot (record_lot order lot g))
  unfolding append
  append-buy h b = rw (h, b)

  pub append-sell :
      has lot.lot_id g.processed_lot_ids ≡ false
      → is_buy lot ≡ false
      → is_empty (open_lots_of g lot.ticker) ≡ false
      → append order now lot g ≡ finish_append now (apply_sell lot (record_lot order lot g))
  unfolding append
  append-sell h b e = rw (h, b, e)

pub record_lot_fields :
    (order : List String → List String) (lot : FillLot) (g : FillLedger)
    → let g' = record_lot order lot g in
      (g'.lots ≡ g.lots ++ (lot ∷ []))
      × (g'.lot_states ≡ g.lot_states)
      × (g'.processed_lot_ids ≡ trim_ids order (add lot.lot_id g.processed_lot_ids))
      × (g'.matches ≡ g.matches)
unfolding record_lot
record_lot_fields order lot g = (refl, refl, refl, refl)
