-- ===== src/Ledger/Counter.antt =====
-- `append` of monitor/fill_ledger.py and a position counter.
use trading_hub.Base.{
  ℕ, ◌+◌, ◌-◌, String, ◌≡◌, refl, sym, ap, ◌∙◌, ◌≢◌, inl, inr, true, false, List, [], ◌∷◌, ◌++◌,
  arith, if◌then◌else◌, Bool-cases, keep, All, All-append, ◌==◌, nat_eq, string_eq, pair_eq, eq_iff,
  ap₂, subst,
}
use trading_hub.Base.Dict.{insert, lookup-insert_self}
use trading_hub.Ledger.Lot.{FillLot, LotState, new_state}
use trading_hub.Ledger.Matcher.{
  States, remaining_of, total_remaining, is_buy, open_lots, match_sell,
}
use trading_hub.Ledger.Fifo.{Distinct, total_remaining-insert}
use trading_hub.Ledger.Book.{FillLedger, has, open_lots_of, total_qty}
use trading_hub.Ledger.Ops.{append, is_empty, record_lot, apply_buy, finish_append}
use trading_hub.Ledger.Position.{
  total_of, is_buy_of, All-keep, All-map, total_of-eq-open, is_open_of, match_sell-agree,
  total_of-match_sell, total_of-agree_other,
}
use trading_hub.Ledger.Append.{append-buy, apply_sell_fields, append-no_open, append-sell}

total_qty-eq-total_of :
    (g : FillLedger) (t : String) → total_qty g t ≡ total_of t g.lots g.lot_states
unfolding total_qty open_lots
total_qty-eq-total_of g t = sym (total_of-eq-open t g.lots g.lot_states)

total_of-snoc :
    (t : String) (lots : List FillLot) (lot : FillLot) (st : States)
    → total_of t (lots ++ (lot ∷ [])) st
      ≡ total_of t lots st + (if is_buy_of t lot then remaining_of st lot else 0)
unfolding total_of
total_of-snoc t [] lot st = ground arith
total_of-snoc t (c ∷ lots) lot st = ground (arith, total_of-snoc t lots lot st)

pub Distinct-snoc :
    (lots : List FillLot) (lot : FillLot)
    → Distinct lots
    → All (λ c. c.lot_id ≢ lot.lot_id) lots
    → Distinct (lots ++ (lot ∷ []))
Distinct-snoc [] lot d f = (tt, tt)
Distinct-snoc (c ∷ lots) lot d f = (
  All-append (λ e. c.lot_id ≢ e.lot_id) lots (lot ∷ []) d.0 (f.0, tt),
  Distinct-snoc lots lot d.1 f.1,
)

-- A write to the state of a lot that is not in the list.
total_of-insert :
    (t : String) (k : String) (v : LotState) (lots : List FillLot) (st : States)
    → All (λ c. c.lot_id ≢ k) lots
    → total_of t lots (insert k v st) ≡ total_of t lots st
unfolding total_of
total_of-insert t k v lots st f =
    total_remaining-insert k v (keep (is_buy_of t) lots) st
      (All-keep (λ c. k ≢ c.lot_id) (is_buy_of t) lots (All-map (λ c ne e. ne (sym e)) lots f))

-- What a lot does to a counter of its own ticker.
abbrev pub moved : FillLot → ℕ → ℕ
moved lot n = if is_buy lot then n + lot.qty else n - lot.qty

empty-total : (st : States) (bs : List FillLot) → is_empty bs ≡ true → total_remaining st bs ≡ 0
empty-total st [] h = refl
empty-total st (b ∷ bs) h = cc

module _ (order : List String → List String) (now : ℕ) (lot : FillLot) (g : FillLedger)
    (distinct : Distinct g.lots) (fresh : All (λ c. c.lot_id ≢ lot.lot_id) g.lots)
    (unseen : has lot.lot_id g.processed_lot_ids ≡ false) where
  counter-buy :
      (t : String)
      → is_buy lot ≡ true
      → total_qty (append order now lot g).1 t
        ≡ (if lot.ticker == t then moved lot (total_qty g t) else total_qty g t)
  unfolding apply_buy finish_append record_lot
  counter-buy t b =
      let v = new_state lot in
      ap (λ r. total_qty r.1 t) (append-buy order now lot g unseen b)
      ∙ total_qty-eq-total_of (finish_append now (apply_buy lot (record_lot order lot g))).1 t
      ∙ total_of-snoc t g.lots lot (insert lot.lot_id v g.lot_states)
      ∙ ground (
        arith,
        b,
        total_of-insert t lot.lot_id v g.lots g.lot_states fresh,
        total_qty-eq-total_of g t,
        lookup-insert_self lot.lot_id v g.lot_states,
      )

  sell_fields :
      is_buy lot ≡ false
      → is_empty (open_lots_of g lot.ticker) ≡ false
      → let lots' = g.lots ++ (lot ∷ []) in
        let st = g.lot_states in
        let g' = (append order now lot g).1 in
        (g'.lots ≡ lots')
        × (g'.lot_states ≡ (match_sell lot (keep (is_open_of lot.ticker st) lots') st).1)
  unfolding open_lots record_lot finish_append
  sell_fields b some_open =
      let taken = append-sell order now lot g unseen b some_open in
      let fields = apply_sell_fields lot (record_lot order lot g) in
      (ap (λ r. r.1.lots) taken ∙ fields.0, ap (λ r. r.1.lot_states) taken ∙ fields.1)

  counter-sell :
      (t : String)
      → is_buy lot ≡ false
      → is_empty (open_lots_of g lot.ticker) ≡ false
      → total_qty (append order now lot g).1 t
        ≡ (if lot.ticker == t then moved lot (total_qty g t) else total_qty g t)
  counter-sell t b some_open =
      let st = g.lot_states in
      let lots' = g.lots ++ (lot ∷ []) in
      let g' = (append order now lot g).1 in
      let (same_lots, same_states) = sell_fields b some_open in
      let distinct' = Distinct-snoc g.lots lot distinct fresh in
      let st' = (match_sell lot (keep (is_open_of lot.ticker st) lots') st).1 in
      total_qty-eq-total_of g' t
      ∙ ap₂ (λ l s. total_of t l s) same_lots same_states
      ∙ elim (Bool-cases (lot.ticker == t)) [
        | inl e ↦
            let here : lot.ticker ≡ t = (eq_iff lot.ticker t).0 e in
            ground (
              arith,
              b,
              e,
              subst
                  (λ u.
                    total_of u lots' (match_sell lot (keep (is_open_of lot.ticker st) lots') st).1
                    ≡ total_of u lots' st - lot.qty)
                  here (total_of-match_sell lot lot.ticker lots' st distinct'),
              total_of-snoc t g.lots lot st,
              total_qty-eq-total_of g t,
            )
        | inr e ↦ ground (
          arith,
          b,
          e,
          total_of-agree_other lot.ticker t lots' st st'
              (match_sell-agree lot (is_open_of lot.ticker st) lots' st distinct') e,
          total_of-snoc t g.lots lot st,
          total_qty-eq-total_of g t,
        )
      ]

  counter-rejected :
      (t : String)
      → is_buy lot ≡ false
      → is_empty (open_lots_of g lot.ticker) ≡ true
      → total_qty (append order now lot g).1 t
        ≡ (if lot.ticker == t then moved lot (total_qty g t) else total_qty g t)
  counter-rejected t b nothing_open =
      let zero_here = empty-total g.lot_states (open_lots_of g lot.ticker) nothing_open in
      ap (λ r. total_qty r.1 t) (append-no_open order now lot g b nothing_open)
      ∙ elim (Bool-cases (lot.ticker == t)) [
        | inl e ↦
            let here : lot.ticker ≡ t = (eq_iff lot.ticker t).0 e in
            let none_left : total_qty g t ≡ 0 =
              ap (λ u. total_qty g u) (sym here) ∙ unfold total_qty in zero_here in
            ground (arith, b, e, none_left)
        | inr e ↦ ground (arith, e)
      ]

  -- For a ledger whose lots have different ids and a lot with a new id, the open quantity of every
  -- ticker moves as a plain counter: up by a BUY of that ticker, down by a SELL of it to zero at the
  -- least (a SELL with nothing open is refused), and not at all for another ticker.
  pub append-total_qty :
      (t : String)
      → total_qty (append order now lot g).1 t
        ≡ (if lot.ticker == t then moved lot (total_qty g t) else total_qty g t)
  append-total_qty t = elim (Bool-cases (is_buy lot)) [
    | inl b ↦ counter-buy t b
    | inr b ↦ elim (Bool-cases (is_empty (open_lots_of g lot.ticker))) [
      | inl nothing_open ↦ counter-rejected t b nothing_open
      | inr some_open ↦ counter-sell t b some_open
    ]
  ]
