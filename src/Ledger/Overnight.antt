-- ===== src/Ledger/Overnight.antt =====
-- Lots of an earlier day over a restart: `_persist` and `load` of monitor/fill_ledger.py.
use trading_hub.Ledger.Ops.{ensure_states}
use trading_hub.Base.{
  ℕ, ◌-◌, min, String, ◌≡◌, sym, ◌≢◌, inl, inr, false, ◌&&◌, List, [], ◌∷◌, arith, leb, Bool-cases,
  keep, All, All-append, ◌==◌, nat_eq, string_eq, pair_eq, subst,
}
use trading_hub.Ledger.Lot.{FillLot, qty_epsilon, LotMatch, date_of}
use trading_hub.Ledger.Matcher.{
  States, remaining_of, total_remaining, match_loop, match_sell, is_buy, is_open, is_open_buy,
  open_lots, reset_states, replay_lot, replay_loop, replay_matches,
}
use trading_hub.Ledger.Fifo.{
  match_loop-go, match_loop-nil, match_loop-stop, after_lot, match_sell-eq-loop,
}
use trading_hub.Ledger.Position.{All-keep}
use trading_hub.Ledger.Book.{FillLedger, is_persisted}
use trading_hub.Ledger.Reload.{reload, kept_lots, reload_fields}

abbrev NotLot : String → List FillLot → Type 0
NotLot id lots = All (λ c. c.lot_id ≢ id) lots

abbrev pub NotMatched : String → List LotMatch → Type 0
NotMatched id ms = All (λ m. m.buy_lot_id ≢ id) ms

-- A match names a lot of the list.
match_loop-NotMatched :
    (id : String) (s : FillLot) (r : ℕ) (bs : List FillLot) (st : States)
    → NotLot id bs
    → NotMatched id (match_loop s r bs st).0
match_loop-NotMatched id s r [] st h =
    subst (λ x. NotMatched id x.0) (sym (match_loop-nil s r st)) tt
match_loop-NotMatched id s r (b ∷ bs) st h = elim (Bool-cases (leb r qty_epsilon)) [
  | inl done ↦ subst (λ x. NotMatched id x.0) (sym (match_loop-stop s r (b ∷ bs) st done)) tt
  | inr more ↦
      let r' = r - min r (remaining_of st b) in
      subst (λ x. NotMatched id x.0) (sym (match_loop-go s r b bs st more))
        (h.0, match_loop-NotMatched id s r' bs (after_lot s r b st) h.1)
]

match_sell-NotMatched :
    (id : String) (s : FillLot) (bs : List FillLot) (st : States)
    → NotLot id bs
    → NotMatched id (match_sell s bs st).0
match_sell-NotMatched id s bs st h =
    subst (λ x. NotMatched id x.0) (sym (match_sell-eq-loop s bs st))
      (match_loop-NotMatched id s (min s.qty (total_remaining st bs)) bs st h)

replay_lot-NotMatched :
    (id : String) (lots : List FillLot) (lot : FillLot) (st : States)
    → NotLot id lots
    → NotMatched id (replay_lot lots lot st).0
unfolding replay_lot open_lots
replay_lot-NotMatched id lots lot st h = elim (Bool-cases (is_buy lot)) [
  | inl b ↦ rw b tt
  | inr b ↦ rw b (
      match_sell-NotMatched id lot (keep (λ c. c.ticker == lot.ticker && is_open_buy st c) lots) st
        (All-keep (λ c. c.lot_id ≢ id) (λ c. c.ticker == lot.ticker && is_open_buy st c) lots h))
]

replay_loop-NotMatched :
    (id : String) (lots rest : List FillLot) (st : States)
    → NotLot id lots
    → NotMatched id (replay_loop lots rest st).0
unfolding replay_loop
replay_loop-NotMatched id lots [] st h = tt
replay_loop-NotMatched id lots (lot ∷ rest) st h =
    let (ms, st') = replay_lot lots lot st in
    All-append (λ m. m.buy_lot_id ≢ id) ms (replay_loop lots rest st').0
      (replay_lot-NotMatched id lots lot st h) (replay_loop-NotMatched id lots rest st' h)

-- The lots with the id are of another day and closed.
abbrev pub IsOvernightClosed : String → ℕ → FillLedger → Type 0
IsOvernightClosed id today g =
    All (λ c. c.lot_id ≡ id → (date_of c.timestamp ≢ today) × (is_open g.lot_states c ≡ false))
      g.lots

dropped :
    (id : String) (today : ℕ) (st : States) (lots : List FillLot)
    → All (λ c. c.lot_id ≡ id → (date_of c.timestamp ≢ today) × (is_open st c ≡ false)) lots
    → NotLot id (keep (is_persisted st today) lots)
dropped id today st [] h = tt
dropped id today st (c ∷ lots) h = elim (Bool-cases (is_persisted st today c)) [
  | inl stays ↦ rw stays ((λ same. ground (arith, h.0 same, stays)), dropped id today st lots h.1)
  | inr goes ↦ rw goes (dropped id today st lots h.1)
]

-- A restart loses P&L of the day: for an id whose lots are all of another day and sold out, even
-- today, no match of the ledger after a reload names it.
pub reload-NotMatched :
    (id : String) (now : ℕ) (g fresh : FillLedger)
    → IsOvernightClosed id (date_of now) g
    → NotMatched id (reload now g fresh).matches
unfolding replay_matches
reload-NotMatched id now g fresh h =
    let lots = kept_lots now g in
    subst (NotMatched id) (sym (reload_fields now g fresh).2) (
      replay_loop-NotMatched id lots lots (reset_states (ensure_states lots g.lot_states))
        (dropped id (date_of now) g.lot_states g.lots h))
