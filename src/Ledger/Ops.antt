-- ===== src/Ledger/Ops.antt =====
-- The calls of `class FillLedger` that change its lots (monitor/fill_ledger.py). `order` is the order
-- in which a Python set is listed, which the language leaves open.
use trading_hub.Base.{
  ℕ, zero, suc, ◌+◌, ◌-◌, String, Bool, true, false, not, ◌&&◌, Option, none, some, List, [], ◌∷◌,
  ◌++◌, ltb, leb, eqb, if◌then◌else◌, length, keep, nat_eq, string_eq, pair_eq,
}
use trading_hub.Base.Dict.{contains, insert, erase, lookup}
use trading_hub.Ledger.Lot.{FillLot, qty_epsilon, new_state, LotMatch}
use trading_hub.Ledger.Matcher.{States, state_of, match_sell, is_buy, open_lots, replay_matches}
use trading_hub.Ledger.Book.{
  FillLedger, Snapshot, has, add, open_tickers, open_lots_of, total_qty, persist,
}

-- The last `n` elements: `xs[-n:]`.
abbrev pub drop_first {ℓ} : {A : Type ℓ} → ℕ → List A → List A
drop_first zero xs = xs
drop_first (suc n) [] = []
drop_first (suc n) (x ∷ xs) = drop_first n xs

-- The dedup set is cut to 10,000 ids once it holds more than 20,000.
unfoldable pub trim_ids : (List String → List String) → List String → List String
trim_ids order ids =
    if ltb 20000 (length ids) then drop_first (length ids - 10000) (order ids) else ids

abbrev pub is_empty {ℓ} : {A : Type ℓ} → List A → Bool
is_empty [] = true
is_empty (x ∷ xs) = false

-- The lot is taken up: it is appended, and a sale is matched.
unfoldable pub record_lot : (List String → List String) → FillLot → FillLedger → FillLedger
unfolding trim_ids
record_lot order lot g = record g {
  lots = g.lots ++ (lot ∷ []);
  processed_lot_ids = trim_ids order (add lot.lot_id g.processed_lot_ids);
}

unfoldable pub apply_buy : FillLot → FillLedger → List LotMatch × FillLedger
apply_buy lot g = ([], record g { lot_states = insert lot.lot_id (new_state lot) g.lot_states })

-- The meta of a position goes when the position is closed.
unfoldable pub apply_sell : FillLot → FillLedger → List LotMatch × FillLedger
unfolding total_qty
apply_sell lot g =
    let (ms, states) = match_sell lot (open_lots lot.ticker g.lots g.lot_states) g.lot_states in
    let g' : FillLedger = record g { lot_states = states; matches = g.matches ++ ms } in
    let closed : FillLedger = record g' { position_meta = erase lot.ticker g.position_meta } in
    (ms, if leb (total_qty g' lot.ticker) qty_epsilon then closed else g')

unfoldable pub finish_append : ℕ → List LotMatch × FillLedger → List LotMatch × FillLedger
unfolding persist
finish_append now (ms, g) =
    (ms, persist now (record g { last_fill_time = now; open_tickers_cache = none }))

-- A lot that is already known, and a sale with nothing open, change nothing.
unfoldable pub append :
    (List String → List String) → ℕ → FillLot → FillLedger → List LotMatch × FillLedger
append order now lot g =
    if has lot.lot_id g.processed_lot_ids
    then ([], g)
    else if not (is_buy lot) && is_empty (open_lots_of g lot.ticker)
    then ([], g)
    else let g' = record_lot order lot g in
      finish_append now (if is_buy lot then apply_buy lot g' else apply_sell lot g')

-- `patch_meta(ticker, partial_done=True)`: nothing is written to the file, and a ticker without meta
-- stays without.
unfoldable pub patch_partial_done : String → FillLedger → FillLedger
patch_partial_done ticker g = elim (lookup ticker g.position_meta) [
  | none ↦ g
  | some m ↦ record g {
    position_meta = insert ticker (record m { partial_done = true }) g.position_meta;
  }
]

-- `state.remaining_qty = 0` for every lot of the list.
unfoldable pub close_lots : List FillLot → States → States
close_lots [] states = states
close_lots (b ∷ bs) states =
    close_lots bs (insert b.lot_id (record (state_of b states) { remaining_qty = 0 }) states)

-- The loop over the stale tickers, with the number of lots closed.
unfoldable pub close_tickers : List String → List FillLot → States → ℕ × States
unfolding close_lots
close_tickers [] lots states = (0, states)
close_tickers (t ∷ ts) lots states =
    let stale = open_lots t lots states in
    let (closed, final) = close_tickers ts lots (close_lots stale states) in
    (length stale + closed, final)

-- After the closing, the matches are derived anew by a replay of all lots.
unfoldable pub close_stale_lots : ℕ → List String → FillLedger → ℕ × FillLedger
unfolding open_tickers close_tickers persist
close_stale_lots now active g =
    let (ts, g') = open_tickers g in
    let stale = keep (λ t. not (has t active)) ts in
    let (closed, states) = close_tickers stale g.lots g.lot_states in
    let (ms, replayed) = replay_matches g.lots states in
    let closed_book : FillLedger = record g' {
      lot_states = replayed;
      matches = ms;
      open_tickers_cache = none;
    } in
    (closed, if eqb closed 0 then g' else persist now closed_book)

-- Every BUY lot gets a state.
unfoldable pub ensure_states : List FillLot → States → States
ensure_states [] states = states
ensure_states (lot ∷ lots) states =
    let missing = is_buy lot && not (contains lot.lot_id states) in
    ensure_states lots (if missing then insert lot.lot_id (new_state lot) states else states)

abbrev ids_of : List FillLot → List String
ids_of [] = []
ids_of (lot ∷ lots) = lot.lot_id ∷ ids_of lots

-- No file leaves the ledger as it is. The matches are not in the file: they come from a replay.
unfoldable pub load : Option Snapshot → FillLedger → FillLedger
unfolding ensure_states open_tickers
load none g = g
load (some f) g =
    let (ms, states) = replay_matches f.lots (ensure_states f.lots f.lot_states) in
    (open_tickers (record g {
      lots = f.lots;
      lot_states = states;
      matches = ms;
      position_meta = f.position_meta;
      processed_lot_ids = ids_of f.lots;
      open_tickers_cache = none;
    })).1
