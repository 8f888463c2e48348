-- ===== src/Ledger/Matcher.antt =====
-- The FIFO matcher, monitor/lot_matcher.py. The source passes references to the lot states and
-- mutates them: here the states are a store by lot id, read and written as the loop goes.
use trading_hub.Base.{
  ℕ, ◌+◌, ◌-◌, min, String, Bool, true, false, not, ◌&&◌, none, some, List, [], ◌∷◌, ◌++◌,
  if◌then◌else◌, leb, ltb, keep, ◌==◌, get_or_else, string_eq,
}
use trading_hub.Base.Dict.{Dict, lookup, insert, contains}
use trading_hub.Ledger.Lot.{
  buy, sell, qty_epsilon, FillLot, LotState, is_closed, new_state, LotMatch, round_pnl,
}

abbrev pub States : Type 0
States = Dict String LotState

-- The state of a lot; a lot that has none counts as closed, and is never in a list of open lots.
abbrev pub state_of : FillLot → States → LotState
state_of b states =
    get_or_else (lookup b.lot_id states) (record (new_state b) { remaining_qty = 0 })

abbrev pub remaining_of : States → FillLot → ℕ
remaining_of states b = (state_of b states).remaining_qty

abbrev pub total_remaining : States → List FillLot → ℕ
total_remaining states [] = 0
total_remaining states (b ∷ bs) = remaining_of states b + total_remaining states bs

abbrev pub lot_match : FillLot → FillLot → ℕ → LotMatch
lot_match s b q = record {
  buy_lot_id = b.lot_id;
  sell_lot_id = s.lot_id;
  matched_qty = q;
  buy_price = b.fill_price;
  sell_price = s.fill_price;
  realized_pnl = round_pnl s.fill_price b.fill_price q;
  ticker = s.ticker;
  matched_at = s.timestamp;
  estimated = s.synthetic;
}

-- One lot gives `q`: the remainder is already in millionths, so rounding and the snap to zero
-- leave it as it is.
abbrev pub decrement : FillLot → ℕ → LotState → LotState
decrement s q st = record st {
  remaining_qty = st.remaining_qty - q;
  matched_sells = st.matched_sells ++ (s.lot_id ∷ []);
}

-- The loop of `match_sell` over the open lots, from the quantity that is still to be matched.
unfoldable pub match_loop : FillLot → ℕ → List FillLot → States → List LotMatch × States
match_loop s remaining [] states = ([], states)
match_loop s remaining (b ∷ bs) states =
    let st = state_of b states in
    let q = min remaining st.remaining_qty in
    let rest = match_loop s (remaining - q) bs (insert b.lot_id (decrement s q st) states) in
    let taken : List LotMatch × States = (lot_match s b q ∷ rest.0, rest.1) in
    if leb remaining qty_epsilon then ([], states) else taken

-- An overfill is clamped to what is open.
unfoldable pub match_sell : FillLot → List FillLot → States → List LotMatch × States
unfolding match_loop
match_sell s [] states = ([], states)
match_sell s (b ∷ bs) states =
    let open_lots = b ∷ bs in
    let total_open = total_remaining states open_lots in
    let remaining = if ltb (total_open + qty_epsilon) s.qty then total_open else s.qty in
    match_loop s remaining open_lots states

-- `broker_qty[b] = broker_qty.get(b, 0.0) + q`
abbrev pub add_qty : String → ℕ → Dict String ℕ → Dict String ℕ
add_qty b q d = insert b (get_or_else (lookup b d) 0 + q) d

unfoldable pub preview_loop : ℕ → List FillLot → States → Dict String ℕ → Dict String ℕ
preview_loop remaining [] states split = split
preview_loop remaining (b ∷ bs) states split =
    let q = min remaining (remaining_of states b) in
    let rest = preview_loop (remaining - q) bs states (add_qty b.broker q split) in
    if leb remaining qty_epsilon then split else rest

-- Which brokers a sale would take shares from; nothing changes.
unfoldable pub preview_matches : ℕ → List FillLot → States → Dict String ℕ
unfolding preview_loop
preview_matches qty open_lots states = preview_loop qty open_lots states []

-- A BUY lot of the ticker that has a state which is not closed.
abbrev pub is_buy : FillLot → Bool
is_buy lot = elim lot.side [ buy ↦ true | sell ↦ false ]

abbrev pub is_open : States → FillLot → Bool
is_open states lot = elim (lookup lot.lot_id states) [ none ↦ false | some st ↦ not (is_closed st) ]

abbrev pub is_open_buy : States → FillLot → Bool
is_open_buy states lot = is_buy lot && is_open states lot

unfoldable pub open_lots : String → List FillLot → States → List FillLot
open_lots ticker lots states = keep (λ lot. lot.ticker == ticker && is_open_buy states lot) lots

-- Every state starts again at its original quantity.
unfoldable pub reset_states : States → States
reset_states [] = []
reset_states ((k, st) ∷ d) =
    (k, record st { remaining_qty = st.original_qty; matched_sells = [] }) ∷ reset_states d

-- One lot of the replay; `lots` is the whole list, so a sale also sees the lots that follow it.
unfoldable pub replay_lot : List FillLot → FillLot → States → List LotMatch × States
unfolding match_sell open_lots
replay_lot lots lot states =
    if is_buy lot
    then (
      [],
      if contains lot.lot_id states then states else insert lot.lot_id (new_state lot) states,
    )
    else match_sell lot (open_lots lot.ticker lots states) states

unfoldable pub replay_loop : List FillLot → List FillLot → States → List LotMatch × States
unfolding replay_lot
replay_loop lots [] states = ([], states)
replay_loop lots (lot ∷ rest) states =
    let (ms, states') = replay_lot lots lot states in
    let (more, final) = replay_loop lots rest states' in (ms ++ more, final)

unfoldable pub replay_matches : List FillLot → States → List LotMatch × States
unfolding replay_loop reset_states
replay_matches lots states = replay_loop lots lots (reset_states states)
