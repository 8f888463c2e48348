-- ===== src/Ledger/Book.antt =====
-- `class FillLedger` of monitor/fill_ledger.py: its state, `append`, the queries, the repair of stale
-- lots, and what `_persist` writes and `load` reads. A call that looks at the clock takes the time
-- `now`. The lock makes every call atomic; the file itself is the business of lifecycle/safe_state.py,
-- here a write succeeds.
use trading_hub.Base.{
  ℕ, ◌+◌, ◌*◌, String, Bool, false, ◌||◌, Option, none, some, List, [], ◌∷◌, ◌++◌, eqb,
  if◌then◌else◌, keep, ◌==◌, nat_eq, string_eq, pair_eq,
}
use trading_hub.Base.Dict.{Dict, lookup, insert}
use trading_hub.Base.Int.{ℤ, pos, ◌+ℤ◌}
use trading_hub.Ledger.Lot.{FillLot, LotMatch, PositionMeta, date_of}
use trading_hub.Ledger.Matcher.{
  States, remaining_of, total_remaining, add_qty, is_open_buy, open_lots,
}

-- What `_persist` writes, of what `load` reads back.
pub record Snapshot : Type 0 where
  pub lots : List FillLot
  pub lot_states : States
  pub position_meta : Dict String PositionMeta

pub record FillLedger : Type 0 where
  pub lots : List FillLot
  pub lot_states : States
  pub matches : List LotMatch
  pub position_meta : Dict String PositionMeta
  pub open_tickers_cache : Option (List String)
  pub processed_lot_ids : List String
  pub last_fill_time : ℕ
  pub state_file : Option Snapshot

unfoldable pub empty_ledger : FillLedger
empty_ledger = record {
  lots = [];
  lot_states = [];
  matches = [];
  position_meta = [];
  open_tickers_cache = none;
  processed_lot_ids = [];
  last_fill_time = 0;
  state_file = none;
}

-- Sets of tickers and of ids are lists without repetition.
abbrev pub has : String → List String → Bool
has k [] = false
has k (j ∷ ks) = j == k || has k ks

abbrev pub add : String → List String → List String
add k ks = if has k ks then ks else ks ++ (k ∷ [])

abbrev pub tickers_of : List FillLot → List String
tickers_of [] = []
tickers_of (lot ∷ lots) =
    let rest = tickers_of lots in if has lot.ticker rest then rest else lot.ticker ∷ rest

-- The set that `open_tickers` computes where its cache is empty.
unfoldable pub compute_open_tickers : List FillLot → States → List String
compute_open_tickers lots states = tickers_of (keep (is_open_buy states) lots)

unfoldable pub open_tickers : FillLedger → List String × FillLedger
open_tickers g = elim g.open_tickers_cache [
  | none ↦
      let ts = compute_open_tickers g.lots g.lot_states in
      (ts, record g { open_tickers_cache = some ts })
  | some ts ↦ (ts, g)
]

-- `self._open_tickers_cache or self.open_tickers()`: an empty set counts as no cache, and
-- `open_tickers` then returns the set that stands there.
unfoldable pub open_lots_of : FillLedger → String → List FillLot
open_lots_of g ticker = open_lots ticker g.lots g.lot_states

unfoldable pub total_qty : FillLedger → String → ℕ
unfolding open_lots_of
total_qty g ticker = total_remaining g.lot_states (open_lots_of g ticker)

abbrev cost_of : States → List FillLot → ℕ
cost_of states [] = 0
cost_of states (b ∷ bs) = b.fill_price * remaining_of states b + cost_of states bs

unfoldable pub cost_basis : FillLedger → String → ℕ
unfolding open_lots_of
cost_basis g ticker = cost_of g.lot_states (open_lots_of g ticker)

abbrev broker_loop : States → List FillLot → Dict String ℕ → Dict String ℕ
broker_loop states [] bq = bq
broker_loop states (b ∷ bs) bq = broker_loop states bs (add_qty b.broker (remaining_of states b) bq)

unfoldable pub broker_qty : FillLedger → String → Dict String ℕ
unfolding open_lots_of
broker_qty g ticker = broker_loop g.lot_states (open_lots_of g ticker) []

abbrev pub pnl_sum : List LotMatch → ℤ
pnl_sum [] = pos 0
pnl_sum (m ∷ ms) = m.realized_pnl +ℤ pnl_sum ms

unfoldable pub realized_pnl : FillLedger → ℤ
realized_pnl g = pnl_sum g.matches

unfoldable pub daily_matches : FillLedger → ℕ → List LotMatch
daily_matches g day = keep (λ m. eqb (date_of m.matched_at) day) g.matches

unfoldable pub daily_realized_pnl : FillLedger → ℕ → ℤ
unfolding daily_matches
daily_realized_pnl g day = pnl_sum (daily_matches g day)

unfoldable pub get_meta : FillLedger → String → Option PositionMeta
get_meta g ticker = lookup ticker g.position_meta

-- All lots of today, and the BUY lots that are still open.
abbrev pub is_persisted : States → ℕ → FillLot → Bool
is_persisted states today lot = eqb (date_of lot.timestamp) today || is_open_buy states lot

abbrev pub meta_of : List String → Dict String PositionMeta → Dict String PositionMeta
meta_of ts m = keep (λ e. has e.0 ts) m

unfoldable pub snapshot_of : List String → FillLedger → ℕ → Snapshot
snapshot_of ts g today = record {
  lots = keep (is_persisted g.lot_states today) g.lots;
  lot_states = g.lot_states;
  position_meta = meta_of ts g.position_meta;
}

unfoldable pub persist : ℕ → FillLedger → FillLedger
unfolding open_tickers snapshot_of
persist now g =
    let (ts, g') = open_tickers g in
    record g' { state_file = some (snapshot_of ts g' (date_of now)) }

unfoldable pub set_meta : ℕ → String → PositionMeta → FillLedger → FillLedger
unfolding persist
set_meta now ticker meta g =
    persist now (record g { position_meta = insert ticker meta g.position_meta })
