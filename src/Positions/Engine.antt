-- ===== src/Positions/Engine.antt =====
-- `class StateEngine` of monitor/state_engine.py: the snapshot of the portfolio that follows the POSITION
-- events. A position that is restored by `seed` is seen through the fields of a snapshot.
use trading_hub.Base.{
  ℕ, String, Bool, Option, none, some, List, [], ◌∷◌, ◌++◌, map, if◌then◌else◌, length, keep,
  nat_eq, string_eq, pair_eq,
}
use trading_hub.Base.Dict.{Dict, insert, erase}
use trading_hub.Base.Int.{ℤ, pos, ◌+ℤ◌, leb_ℤ}
use trading_hub.Base.Text.{text_leb}
use trading_hub.Positions.Model.{
  Position, PositionPayload, opened, partial_exit, closed, Trade, PositionSnapshot,
  snapshot_of_position,
}
use trading_hub.Ledger.Book.{FillLedger, daily_matches, daily_realized_pnl}
use trading_hub.Ledger.Lot.{LotMatch}

pub record Outcome : Type 0 where
  pub ticker : String
  pub pnl : ℤ
  pub reason : String

pub record StateEngine : Type 0 where
  pub positions : Dict String PositionSnapshot
  pub trade_log : List Outcome

abbrev pub new_engine : StateEngine
new_engine = record { positions = []; trade_log = [] }

abbrev pub map_values {ℓ κ} : {A : Type ℓ} {B : Type κ} → (A → B) → Dict String A → Dict String B
map_values f [] = []
map_values f ((k, v) ∷ d) = (k, f v) ∷ map_values f d

abbrev pub outcome_of : Trade → Outcome
outcome_of t = record { ticker = t.ticker; pnl = t.pnl; reason = t.reason }

unfoldable pub seed : Dict String Position → List Trade → StateEngine → StateEngine
seed ps ts s = record {
  positions = map_values snapshot_of_position ps;
  trade_log = map outcome_of ts;
}

-- A P&L that is missing adds no outcome.
abbrev pub log_pnl : String → Option ℤ → String → List Outcome → List Outcome
log_pnl ticker none reason log = log
log_pnl ticker (some pnl) reason log =
    log ++ (record { ticker = ticker; pnl = pnl; reason = reason } ∷ [])

abbrev put_position : Option PositionSnapshot → String → StateEngine → StateEngine
put_position none ticker s = s
put_position (some p) ticker s = record s { positions = insert ticker p s.positions }

unfoldable pub on_position : PositionPayload → StateEngine → StateEngine
on_position e s = elim e.action [
  | opened ↦ put_position e.position e.ticker s
  | partial_exit ↦ elim e.position [
    | none ↦ s
    | some p ↦ record {
      positions = insert e.ticker p s.positions;
      trade_log = log_pnl e.ticker e.pnl "partial_exit" s.trade_log;
    }
  ]
  | closed ↦ record {
    positions = erase e.ticker s.positions;
    trade_log = log_pnl e.ticker e.pnl "closed" s.trade_log;
  }
]

-- The events of a list, in order.
unfoldable pub follow : List PositionPayload → StateEngine → StateEngine
unfolding on_position
follow [] s = s
follow (e ∷ es) s = follow es (on_position e s)

abbrev pub sum_pnl : List Outcome → ℤ
sum_pnl [] = pos 0
sum_pnl (o ∷ os) = o.pnl +ℤ sum_pnl os

abbrev is_won : Outcome → Bool
is_won o = leb_ℤ (pos 0) o.pnl

abbrev is_match_won : LotMatch → Bool
is_match_won m = leb_ℤ (pos 0) m.realized_pnl

abbrev keys_of {ℓ} : {A : Type ℓ} → Dict String A → List String
keys_of [] = []
keys_of ((k, v) ∷ d) = k ∷ keys_of d

insert_sorted : String → List String → List String
insert_sorted k [] = k ∷ []
insert_sorted k (j ∷ js) =
    let rest = insert_sorted k js in if text_leb k j then k ∷ j ∷ js else j ∷ rest

-- `sorted(keys)`
unfoldable pub sorted_keys : List String → List String
unfolding insert_sorted
sorted_keys [] = []
sorted_keys (k ∷ ks) = insert_sorted k (sorted_keys ks)

pub record Summary : Type 0 where
  pub total_pnl : ℤ
  pub n_trades : ℕ
  pub n_wins : ℕ
  pub open_tickers : List String

-- `snapshot`: the day's matches of the fill ledger count where one is attached, else the outcomes.
unfoldable pub snapshot : Option FillLedger → ℕ → StateEngine → Summary
unfolding sorted_keys daily_matches daily_realized_pnl
snapshot none today s = record {
  total_pnl = sum_pnl s.trade_log;
  n_trades = length s.trade_log;
  n_wins = length (keep is_won s.trade_log);
  open_tickers = sorted_keys (keys_of s.positions);
}
snapshot (some g) today s = record {
  total_pnl = daily_realized_pnl g today;
  n_trades = length (daily_matches g today);
  n_wins = length (keep is_match_won (daily_matches g today));
  open_tickers = sorted_keys (keys_of s.positions);
}
