-- ===== src/Ledger/Reload.antt =====
-- What a restart finds: `_persist` and `load` of monitor/fill_ledger.py, one after the other.
use trading_hub.Base.{ℕ, ◌≡◌, refl, inl, inr, List, Option-cases, keep, nat_eq, string_eq, pair_eq}
use trading_hub.Ledger.Lot.{FillLot, date_of}
use trading_hub.Ledger.Matcher.{replay_matches}
use trading_hub.Ledger.Book.{FillLedger, open_tickers, is_persisted, snapshot_of, persist}
use trading_hub.Ledger.Ops.{load, ensure_states}

-- A new process, with the ledger `fresh`, loads what `g` has written at the time `now`.
unfoldable pub reload : ℕ → FillLedger → FillLedger → FillLedger
unfolding load persist
reload now g fresh = load (persist now g).state_file fresh

abbrev pub kept_lots : ℕ → FillLedger → List FillLot
kept_lots now g = keep (is_persisted g.lot_states (date_of now)) g.lots

pub reload_fields :
    (now : ℕ) (g fresh : FillLedger)
    → let lots = kept_lots now g in
      let r = replay_matches lots (ensure_states lots g.lot_states) in
      let g' = reload now g fresh in (g'.lots ≡ lots) × (g'.lot_states ≡ r.1) × (g'.matches ≡ r.0)
unfolding reload load persist open_tickers snapshot_of
reload_fields now g fresh = elim (Option-cases g.open_tickers_cache) [
  | inl e ↦ rw e (refl, refl, refl)
  | inr (ts, e) ↦ rw e (refl, refl, refl)
]
