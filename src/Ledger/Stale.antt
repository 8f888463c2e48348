-- ===== src/Ledger/Stale.antt =====
-- The repair of stale lots, `close_stale_lots` of monitor/fill_ledger.py, and the replay that ends it.
use trading_hub.Ledger.Book.{has, open_tickers, FillLedger}
use trading_hub.Base.{
  String, ◌≡◌, refl, ap, ◌∙◌, inl, inr, Bool, true, ◌&&◌, some, List, [], ◌∷◌, arith, Bool-cases,
  Option-cases, is_some, keep, All, ◌==◌, nat_eq, string_eq, pair_eq, eq_iff, ℕ, not, eqb,
}
use trading_hub.Base.Dict.{lookup, insert, lookup-insert}
use trading_hub.Ledger.Lot.{FillLot, LotState}
use trading_hub.Ledger.Matcher.{
  States, state_of, is_open_buy, open_lots, reset_states, replay_loop, replay_matches,
}
use trading_hub.Ledger.Ops.{close_lots, close_tickers, close_stale_lots}

-- The reset forgets what is left of a lot.
reset_states-insert :
    (k : String) (v : LotState) (st : States)
    → lookup k st ≡ some v
    → reset_states (insert k (record v { remaining_qty = 0 }) st) ≡ reset_states st
unfolding reset_states
reset_states-insert k v [] h = cc
reset_states-insert k v ((j, w) ∷ st) h = elim (Bool-cases (j == k)) [
  | inl e ↦
      let same : w ≡ v = ground (arith, e, h) in
      let key : j ≡ k = (eq_iff j k).0 e in rw e (rw (key, same))
  | inr e ↦
      let later : lookup k st ≡ some v = ground (arith, e, h) in
      rw e (rw (reset_states-insert k v st later))
]

abbrev HaveState : List FillLot → States → Type 0
HaveState bs st = All (λ b. is_some (lookup b.lot_id st) ≡ true) bs

HaveState-insert :
    (bs : List FillLot) (k : String) (v : LotState) (st : States)
    → HaveState bs st
    → HaveState bs (insert k v st)
HaveState-insert [] k v st h = tt
HaveState-insert (b ∷ bs) k v st h =
    (ground (arith, lookup-insert k b.lot_id v st, h.0), HaveState-insert bs k v st h.1)

close_lots-reset :
    (bs : List FillLot) (st : States)
    → HaveState bs st
    → reset_states (close_lots bs st) ≡ reset_states st
unfolding close_lots
close_lots-reset [] st h = refl
close_lots-reset (b ∷ bs) st h = elim (Option-cases (lookup b.lot_id st)) [
  | inl e ↦ ground (arith, e, h.0)
  | inr (v, e) ↦
      let closed = record (state_of b st) { remaining_qty = 0 } in
      let same : state_of b st ≡ v = rw e refl in
      close_lots-reset bs (insert b.lot_id closed st) (HaveState-insert bs b.lot_id closed st h.1)
      ∙ ap (λ w. reset_states (insert b.lot_id (record w { remaining_qty = 0 }) st)) same
      ∙ reset_states-insert b.lot_id v st e
]

keep-HaveState :
    (p : FillLot → Bool) (lots : List FillLot) (st : States)
    → ((b : FillLot) → p b ≡ true → is_some (lookup b.lot_id st) ≡ true)
    → HaveState (keep p lots) st
keep-HaveState p [] st f = tt
keep-HaveState p (b ∷ lots) st f = elim (Bool-cases (p b)) [
  | inl e ↦ rw e (f b e, keep-HaveState p lots st f)
  | inr e ↦ rw e (keep-HaveState p lots st f)
]

open_lots-HaveState :
    (t : String) (lots : List FillLot) (st : States) → HaveState (open_lots t lots st) st
unfolding open_lots
open_lots-HaveState t lots st =
    keep-HaveState (λ b. b.ticker == t && is_open_buy st b) lots st (λ b e. ground (arith, e))

close_tickers-reset :
    (ts : List String) (lots : List FillLot) (st : States)
    → reset_states (close_tickers ts lots st).1 ≡ reset_states st
unfolding close_tickers
close_tickers-reset [] lots st = refl
close_tickers-reset (t ∷ ts) lots st =
    let stale = open_lots t lots st in
    close_tickers-reset ts lots (close_lots stale st)
    ∙ close_lots-reset stale st (open_lots-HaveState t lots st)

replay_matches-close_tickers :
    (ts : List String) (lots : List FillLot) (st : States)
    → replay_matches lots (close_tickers ts lots st).1 ≡ replay_matches lots st
unfolding replay_matches
replay_matches-close_tickers ts lots st =
    ap (replay_loop lots lots) (close_tickers-reset ts lots st)

-- The ledger has the states and the matches that a replay of its own lots gives.
abbrev pub IsReplayed : FillLedger → Type 0
IsReplayed g = replay_matches g.lots g.lot_states ≡ (g.matches, g.lot_states)

open_tickers_fields :
    (g : FillLedger)
    → let g' = (open_tickers g).1 in
      (g'.lots ≡ g.lots) × (g'.lot_states ≡ g.lot_states) × (g'.matches ≡ g.matches)
unfolding open_tickers
open_tickers_fields g = ground arith

-- On a ledger that agrees with the replay of its own lots, `close_stale_lots` closes nothing that
-- lasts: whichever tickers are active and whatever number of closed lots it reports, the lots, their
-- states and the matches are afterwards what they were.
pub close_stale_lots-undone :
    (now : ℕ) (active : List String) (g : FillLedger)
    → IsReplayed g
    → let g' = (close_stale_lots now active g).1 in
      (g'.lots ≡ g.lots) × (g'.lot_states ≡ g.lot_states) × (g'.matches ≡ g.matches)
unfolding close_stale_lots
close_stale_lots-undone now active g h =
    let (ts, g') = open_tickers g in
    let stale = keep (λ t. not (has t active)) ts in
    let closed = (close_tickers stale g.lots g.lot_states).0 in
    let again = replay_matches-close_tickers stale g.lots g.lot_states ∙ h in
    let fields = open_tickers_fields g in
    elim (Bool-cases (eqb closed 0)) [
      | inl e ↦ rw e fields
      | inr e ↦ rw e (fields.0, ap (λ r. r.1) again, ap (λ r. r.0) again)
    ]
