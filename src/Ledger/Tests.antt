-- ===== src/Ledger/Tests.antt =====
-- Runs of the fill ledger on concrete lots.
use trading_hub.Base.{
  ℕ, ◌-◌, String, ◌≡◌, refl, false, List, [], ◌∷◌, arith, nat_eq, string_eq, pair_eq, ne_of_beq,
}
use trading_hub.Base.Int.{pos, ◌+ℤ◌}
use trading_hub.Ledger.Lot.{FillLot, Side, buy, sell, new_state, round_pnl}
use trading_hub.Ledger.Matcher.{
  States, total_remaining, match_sell, preview_matches, replay_matches, open_lots, reset_states,
  replay_lot, replay_loop, lot_match,
}
use trading_hub.Ledger.Fifo.{match_sell-fifo}
use trading_hub.Ledger.Preview.{preview_matches-taken, qty_at, taken}
use trading_hub.Ledger.Book.{
  FillLedger, empty_ledger, total_qty, realized_pnl, compute_open_tickers, open_lots_of, has,
  daily_realized_pnl,
}
use trading_hub.Ledger.Ops.{
  append, close_stale_lots, record_lot, apply_buy, apply_sell, finish_append,
}
use trading_hub.Ledger.Counter.{append-total_qty}
use trading_hub.Ledger.Reload.{reload}
use trading_hub.Ledger.Overnight.{reload-NotMatched, NotMatched}
use trading_hub.Ledger.Stale.{close_stale_lots-undone, IsReplayed}

abbrev lot_of : String → Side → ℕ → ℕ → String → FillLot
lot_of id side qty price broker = record {
  lot_id = id;
  ticker = "AAPL";
  side = side;
  qty = qty;
  fill_price = price;
  timestamp = 86_400;
  broker = broker;
  strategy = "vwap";
  synthetic = false;
}

abbrev first_buy : FillLot
first_buy = lot_of "b1" buy 10_000_000 1_500_000 "alpaca"

abbrev second_buy : FillLot
second_buy = lot_of "b2" buy 5_000_000 1_600_000 "tradier"

abbrev sale : FillLot
sale = lot_of "s1" sell 12_000_000 1_700_000 "alpaca"

abbrev states : States
states = ("b1", new_state first_buy) ∷ ("b2", new_state second_buy) ∷ []

abbrev as_listed : List String → List String
as_listed ids = ids

abbrev bought : FillLedger
bought = (append as_listed 86_401 second_buy (append as_listed 86_400 first_buy empty_ledger).1).1

abbrev sold : FillLedger
sold = (append as_listed 86_402 sale bought).1

-- 12 shares go out: all 10 of the first lot and 2 of the second; $20 x 10 and $10 x 2 are earned.
sale_total : total_qty sold "AAPL" ≡ 3_000_000
unfolding append total_qty open_lots empty_ledger finish_append apply_buy record_lot apply_sell
    match_sell
sale_total = refl

sale_pnl : realized_pnl sold ≡ pos 22_000
unfolding append realized_pnl empty_ledger finish_append apply_buy record_lot open_lots_of open_lots
    apply_sell match_sell ◌+ℤ◌ round_pnl
sale_pnl = refl

sale_split :
    preview_matches 12_000_000 (first_buy ∷ second_buy ∷ []) states
    ≡ ("alpaca", 10_000_000) ∷ ("tradier", 2_000_000) ∷ []
unfolding preview_matches
sale_split = refl

-- 0.125 cents up goes to the nearest cent, half a cent to the even one.
rounding :
    (round_pnl 1_500_025 1_500_000 500_000 ≡ pos 0)
    × (round_pnl 1_500_300 1_500_000 500_000 ≡ pos 2)
unfolding round_pnl
rounding = (refl, refl)

-- The sale alone is refused where nothing is open.
nothing_open : append as_listed 86_400 sale empty_ledger ≡ ([], empty_ledger)
unfolding append empty_ledger open_lots_of open_lots
nothing_open = refl

match_sell-fifo_example :
    total_remaining (match_sell sale (first_buy ∷ second_buy ∷ []) states).1 (first_buy ∷ [])
    ≡ total_remaining states (first_buy ∷ []) - 12_000_000
match_sell-fifo_example =
    match_sell-fifo sale (first_buy ∷ []) (second_buy ∷ []) states
      ((ne_of_beq "b1" "b2" refl, tt), (tt, tt))

preview_matches-taken_example :
    qty_at "tradier" (preview_matches 12_000_000 (first_buy ∷ second_buy ∷ []) states)
    ≡ taken "tradier"
        (first_buy ∷ second_buy ∷ [])
        states
        (match_sell sale (first_buy ∷ second_buy ∷ []) states).1
preview_matches-taken_example =
    preview_matches-taken sale "tradier" (first_buy ∷ second_buy ∷ []) states
      ((ne_of_beq "b1" "b2" refl, tt), (tt, tt)) (omega arith)

bought_lots : bought.lots ≡ first_buy ∷ second_buy ∷ []
unfolding append empty_ledger finish_append apply_buy record_lot
bought_lots = refl

bought_ids : has "s1" bought.processed_lot_ids ≡ false
unfolding append empty_ledger finish_append apply_buy record_lot
bought_ids = refl

append-total_qty_example :
    total_qty (append as_listed 86_402 sale bought).1 "AAPL" ≡ total_qty bought "AAPL" - 12_000_000
append-total_qty_example =
    append-total_qty as_listed 86_402 sale bought
      (rw bought_lots ((ne_of_beq "b1" "b2" refl, tt), (tt, tt)))
      (rw bought_lots (ne_of_beq "b1" "s1" refl, (ne_of_beq "b2" "s1" refl, tt))) bought_ids "AAPL"

bought-IsReplayed : IsReplayed bought
unfolding append empty_ledger finish_append apply_buy record_lot replay_matches replay_loop
    replay_lot reset_states
bought-IsReplayed = refl

close_stale_lots-undone_example :
    let g' = (close_stale_lots 86_500 [] bought).1 in
    (g'.lots ≡ bought.lots) × (g'.lot_states ≡ bought.lot_states) × (g'.matches ≡ bought.matches)
close_stale_lots-undone_example = close_stale_lots-undone 86_500 [] bought bought-IsReplayed

-- The number of lots that the call reports as closed.
stale_reported : (close_stale_lots 86_500 [] bought).0 ≡ 2
unfolding append close_stale_lots empty_ledger finish_append apply_buy record_lot
    compute_open_tickers open_lots
stale_reported = refl

-- A sale of 15 shares while 10 are open takes those 10. In the replay of a restart it takes the 5 shares of the
-- lot that was bought after it too.
abbrev oversold : FillLedger
oversold =
    (append as_listed 86_403 second_buy
      (append as_listed 86_402 (record sale { qty = 15_000_000 })
        (append as_listed 86_401 first_buy empty_ledger).1).1).1

open_after : total_qty oversold "AAPL" ≡ 5_000_000
unfolding total_qty open_lots append empty_ledger finish_append apply_buy record_lot apply_sell
    match_sell
open_after = refl

open_restarted : total_qty (reload 86_500 oversold empty_ledger) "AAPL" ≡ 0
unfolding total_qty open_lots reload append empty_ledger finish_append apply_buy record_lot
    apply_sell match_sell replay_matches
open_restarted = refl

-- Bought on the first day, and sold out on the second.
abbrev sold_out : FillLedger
sold_out = record empty_ledger {
  lots = first_buy ∷ record sale { lot_id = "s2"; qty = 10_000_000; timestamp = 172_800 } ∷ [];
  lot_states = ("b1", record (new_state first_buy) { remaining_qty = 0 }) ∷ [];
  matches =
      lot_match (record sale { lot_id = "s2"; timestamp = 172_800 }) first_buy 10_000_000 ∷ [];
}

earned : daily_realized_pnl sold_out 2 ≡ pos 20_000
unfolding daily_realized_pnl ◌+ℤ◌ round_pnl
earned = refl

earned_after_reload : daily_realized_pnl (reload 172_900 sold_out empty_ledger) 2 ≡ pos 0
unfolding daily_realized_pnl reload replay_matches empty_ledger
earned_after_reload = refl

reload-NotMatched_example : NotMatched "b1" (reload 172_900 sold_out empty_ledger).matches
reload-NotMatched_example = reload-NotMatched "b1" 172_900 sold_out empty_ledger (
  (λ same. ((λ day. ground (arith, day)), refl)),
  ((λ same. absurd (ne_of_beq "s2" "b1" refl same)), tt),
)
