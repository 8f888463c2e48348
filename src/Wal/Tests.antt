-- ===== src/Wal/Tests.antt =====
-- Runs of the order log: one morning with two orders, a repeated intent and a restart.
use trading_hub.Base.Dict.{contains, lookup}
use trading_hub.Base.Text.{upper}
use trading_hub.Base.{
  ℕ, ◌≤◌, ◌≡◌, refl, true, false, List, [], ◌∷◌, length, nat_eq, string_eq, pair_eq, some, ap, ◌≢◌,
  arith, ◌==◌, String,
}
use trading_hub.Wal.Entry.{intent, submitted, acked, blank_entry, cancelled}
use trading_hub.Wal.Log.{
  World, OrderWal, start, ensure_initialized, write, check_and_intent, rotate, key_of_order,
  update_index_at, update_index, write_open, intent_open, nothing_left, on_file,
}
use trading_hub.Wal.Api.{record_cancelled, get_incomplete_orders}
use trading_hub.Wal.Exclusive.{check_and_intent-exclusive}
use trading_hub.Wal.Calls.{Call, check, put, run}
use trading_hub.Wal.Incomplete.{is_live, get_incomplete_orders-is_live}
use trading_hub.Wal.Recovery.{restart-order_states}

abbrev at_time : ℕ → World
at_time now = record { today = 9; now = now; write_ok = true; left = nothing_left; close_ok = true }

abbrev ready_log : OrderWal
ready_log = record (start []) { initialized = true; current_date = 9 }

abbrev morning : List Call
morning =
    check (at_time 1) "o1" "AAPL" "buy" 10 150 "pro:x"
    ∷ put (at_time 2) (blank_entry submitted "o1" 2)
    ∷ check (at_time 3) "o2" "AAPL" "BUY" 10 150 "pro:x"
    ∷ check (at_time 4) "o3" "MSFT" "buy" 5 300 ""
    ∷ []

-- The second intent for AAPL is refused, so only two orders are known.
morning_states : (run morning ready_log).order_states ≡ ("o1", submitted) ∷ ("o3", intent) ∷ []
unfolding check_and_intent ensure_initialized write write_open update_index update_index_at
    key_of_order rotate intent_open upper
morning_states = refl

-- A terminal state frees the key.
freed :
    (check_and_intent
      (at_time 6)
      "o2"
      "AAPL"
      "buy"
      10
      150
      ""
      (record_cancelled (at_time 5) "o1" "stale" (run morning ready_log))).0
    ≡ true
unfolding check_and_intent ensure_initialized record_cancelled write write_open update_index
    update_index_at key_of_order rotate intent_open upper
freed = refl

incomplete :
    length (get_incomplete_orders 9 (record_cancelled (at_time 5) "o1" "" (run morning ready_log)))
    ≡ 1
unfolding get_incomplete_orders record_cancelled write write_open update_index update_index_at
    key_of_order rotate ensure_initialized check_and_intent intent_open upper
incomplete = refl

first_passes : (check_and_intent (at_time 1) "o1" "AAPL" "buy" 10 150 "" ready_log).0 ≡ true
unfolding check_and_intent ensure_initialized intent_open
first_passes = refl

same_side : upper "Buy" ≡ upper "buy"
unfolding upper
same_side = refl

-- Another order, for MSFT, is taken up and ends in between.
abbrev other_order : List Call
other_order =
    check (at_time 2) "o7" "MSFT" "sell" 5 300 ""
    ∷ put (at_time 2) (blank_entry acked "o1" 2)
    ∷ put (at_time 3) (blank_entry cancelled "o7" 3)
    ∷ []

check_and_intent-exclusive_example :
    let w =
      run other_order (check_and_intent (at_time 1) "o1" "AAPL" "buy" 10 150 "" ready_log).1 in
    (lookup ("AAPL", upper "buy") w.active_orders ≡ some "o1")
    × ((check_and_intent (at_time 4) "o2" "AAPL" "Buy" 7 151 "" w).0 ≡ false)
check_and_intent-exclusive_example =
    check_and_intent-exclusive (at_time 1) (at_time 4) "o1" "o2" "AAPL" "buy" "Buy" 10 150 7 151 ""
      "" ready_log other_order (refl, refl) tt first_passes
      (refl, ((refl, (λ h. refl), (λ h. cc)), ((refl, (λ h. cc), (λ h. cc)), tt))) refl same_side

-- The cancellation of another order fails at the sync, and its line is on the file all the same.
abbrev failing : World
failing = record (at_time 5) { write_ok = false; left = on_file }

abbrev rough_morning : List Call
rough_morning = put failing (blank_entry cancelled "o3" 5) ∷ morning

o3_is_not_o1 : ◌≢◌ {A = String} "o3" "o1"
o3_is_not_o1 = λ e. absurd (ground (arith, ap (λ z. z == "o1") e))

restart-order_states_example :
    let w = run rough_morning (ensure_initialized (at_time 0) (start [])) in
    let r = ensure_initialized (at_time 9) (start w.files) in
    (lookup "o1" r.order_states ≡ lookup "o1" w.order_states) × (r.seq ≤ w.seq)
restart-order_states_example =
    restart-order_states (at_time 0) (at_time 9) [] rough_morning "o1" refl
      (
        (refl, (λ e. absurd (o3_is_not_o1 e))),
        (
          (refl, (λ e h. refl)),
          ((refl, (λ e h. refl)), ((refl, (λ e h. refl)), ((refl, (λ e h. refl)), tt))),
        ),
      )
      refl

get_incomplete_orders-is_live_example :
    let w = run rough_morning (ensure_initialized (at_time 0) (start [])) in
    contains "o1" (get_incomplete_orders 9 w) ≡ is_live (lookup "o1" w.order_states)
get_incomplete_orders-is_live_example =
    get_incomplete_orders-is_live (at_time 0) [] rough_morning "o1" refl (
      (refl, (λ e. absurd (o3_is_not_o1 e))),
      (
        (refl, (λ e h. refl)),
        ((refl, (λ e h. refl)), ((refl, (λ e h. refl)), ((refl, (λ e h. refl)), tt))),
      ),
    )
