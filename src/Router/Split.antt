-- ===== src/Router/Split.antt =====
-- The quantities of a split SELL, and the map of positions after a failover (monitor/smart_router.py).
use trading_hub.Base.{
  ℕ, ◌+◌, ◌-◌, ◌≤◌, min, String, ◌≡◌, refl, ap, ◌∙◌, Bool, true, false, some, List, [], ◌∷◌, ◌++◌,
  arith, if◌then◌else◌, nat_eq, string_eq, pair_eq, ◌*◌,
}
use trading_hub.Base.Dict.{lookup, lookup-insert_self}
use trading_hub.Router.Health.{SmartRouter, record_failure, is_healthy}
use trading_hub.Router.Route.{
  Order, Execution, has, get_fallback, note_order, fail_over, execute_on_broker, split_sell,
}

abbrev pub total_called : List Execution → ℕ
total_called [] = 0
total_called (x ∷ xs) = x.qty + total_called xs

total_called-append :
    (xs ys : List Execution) → total_called (xs ++ ys) ≡ total_called xs + total_called ys
total_called-append [] ys = omega arith
total_called-append (x ∷ xs) ys = omega (arith, total_called-append xs ys)

-- What the handlers that returned were called for.
abbrev pub total_returned : Order → List Execution → ℕ
total_returned o [] = 0
total_returned o (x ∷ xs) =
    let rest = total_returned o xs in if o.raises x.broker then rest else x.qty + rest

total_returned-append :
    (o : Order) (xs ys : List Execution)
    → total_returned o (xs ++ ys) ≡ total_returned o xs + total_returned o ys
total_returned-append o [] ys = omega arith
total_returned-append o (x ∷ xs) ys = ground (arith, total_returned-append o xs ys)

execute-calls :
    (now : ℕ) (name : String) (o : Order) (r : SmartRouter)
    → let calls = (execute_on_broker now name o r).0 in
      (total_returned o calls ≤ o.qty) × (total_called calls ≤ 2 * o.qty)
unfolding execute_on_broker fail_over
execute-calls now name o r = ground arith

-- Whatever handlers raise, whatever quantities the brokers are said to hold and whichever of them are
-- healthy, a split SELL calls the handlers that return for no more than the quantity of the order in
-- all, and all handlers, with the failovers, for no more than twice that quantity.
pub split_sell-total_called :
    (now : ℕ) (o : Order) (n : ℕ) (bs : List (String × ℕ)) (r : SmartRouter)
    → let calls = (split_sell now o n bs r).0 in
      (total_returned o calls ≤ n) × (total_called calls ≤ 2 * n)
unfolding split_sell
split_sell-total_called now o n [] r = omega arith
split_sell-total_called now o n ((name, q) ∷ bs) r =
    let chunk = min n q in
    let asked : Bool × SmartRouter =
      if has name r.brokers then is_healthy now name r else (false, r) in
    let sent = execute_on_broker now name (record o { qty = chunk }) asked.1 in
    let rest = split_sell now o (n - chunk) bs sent.1 in
    ground (
      arith,
      execute-calls now name (record o { qty = chunk }) asked.1,
      total_called-append sent.0 rest.0,
      total_returned-append o sent.0 rest.0,
      split_sell-total_called now o (n - chunk) bs sent.1,
      split_sell-total_called now o n bs asked.1,
    )

note_order-buy :
    (name : String) (o : Order) (r : SmartRouter)
    → o.is_sell ≡ false
    → lookup o.ticker (note_order name o r).position_broker ≡ some name
unfolding note_order
note_order-buy name o r b = rw b (lookup-insert_self o.ticker name r.position_broker)

abbrev SameBrokers : SmartRouter → SmartRouter → Type 0
SameBrokers r r' = r'.position_broker ≡ r.position_broker

is_healthy-SameBrokers :
    (now : ℕ) (name : String) (r : SmartRouter) → SameBrokers r (is_healthy now name r).1
unfolding is_healthy
is_healthy-SameBrokers now name r = ground arith

record_failure-SameBrokers :
    (now : ℕ) (name : String) (r : SmartRouter) → SameBrokers r (record_failure now name r)
unfolding record_failure
record_failure-SameBrokers now name r = ground arith

-- A BUY that fails over is booked to the wrong broker: where the handler of the first broker raises
-- and the fallback is healthy and does not raise, both are called, and the map of positions names
-- the first.
pub execute-misplaced :
    (now : ℕ) (name fallback : String) (o : Order) (r : SmartRouter)
    → o.is_sell ≡ false
    → o.raises name ≡ true
    → o.raises fallback ≡ false
    → get_fallback name r.brokers ≡ some fallback
    → (is_healthy now fallback (record_failure now name (note_order name o r))).0 ≡ true
    → let (calls, r') = execute_on_broker now name o r in
      (calls
        ≡ record { broker = name; qty = o.qty } ∷ record { broker = fallback; qty = o.qty } ∷ [])
      × (lookup o.ticker r'.position_broker ≡ some name)
unfolding execute_on_broker fail_over
execute-misplaced now name fallback o r b bad good e up =
    let noted = note_order name o r in
    let failed = record_failure now name noted in
    let kept =
      is_healthy-SameBrokers now fallback failed ∙ record_failure-SameBrokers now name noted in
    rw bad (rw e (rw up (rw good (refl, ap (lookup o.ticker) kept ∙ note_order-buy name o r b))))
