-- ===== src/Router/Route.antt =====
-- How `class SmartRouter` of monitor/smart_router.py takes an order to a broker. An order brings what
-- the source asks elsewhere: the gates' marks, the quantities of the position by broker in falling
-- order, which brokers report the position, and which broker's handler raises.
use trading_hub.Base.{
  ℕ, zero, suc, ◌+◌, ◌-◌, ◌/◌, ◌%◌, min, String, Bool, true, false, not, ◌&&◌, ◌||◌, Option, none,
  some, List, [], ◌∷◌, ◌++◌, ltb, leb, eqb, if◌then◌else◌, get_or_else, length, ◌==◌, nat_eq,
  string_eq, pair_eq,
}
use trading_hub.Base.Dict.{Dict, lookup, insert}
use trading_hub.Router.Health.{SmartRouter, record_failure, is_healthy, BrokerHealth}

pub record Order : Type 0 where
  pub event_id : String
  pub ticker : String
  pub is_sell : Bool
  pub qty : ℕ
  pub is_blocked : Bool
  pub names_tradier : Bool
  pub names_alpaca : Bool
  pub broker_qty : List (String × ℕ)
  pub has_position : String → Bool
  pub raises : String → Bool

-- A call of a broker's handler.
pub record Execution : Type 0 where
  pub broker : String
  pub qty : ℕ

abbrev pub has : String → List String → Bool
has k [] = false
has k (j ∷ ks) = j == k || has k ks

abbrev pub routed_max : ℕ
routed_max = 5000

abbrev drop_first : ℕ → List String → List String
drop_first zero xs = xs
drop_first (suc n) [] = []
drop_first (suc n) (x ∷ xs) = drop_first n xs

-- The id is remembered; past the limit the older half of the limit is forgotten.
unfoldable pub remember : String → SmartRouter → SmartRouter
remember eid r =
    let ids = r.routed_event_ids ++ (eid ∷ []) in
    record r {
      routed_event_ids =
          if ltb routed_max (length ids) then drop_first (routed_max / 2) ids else ids;
    }

unfoldable pub get_fallback : String → List String → Option String
get_fallback primary [] = none
get_fallback primary (b ∷ bs) = if b == primary then get_fallback primary bs else some b

-- `total_orders` of the broker, and the broker of the position for a BUY.
unfoldable pub note_order : String → Order → SmartRouter → SmartRouter
note_order name o r =
    let counted : Dict String BrokerHealth = elim (lookup name r.health) [
      | none ↦ r.health
      | some h ↦ insert name (record h { total_orders = h.total_orders + 1 }) r.health
    ] in
    record r {
      health = counted;
      position_broker =
          if o.is_sell then r.position_broker else insert o.ticker name r.position_broker;
    }

-- The second try, at a healthy broker.
unfoldable pub fail_over : ℕ → String → Order → SmartRouter → List Execution × SmartRouter
fail_over now fallback o r =
    let (ok, r') = is_healthy now fallback r in
    if not ok then ([], r') else (
      record { broker = fallback; qty = o.qty } ∷ [],
      if o.raises fallback then record_failure now fallback r' else r',
    )

unfoldable pub execute_on_broker : ℕ → String → Order → SmartRouter → List Execution × SmartRouter
unfolding fail_over get_fallback note_order
execute_on_broker now name o r =
    let call : Execution = record { broker = name; qty = o.qty } in
    let noted = note_order name o r in
    let failed = record_failure now name noted in
    let second : List Execution × SmartRouter = elim (get_fallback name r.brokers) [
      | none ↦ ([], failed)
      | some fallback ↦ fail_over now fallback o failed
    ] in
    if o.raises name then (call ∷ second.0, second.1) else (call ∷ [], noted)

-- A SELL of a position that several brokers hold: each healthy one sells its part.
unfoldable pub split_sell :
    ℕ → Order → ℕ → List (String × ℕ) → SmartRouter → List Execution × SmartRouter
unfolding execute_on_broker
split_sell now o sell_qty [] r = ([], r)
split_sell now o sell_qty ((name, q) ∷ bs) r =
    let chunk = min sell_qty q in
    let asked : Bool × SmartRouter =
      if has name r.brokers then is_healthy now name r else (false, r) in
    let sent = execute_on_broker now name (record o { qty = chunk }) asked.1 in
    let after_sent = split_sell now o (sell_qty - chunk) bs sent.1 in
    let skipped = split_sell now o sell_qty bs asked.1 in
    if leb sell_qty 0
    then ([], r)
    else if asked.0 && ltb 0 chunk
    then (sent.0 ++ after_sent.0, after_sent.1)
    else skipped

-- The first broker that reports the position.
abbrev holding : (String → Bool) → List String → Option String
holding p [] = none
holding p (b ∷ bs) = if p b then some b else holding p bs

unfoldable pub select_for_sell : Order → SmartRouter → String
select_for_sell o r =
    let detected = get_or_else (holding o.has_position r.brokers) r.default_broker in
    elim (lookup o.ticker r.position_broker) [
      | none ↦ detected
      | some opening ↦ if has opening r.brokers then opening else detected
    ]

unfoldable pub healthy_of : ℕ → List String → SmartRouter → List String × SmartRouter
healthy_of now [] r = ([], r)
healthy_of now (b ∷ bs) r =
    let (ok, r') = is_healthy now b r in
    let (rest, final) = healthy_of now bs r' in (if ok then b ∷ rest else rest, final)

-- The element at an index below the length.
abbrev pick : String → List String → ℕ → String
pick d [] n = d
pick d (x ∷ xs) zero = x
pick d (x ∷ xs) (suc n) = pick d xs n

unfoldable pub select_by_health : ℕ → SmartRouter → String × SmartRouter
unfolding healthy_of
select_by_health now r =
    let (healthy, r') = healthy_of now r.brokers r in
    let next = r'.order_counter + 1 in
    if eqb (length healthy) 1
    then (pick r.default_broker healthy 0, r')
    else if eqb (length healthy) 0
    then (r.default_broker, r')
    else (pick r.default_broker healthy (next % length healthy), record r' { order_counter = next })

unfoldable pub select_broker : ℕ → Order → SmartRouter → String × SmartRouter
unfolding select_for_sell select_by_health
select_broker now o r =
    if o.is_sell
    then (select_for_sell o r, r)
    else if o.names_tradier
    then ("tradier", r)
    else if o.names_alpaca
    then ("alpaca", r)
    else select_by_health now r

-- The preferred broker, if it is known and healthy, else the fallback if that is healthy.
unfoldable pub route : ℕ → Order → SmartRouter → List Execution × SmartRouter
unfolding select_broker execute_on_broker get_fallback
route now o r =
    let (preferred, r1) = select_broker now o r in
    let asked : Bool × SmartRouter =
      if has preferred r1.brokers then is_healthy now preferred r1 else (false, r1) in
    let alert : SmartRouter → SmartRouter = λ x. record x { all_brokers_down_alerted = true } in
    let second : List Execution × SmartRouter = elim (get_fallback preferred r1.brokers) [
      | none ↦ ([], alert asked.1)
      | some fallback ↦
          let again = is_healthy now fallback asked.1 in
          if again.0 then execute_on_broker now fallback o again.1 else ([], alert again.1)
    ] in
    if asked.0 then execute_on_broker now preferred o asked.1 else second

unfoldable pub on_order_req : ℕ → Order → SmartRouter → List Execution × SmartRouter
unfolding remember split_sell route
on_order_req now o r =
    let r' = remember o.event_id r in
    if o.is_blocked || has o.event_id r.routed_event_ids
    then ([], r)
    else if o.is_sell && ltb 1 (length o.broker_qty)
    then split_sell now o o.qty o.broker_qty r'
    else route now o r'
