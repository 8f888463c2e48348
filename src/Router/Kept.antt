-- ===== src/Router/Kept.antt =====
-- What the calls of the router of monitor/smart_router.py leave of the ids that it remembers.
use trading_hub.Base.{
  ℕ, ◌-◌, min, String, ◌≡◌, refl, ◌∙◌, inl, inr, Bool, false, List, [], ◌∷◌, arith, if◌then◌else◌,
  Bool-cases, Option-cases, nat_eq, string_eq, pair_eq,
}
use trading_hub.Router.Health.{SmartRouter, record_failure, is_healthy}
use trading_hub.Router.Route.{
  Order, has, get_fallback, note_order, fail_over, execute_on_broker, split_sell, healthy_of,
  select_by_health, select_broker, route,
}

abbrev pub SameIds : SmartRouter → SmartRouter → Type 0
SameIds r r' = r'.routed_event_ids ≡ r.routed_event_ids

is_healthy-SameIds :
    (now : ℕ) (name : String) (r : SmartRouter) → SameIds r (is_healthy now name r).1
unfolding is_healthy
is_healthy-SameIds now name r = ground arith

record_failure-SameIds :
    (now : ℕ) (name : String) (r : SmartRouter) → SameIds r (record_failure now name r)
unfolding record_failure
record_failure-SameIds now name r = ground arith

note_order-SameIds : (name : String) (o : Order) (r : SmartRouter) → SameIds r (note_order name o r)
unfolding note_order
note_order-SameIds name o r = refl

fail_over-SameIds :
    (now : ℕ) (name : String) (o : Order) (r : SmartRouter) → SameIds r (fail_over now name o r).1
unfolding fail_over
fail_over-SameIds now name o r = ground (
  arith,
  is_healthy-SameIds now name r,
  record_failure-SameIds now name (is_healthy now name r).1,
)

execute-SameIds :
    (now : ℕ) (name : String) (o : Order) (r : SmartRouter)
    → SameIds r (execute_on_broker now name o r).1
unfolding execute_on_broker
execute-SameIds now name o r =
    let noted = note_order name o r in
    let failed = record_failure now name noted in
    let steps = note_order-SameIds name o r in
    let fails = record_failure-SameIds now name noted in
    elim (Bool-cases (o.raises name)) [
      | inl bad ↦ elim (Option-cases (get_fallback name r.brokers)) [
        | inl alone ↦ rw bad (rw alone (fails ∙ steps))
        | inr (fallback, e) ↦
            rw bad (rw e (fail_over-SameIds now fallback o failed ∙ fails ∙ steps))
      ]
      | inr good ↦ rw good steps
    ]

pub split_sell-SameIds :
    (now : ℕ) (o : Order) (n : ℕ) (bs : List (String × ℕ)) (r : SmartRouter)
    → SameIds r (split_sell now o n bs r).1
unfolding split_sell
split_sell-SameIds now o n [] r = refl
split_sell-SameIds now o n ((name, q) ∷ bs) r =
    let chunk = min n q in
    let asked : Bool × SmartRouter =
      if has name r.brokers then is_healthy now name r else (false, r) in
    let sent = execute_on_broker now name (record o { qty = chunk }) asked.1 in
    let same : SameIds r asked.1 = ground (arith, is_healthy-SameIds now name r) in
    ground (
      arith,
      same,
      execute-SameIds now name (record o { qty = chunk }) asked.1,
      split_sell-SameIds now o (n - chunk) bs sent.1,
      split_sell-SameIds now o n bs asked.1,
    )

healthy_of-SameIds :
    (now : ℕ) (bs : List String) (r : SmartRouter) → SameIds r (healthy_of now bs r).1
unfolding healthy_of
healthy_of-SameIds now [] r = refl
healthy_of-SameIds now (b ∷ bs) r =
    healthy_of-SameIds now bs (is_healthy now b r).1 ∙ is_healthy-SameIds now b r

select_broker-SameIds :
    (now : ℕ) (o : Order) (r : SmartRouter) → SameIds r (select_broker now o r).1
unfolding select_broker select_by_health
select_broker-SameIds now o r = ground (arith, healthy_of-SameIds now r.brokers r)

pub route-SameIds : (now : ℕ) (o : Order) (r : SmartRouter) → SameIds r (route now o r).1
unfolding route
route-SameIds now o r =
    let (preferred, r1) = select_broker now o r in
    let chosen = select_broker-SameIds now o r in
    let asked : Bool × SmartRouter =
      if has preferred r1.brokers then is_healthy now preferred r1 else (false, r1) in
    let same : SameIds r1 asked.1 = ground (arith, is_healthy-SameIds now preferred r1) in
    elim (Bool-cases asked.0) [
      | inl ok ↦ rw ok (execute-SameIds now preferred o asked.1 ∙ same ∙ chosen)
      | inr down ↦ elim (Option-cases (get_fallback preferred r1.brokers)) [
        | inl alone ↦ rw down (rw alone (same ∙ chosen))
        | inr (fallback, e) ↦
            let again = is_healthy now fallback asked.1 in
            let kept = is_healthy-SameIds now fallback asked.1 ∙ same ∙ chosen in
            elim (Bool-cases again.0) [
              | inl up ↦ rw down (rw e (rw up (execute-SameIds now fallback o again.1 ∙ kept)))
              | inr neither ↦ rw down (rw e (rw neither kept))
            ]
      ]
    ]
