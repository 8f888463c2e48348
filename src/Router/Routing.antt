-- ===== src/Router/Routing.antt =====
-- The ids that the router of monitor/smart_router.py remembers.
use trading_hub.Ledger.Ops.{drop_first}
use trading_hub.Base.{
  ℕ, String, ◌≡◌, refl, ◌∙◌, inl, inr, false, List, [], ◌∷◌, arith, Bool-cases, nat_eq, string_eq,
  pair_eq, zero, suc, ◌≤◌, ap, true, ◌++◌, length, length-append, beq_self, sym, ltb, ltb→lt, subst,
  ◌+◌, ◌⊎◌, append_assoc, ◌&&◌, ◌||◌,
}
use trading_hub.Router.Health.{SmartRouter}
use trading_hub.Router.Kept.{split_sell-SameIds, route-SameIds}
use trading_hub.Router.Route.{Order, has, remember, on_order_req, routed_max}

on_order_req-known :
    (now : ℕ) (o : Order) (r : SmartRouter)
    → has o.event_id r.routed_event_ids ≡ true
    → on_order_req now o r ≡ ([], r)
unfolding on_order_req
on_order_req-known now o r known = elim (Bool-cases o.is_blocked) [
  | inl blocked ↦ rw blocked refl
  | inr open_order ↦ rw open_order (rw known refl)
]

-- The id stands with at most `n` later ones.
abbrev Recent : ℕ → String → List String → Type 0
Recent n eid ids =
    (older : List String) × (younger : List String) × (ids ≡ older ++ (eid ∷ younger))
    × (length younger ≤ n)

has-middle : (eid : String) (a b : List String) → has eid (a ++ (eid ∷ b)) ≡ true
has-middle eid [] b = ground (arith, beq_self eid)
has-middle eid (x ∷ a) b = ground (arith, has-middle eid a b)

drop_first-append :
    (n : ℕ) (a b : List String) → n ≤ length a → drop_first n (a ++ b) ≡ drop_first n a ++ b
drop_first-append zero a b le = refl
drop_first-append (suc n) [] b le = absurd (omega (arith, le))
drop_first-append (suc n) (x ∷ a) b le = drop_first-append n a b (omega (arith, le))

remember-Recent :
    (n : ℕ) (eid x : String) (r : SmartRouter)
    → suc n ≤ 2500
    → Recent n eid r.routed_event_ids
    → Recent (suc n) eid (remember x r).routed_event_ids
unfolding remember
remember-Recent n eid x r room (older, younger, ids, le) =
    let longer : r.routed_event_ids ++ (x ∷ []) ≡ older ++ (eid ∷ (younger ++ (x ∷ []))) =
      ap (λ l. l ++ (x ∷ [])) ids ∙ append_assoc older (eid ∷ younger) (x ∷ []) in
    let size = length-append older (eid ∷ (younger ++ (x ∷ []))) in
    let tail = length-append younger (x ∷ []) in
    elim (Bool-cases (ltb routed_max (length (r.routed_event_ids ++ (x ∷ []))))) [
      | inl full ↦ rw full (
        drop_first 2500 older,
        younger ++ (x ∷ []),
        ap (drop_first 2500) longer
            ∙ drop_first-append 2500 older (eid ∷ (younger ++ (x ∷ [])))
                (omega (arith, size, tail, le, room, ltb→lt _ _ full, ap length longer)),
        omega (arith, tail, le),
      )
      | inr short ↦ rw short (older, younger ++ (x ∷ []), longer, omega (arith, tail, le))
    ]

first-Recent : (eid : String) (r : SmartRouter) → Recent 0 eid (remember eid r).routed_event_ids
unfolding remember
first-Recent eid r =
    elim (Bool-cases (ltb routed_max (length (r.routed_event_ids ++ (eid ∷ []))))) [
      | inl full ↦
          let long = length-append r.routed_event_ids (eid ∷ []) in
          rw full (
            drop_first 2500 r.routed_event_ids,
            [],
            drop_first-append 2500 r.routed_event_ids (eid ∷ [])
                (omega (arith, long, ltb→lt _ _ full)),
            omega arith,
          )
      | inr short ↦ rw short (r.routed_event_ids, [], refl, omega arith)
    ]

on_order_req-fresh :
    (now : ℕ) (o : Order) (r : SmartRouter)
    → o.is_blocked || has o.event_id r.routed_event_ids ≡ false
    → (on_order_req now o r).1.routed_event_ids ≡ (remember o.event_id r).routed_event_ids
unfolding on_order_req
on_order_req-fresh now o r fresh =
    let r' = remember o.event_id r in
    elim (Bool-cases (o.is_sell && ltb 1 (length o.broker_qty))) [
      | inl many ↦ rw (fresh, many) (split_sell-SameIds now o o.qty o.broker_qty r')
      | inr one ↦ rw (fresh, one) (route-SameIds now o r')
    ]

on_order_req-ids :
    (now : ℕ) (o : Order) (r : SmartRouter)
    → let ids = (on_order_req now o r).1.routed_event_ids in
      (ids ≡ r.routed_event_ids) ⊎ (ids ≡ (remember o.event_id r).routed_event_ids)
on_order_req-ids now o r = elim (Bool-cases (o.is_blocked || has o.event_id r.routed_event_ids)) [
  | inl out ↦ inl (unfold on_order_req in rw out refl)
  | inr fresh ↦ inr (on_order_req-fresh now o r fresh)
]

-- Orders one after the other, each with its time.
abbrev pub handle_all : List (ℕ × Order) → SmartRouter → SmartRouter
handle_all [] r = r
handle_all ((now, o) ∷ os) r = handle_all os (on_order_req now o r).1

handle_all-Recent :
    (os : List (ℕ × Order)) (n : ℕ) (eid : String) (r : SmartRouter)
    → n + length os ≤ 2500
    → Recent n eid r.routed_event_ids
    → has eid (handle_all os r).routed_event_ids ≡ true
handle_all-Recent [] n eid r room (older, younger, ids, le) =
    ap (has eid) ids ∙ has-middle eid older younger
handle_all-Recent ((now, o) ∷ os) n eid r room h =
    let r' = (on_order_req now o r).1 in
    elim (on_order_req-ids now o r) [
      | inl same ↦
          handle_all-Recent os n eid r' (omega (arith, room)) (subst (Recent n eid) (sym same) h)
      | inr noted ↦ handle_all-Recent os (suc n) eid r' (omega (arith, room)) (
          subst (Recent (suc n) eid) (sym noted)
            (remember-Recent n eid o.event_id r (omega (arith, room)) h))
    ]

-- An order that no gate blocked and that was not seen before is routed once: after it and up to 2,500 later orders of any kind, an
-- order with the same event id, such as a replay of it, makes no call of a broker and changes nothing,
-- also when old ids were pruned on the way.
pub on_order_req-once :
    (now later : ℕ) (o again : Order) (between : List (ℕ × Order)) (r : SmartRouter)
    → o.is_blocked ≡ false
    → has o.event_id r.routed_event_ids ≡ false
    → again.event_id ≡ o.event_id
    → length between ≤ 2500
    → let r' = handle_all between (on_order_req now o r).1 in on_order_req later again r' ≡ ([], r')
on_order_req-once now later o again between r open_order new same room =
    let r' = handle_all between (on_order_req now o r).1 in
    let fresh : o.is_blocked || has o.event_id r.routed_event_ids ≡ false =
      ground (arith, open_order, new) in
    let start : Recent 0 o.event_id (on_order_req now o r).1.routed_event_ids =
      subst (Recent 0 o.event_id) (sym (on_order_req-fresh now o r fresh))
        (first-Recent o.event_id r) in
    let known =
      handle_all-Recent between 0 o.event_id (on_order_req now o r).1 (omega (arith, room)) start in
    on_order_req-known later again r'
      (subst (λ eid. has eid r'.routed_event_ids ≡ true) (sym same) known)
