-- ===== src/Registry/GateDecides.antt =====
-- What the gate decides about an order, and what an order that fails does to the registry.
use trading_hub.Base.{
  String, ◌≡◌, refl, sym, ap, ◌∙◌, inl, inr, Bool, true, false, not, Option, none, some, List, [],
  ◌∷◌, ◌++◌, arith, Bool-cases, Option-cases, nat_eq, string_eq, pair_eq, beq_self, subst,
}
use trading_hub.Base.Dict.{lookup, lookup-insert_self}
use trading_hub.Registry.Distributed.{
  DistributedRegistry, Holder, layer, try_acquire, is_layer, held_by,
}
use trading_hub.Registry.Gate.{
  RegistryGate, Order, has, add, evict, acquire_for, on_order_req, buy, layer_of, is_blocked,
}

has-snoc : (k : String) (ks : List String) → has k (ks ++ (k ∷ [])) ≡ true
has-snoc k [] = ground (arith, beq_self k)
has-snoc k (x ∷ ks) = ground (arith, has-snoc k ks)

-- The id that was just added is not the one that is evicted.
has-evict-add : (k : String) (ks : List String) → has k ks ≡ false → has k (evict (add k ks)) ≡ true
has-evict-add k [] h = ground (arith, beq_self k)
has-evict-add k (x ∷ ks) h = ground (arith, has-snoc k ks, has-snoc k (x ∷ ks), h)

-- The holder is the given layer.
abbrev pub is_own : String → Option Holder → Bool
is_own l none = false
is_own l (some holder) = is_layer l holder

on_order_req-buy :
    (o : Order) (g : RegistryGate)
    → o.side ≡ buy
    → o.portfolio_blocked ≡ false
    → on_order_req o g ≡ acquire_for o g
unfolding on_order_req
on_order_req-buy o g s b = ground (arith, s, b)

acquire_for-registry :
    (o : Order) (g : RegistryGate)
    → (acquire_for o g).registry ≡ (try_acquire o.stored o.ticker (layer_of o) g.registry).1
unfolding acquire_for
acquire_for-registry o g = ground arith

acquire_for-decides :
    (o : Order) (g : RegistryGate)
    → has o.event_id g.blocked_ids ≡ false
    → is_blocked o.event_id (acquire_for o g)
      ≡ not (try_acquire o.stored o.ticker (layer_of o) g.registry).0
unfolding acquire_for is_blocked
acquire_for-decides o g fresh =
    elim (Bool-cases (try_acquire o.stored o.ticker (layer_of o) g.registry).0) [
      | inl e ↦ rw e fresh
      | inr e ↦ rw e (has-evict-add o.event_id g.blocked_ids fresh)
    ]

try_acquire-own :
    (t l : String) (r : DistributedRegistry)
    → (try_acquire true t l r).0 ≡ is_own l (held_by t (try_acquire true t l r).1)
unfolding try_acquire held_by
try_acquire-own t l r = elim (Option-cases (lookup t r.positions)) [
  | inl n ↦ ground (arith, n, lookup-insert_self t (layer l) r.positions, beq_self l)
  | inr (holder, e) ↦ rw (e, try_acquire) (rw e refl)
]

-- A BUY that the portfolio gate let through, with an id not blocked before, is blocked exactly if its
-- layer does not hold the ticker in the registry afterwards, provided that the write of the registry's
-- file goes through.
pub on_order_req-decides :
    (o : Order) (g : RegistryGate)
    → o.side ≡ buy
    → o.portfolio_blocked ≡ false
    → is_blocked o.event_id g ≡ false
    → o.stored ≡ true
    → let g' = on_order_req o g in
      is_blocked o.event_id g' ≡ not (is_own (layer_of o) (held_by o.ticker g'.registry))
unfolding is_blocked
on_order_req-decides o g s b fresh stored =
    let step = on_order_req-buy o g s b in
    ap (is_blocked o.event_id) step
    ∙ acquire_for-decides o g fresh
    ∙ ap not (
        subst
          (λ z.
            (try_acquire z o.ticker (layer_of o) g.registry).0
            ≡ is_own (layer_of o)
                (held_by o.ticker (try_acquire z o.ticker (layer_of o) g.registry).1))
          (sym stored) (try_acquire-own o.ticker (layer_of o) g.registry))
    ∙ ap (λ r. not (is_own (layer_of o) (held_by o.ticker r)))
        (sym (ap (λ x. x.registry) step ∙ acquire_for-registry o g))
