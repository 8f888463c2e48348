-- ===== src/Registry/Tests.antt =====
-- Runs of the two registries and of the gate.
use trading_hub.Base.Text.{lower}
use trading_hub.Registry.Global
use trading_hub.Registry.Distributed
use trading_hub.Base.{
  String, ◌≡◌, refl, true, false, not, none, List, [], ◌∷◌, nat_eq, string_eq, pair_eq,
}
use trading_hub.Registry.Global.{
  try_acquire-exclusive, GlobalPositionRegistry, try_acquire, held_by, Call, acquire, free, run,
  IsValid, run-IsValid, release,
}
use trading_hub.Registry.Distributed.{DistributedRegistry, Holder, layer, reset, cleanup_stale}
use trading_hub.Registry.Gate.{
  Order, buy, RegistryGate, layer_of, is_blocked, on_order_req, infer_layer,
}
use trading_hub.Registry.GateDecides.{is_own, on_order_req-decides}

abbrev empty_global : GlobalPositionRegistry
empty_global = record { positions = []; global_max = 2 }

abbrev calls : List Global.Call
calls =
    Global.acquire "AAPL" "pro"
    ∷ Global.acquire "MSFT" "pop"
    ∷ Global.acquire "TSLA" "pop"
    ∷ Global.free "MSFT"
    ∷ []

-- TSLA finds the registry full.
after_calls : (Global.run calls empty_global).positions ≡ ("AAPL", "pro") ∷ []
unfolding Global.release try_acquire
after_calls = refl

acquires : (Global.try_acquire "AAPL" "pro" empty_global).0 ≡ true
unfolding try_acquire
acquires = refl

abbrev shared : DistributedRegistry
shared = record { positions = ("AAPL", layer "pro") ∷ []; global_max = 2 }

abbrev gate : RegistryGate
gate = record { registry = shared; blocked_ids = []; acquired_tickers = "AAPL" ∷ [] }

abbrev order_for : String → String → String → Order
order_for event_id ticker reason = record {
  event_id = event_id;
  ticker = ticker;
  side = buy;
  layer = none;
  reason = reason;
  portfolio_blocked = false;
  stored = true;
}

-- The layer of the reason, and the default.
layers :
    (layer_of (order_for "e" "T" "PRO:sr_flip") ≡ "pro")
    × (layer_of (order_for "e" "T" "reclaim") ≡ "vwap")
unfolding infer_layer lower
layers = (refl, refl)

fresh_id : is_blocked "e1" gate ≡ false
unfolding is_blocked
fresh_id = refl

on_order_req-decides_example :
    let g' = on_order_req (order_for "e1" "AAPL" "pop:a") gate in
    is_blocked "e1" g'
    ≡ not
        (is_own (layer_of (order_for "e1" "AAPL" "pop:a")) (Distributed.held_by "AAPL" g'.registry))
on_order_req-decides_example =
    on_order_req-decides (order_for "e1" "AAPL" "pop:a") gate refl refl fresh_id refl

abbrev unstored : Order
unstored = record (order_for "e1" "MSFT" "pop:a") { stored = false }
