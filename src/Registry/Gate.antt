-- ===== src/Registry/Gate.antt =====
-- `class RegistryGate` of monitor/registry_gate.py, over the registry of
-- monitor/distributed_registry.py. The events that it emits for observation are left out, and so is the
-- time that it stores beside a blocked id, which nothing reads.
use trading_hub.Base.{
  String, Bool, false, not, ◌||◌, Option, none, some, List, [], ◌∷◌, ◌++◌, ltb, if◌then◌else◌,
  get_or_else, length, ◌==◌, nat_eq, string_eq, pair_eq,
}
use trading_hub.Base.Text.{lower}
use trading_hub.Registry.Distributed.{DistributedRegistry, try_acquire, release}
use text.Mathlib.Text.{starts_with}

pub data Side : Type 0 where
  buy sell : Side

-- The payload of an ORDER_REQ or ORDER_FAIL, with the id of its event, the mark of the portfolio
-- gate, and whether a write of the registry's file goes through while it is handled.
pub record Order : Type 0 where
  pub event_id : String
  pub ticker : String
  pub side : Side
  pub layer : Option String
  pub reason : String
  pub portfolio_blocked : Bool
  pub stored : Bool

pub record RegistryGate : Type 0 where
  pub registry : DistributedRegistry
  pub blocked_ids : List String
  pub acquired_tickers : List String

-- The layer by the prefix of the reason, where the payload names none.
unfoldable pub infer_layer : String → String
infer_layer reason =
    if starts_with (lower reason) "pro:"
    then "pro"
    else if starts_with (lower reason) "pop:"
    then "pop"
    else if starts_with (lower reason) "options:"
    then "options"
    else "vwap"

abbrev pub is_name : Option String → Bool
is_name none = false
is_name (some s) = not (s == "")

abbrev pub layer_of : Order → String
layer_of o = if is_name o.layer then get_or_else o.layer "" else infer_layer o.reason

abbrev pub has : String → List String → Bool
has k [] = false
has k (j ∷ ks) = j == k || has k ks

abbrev pub add : String → List String → List String
add k ks = if has k ks then ks else ks ++ (k ∷ [])

abbrev pub discard : String → List String → List String
discard k [] = []
discard k (j ∷ ks) = let rest = discard k ks in if j == k then rest else j ∷ rest

-- `while len > 1000: popitem(last=False)`: one id was added, so one at most goes.
abbrev pub evict : List String → List String
evict [] = []
evict (x ∷ xs) = if ltb 1000 (length (x ∷ xs)) then xs else x ∷ xs

unfoldable pub is_blocked : String → RegistryGate → Bool
is_blocked event_id g = has event_id g.blocked_ids

-- The answer of the registry, for a BUY that the portfolio gate has let through.
unfoldable pub acquire_for : Order → RegistryGate → RegistryGate
acquire_for o g =
    let (acquired, registry) = try_acquire o.stored o.ticker (layer_of o) g.registry in
    let asked : RegistryGate = record g { registry = registry } in
    if acquired
    then record asked { acquired_tickers = add o.ticker g.acquired_tickers }
    else record asked { blocked_ids = evict (add o.event_id g.blocked_ids) }

unfoldable pub on_order_req : Order → RegistryGate → RegistryGate
on_order_req o g = elim o.side [
  | sell ↦ g
  | buy ↦ if o.portfolio_blocked then g else acquire_for o g
]

-- `POSITION` with the action CLOSED. (Other actions change nothing.)
unfoldable pub on_position_closed : Bool → String → RegistryGate → RegistryGate
on_position_closed stored ticker g = record g {
  registry = release stored ticker g.registry;
  acquired_tickers = discard ticker g.acquired_tickers;
}

unfoldable pub on_order_fail : Order → RegistryGate → RegistryGate
on_order_fail o g = elim o.side [
  | sell ↦ g
  | buy ↦ if has o.ticker g.acquired_tickers then on_position_closed o.stored o.ticker g else g
]
