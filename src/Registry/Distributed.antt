-- ===== src/Registry/Distributed.antt =====
-- `class DistributedPositionRegistry` of monitor/distributed_registry.py: the same registry in a state
-- file that the processes share. The file is read and written whole. `stored` says whether a write of it
-- goes through, which no caller asks: lifecycle/safe_state.py skips it without space on the disk or for
-- an unchanged hash, and gives false when it fails.
use trading_hub.Base.{
  ℕ, ◌+◌, String, Bool, true, false, Option, none, some, List, [], ◌∷◌, ltb, leb, if◌then◌else◌,
  length, keep, ◌==◌, nat_eq, string_eq, pair_eq,
}
use trading_hub.Base.Dict.{Dict, lookup, insert, erase}

-- An entry of the file: the name of a layer, or a JSON object with the time of acquisition.
pub data Holder : Type 0 where
  layer : String → Holder
  info : ℕ → Holder

pub record DistributedRegistry : Type 0 where
  pub positions : Dict String Holder
  pub global_max : ℕ

abbrev pub is_layer : String → Holder → Bool
is_layer l (layer name) = name == l
is_layer l (info at) = false

unfoldable pub try_acquire :
    Bool → String → String → DistributedRegistry → Bool × DistributedRegistry
try_acquire stored ticker name r = elim (lookup ticker r.positions) [
  | some holder ↦ (is_layer name holder, r)
  | none ↦ if leb r.global_max (length r.positions) then (false, r) else (
    true,
    if stored then record r { positions = insert ticker (layer name) r.positions } else r,
  )
]

unfoldable pub release : Bool → String → DistributedRegistry → DistributedRegistry
release stored ticker r = if stored then record r { positions = erase ticker r.positions } else r

unfoldable pub held_by : String → DistributedRegistry → Option Holder
held_by ticker r = lookup ticker r.positions

unfoldable pub reset : Bool → DistributedRegistry → DistributedRegistry
reset stored r = if stored then record r { positions = [] } else r

-- `isinstance(info, dict) and now - info['_acquired_at'] > max_age`
abbrev pub is_stale : ℕ → ℕ → String × Holder → Bool
is_stale now max_age (ticker, layer name) = false
is_stale now max_age (ticker, info at) = ltb (at + max_age) now

abbrev erase_all : List (String × Holder) → Dict String Holder → Dict String Holder
erase_all [] d = d
erase_all ((t, h) ∷ ts) d = erase_all ts (erase t d)

unfoldable pub cleanup_stale : Bool → ℕ → ℕ → DistributedRegistry → ℕ × DistributedRegistry
cleanup_stale stored now max_age r =
    let stale = keep (is_stale now max_age) r.positions in
    (length stale, if stored then record r { positions = erase_all stale r.positions } else r)
