-- ===== src/Reconcile/Sync.antt =====
-- `_reconcile` of `class PositionReconciler` (lifecycle/reconciler.py) over the positions of an engine, and
-- `get_broker_positions` of lifecycle/adapters/options_adapter.py. `rebuild` stands for the adapter's
-- `add_position`, which may find nothing to add. The order in which Python lists a set is that of
-- the dict.
use trading_hub.Base.{
  ℕ, ◌+◌, String, not, ◌&&◌, Option, none, some, List, [], ◌∷◌, leb, if◌then◌else◌, get_or_else,
  keep, nat_eq, string_eq, pair_eq,
}
use trading_hub.Base.Dict.{Dict, lookup, contains, insert, erase}
use Prim.Native.Char.{code}

abbrev pub keys_of {ℓ} : {A : Type ℓ} → Dict String A → List String
keys_of [] = []
keys_of ((k, v) ∷ d) = k ∷ keys_of d

unfoldable pub remove_stale {ℓ} : {A : Type ℓ} → List String → Dict String A → Dict String A
remove_stale [] d = d
remove_stale (t ∷ ts) d = remove_stale ts (erase t d)

abbrev pub orphans {ℓ} : {A : Type ℓ} → Dict String ℕ → Dict String A → List String
orphans broker d = keep (λ t. not (contains t d)) (keys_of broker)

abbrev pub stale {ℓ} : {A : Type ℓ} → Dict String ℕ → Dict String A → List String
stale broker d = keep (λ t. not (contains t broker)) (keys_of d)

module _ {ℓ} {A : Type ℓ} (rebuild : String → ℕ → Option A) where
  -- `add_position`
  abbrev pub add_position : String → ℕ → Dict String A → Dict String A
  add_position t q d = elim (rebuild t q) [ none ↦ d | some a ↦ insert t a d ]

  unfoldable pub add_orphans : Dict String ℕ → List String → Dict String A → Dict String A
  add_orphans broker [] d = d
  add_orphans broker (t ∷ ts) d =
      add_orphans broker ts (add_position t (get_or_else (lookup t broker) 0) d)

  -- Without the broker's positions nothing is done. Both sets are of the positions before.
  unfoldable pub reconcile : Option (Dict String ℕ) → Dict String A → Dict String A
  unfolding add_orphans remove_stale
  reconcile none d = d
  reconcile (some broker) d =
      remove_stale (stale broker d) (add_orphans broker (orphans broker d) d)

-- The underlying of an option symbol: what stands before the first digit.
unfoldable pub underlying : String → String
underlying String.[] = String.[]
underlying (String.◌∷◌ c s) =
    let rest = underlying s in
    if leb 48 (code c) && leb (code c) 57 then String.[] else String.◌∷◌ c rest

unfoldable pub count_legs : List String → Dict String ℕ → Dict String ℕ
unfolding underlying
count_legs [] d = d
count_legs (s ∷ ss) d =
    let t = underlying s in count_legs ss (insert t (get_or_else (lookup t d) 0 + 1) d)

-- `get_broker_positions` of the options adapter: an error of the broker's API, or missing keys, give no
-- positions, and never an exception.
unfoldable pub get_broker_positions : Option (List String) → Option (Dict String ℕ)
unfolding count_legs
get_broker_positions none = some []
get_broker_positions (some symbols) = some (count_legs symbols [])
