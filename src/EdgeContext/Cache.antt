-- ===== src/EdgeContext/Cache.antt =====
-- `class SignalContextCache` and the time buckets of monitor/edge_context.py. An OrderedDict is a list
-- with the oldest entry first; the contexts are of any type.
use trading_hub.Base.{
  ℕ, ◌+◌, ◌*◌, String, ◌&&◌, Option, none, some, List, [], ◌∷◌, ◌++◌, ltb, leb, if◌then◌else◌,
  length, ◌==◌, nat_eq, string_eq, pair_eq,
}
use trading_hub.Base.Dict.{Dict, lookup, erase}

-- `while len(cache) > max_size: cache.popitem(last=False)`
unfoldable pub drop_oldest {ℓ} : {C : Type ℓ} → ℕ → Dict String C → Dict String C
drop_oldest n [] = []
drop_oldest n (e ∷ d) = let rest = drop_oldest n d in if ltb n (length (e ∷ d)) then rest else e ∷ d

-- A stored entry moves to the end.
unfoldable pub store {ℓ} : {C : Type ℓ} → ℕ → String → C → Dict String C → Dict String C
unfolding drop_oldest
store n k c d = drop_oldest n (erase k d ++ ((k, c) ∷ []))

-- `peek`: an id that is missing or empty has no context.
unfoldable pub peek {ℓ} : {C : Type ℓ} → Option String → Dict String C → Option C
peek none d = none
peek (some k) d = if k == "" then none else lookup k d

-- `get`: the entry is taken out.
unfoldable pub get {ℓ} : {C : Type ℓ} → Option String → Dict String C → Option C × Dict String C
get none d = (none, d)
get (some k) d = if k == "" then (none, d) else (lookup k d, erase k d)

-- `_forward_signal_context` of monitor/position_manager.py: what is cached for the signal is cached for
-- the order too.
unfoldable pub forward {ℓ} :
    {C : Type ℓ} → ℕ → Option String → String → Dict String C → Dict String C
unfolding peek store
forward n correlation_id event_id d = elim (peek correlation_id d) [
  | none ↦ d
  | some c ↦ store n event_id c d
]

-- The buckets by the minute of the day.
abbrev time_buckets : List (ℕ × ℕ × String)
time_buckets =
    (570, 585, "0930_0945")
    ∷ (585, 630, "0945_1030")
    ∷ (630, 690, "1030_1130")
    ∷ (690, 780, "1130_1300")
    ∷ (780, 900, "1300_1500")
    ∷ (900, 945, "1500_1545")
    ∷ (945, 960, "1545_1600")
    ∷ []

bucket_loop : ℕ → List (ℕ × ℕ × String) → String
bucket_loop t [] = if ltb t 570 then "PRE_MARKET" else "AFTER_HOURS"
bucket_loop t ((start, end, label) ∷ bs) =
    let rest = bucket_loop t bs in if leb start t && ltb t end then label else rest

unfoldable pub compute_time_bucket : ℕ → ℕ → String
unfolding bucket_loop
compute_time_bucket hour minute = bucket_loop (hour * 60 + minute) time_buckets
