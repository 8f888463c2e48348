-- ===== src/Reconcile/Tests.antt =====
-- Runs of the reconciliation of options positions.
use trading_hub.Base.{
  ℕ, String, ◌≡◌, refl, Option, none, some, [], ◌∷◌, leb, if◌then◌else◌, nat_eq, string_eq, pair_eq,
}
use trading_hub.Base.Dict.{Dict, lookup}
use trading_hub.Reconcile.Sync.{reconcile, underlying, get_broker_positions}
use trading_hub.Reconcile.Laws.{expected, reconcile-lookup, reconcile-failed}

-- A position is the number of its legs, and one of a single leg cannot be rebuilt.
abbrev rebuild_pairs : String → ℕ → Option ℕ
rebuild_pairs t q = if leb q 1 then none else some q

abbrev broker : Dict String ℕ
broker = ("AAPL", 2) ∷ ("MSFT", 4) ∷ ("TSLA", 1) ∷ []

abbrev known : Dict String ℕ
known = ("AAPL", 7) ∷ ("GONE", 3) ∷ []

underlying_option : underlying "AAPL260508C00265000" ≡ "AAPL"
unfolding underlying
underlying_option = refl

legs_of_two :
    get_broker_positions (some ("AAPL260508C00265000" ∷ "SPY" ∷ "AAPL260508C00270000" ∷ []))
    ≡ some (("AAPL", 2) ∷ ("SPY", 1) ∷ [])
unfolding get_broker_positions
legs_of_two = refl

reconciled : reconcile rebuild_pairs (some broker) known ≡ ("AAPL", 7) ∷ ("MSFT", 4) ∷ []
unfolding reconcile
reconciled = refl

kept_without_broker : reconcile rebuild_pairs none known ≡ known
unfolding reconcile
kept_without_broker = refl

reconcile-lookup_example :
    lookup "MSFT" (reconcile rebuild_pairs (some broker) known)
    ≡ expected rebuild_pairs broker known "MSFT"
reconcile-lookup_example = reconcile-lookup rebuild_pairs broker known "MSFT"

reconcile-failed_example :
    lookup "AAPL" (reconcile rebuild_pairs (get_broker_positions none) known) ≡ none
reconcile-failed_example = reconcile-failed rebuild_pairs known "AAPL"
