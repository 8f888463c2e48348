-- ===== src/EdgeContext/Tests.antt =====
-- Runs of the context cache and the time buckets.
use trading_hub.Base.{
  ℕ, String, ◌≡◌, refl, none, some, List, [], ◌∷◌, arith, nat_eq, string_eq, pair_eq, ne_of_beq,
}
use trading_hub.Base.Dict.{Dict}
use trading_hub.EdgeContext.Cache.{store, peek, get, forward, compute_time_bucket}
use trading_hub.EdgeContext.Kept.{Call, stores, takes, perform_all, peek-store}

abbrev two : Dict String ℕ
two = ("s1", 7) ∷ ("s2", 8) ∷ []

oldest_evicted : store 2 "s3" 9 two ≡ (("s2", 8) ∷ ("s3", 9) ∷ [])
unfolding store
oldest_evicted = refl

stored_again : store 2 "s1" 9 two ≡ (("s2", 8) ∷ ("s1", 9) ∷ [])
unfolding store
stored_again = refl

forwarded : (get (some "o1") (forward 5 (some "s2") "o1" two)).0 ≡ some 8
unfolding get forward
forwarded = refl

at_open : compute_time_bucket 9 30 ≡ "0930_0945"
unfolding compute_time_bucket
at_open = refl

at_close : compute_time_bucket 16 0 ≡ "AFTER_HOURS"
unfolding compute_time_bucket
at_close = refl

early : compute_time_bucket 4 15 ≡ "PRE_MARKET"
unfolding compute_time_bucket
early = refl

abbrev others : List (Call ℕ)
others = stores "s4" 1 ∷ takes (some "s2") ∷ takes none ∷ stores "s5" 2 ∷ []

peek-store_example : peek (some "s3") (perform_all 3 others (store 3 "s3" 9 two)) ≡ some 9
peek-store_example =
    peek-store 3 "s3" 9 others two (ne_of_beq "s3" "" refl)
      (ne_of_beq "s4" "s3" refl, (ne_of_beq "s2" "s3" refl, (tt, (ne_of_beq "s5" "s3" refl, tt))))
      (omega arith)
