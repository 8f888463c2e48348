-- ===== src/Bars/Length.antt =====
-- The number of bars that monitor/bar_builder.py keeps of a ticker.
use trading_hub.Base.{
  ℕ, zero, suc, ◌-◌, ◌≤◌, ◌<◌, String, ◌≡◌, sym, Bool, List, [], ◌∷◌, arith, eqb, length, nat_eq,
  string_eq, pair_eq, subst, false,
}
use trading_hub.Ledger.Ops.{drop_first}
use trading_hub.Bars.Builder.{new_builder, get_bars}
use trading_hub.Bars.Last.{ends_at-length}
use trading_hub.Bars.History.{Happening, run, new_view, observe_all, run-bars}

pub length-drop_first :
    {A : Type 0} (n : ℕ) (xs : List A) → length (drop_first n xs) ≡ length xs - n
length-drop_first zero xs = omega arith
length-drop_first (suc n) [] = omega arith
length-drop_first (suc n) (x ∷ xs) = omega (arith, length-drop_first n xs)

module _ (m : ℕ) (k : String) (some_room : 0 < m) where
  -- With a `max_history` above 0, at most `max_history` bars of a ticker are kept after any trades and
  -- checks of the clock.
  pub run-length :
      (hs : List Happening) (has_bus emit_bars : Bool)
      → length (get_bars k (run hs (new_builder m has_bus emit_bars))) ≤ m
  run-length hs has_bus emit_bars =
      let cut : eqb m 0 ≡ false = ground (arith, some_room) in
      subst (λ h. length h ≤ m) (sym (run-bars m k hs has_bus emit_bars).0)
        (rw cut (ends_at-length m (observe_all m k hs new_view).bars))
