-- ===== src/EdgeContext/Kept.antt =====
-- How long `class SignalContextCache` (monitor/edge_context.py) keeps an entry.
use trading_hub.Base.{
  ℕ, suc, ◌+◌, ◌≤◌, ◌<◌, String, ◌≡◌, refl, sym, ◌≢◌, inl, inr, false, Option, none, some, List, [],
  ◌∷◌, ◌++◌, arith, ltb, Bool-cases, length, All, ◌==◌, nat_eq, string_eq, pair_eq, subst,
  beq_of_ne,
}
use trading_hub.Base.Dict.{Dict, lookup, erase, lookup-erase_self}
use trading_hub.Base.Recent.{Holds, erase-Holds, snoc-Holds, Holds-lookup}
use trading_hub.EdgeContext.Cache.{drop_oldest, store, peek, get}

module _ {ℓ} {C : Type ℓ} (size : ℕ) (k : String) (c : C) where
  drop_oldest-Holds :
      (n : ℕ) (older younger : Dict String C)
      → lookup k older ≡ none
      → length younger ≤ n
      → n < size
      → Holds n k c (drop_oldest size (older ++ ((k, c) ∷ younger)))
  unfolding drop_oldest
  drop_oldest-Holds n [] younger h le lt =
      let fits : ltb size (suc (length younger)) ≡ false = ground arith in
      ([], younger, rw fits refl, refl, le)
  drop_oldest-Holds n ((j, v) ∷ older) younger h le lt =
      let all = older ++ ((k, c) ∷ younger) in
      let later : lookup k older ≡ none = ground arith in
      elim (Bool-cases (ltb size (suc (length all)))) [
        | inl over ↦ rw over (drop_oldest-Holds n older younger later le lt)
        | inr fits ↦ rw fits ((j, v) ∷ older, younger, refl, h, le)
      ]

  -- An entry that is stored is the youngest.
  store-Holds : (d : Dict String C) → 0 < size → Holds 0 k c (store size k c d)
  unfolding store
  store-Holds d lt = drop_oldest-Holds 0 (erase k d) [] (lookup-erase_self k d) (omega arith) lt

  store_other-Holds :
      (n : ℕ) (j : String) (v : C) (d : Dict String C)
      → j ≢ k
      → suc n < size
      → Holds n k c d
      → Holds (suc n) k c (store size j v d)
  unfolding store
  store_other-Holds n j v d ne lt held =
      let (older, younger, same, h, le) =
        snoc-Holds n k c j v (erase j d) (erase-Holds n k c j d ne held) in
      subst (λ t. Holds (suc n) k c (drop_oldest size t)) (sym same)
        (drop_oldest-Holds (suc n) older younger h le lt)

-- A call on the cache: a context is stored, or taken.
pub data Call {ℓ} (C : Type ℓ) : Type ℓ where
  stores : String → C → Call C
  takes : Option String → Call C

module _ {ℓ} {C : Type ℓ} where
  abbrev pub perform : ℕ → Call C → Dict String C → Dict String C
  perform size (stores k c) d = store size k c d
  perform size (takes k) d = (get k d).1

  unfoldable pub perform_all : ℕ → List (Call C) → Dict String C → Dict String C
  perform_all size [] d = d
  perform_all size (c ∷ cs) d = perform_all size cs (perform size c d)

  abbrev pub IsOther : String → Call C → Type 0
  IsOther k (stores j c) = j ≢ k
  IsOther k (takes none) = Unit
  IsOther k (takes (some j)) = j ≢ k

  abbrev pub count_stores : List (Call C) → ℕ
  count_stores [] = 0
  count_stores (stores k c ∷ cs) = suc (count_stores cs)
  count_stores (takes k ∷ cs) = count_stores cs

  perform_all-Holds :
      (size n : ℕ) (k : String) (c : C) (cs : List (Call C)) (d : Dict String C)
      → All (IsOther k) cs
      → n + count_stores cs < size
      → Holds n k c d
      → lookup k (perform_all size cs d) ≡ some c
  unfolding perform_all get
  perform_all-Holds size n k c [] d other lt h = Holds-lookup n k c d h
  perform_all-Holds size n k c (stores j v ∷ cs) d other lt h =
      perform_all-Holds size (suc n) k c cs (store size j v d) other.1 (omega (arith, lt))
        (store_other-Holds size k c n j v d other.0 (omega (arith, lt)) h)
  perform_all-Holds size n k c (takes none ∷ cs) d other lt h =
      perform_all-Holds size n k c cs d other.1 lt h
  perform_all-Holds size n k c (takes (some j) ∷ cs) d other lt h =
      perform_all-Holds size n k c cs (get (some j) d).1 other.1 lt (elim (Bool-cases (j == "")) [
        | inl e ↦ rw e h
        | inr e ↦ rw e (erase-Holds n k c j d other.0 h)
      ])

  -- The context that is stored for a signal is still found after any calls for other ids, as long as
  -- fewer contexts were stored since than the cache holds: only older entries are evicted.
  pub peek-store :
      (size : ℕ) (k : String) (c : C) (cs : List (Call C)) (d : Dict String C)
      → k ≢ ""
      → All (IsOther k) cs
      → count_stores cs < size
      → peek (some k) (perform_all size cs (store size k c d)) ≡ some c
  unfolding peek
  peek-store size k c cs d full other lt = rw (beq_of_ne k "" full) (
      perform_all-Holds size 0 k c cs (store size k c d) other (omega (arith, lt))
        (store-Holds size k c d (omega (arith, lt))))
