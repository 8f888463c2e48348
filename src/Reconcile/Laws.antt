-- ===== src/Reconcile/Laws.antt =====
-- The positions after a reconciliation of `class PositionReconciler` (lifecycle/reconciler.py).
use trading_hub.Base.{
  ℕ, String, ◌≡◌, refl, ap, ◌∙◌, inl, inr, Bool, true, false, not, ◌&&◌, Option, none, some, List,
  [], ◌∷◌, arith, if◌then◌else◌, Bool-cases, Option-cases, get_or_else, keep, ◌==◌, nat_eq,
  string_eq, pair_eq, ap₂, subst, eq_of_beq,
}
use trading_hub.Base.Dict.{
  Dict, lookup, contains, erase, lookup-insert, lookup-erase, lookup-insert_self,
}
use trading_hub.Ledger.Book.{has}
use trading_hub.Reconcile.Sync.{
  keys_of, add_position, add_orphans, remove_stale, orphans, stale, reconcile, get_broker_positions,
}

has-keys_of : {A : Type 0} (t : String) (d : Dict String A) → has t (keys_of d) ≡ contains t d
has-keys_of t [] = refl
has-keys_of t ((k, v) ∷ d) = elim (Bool-cases (k == t)) [
  | inl e ↦ rw e refl
  | inr e ↦ rw e (has-keys_of t d)
]

and_false : (b : Bool) → (b && false) ≡ false
and_false true = refl
and_false false = refl

has-keep :
    (p : String → Bool) (t : String) (ts : List String) → has t (keep p ts) ≡ (has t ts && p t)
has-keep p t [] = refl
has-keep p t (s ∷ ts) = elim (Bool-cases (s == t)) [
  | inl e ↦
      let same : s ≡ t = eq_of_beq s t e in
      elim (Bool-cases (p t)) [
        | inl h ↦ let here : p s ≡ true = ap p same ∙ h in rw (here, e, h) refl
        | inr h ↦
            let here : p s ≡ false = ap p same ∙ h in
            rw (here, e, h) (has-keep p t ts ∙ ap (λ z. has t ts && z) h ∙ and_false (has t ts))
      ]
  | inr e ↦ elim (Bool-cases (p s)) [
    | inl h ↦ rw (h, e) (has-keep p t ts)
    | inr h ↦ rw (h, e) (has-keep p t ts)
  ]
]

module _ {A : Type 0} (rebuild : String → ℕ → Option A) (broker : Dict String ℕ) where
  qty_of : String → ℕ
  qty_of t = get_or_else (lookup t broker) 0

  -- What an addition makes of an entry.
  added : String → Option A → Option A
  added t o = elim (rebuild t (qty_of t)) [ none ↦ o | some a ↦ some a ]

  add_position-own :
      (s : String) (d : Dict String A)
      → lookup s (add_position rebuild s (qty_of s) d) ≡ added s (lookup s d)
  unfolding added
  add_position-own s d = elim (Option-cases (rebuild s (qty_of s))) [
    | inl e ↦ rw (add_position, added, e) refl
    | inr (a, e) ↦ rw (add_position, added, e) (lookup-insert_self s a d)
  ]

  add_position-lookup :
      (s t : String) (d : Dict String A)
      → lookup t (add_position rebuild s (qty_of s) d)
        ≡ (if s == t then added t (lookup t d) else lookup t d)
  unfolding added
  add_position-lookup s t d = elim (Bool-cases (s == t)) [
    | inl hit ↦ rw hit (
        subst (λ z. lookup z (add_position rebuild s (qty_of s) d) ≡ added z (lookup z d))
          (eq_of_beq s t hit) (add_position-own s d))
    | inr miss ↦ elim (Option-cases (rebuild s (qty_of s))) [
      | inl e ↦ rw (add_position, e, miss) refl
      | inr (a, e) ↦ rw (add_position, e, lookup-insert s t a d, miss) refl
    ]
  ]

  added-twice : (t : String) (o : Option A) → added t (added t o) ≡ added t o
  unfolding added
  added-twice t o = elim (Option-cases (rebuild t (qty_of t))) [
    | inl e ↦
        let same : (x : Option A) → added t x ≡ x = λ x. rw (added, e) refl in same (added t o)
    | inr (a, e) ↦ rw (added, e) refl
  ]

  add_orphans-lookup :
      (ts : List String) (t : String) (d : Dict String A)
      → lookup t (add_orphans rebuild broker ts d)
        ≡ (if has t ts then added t (lookup t d) else lookup t d)
  unfolding add_orphans qty_of
  add_orphans-lookup [] t d = refl
  add_orphans-lookup (s ∷ ts) t d =
      let d' = add_position rebuild s (qty_of s) d in
      add_orphans-lookup ts t d'
      ∙ ap (λ o. if has t ts then added t o else o) (add_position-lookup s t d)
      ∙ elim (Bool-cases (s == t)) [
        | inl hit ↦ elim (Bool-cases (has t ts)) [
          | inl more ↦ rw (hit, more) (added-twice t (lookup t d))
          | inr last ↦ rw (hit, last) refl
        ]
        | inr miss ↦ rw miss refl
      ]

  remove_stale-lookup :
      (ts : List String) (t : String) (d : Dict String A)
      → lookup t (remove_stale ts d) ≡ (if has t ts then none else lookup t d)
  unfolding remove_stale
  remove_stale-lookup [] t d = refl
  remove_stale-lookup (s ∷ ts) t d =
      ground (arith, remove_stale-lookup ts t (erase s d), lookup-erase s t d)

  -- What the positions are meant to be: those of the broker, known or rebuilt.
  unfoldable pub expected : Dict String A → String → Option A
  expected d t = elim (lookup t broker) [
    | none ↦ none
    | some q ↦ elim (lookup t d) [ some a ↦ some a | none ↦ rebuild t q ]
  ]

  -- After a reconciliation with the positions of the broker, whatever they are, a ticker has no local
  -- position where the broker has none, keeps the one it had where the broker has one, and otherwise
  -- gets the one that the adapter could rebuild from the broker's quantity.
  pub reconcile-lookup :
      (d : Dict String A) (t : String) → lookup t (reconcile rebuild (some broker) d) ≡ expected d t
  unfolding reconcile expected added qty_of
  reconcile-lookup d t =
      let ts = orphans broker d in
      let gone = stale broker d in
      let has_gone = has-keep (λ z. not (contains z broker)) t (keys_of d) in
      let has_new = has-keep (λ z. not (contains z d)) t (keys_of broker) in
      remove_stale-lookup gone t (add_orphans rebuild broker ts d)
      ∙ ap₂ (λ b o. if b then none else o)
          (has_gone ∙ ap (λ z. z && not (contains t broker)) (has-keys_of t d))
          (add_orphans-lookup ts t d
            ∙ ap (λ b. if b then added t (lookup t d) else lookup t d)
                (has_new ∙ ap (λ z. z && not (contains t d)) (has-keys_of t broker)))
      ∙ elim (Option-cases (lookup t broker)) [
        | inl b ↦ elim (Option-cases (lookup t d)) [
          | inl e ↦ rw (expected, b, e) refl
          | inr (a, e) ↦ rw (expected, b, e) refl
        ]
        | inr (q, b) ↦ elim (Option-cases (lookup t d)) [
          | inl e ↦ elim (Option-cases (rebuild t q)) [
            | inl r ↦ rw (expected, added, b, e, r) e
            | inr (a, r) ↦ rw (expected, added, b, e, r) refl
          ]
          | inr (a, e) ↦ rw (expected, b, e) refl
        ]
      ]

-- When the broker's API fails, the options adapter reports no positions, and the reconciliation then
-- removes every local position of the options engine.
pub reconcile-failed :
    {A : Type 0} (rebuild : String → ℕ → Option A) (d : Dict String A) (t : String)
    → lookup t (reconcile rebuild (get_broker_positions none) d) ≡ none
unfolding get_broker_positions expected
reconcile-failed rebuild d t = reconcile-lookup rebuild [] d t
