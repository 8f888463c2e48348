-- ===== src/Base/Recent.antt =====
-- The order of entries in a dict: how many younger ones stand behind an entry, which is what bounds the
-- life of an entry in a dict that drops its oldest.
use trading_hub.Base.{
  ℕ, suc, ◌≤◌, ◌<◌, ◌≡◌, refl, sym, ap, ◌∙◌, ◌≢◌, inl, inr, none, some, [], ◌∷◌, ◌++◌, append_assoc,
  arith, Bool-cases, length, length-append, HasEq, ◌==◌, nat_eq, string_eq, pair_eq, beq_self,
  beq_of_ne,
}
use trading_hub.Base.Dict.{Dict, lookup, erase, lookup-erase_ne, length-erase_le}

module _ {ℓ κ} {K : Type ℓ} {C : Type κ} ⦃e : HasEq K⦄ where
  erase-append : (k : K) (a b : Dict K C) → erase k (a ++ b) ≡ erase k a ++ erase k b
  erase-append k [] b = refl
  erase-append k ((j, v) ∷ a) b = elim (Bool-cases (j == k)) [
    | inl h ↦ rw h (erase-append k a b)
    | inr h ↦ rw h (ap (λ d. (j, v) ∷ d) (erase-append k a b))
  ]

  lookup-append : (k : K) (a b : Dict K C) → lookup k a ≡ none → lookup k (a ++ b) ≡ lookup k b
  lookup-append k [] b h = refl
  lookup-append k ((j, v) ∷ a) b h = ground (arith, lookup-append k a b)

  -- The entry of `k` stands with at most `n` younger ones.
  abbrev pub Holds : ℕ → K → C → Dict K C → Type (ℓ ⊔ κ)
  Holds n k c d =
      (older : Dict K C) × (younger : Dict K C) × (d ≡ older ++ ((k, c) ∷ younger))
      × (lookup k older ≡ none)
      × (length younger ≤ n)

  pub Holds-lookup : (n : ℕ) (k : K) (c : C) (d : Dict K C) → Holds n k c d → lookup k d ≡ some c
  Holds-lookup n k c d (older, younger, h, l, le) =
      ap (lookup k) h ∙ lookup-append k older ((k, c) ∷ younger) l ∙ rw (beq_self k) refl

  pub Holds-weaken : (n : ℕ) (k : K) (c : C) (d : Dict K C) → Holds n k c d → Holds (suc n) k c d
  Holds-weaken n k c d (older, younger, h, l, le) = (older, younger, h, l, omega (arith, le))

  pub erase-Holds :
      (n : ℕ) (k : K) (c : C) (j : K) (d : Dict K C)
      → j ≢ k
      → Holds n k c d
      → Holds n k c (erase j d)
  erase-Holds n k c j d ne (older, younger, h, l, le) = (
    erase j older,
    erase j younger,
    ap (erase j) h
        ∙ erase-append j older ((k, c) ∷ younger)
        ∙ ap (λ t. erase j older ++ t) (rw (beq_of_ne k j (λ s. ne (sym s))) refl),
    lookup-erase_ne j k older ne ∙ l,
    omega (arith, length-erase_le j younger, le),
  )

  pub snoc-Holds :
      (n : ℕ) (k : K) (c : C) (j : K) (v : C) (d : Dict K C)
      → Holds n k c d
      → Holds (suc n) k c (d ++ ((j, v) ∷ []))
  snoc-Holds n k c j v d (older, younger, h, l, le) = (
    older,
    younger ++ ((j, v) ∷ []),
    ap (λ t. t ++ ((j, v) ∷ [])) h ∙ append_assoc older ((k, c) ∷ younger) ((j, v) ∷ []),
    l,
    omega (arith, length-append younger ((j, v) ∷ []), le),
  )

  pub last-Holds :
      (k : K) (c : C) (d : Dict K C) → lookup k d ≡ none → Holds 0 k c (d ++ ((k, c) ∷ []))
  last-Holds k c d l = (d, [], refl, l, omega arith)

  -- `popitem(last=False)`
  abbrev pub drop_first_entry : Dict K C → Dict K C
  drop_first_entry [] = []
  drop_first_entry (x ∷ d) = d

  -- The first entry goes from a dict with more than `n` + 1 entries.
  pub drop_first-Holds :
      (n : ℕ) (k : K) (c : C) (d : Dict K C)
      → suc n < length d
      → Holds n k c d
      → Holds n k c (drop_first_entry d)
  drop_first-Holds n k c d lt ([], younger, h, l, le) =
      let size : length d ≡ suc (length younger) = ap length h in
      absurd (ground (arith, size, le, lt))
  drop_first-Holds n k c d lt ((j, v) ∷ older, younger, h, l, le) =
      let same : drop_first_entry d ≡ older ++ ((k, c) ∷ younger) = ap drop_first_entry h in
      (older, younger, same, ground arith, le)
