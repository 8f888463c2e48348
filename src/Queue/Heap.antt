-- ===== src/Queue/Heap.antt =====
-- What the queue uses of `heapq`: the entries in the order in which they would be popped, with the
-- priority first (negated in one of the heaps) and the sequence number to break ties.
use trading_hub.Base.{
  ℕ, suc, ◌≡◌, refl, Bool, true, false, ◌&&◌, ◌||◌, List, [], ◌∷◌, arith, ltb, eqb, if◌then◌else◌,
  length, keep, nat_eq, string_eq, pair_eq,
}

pub record Entry (A : Type 0) : Type 0 where
  pub priority : ℕ
  pub seq : ℕ
  pub item : A

module _ {A : Type 0} where
  -- The most urgent first, then the oldest.
  abbrev pub urgent : Entry A → Entry A → Bool
  urgent a b = ltb a.priority b.priority || (eqb a.priority b.priority && ltb a.seq b.seq)

  -- The least urgent first, then the oldest.
  abbrev pub lax : Entry A → Entry A → Bool
  lax a b = ltb b.priority a.priority || (eqb a.priority b.priority && ltb a.seq b.seq)

  abbrev pub heappush : (Entry A → Entry A → Bool) → Entry A → List (Entry A) → List (Entry A)
  heappush before e [] = e ∷ []
  heappush before e (x ∷ h) =
      let rest = heappush before e h in if before e x then e ∷ x ∷ h else x ∷ rest

  abbrev pub has_seq : ℕ → List (Entry A) → Bool
  has_seq s [] = false
  has_seq s (x ∷ h) = eqb x.seq s || has_seq s h

  -- No sequence number stands twice.
  abbrev pub IsUniqueSeq : List (Entry A) → Type 0
  IsUniqueSeq [] = Unit
  IsUniqueSeq (x ∷ h) = (has_seq x.seq h ≡ false) × IsUniqueSeq h

  pub has_seq-heappush :
      (before : Entry A → Entry A → Bool) (e : Entry A) (s : ℕ) (h : List (Entry A))
      → has_seq s (heappush before e h) ≡ (eqb e.seq s || has_seq s h)
  has_seq-heappush before e s [] = refl
  has_seq-heappush before e s (x ∷ h) = ground (arith, has_seq-heappush before e s h)

  pub heappush-IsUniqueSeq :
      (before : Entry A → Entry A → Bool) (e : Entry A) (h : List (Entry A))
      → has_seq e.seq h ≡ false
      → IsUniqueSeq h
      → IsUniqueSeq (heappush before e h)
  heappush-IsUniqueSeq before e [] n u = (refl, tt)
  heappush-IsUniqueSeq before e (x ∷ h) n u =
      ground
        (arith, n, u.0, u.1, heappush-IsUniqueSeq before e h, has_seq-heappush before e x.seq h)

  pub length-keep-heappush :
      (before : Entry A → Entry A → Bool) (p : Entry A → Bool) (e : Entry A) (h : List (Entry A))
      → p e ≡ true
      → length (keep p (heappush before e h)) ≡ suc (length (keep p h))
  length-keep-heappush before p e [] y = ground (arith, y)
  length-keep-heappush before p e (x ∷ h) y = ground (arith, y, length-keep-heappush before p e h y)
