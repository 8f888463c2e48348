-- ===== src/Queue/Evict.antt =====
-- What `evict_lowest_urgency` of `_BoundedPriorityQueue` (monitor/event_bus.py) takes from the queue.
use trading_hub.Base.{
  ℕ, ◌+◌, ◌≡◌, refl, sym, ap, ◌∙◌, inl, inr, true, false, not, ◌&&◌, Option, none, some, List, [],
  ◌∷◌, arith, eqb, if◌then◌else◌, eqb_iff, Bool-cases, length, keep, nat_eq, string_eq, pair_eq,
  subst,
}
use trading_hub.Queue.Heap.{Entry, has_seq, IsUniqueSeq}
use trading_hub.Queue.Bounded.{BoundedPriorityQueue, has, evict_lowest_urgency, discard, evict_loop}
use trading_hub.Queue.Valid.{IsValid, is_valid, live}
use trading_hub.Queue.Get.{keep-discard, has-discard}

module _ {A : Type 0} where
  -- A list of entries without that of a sequence number.
  abbrev pub without : ℕ → List (Entry A) → List (Entry A)
  without s [] = []
  without s (x ∷ h) = let rest = without s h in if eqb x.seq s then rest else x ∷ rest

  keep-mark :
      (s : ℕ) (invalid : List ℕ) (h : List (Entry A))
      → keep (is_valid (s ∷ invalid)) h ≡ without s (keep (is_valid invalid) h)
  keep-mark s invalid [] = refl
  keep-mark s invalid (x ∷ h) = ground (arith, keep-mark s invalid h)

  has_seq-keep :
      (s : ℕ) (invalid : List ℕ) (h : List (Entry A))
      → has_seq s (keep (is_valid invalid) h) ≡ (has_seq s h && not (has s invalid))
  has_seq-keep s invalid [] = refl
  has_seq-keep s invalid (x ∷ h) = elim (Bool-cases (eqb x.seq s)) [
    | inl same ↦
        let e : x.seq ≡ s = (eqb_iff x.seq s).0 same in
        ground (arith, ap (λ n. has n invalid) e, has_seq-keep s invalid h)
    | inr other ↦ ground (arith, other, has_seq-keep s invalid h)
  ]

  without-absent : (s : ℕ) (h : List (Entry A)) → has_seq s h ≡ false → without s h ≡ h
  without-absent s [] n = refl
  without-absent s (x ∷ h) n = ground (arith, n, without-absent s h)

  length-without :
      (s : ℕ) (h : List (Entry A))
      → IsUniqueSeq h
      → has_seq s h ≡ true
      → length (without s h) + 1 ≡ length h
  length-without s [] u h = ground (arith, h)
  length-without s (x ∷ xs) u h = elim (Bool-cases (eqb x.seq s)) [
    | inl same ↦
        let e : x.seq ≡ s = (eqb_iff x.seq s).0 same in
        let absent = without-absent s xs (subst (λ n. has_seq n xs ≡ false) e u.0) in
        rw same (rw absent (omega arith))
    | inr other ↦
        let later : has_seq s xs ≡ true = ground (arith, other, h) in
        rw other (omega (arith, length-without s xs u.1 later))
  ]

  keep-IsUniqueSeq :
      (invalid : List ℕ) (h : List (Entry A))
      → IsUniqueSeq h
      → IsUniqueSeq (keep (is_valid invalid) h)
  keep-IsUniqueSeq invalid [] u = tt
  keep-IsUniqueSeq invalid (x ∷ h) u =
      ground (arith, u.0, keep-IsUniqueSeq invalid h u.1, has_seq-keep x.seq invalid h)

  all_marked :
      (invalid : List ℕ) (h : List (Entry A))
      → ((s : ℕ) → has_seq s h ≡ true → has s invalid ≡ true)
      → keep (is_valid invalid) h ≡ []
  all_marked invalid [] f = refl
  all_marked invalid (x ∷ h) f =
      let top : has x.seq invalid ≡ true = f x.seq (ground arith) in
      rw top (all_marked invalid h (λ s there. f s (ground (arith, there))))

  -- What eviction takes from the entries in the queue: nothing where none is there, or one of them.
  abbrev pub Evicts : Option (Entry A) → List (Entry A) → List (Entry A) → Type 0
  Evicts none before after = (before ≡ []) × (after ≡ [])
  Evicts (some x) before after = (has_seq x.seq before ≡ true) × (after ≡ without x.seq before)

  evict_loop-Evicts :
      (h : List (Entry A)) (q : BoundedPriorityQueue A)
      → IsValid (record q { evict_heap = h })
      → let (e, q') = evict_loop h q in Evicts e (live q) (live q') × IsValid q'
  unfolding evict_loop
  evict_loop-Evicts [] q v =
      let none_left = all_marked q.invalid q.heap (λ s there. ground (arith, v.marked s, there)) in
      ((none_left, none_left), v)
  evict_loop-Evicts (x ∷ h) q v = elim (Bool-cases (has x.seq q.invalid)) [
    | inl phantom ↦
        let less : BoundedPriorityQueue A = record q { invalid = discard x.seq q.invalid } in
        let gone : has_seq x.seq q.heap ≡ false = ground (arith, v.marked x.seq, phantom) in
        let same = keep-discard x.seq q.invalid q.heap gone in
        let v' : IsValid (record less { evict_heap = h }) = record {
          heap_unique = v.heap_unique;
          evict_unique = v.evict_unique.1;
          marked = λ s.
              ground (arith, v.marked s, v.evict_unique.0, gone, has-discard s x.seq q.invalid);
          fresh = λ s later. ground (arith, v.fresh s later);
          counted = v.counted ∙ sym (ap length same);
          bounded = v.bounded;
        } in
        let (e, q') = evict_loop h less in
        let rest = evict_loop-Evicts h less v' in
        rw phantom (subst (λ l. Evicts e l (live q')) same rest.0, rest.1)
    | inr valid ↦
        let there : has_seq x.seq q.heap ≡ true = ground (arith, v.marked x.seq, valid) in
        let in_queue : has_seq x.seq (live q) ≡ true =
          has_seq-keep x.seq q.invalid q.heap ∙ ground (arith, there, valid) in
        let left = keep-mark x.seq q.invalid q.heap in
        let shorter =
          length-without x.seq (live q) (keep-IsUniqueSeq q.invalid q.heap v.heap_unique)
            in_queue in
        rw valid (
          (in_queue, left),
          record {
            heap_unique = v.heap_unique;
            evict_unique = v.evict_unique.1;
            marked = λ s. ground (arith, v.marked s, v.evict_unique.0, there, valid);
            fresh = λ s later. ground (arith, v.fresh s later);
            counted = omega (arith, v.counted, ap length left, shorter);
            bounded = omega (arith, v.bounded);
          },
        )
  ]

  -- On a queue whose books are right, `evict_lowest_urgency` takes one of the entries that are still in
  -- the queue and leaves the others in their order; it finds nothing only where none is there. The
  -- books stay right.
  pub evict_lowest_urgency-Evicts :
      (q : BoundedPriorityQueue A)
      → IsValid q
      → let (e, q') = evict_lowest_urgency q in Evicts e (live q) (live q') × IsValid q'
  unfolding evict_lowest_urgency
  evict_lowest_urgency-Evicts q v = evict_loop-Evicts q.evict_heap q v
