-- ===== src/Queue/Get.antt =====
-- What `get` of `_BoundedPriorityQueue` (monitor/event_bus.py) takes from the queue.
use trading_hub.Base.{
  ℕ, ◌<◌, ◌≡◌, refl, sym, ap, ◌∙◌, inl, inr, false, not, ◌&&◌, Option, none, some, List, [], ◌∷◌,
  arith, ltb, eqb, ltb→lt, ltb→ge, Bool-cases, length, keep, nat_eq, string_eq, pair_eq,
}
use trading_hub.Queue.Heap.{Entry, has_seq, IsUniqueSeq}
use trading_hub.Queue.Bounded.{BoundedPriorityQueue, has, discard, skip_phantoms, get, pop}
use trading_hub.Queue.Valid.{IsValid, is_valid, live, IsMarked}

pub has-discard : (s t : ℕ) (xs : List ℕ) → has s (discard t xs) ≡ (not (eqb t s) && has s xs)
has-discard s t [] = ground arith
has-discard s t (x ∷ xs) = ground (arith, has-discard s t xs)

module _ {A : Type 0} where
  -- A mark on a number that is not in the heap is of no account to its entries.
  pub keep-discard :
      (s : ℕ) (invalid : List ℕ) (h : List (Entry A))
      → has_seq s h ≡ false
      → keep (is_valid (discard s invalid)) h ≡ keep (is_valid invalid) h
  keep-discard s invalid [] n = refl
  keep-discard s invalid (x ∷ h) n =
      ground (arith, n, keep-discard s invalid h, has-discard x.seq s invalid)

  pub keep-marked :
      (s : ℕ) (invalid : List ℕ) (h : List (Entry A))
      → has_seq s h ≡ false
      → keep (is_valid (s ∷ invalid)) h ≡ keep (is_valid invalid) h
  keep-marked s invalid [] n = refl
  keep-marked s invalid (x ∷ h) n = ground (arith, n, keep-marked s invalid h)

  -- The entry at the top, if there is one, is still in the queue.
  abbrev IsClean : List (Entry A) → List ℕ → Type 0
  IsClean [] invalid = Unit
  IsClean (x ∷ h) invalid = has x.seq invalid ≡ false

  record IsSkipped (evict_heap h : List (Entry A)) (invalid : List ℕ) (h' : List (Entry A))
      (invalid' : List ℕ) : Type 0 where
    unique : IsUniqueSeq h'
    marked : IsMarked h' evict_heap invalid'
    same : keep (is_valid invalid') h' ≡ keep (is_valid invalid) h
    clean : IsClean h' invalid'
    within : (s : ℕ) → has_seq s h ≡ false → has_seq s h' ≡ false

  skip_phantoms-IsSkipped :
      (evict_heap h : List (Entry A)) (invalid : List ℕ)
      → IsUniqueSeq h
      → IsMarked h evict_heap invalid
      → let (h', invalid') = skip_phantoms h invalid in IsSkipped evict_heap h invalid h' invalid'
  unfolding skip_phantoms
  skip_phantoms-IsSkipped evict_heap [] invalid u m = record {
    unique = tt;
    marked = m;
    same = refl;
    clean = tt;
    within = λ s n. n;
  }
  skip_phantoms-IsSkipped evict_heap (x ∷ h) invalid u m = elim (Bool-cases (has x.seq invalid)) [
    | inl phantom ↦
        let less = discard x.seq invalid in
        let m' : IsMarked h evict_heap less =
          λ s. ground (arith, u.0, phantom, m s, m x.seq, has-discard s x.seq invalid) in
        let drop : keep (is_valid invalid) (x ∷ h) ≡ keep (is_valid invalid) h = rw phantom refl in
        let rest = skip_phantoms-IsSkipped evict_heap h less u.1 m' in
        rw phantom (record {
          unique = rest.unique;
          marked = rest.marked;
          same = rest.same ∙ keep-discard x.seq invalid h u.0 ∙ sym drop;
          clean = rest.clean;
          within = λ s n. rest.within s (ground (arith, n));
        })
    | inr valid ↦
        rw valid (record {
          unique = u;
          marked = m;
          same = rw valid refl;
          clean = valid;
          within = λ s n. n;
        })
  ]

  -- What taking the first element of a list gives.
  abbrev pub uncons : List (Entry A) → Option (Entry A) × List (Entry A)
  uncons [] = (none, [])
  uncons (x ∷ xs) = (some x, xs)

  -- The pop of a queue whose top is clean, and which holds something if it counts something.
  record IsTaken (q q' : BoundedPriorityQueue A) (e : Option (Entry A)) : Type 0 where
    taken : (e, live q') ≡ uncons (live q)
    valid : IsValid q'

  pop-IsTaken :
      (h : List (Entry A)) (q : BoundedPriorityQueue A)
      → IsClean h q.invalid
      → 0 < q.count
      → IsValid (record q { heap = h })
      → let (e, q') = pop h (record q { heap = h }) in IsTaken (record q { heap = h }) q' e
  pop-IsTaken [] q clean some_left v = absurd (omega (arith, v.counted))
  pop-IsTaken (x ∷ h) q clean some_left v =
      let new = v.heap_unique.0 in
      let rest = keep-marked x.seq q.invalid h new in
      let all : keep (is_valid q.invalid) (x ∷ h) ≡ x ∷ keep (is_valid q.invalid) h =
        rw clean refl in
      record {
        taken = ap (λ l. (some x, l)) rest ∙ sym (ap uncons all);
        valid = record {
          heap_unique = v.heap_unique.1;
          evict_unique = v.evict_unique;
          marked = λ s. ground (arith, v.marked s, new, v.marked x.seq, clean);
          fresh = λ s later. ground (arith, v.fresh s later);
          counted = omega (arith, v.counted ∙ ap length all, ap length rest);
          bounded = omega (arith, v.bounded);
        };
      }

  empty-of-length : (xs : List (Entry A)) → length xs ≡ 0 → xs ≡ []
  empty-of-length [] h = refl
  empty-of-length (x ∷ xs) h = absurd (omega arith)

  get-IsTaken : (q : BoundedPriorityQueue A) → IsValid q → let (e, q') = get q in IsTaken q q' e
  unfolding get
  get-IsTaken q v =
      let (heap, invalid) = skip_phantoms q.heap q.invalid in
      let s = skip_phantoms-IsSkipped q.evict_heap q.heap q.invalid v.heap_unique v.marked in
      let cleaned : BoundedPriorityQueue A = record q { heap = heap; invalid = invalid } in
      let v' : IsValid cleaned = record {
        heap_unique = s.unique;
        evict_unique = v.evict_unique;
        marked = s.marked;
        fresh = λ n later. (s.within n (v.fresh n later).0, (v.fresh n later).1);
        counted = v.counted ∙ ap length (sym s.same);
        bounded = v.bounded;
      } in
      elim (Bool-cases (ltb 0 q.count)) [
        | inl some_left ↦
            let t = pop-IsTaken heap cleaned s.clean (ltb→lt 0 q.count some_left) v' in
            rw some_left (record { taken = t.taken ∙ ap uncons s.same; valid = t.valid })
        | inr nothing ↦
            let none_left =
              empty-of-length (live q) (sym v.counted ∙ omega (arith, ltb→ge 0 q.count nothing)) in
            rw nothing (record {
              taken = ap (λ l. (none, l)) (s.same ∙ none_left) ∙ sym (ap uncons none_left);
              valid = v';
            })
      ]

  -- On a queue whose books are right, `get` takes the first of the entries that are still in the queue
  -- and leaves the others in their order, whatever entries of its heap were evicted before; it finds
  -- nothing exactly where none is there. The books stay right.
  pub get-uncons :
      (q : BoundedPriorityQueue A)
      → IsValid q
      → let (e, q') = get q in ((e, live q') ≡ uncons (live q)) × IsValid q'
  get-uncons q v = let t = get-IsTaken q v in (t.taken, t.valid)
