-- ===== src/Queue/Order.antt =====
-- The queue of monitor/event_bus.py over any calls: its books, and the order of what it gives out.
use trading_hub.Base.{
  ℕ, ◌≡◌, refl, sym, inl, inr, Bool, true, false, none, List, [], ◌∷◌, arith, ltb, leb,
  if◌then◌else◌, Bool-cases, keep, All, nat_eq, string_eq, pair_eq, subst,
}
use trading_hub.Queue.Heap.{Entry, urgent, heappush, has_seq}
use trading_hub.Queue.Bounded.{
  BoundedPriorityQueue, has, discard, new_queue, put_nowait, skip_phantoms, pop, get, evict_loop,
  evict_lowest_urgency,
}
use trading_hub.Queue.Valid.{IsValid, is_valid, live, put_nowait-IsValid}
use trading_hub.Queue.Get.{get-uncons, uncons}
use trading_hub.Queue.Evict.{evict_lowest_urgency-Evicts}

-- A call of the queue.
pub data QueueCall (A : Type 0) : Type 0 where
  put : ℕ → A → QueueCall A
  take evict : QueueCall A

module _ {A : Type 0} where
  abbrev pub perform : QueueCall A → BoundedPriorityQueue A → BoundedPriorityQueue A
  perform (put priority item) q = (put_nowait priority item q).1
  perform take q = (get q).1
  perform evict q = (evict_lowest_urgency q).1

  abbrev pub perform_all : List (QueueCall A) → BoundedPriorityQueue A → BoundedPriorityQueue A
  perform_all [] q = q
  perform_all (c ∷ cs) q = perform_all cs (perform c q)

  perform-IsValid :
      (c : QueueCall A) (q : BoundedPriorityQueue A) → IsValid q → IsValid (perform c q)
  perform-IsValid (put priority item) q v = put_nowait-IsValid priority item q v
  perform-IsValid take q v = (get-uncons q v).1
  perform-IsValid evict q v = (evict_lowest_urgency-Evicts q v).1

  calls-IsValid :
      (cs : List (QueueCall A)) (q : BoundedPriorityQueue A)
      → IsValid q
      → IsValid (perform_all cs q)
  calls-IsValid [] q v = v
  calls-IsValid (c ∷ cs) q v = calls-IsValid cs (perform c q) (perform-IsValid c q v)

  new_queue-IsValid : (maxsize : ℕ) → IsValid (new_queue {A = A} maxsize)
  unfolding new_queue
  new_queue-IsValid maxsize = record {
    heap_unique = tt;
    evict_unique = tt;
    marked = λ s. refl;
    fresh = λ s later. (refl, refl);
    counted = refl;
    bounded = omega arith;
  }

  -- Whatever calls a new queue has seen, its books are right: it counts the entries that are in it,
  -- these are no more than its capacity, and a sequence number is marked exactly if one of the two
  -- heaps still has it.
  pub perform_all-IsValid :
      (maxsize : ℕ) (cs : List (QueueCall A)) → IsValid (perform_all cs (new_queue maxsize))
  perform_all-IsValid maxsize cs = calls-IsValid cs (new_queue maxsize) (new_queue-IsValid maxsize)

  -- Each entry is more urgent than those behind it, or as urgent and older.
  abbrev pub IsOrdered : List (Entry A) → Type 0
  IsOrdered [] = Unit
  IsOrdered (x ∷ h) = All (λ y. urgent x y ≡ true) h × IsOrdered h

  All-heappush :
      (x e : Entry A) (h : List (Entry A))
      → urgent x e ≡ true
      → All (λ y. urgent x y ≡ true) h
      → All (λ y. urgent x y ≡ true) (heappush urgent e h)
  All-heappush x e [] u a = (u, tt)
  All-heappush x e (y ∷ h) u a = elim (Bool-cases (urgent e y)) [
    | inl first ↦ rw first (u, (a.0, a.1))
    | inr later ↦ rw later (a.0, All-heappush x e h u a.1)
  ]

  All-trans :
      (e x : Entry A) (h : List (Entry A))
      → urgent e x ≡ true
      → All (λ y. urgent x y ≡ true) h
      → All (λ y. urgent e y ≡ true) h
  All-trans e x [] u a = tt
  All-trans e x (y ∷ h) u a = (ground (arith, u, a.0), All-trans e x h u a.1)

  heappush-IsOrdered :
      (e : Entry A) (h : List (Entry A))
      → has_seq e.seq h ≡ false
      → IsOrdered h
      → IsOrdered (heappush urgent e h)
  heappush-IsOrdered e [] n o = (tt, tt)
  heappush-IsOrdered e (x ∷ h) n o = elim (Bool-cases (urgent e x)) [
    | inl first ↦ rw first ((first, All-trans e x h first o.0), o)
    | inr later ↦
        let behind : urgent x e ≡ true = ground (arith, later, n) in
        let absent : has_seq e.seq h ≡ false = ground (arith, n) in
        rw later (All-heappush x e h behind o.0, heappush-IsOrdered e h absent o.1)
  ]

  skip_phantoms-IsOrdered :
      (h : List (Entry A)) (invalid : List ℕ) → IsOrdered h → IsOrdered (skip_phantoms h invalid).0
  unfolding skip_phantoms
  skip_phantoms-IsOrdered [] invalid o = tt
  skip_phantoms-IsOrdered (x ∷ h) invalid o = elim (Bool-cases (has x.seq invalid)) [
    | inl phantom ↦ rw phantom (skip_phantoms-IsOrdered h (discard x.seq invalid) o.1)
    | inr valid ↦ rw valid o
  ]

  pop-IsOrdered :
      (h : List (Entry A)) (q : BoundedPriorityQueue A)
      → IsOrdered h
      → IsOrdered (pop h (record q { heap = h })).1.heap
  pop-IsOrdered [] q o = tt
  pop-IsOrdered (x ∷ h) q o = o.1

  evict_loop-heap :
      (h : List (Entry A)) (q : BoundedPriorityQueue A) → (evict_loop h q).1.heap ≡ q.heap
  unfolding evict_loop
  evict_loop-heap [] q = refl
  evict_loop-heap (x ∷ h) q =
      ground (arith, evict_loop-heap h (record q { invalid = discard x.seq q.invalid }))

  -- The queue after the skip of phantoms.
  abbrev cleaned : BoundedPriorityQueue A → BoundedPriorityQueue A
  cleaned q = record q {
    heap = (skip_phantoms q.heap q.invalid).0;
    invalid = (skip_phantoms q.heap q.invalid).1;
  }

  get-pop :
      (q : BoundedPriorityQueue A)
      → ltb 0 q.count ≡ true
      → get q ≡ pop (skip_phantoms q.heap q.invalid).0 (cleaned q)
  unfolding get
  get-pop q some_left = rw some_left refl

  get-nothing : (q : BoundedPriorityQueue A) → ltb 0 q.count ≡ false → get q ≡ (none, cleaned q)
  unfolding get
  get-nothing q nothing = rw nothing refl

  either-IsOrdered :
      (b : Bool) (q q' : BoundedPriorityQueue A)
      → IsOrdered q.heap
      → IsOrdered q'.heap
      → let r : Bool × BoundedPriorityQueue A = if b then (false, q) else (true, q') in
        IsOrdered r.1.heap
  either-IsOrdered true q q' o o' = o
  either-IsOrdered false q q' o o' = o'

  perform-IsOrdered :
      (c : QueueCall A) (q : BoundedPriorityQueue A)
      → IsValid q
      → IsOrdered q.heap
      → IsOrdered (perform c q).heap
  unfolding put_nowait evict_lowest_urgency
  perform-IsOrdered (put priority item) q v o =
      let e : Entry A = record { priority = priority; seq = q.seq; item = item } in
      let pushed = heappush-IsOrdered e q.heap (v.fresh q.seq (omega arith)).0 o in
      either-IsOrdered (leb q.maxsize q.count) q _ o pushed
  perform-IsOrdered take q v o =
      let (heap, invalid) = skip_phantoms q.heap q.invalid in
      let clean = skip_phantoms-IsOrdered q.heap q.invalid o in
      elim (Bool-cases (ltb 0 q.count)) [
        | inl some_left ↦
            subst (λ r. IsOrdered r.1.heap) (sym (get-pop q some_left))
              (pop-IsOrdered heap (record q { invalid = invalid }) clean)
        | inr nothing ↦ subst (λ r. IsOrdered r.1.heap) (sym (get-nothing q nothing)) clean
      ]
  perform-IsOrdered evict q v o = subst IsOrdered (sym (evict_loop-heap q.evict_heap q)) o

  calls-IsOrdered :
      (cs : List (QueueCall A)) (q : BoundedPriorityQueue A)
      → IsValid q
      → IsOrdered q.heap
      → IsOrdered (perform_all cs q).heap
  calls-IsOrdered [] q v o = o
  calls-IsOrdered (c ∷ cs) q v o =
      calls-IsOrdered cs (perform c q) (perform-IsValid c q v) (perform-IsOrdered c q v o)

  keep-All :
      (x : Entry A) (p : Entry A → Bool) (h : List (Entry A))
      → All (λ y. urgent x y ≡ true) h
      → All (λ y. urgent x y ≡ true) (keep p h)
  keep-All x p [] a = tt
  keep-All x p (y ∷ h) a = elim (Bool-cases (p y)) [
    | inl stays ↦ rw stays (a.0, keep-All x p h a.1)
    | inr goes ↦ rw goes (keep-All x p h a.1)
  ]

  keep-IsOrdered : (p : Entry A → Bool) (h : List (Entry A)) → IsOrdered h → IsOrdered (keep p h)
  keep-IsOrdered p [] o = tt
  keep-IsOrdered p (x ∷ h) o = elim (Bool-cases (p x)) [
    | inl stays ↦ rw stays (keep-All x p h o.0, keep-IsOrdered p h o.1)
    | inr goes ↦ rw goes (keep-IsOrdered p h o.1)
  ]

  -- Whatever calls a new queue has seen, the next `get` gives out the most urgent of the entries that
  -- are in it, the oldest where several are as urgent, and nothing only where none is there.
  pub perform_all-get :
      (maxsize : ℕ) (cs : List (QueueCall A))
      → let q = perform_all cs (new_queue maxsize) in
        let (e, q') = get q in ((e, live q') ≡ uncons (live q)) × IsOrdered (live q)
  unfolding new_queue
  perform_all-get maxsize cs =
      let q = perform_all cs (new_queue maxsize) in
      (
        (get-uncons q (perform_all-IsValid maxsize cs)).0,
        keep-IsOrdered (is_valid q.invalid) q.heap
            (calls-IsOrdered cs (new_queue maxsize) (new_queue-IsValid maxsize) tt),
      )
