-- ===== src/Queue/Bounded.antt =====
-- `class _BoundedPriorityQueue` of monitor/event_bus.py: two heaps with lazy deletion. A call that would
-- wait returns nothing instead.
use trading_hub.Base.{
  ℕ, ◌+◌, ◌-◌, Bool, true, false, ◌||◌, Option, none, some, List, [], ◌∷◌, ltb, leb, eqb,
  if◌then◌else◌, nat_eq, string_eq, pair_eq,
}
use trading_hub.Queue.Heap.{Entry, urgent, lax, heappush}

abbrev pub has : ℕ → List ℕ → Bool
has s [] = false
has s (x ∷ xs) = eqb x s || has s xs

abbrev pub discard : ℕ → List ℕ → List ℕ
discard s [] = []
discard s (x ∷ xs) = let rest = discard s xs in if eqb x s then rest else x ∷ rest

pub record BoundedPriorityQueue (A : Type 0) : Type 0 where
  pub maxsize : ℕ
  pub heap : List (Entry A)
  pub evict_heap : List (Entry A)
  pub invalid : List ℕ
  pub seq : ℕ
  pub count : ℕ

module _ {A : Type 0} where
  -- `max(1, maxsize)`
  unfoldable pub new_queue : ℕ → BoundedPriorityQueue A
  new_queue maxsize = record {
    maxsize = if ltb maxsize 1 then 1 else maxsize;
    heap = [];
    evict_heap = [];
    invalid = [];
    seq = 0;
    count = 0;
  }

  -- False where the queue is full.
  unfoldable pub put_nowait : ℕ → A → BoundedPriorityQueue A → Bool × BoundedPriorityQueue A
  put_nowait priority item q =
      let e : Entry A = record { priority = priority; seq = q.seq; item = item } in
      let pushed : BoundedPriorityQueue A = record q {
        heap = heappush urgent e q.heap;
        evict_heap = heappush lax e q.evict_heap;
        seq = q.seq + 1;
        count = q.count + 1;
      } in
      if leb q.maxsize q.count then (false, q) else (true, pushed)

  -- The evicted entries at the top of the heap go.
  unfoldable pub skip_phantoms : List (Entry A) → List ℕ → List (Entry A) × List ℕ
  skip_phantoms [] invalid = ([], invalid)
  skip_phantoms (x ∷ h) invalid =
      let rest = skip_phantoms h (discard x.seq invalid) in
      if has x.seq invalid then rest else (x ∷ h, invalid)

  -- `heappop` of an empty heap would raise: the queue is then left as it is.
  abbrev pub pop :
      List (Entry A) → BoundedPriorityQueue A → Option (Entry A) × BoundedPriorityQueue A
  pop [] q = (none, q)
  pop (x ∷ h) q = (some x, record q { heap = h; invalid = x.seq ∷ q.invalid; count = q.count - 1 })

  unfoldable pub get : BoundedPriorityQueue A → Option (Entry A) × BoundedPriorityQueue A
  unfolding skip_phantoms
  get q =
      let (heap, invalid) = skip_phantoms q.heap q.invalid in
      let cleaned : BoundedPriorityQueue A = record q { heap = heap; invalid = invalid } in
      if ltb 0 q.count then pop heap cleaned else (none, cleaned)

  -- The loop of `evict_lowest_urgency`.
  unfoldable pub evict_loop :
      List (Entry A) → BoundedPriorityQueue A → Option (Entry A) × BoundedPriorityQueue A
  evict_loop [] q = (none, record q { evict_heap = [] })
  evict_loop (x ∷ h) q =
      let rest = evict_loop h (record q { invalid = discard x.seq q.invalid }) in
      let evicted : BoundedPriorityQueue A = record q {
        evict_heap = h;
        invalid = x.seq ∷ q.invalid;
        count = q.count - 1;
      } in
      if has x.seq q.invalid then rest else (some x, evicted)

  unfoldable pub evict_lowest_urgency :
      BoundedPriorityQueue A → Option (Entry A) × BoundedPriorityQueue A
  unfolding evict_loop
  evict_lowest_urgency q = evict_loop q.evict_heap q
