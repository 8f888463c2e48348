-- ===== src/Queue/Valid.antt =====
-- The invariant of the two heaps.
use trading_hub.Base.{
  ℕ, ◌≤◌, ◌≡◌, inl, inr, Bool, true, false, not, List, arith, leb, Bool-cases, length, keep, nat_eq,
  string_eq, pair_eq,
}
use trading_hub.Queue.Heap.{
  Entry, urgent, lax, has_seq, IsUniqueSeq, has_seq-heappush, heappush-IsUniqueSeq,
  length-keep-heappush,
}
use trading_hub.Queue.Bounded.{BoundedPriorityQueue, has, put_nowait}

abbrev pub differ : Bool → Bool → Bool
differ true b = not b
differ false b = b

module _ {A : Type 0} where
  abbrev pub is_valid : List ℕ → Entry A → Bool
  is_valid invalid e = not (has e.seq invalid)

  -- The entries that are still in the queue, the most urgent first.
  abbrev pub live : BoundedPriorityQueue A → List (Entry A)
  live q = keep (is_valid q.invalid) q.heap

  -- A sequence number is marked exactly if it stands in one of the heaps only.
  abbrev pub IsMarked : List (Entry A) → List (Entry A) → List ℕ → Type 0
  IsMarked heap evict_heap invalid =
      (s : ℕ) → has s invalid ≡ differ (has_seq s heap) (has_seq s evict_heap)

pub record IsValid {A : Type 0} (q : BoundedPriorityQueue A) : Type 0 where
  pub heap_unique : IsUniqueSeq q.heap
  pub evict_unique : IsUniqueSeq q.evict_heap
  pub marked : IsMarked q.heap q.evict_heap q.invalid
  pub fresh : (s : ℕ) → q.seq ≤ s → (has_seq s q.heap ≡ false) × (has_seq s q.evict_heap ≡ false)
  pub counted : q.count ≡ length (live q)
  pub bounded : q.count ≤ q.maxsize

module _ {A : Type 0} where
  pub put_nowait-IsValid :
      (priority : ℕ) (item : A) (q : BoundedPriorityQueue A)
      → IsValid q
      → IsValid (put_nowait priority item q).1
  unfolding put_nowait
  put_nowait-IsValid priority item q v = elim (Bool-cases (leb q.maxsize q.count)) [
    | inl full ↦ rw full v
    | inr room ↦
        let e : Entry A = record { priority = priority; seq = q.seq; item = item } in
        let new = v.fresh q.seq (omega arith) in
        rw room (record {
          heap_unique = heappush-IsUniqueSeq urgent e q.heap new.0 v.heap_unique;
          evict_unique = heappush-IsUniqueSeq lax e q.evict_heap new.1 v.evict_unique;
          marked = λ s. ground (
            arith,
            v.marked s,
            new,
            has_seq-heappush urgent e s q.heap,
            has_seq-heappush lax e s q.evict_heap,
          );
          fresh = λ s later. ground (
            arith,
            v.fresh s (omega arith),
            has_seq-heappush urgent e s q.heap,
            has_seq-heappush lax e s q.evict_heap,
          );
          counted = ground (
            arith,
            v.counted,
            length-keep-heappush urgent (is_valid q.invalid) e q.heap
                (ground (arith, v.marked q.seq, new)),
          );
          bounded = ground (arith, room);
        })
  ]
