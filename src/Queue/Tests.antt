-- ===== src/Queue/Tests.antt =====
-- A run of the priority queue with three places.
use trading_hub.Queue.Valid.{live, IsValid}
use trading_hub.Base.{String, ◌≡◌, refl, List, [], ◌∷◌, map, nat_eq, string_eq, pair_eq}
use trading_hub.Queue.Bounded.{
  BoundedPriorityQueue, new_queue, get, evict_lowest_urgency, put_nowait,
}
use trading_hub.Queue.Evict.{evict_lowest_urgency-Evicts, Evicts}
use trading_hub.Queue.Get.{uncons}
use trading_hub.Queue.Order.{
  QueueCall, put, evict, perform_all, perform_all-IsValid, IsOrdered, perform_all-get,
}

abbrev calls : List (QueueCall String)
calls = put 2 "bar" ∷ put 0 "fill" ∷ put 2 "quote" ∷ put 1 "late" ∷ evict ∷ []

abbrev filled_queue : BoundedPriorityQueue String
filled_queue = perform_all calls (new_queue 3)

-- The fourth event finds the queue full; the older of the two least urgent is evicted.
in_queue : map (λ e. e.item) (live filled_queue) ≡ "fill" ∷ "quote" ∷ []
unfolding evict_lowest_urgency put_nowait new_queue
in_queue = refl

perform_all-IsValid_example : IsValid filled_queue
perform_all-IsValid_example = perform_all-IsValid 3 calls

perform_all-get_example :
    let (e, q') = get filled_queue in
    ((e, live q') ≡ uncons (live filled_queue)) × IsOrdered (live filled_queue)
perform_all-get_example = perform_all-get 3 calls

evict_lowest_urgency-Evicts_example :
    let (e, q') = evict_lowest_urgency filled_queue in
    Evicts e (live filled_queue) (live q') × IsValid q'
evict_lowest_urgency-Evicts_example =
    evict_lowest_urgency-Evicts filled_queue (perform_all-IsValid 3 calls)
