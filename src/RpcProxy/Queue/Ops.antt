-- ===== src/RpcProxy/Queue/Ops.antt =====
-- What one call of Enqueue, TryDequeue, Dequeue or DequeueWithTimeout does to a valid queue of
-- pkg/rpcproxy/queue.go, on every branch.
use mathlib.Core.List.{Mem}
use indexer_go.Base.{
  ℕ, ◌+◌, ◌-◌, ◌<◌, ◌≡◌, refl, ◌⊎◌, inl, inr, Bool, true, false, not, ◌&&◌, ◌||◌, ◌∷◌, Perm, none,
  some, arith, ltb, leb, ◌==◌, Bool-cases, length,
}
use indexer_go.Base.Slice.{length-perm}
use indexer_go.Heap.Ends.{push_lem, pop_lem}
use indexer_go.RpcProxy.Types.{Request}
use indexer_go.RpcProxy.Queue.{
  PriorityQueue, waits, returns, request_less, new_priority_queue, enqueue, take_next, try_dequeue,
  return_next, dequeue, timed_head, timed_wake,
}
use indexer_go.RpcProxy.Queue.Order.{ServedBefore, ServedBefore-of_not, no_request, IsValid}

pub new-IsValid : (n : ℕ) → IsValid (new_priority_queue n)
unfolding new_priority_queue
new-IsValid n = record {
  heap = λ c p h. absurd (omega arith);
  bounded = omega arith;
  counted = omega arith;
}

-- What Enqueue leaves, with its result: a closed queue is unchanged, a full one counts a drop, and
-- any other takes the request.
pub data Enqueued (q : PriorityQueue) (req : Request) (q' : PriorityQueue) : Bool → Type 0 where
  refused : q.closed ≡ true → q' ≡ q → Enqueued q req q' false
  overflowed :
      q.closed ≡ false
      → length q.items ≡ q.max_size
      → q' ≡ record q { dropped = q.dropped + 1 }
      → Enqueued q req q' false
  accepted :
      q.closed ≡ false
      → length q.items < q.max_size
      → Perm q'.items (req ∷ q.items)
      → q' ≡ record q { items = q'.items; enqueued = q.enqueued + 1 }
      → Enqueued q req q' true

-- Enqueue on a valid queue returns and leaves a valid queue: it refuses a request when the queue is
-- closed, which changes nothing, and when it is full, which only counts a drop; otherwise exactly
-- the request is added, and only the enqueue counter changes beside the items.
pub enqueue_lem :
    (q : PriorityQueue) (req : Request)
    → IsValid q
    → (q' : PriorityQueue) × (ok : Bool) × (enqueue q req ≡ some (q', ok))
      × IsValid q'
      × Enqueued q req q' ok
unfolding enqueue
enqueue_lem q req v = elim (Bool-cases q.closed) [
  | inl shut ↦ (q, false, rw shut, v, refused shut refl)
  | inr open_ ↦ elim (Bool-cases (leb q.max_size (length q.items))) [
    | inl full ↦
        let q' = record q { dropped = q.dropped + 1 } in
        (
          q',
          false,
          rw (open_, full),
          record { heap = v.heap; bounded = v.bounded; counted = v.counted },
          overflowed open_ (ground (arith, v.bounded)) refl,
        )
    | inr room ↦
        let (items, e, heap, same) = push_lem request_less no_request q.items req v.heap in
        let long = length-perm same in
        let q' = record q { items = items; enqueued = q.enqueued + 1 } in
        (
          q',
          true,
          rw (open_, room, e),
          record {
            heap = heap;
            bounded = ground (arith, long);
            counted = omega (arith, long, v.counted);
          },
          accepted open_ (ground arith) same refl,
        )
  ]
]

-- `req` was taken from `q`: it is served before all that were in it, and only it is gone.
pub record Taken (q q' : PriorityQueue) (req : Request) : Type 0 where
  pub valid : IsValid q'
  pub same : Perm (req ∷ q'.items) q.items
  pub first : (r : Request) → Mem r q.items → ServedBefore req r
  pub rest : q' ≡ record q { items = q'.items; dequeued = q.dequeued + 1 }

take_next_lem :
    (q : PriorityQueue)
    → IsValid q
    → 0 < length q.items
    → (q' : PriorityQueue) × (req : Request) × (take_next q ≡ some (q', some req)) × Taken q q' req
unfolding take_next request_less
take_next_lem q v h =
    let n = length q.items - 1 in
    let (req, items, e, popped) = pop_lem request_less no_request n q.items v.heap (omega arith) in
    let long = length-perm popped.same in
    let q' = record q { items = items; dequeued = q.dequeued + 1 } in
    (
      q',
      req,
      rw e,
      record {
        valid = record {
          heap = popped.heap;
          bounded = omega (arith, long, v.bounded);
          counted = omega (arith, long, v.counted);
        };
        same = popped.same;
        first = λ r m. ServedBefore-of_not req r (popped.least r m);
        rest = refl;
      },
    )

-- TryDequeue on a valid queue returns: nothing, changing nothing, exactly when the queue is empty
-- or closed, and otherwise the request that is served before all others, taking only it.
pub try_dequeue_lem :
    (q : PriorityQueue)
    → IsValid q
    → ((length q.items ≡ 0) ⊎ (q.closed ≡ true)) × (try_dequeue q ≡ some (q, none))
      ⊎ ((0 < length q.items)
          × (q.closed ≡ false)
          × ((q' : PriorityQueue) × (req : Request) × (try_dequeue q ≡ some (q', some req))
              × Taken q q' req))
unfolding try_dequeue
try_dequeue_lem q v = elim (Bool-cases (length q.items == 0 || q.closed)) [
  | inl refuse ↦ inl (ground arith, rw refuse)
  | inr go ↦
      let full : 0 < length q.items = ground arith in
      let (q', req, e, t) = take_next_lem q v full in
      inr (full, ground arith, (q', req, rw go e, t))
]

-- Dequeue on a valid queue: it sleeps exactly on an empty open queue, returns nothing exactly on an
-- empty closed one, and otherwise, closed or not, returns the request that is served before all
-- others, taking only it.
pub dequeue_lem :
    (q : PriorityQueue)
    → IsValid q
    → ((length q.items ≡ 0) × (q.closed ≡ false) × (dequeue q ≡ some waits))
      ⊎ ((length q.items ≡ 0) × (q.closed ≡ true) × (dequeue q ≡ some (returns q none)))
      ⊎ ((0 < length q.items)
          × ((q' : PriorityQueue) × (req : Request) × (dequeue q ≡ some (returns q' (some req)))
              × Taken q q' req))
unfolding dequeue return_next
dequeue_lem q v = elim (Bool-cases (length q.items == 0)) [
  | inl empty ↦ elim (Bool-cases q.closed) [
    | inl shut ↦ inr (inl (ground arith, shut, rw (empty, shut)))
    | inr open_ ↦ inl (ground arith, open_, rw (empty, open_))
  ]
  | inr more ↦
      let full : 0 < length q.items = ground arith in
      let (q', req, e, t) = take_next_lem q v full in
      inr (inr (full, (q', req, ground (arith, e), t)))
]

-- A pass of DequeueWithTimeout does what Dequeue does, or gives up and changes nothing.
pub timed_head_cases :
    (remaining : ℕ) (q : PriorityQueue)
    → (timed_head remaining q ≡ dequeue q) ⊎ (timed_head remaining q ≡ some (returns q none))
unfolding timed_head dequeue
timed_head_cases remaining q = elim (Bool-cases (length q.items == 0 && not q.closed)) [
  | inr go ↦ inl (rw go)
  | inl wait ↦ elim (Bool-cases (remaining == 0)) [
    | inl late ↦ inr (rw (wait, late))
    | inr early ↦ inl (rw (wait, early))
  ]
]

pub timed_wake_cases :
    (deadline now remaining : ℕ) (q : PriorityQueue)
    → (timed_wake deadline now remaining q ≡ dequeue q)
      ⊎ (timed_wake deadline now remaining q ≡ some (returns q none))
unfolding timed_wake
timed_wake_cases deadline now remaining q = elim (Bool-cases (ltb deadline now)) [
  | inl late ↦ inr (rw late)
  | inr early ↦ rw early (timed_head_cases remaining q)
]
