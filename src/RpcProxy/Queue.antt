-- ===== src/RpcProxy/Queue.antt =====
-- PriorityQueue and requestHeap of pkg/rpcproxy/queue.go. A method runs under the queue's mutex, so
-- it is a function from state to state; `none` is a panic of container/heap, which never happens.
-- The int64 counters are plain numbers (2^63 calls would be needed to wrap them), and a negative
-- maxSize is left out.
pub mod Order
pub mod Ops
pub mod Drain
pub mod Trace
use indexer_go.Base.{
  ℕ, zero, suc, ◌+◌, ◌≡◌, Bool, true, false, not, ◌&&◌, ◌||◌, List, [], ◌∷◌, ◌++◌, Option, none,
  some, ◌>>=◌, arith, ltb, leb, ◌==◌, if◌then◌else◌, length,
}
use indexer_go.Heap
use indexer_go.Heap.{Less}
use indexer_go.RpcProxy.Types.{Request}

-- requestHeap.Less
unfoldable pub before : Request → Request → Bool
before x y =
    if x.priority == y.priority then ltb x.created_at y.created_at else ltb x.priority y.priority

pub before-asym : (x y : Request) → before x y ≡ true → before y x ≡ false
unfolding before
before-asym x y h = ground arith

pub before_trans : (x y z : Request) → before y x ≡ false → before z y ≡ false → before z x ≡ false
unfolding before
before_trans x y z p q = ground arith

unfoldable pub request_less : Less Request
request_less = record { less = before; asym = before-asym; trans = before_trans }

pub record PriorityQueue : Type 0 where
  pub items : List Request
  pub max_size : ℕ
  pub closed : Bool
  pub enqueued : ℕ
  pub dequeued : ℕ
  pub dropped : ℕ

-- heap.Init of an empty heap does nothing.
unfoldable pub new_priority_queue : ℕ → PriorityQueue
new_priority_queue max_size = record {
  items = [];
  max_size = max_size;
  closed = false;
  enqueued = 0;
  dequeued = 0;
  dropped = 0;
}

unfoldable pub enqueue : PriorityQueue → Request → Option (PriorityQueue × Bool)
enqueue q req =
    let pushed : Option (PriorityQueue × Bool) = do
      items ← Heap.push request_less q.items req
      some (record q { items = items; enqueued = q.enqueued + 1 }, true)
    in if q.closed
      then some (q, false)
      else if leb q.max_size (length q.items)
      then some (record q { dropped = q.dropped + 1 }, false)
      else pushed

-- The end of the three dequeue methods.
unfoldable pub take_next : PriorityQueue → Option (PriorityQueue × Option Request)
take_next q = do
  (req, items) ← Heap.pop request_less q.items
  some (record q { items = items; dequeued = q.dequeued + 1 }, some req)

unfoldable pub try_dequeue : PriorityQueue → Option (PriorityQueue × Option Request)
unfolding take_next
try_dequeue q =
    let taken = take_next q in if length q.items == 0 || q.closed then some (q, none) else taken

-- A pass of Dequeue through its loop: it sleeps on the condition variable, or it returns.
pub data Pass : Type 0 where
  waits : Pass
  returns : PriorityQueue → Option Request → Pass

unfoldable pub return_next : PriorityQueue → Option Pass
unfolding take_next
return_next q =
    let taken : Option Pass = take_next q >>= λ (q', req). some (returns q' req) in
    if q.closed && length q.items == 0 then some (returns q none) else taken

unfoldable pub dequeue : PriorityQueue → Option Pass
unfolding return_next
dequeue q =
    let next = return_next q in if length q.items == 0 && not q.closed then some waits else next

-- DequeueWithTimeout at the head of its loop: `remaining` is the time left until the deadline when
-- the loop reads the clock, 0 once it has passed.
unfoldable pub timed_head : ℕ → PriorityQueue → Option Pass
unfolding return_next
timed_head remaining q =
    let next = return_next q in
    if length q.items == 0 && not q.closed
    then (if remaining == 0 then some (returns q none) else some waits)
    else next

-- DequeueWithTimeout after a wake-up at the instant `now`: it gives up, or goes to the head.
unfoldable pub timed_wake : ℕ → ℕ → ℕ → PriorityQueue → Option Pass
unfolding timed_head
timed_wake deadline now remaining q =
    let again = timed_head remaining q in if ltb deadline now then some (returns q none) else again

unfoldable pub size : PriorityQueue → ℕ
size q = length q.items

unfoldable pub stats : PriorityQueue → ℕ × ℕ × ℕ × ℕ
stats q = (q.enqueued, q.dequeued, q.dropped, length q.items)

unfoldable pub close : PriorityQueue → PriorityQueue
close q = record q { closed = true }

unfoldable pub is_closed : PriorityQueue → Bool
is_closed q = q.closed

-- The loop of Drain; `none` also when the fuel runs out.
unfoldable pub drain_loop : ℕ → List Request → List Request → Option (List Request)
drain_loop zero items result = none
drain_loop (suc fuel) items result =
    let round =
      Heap.pop request_less items >>= λ (req, rest). drain_loop fuel rest (result ++ req ∷ []) in
    if length items == 0 then some result else round

-- Drain: the requests, and the queue that is left. It does not count them as dequeued.
unfoldable pub drain : PriorityQueue → Option (PriorityQueue × List Request)
unfolding drain_loop
drain q = do
  result ← drain_loop (suc (length q.items)) q.items []
  some (record q { items = [] }, result)
