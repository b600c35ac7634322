-- ===== src/RpcProxy/Queue/Order.antt =====
-- The order in which the queue of pkg/rpcproxy/queue.go serves requests, and its invariant.
use indexer_go.Base.{◌+◌, ◌≤◌, ◌<◌, ◌≡◌, ◌⊎◌, false, List, [], ◌∷◌, All, length, arith}
use indexer_go.Heap.Ends.{IsHeap}
use indexer_go.RpcProxy.Types.{Request, foreign, balance}
use indexer_go.Base.{none}
use indexer_go.RpcProxy.Queue.{PriorityQueue, request_less, before}

-- A lower priority value first, and within one priority the earlier request first.
abbrev pub ServedBefore : Request → Request → Type 0
ServedBefore x y =
    (x.priority < y.priority) ⊎ ((x.priority ≡ y.priority) × (x.created_at ≤ y.created_at))

pub ServedBefore-of_not : (x y : Request) → before y x ≡ false → ServedBefore x y
unfolding before
ServedBefore-of_not x y h = ground arith

-- Every request of the list is served before those behind it.
abbrev pub IsServiceOrder : List Request → Type 0
IsServiceOrder [] = Unit
IsServiceOrder (x ∷ xs) = All (ServedBefore x) xs × IsServiceOrder xs

-- The request that stands for a read out of range, which no call makes.
abbrev pub no_request : Request
no_request = record {
  id = "";
  kind = balance;
  priority = 0;
  payload = foreign;
  result_ch = none;
  created_at = 0;
  timeout = 0;
}

-- A heap within its bound, whose counters account for what is in it.
pub record IsValid (q : PriorityQueue) : Type 0 where
  pub heap : IsHeap request_less no_request q.items
  pub bounded : length q.items ≤ q.max_size
  pub counted : q.dequeued + length q.items ≤ q.enqueued
