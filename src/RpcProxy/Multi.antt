-- ===== src/RpcProxy/Multi.antt =====
-- MultiPriorityQueue of pkg/rpcproxy/queue.go: its map holds the three queues of the constructor
-- and no method adds or removes one, so it is a record; a priority with no queue is `none`. The
-- calls of one method are taken in sequence, with no other call between them.
pub mod Dequeue
use indexer_go.Base.{ℕ, ◌+◌, Bool, true, false, Option, none, some, ◌>>=◌, ◌==◌, if◌then◌else◌}
use indexer_go.RpcProxy.Types.{Request, priority_critical, priority_high, priority_normal}
use indexer_go.RpcProxy.Queue
use indexer_go.RpcProxy.Queue.{PriorityQueue, new_priority_queue}

pub record MultiPriorityQueue : Type 0 where
  pub critical : PriorityQueue
  pub high : PriorityQueue
  pub normal : PriorityQueue

unfoldable pub new_multi_priority_queue : ℕ → MultiPriorityQueue
new_multi_priority_queue n = record {
  critical = new_priority_queue n;
  high = new_priority_queue n;
  normal = new_priority_queue n;
}

-- mpq.queues[p] = q
unfoldable pub put_queue : ℕ → PriorityQueue → MultiPriorityQueue → MultiPriorityQueue
put_queue p q mpq =
    if p == priority_critical
    then record mpq { critical = q }
    else if p == priority_high
    then record mpq { high = q }
    else if p == priority_normal
    then record mpq { normal = q }
    else mpq

-- mpq.queues[p]
unfoldable pub queue_of : ℕ → MultiPriorityQueue → Option PriorityQueue
queue_of p mpq =
    if p == priority_critical
    then some mpq.critical
    else if p == priority_high
    then some mpq.high
    else if p == priority_normal
    then some mpq.normal
    else none

unfoldable pub enqueue : MultiPriorityQueue → Request → Option (MultiPriorityQueue × Bool)
unfolding queue_of put_queue
enqueue mpq req = elim (queue_of req.priority mpq) [
  | none ↦ some (mpq, false)
  | some q ↦ Queue.enqueue q req >>= λ (q', ok). some (put_queue req.priority q' mpq, ok)
]

-- The body of Dequeue's loop: a request from the queue of priority `p`, or the rest of the loop.
unfoldable pub try_or :
    (MultiPriorityQueue → Option (MultiPriorityQueue × Option Request))
    → ℕ
    → PriorityQueue
    → MultiPriorityQueue
    → Option (MultiPriorityQueue × Option Request)
unfolding put_queue
try_or others p q mpq = Queue.try_dequeue q >>= λ (q', got). elim got [
  | some req ↦ some (put_queue p q' mpq, some req)
  | none ↦ others (put_queue p q' mpq)
]

unfoldable pub dequeue : MultiPriorityQueue → Option (MultiPriorityQueue × Option Request)
unfolding try_or
dequeue mpq =
    let last =
      λ (m : MultiPriorityQueue). try_or (λ m'. some (m', none)) priority_normal m.normal m in
    let later = λ (m : MultiPriorityQueue). try_or last priority_high m.high m in
    try_or later priority_critical mpq.critical mpq

unfoldable pub total_size : MultiPriorityQueue → ℕ
total_size mpq = Queue.size mpq.critical + Queue.size mpq.high + Queue.size mpq.normal

unfoldable pub close : MultiPriorityQueue → MultiPriorityQueue
close mpq = record {
  critical = Queue.close mpq.critical;
  high = Queue.close mpq.high;
  normal = Queue.close mpq.normal;
}
