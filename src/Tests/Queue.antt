-- ===== src/Tests/Queue.antt =====
-- Inputs for the theorems on the priority queues of pkg/rpcproxy/queue.go.
use mathlib.Core.List.{Mem, not-mem-nil, forall_mem-cons}
use native.Mathlib.Nat.{ℕ_set}
use indexer_go.Base.{All, ℕ, ◌≡◌, refl, ◌⊎◌, false, List, [], ◌∷◌, Perm, some, none, arith}
use indexer_go.RpcProxy.Types.{Request, contract_call, foreign}
use indexer_go.RpcProxy.Queue
use indexer_go.RpcProxy.Queue.{PriorityQueue, waits, returns, enqueue, try_dequeue, dequeue, drain}
use indexer_go.RpcProxy.Queue.Order.{IsServiceOrder, IsValid}
use indexer_go.RpcProxy.Queue.Drain.{drain_lem}
use indexer_go.RpcProxy.Queue.Trace.{
  Ledger, Balanced, call_enqueue, call_dequeue, call_close, calls, start, queue-Balanced,
}
use indexer_go.RpcProxy.Multi
use indexer_go.RpcProxy.Multi.{MultiPriorityQueue, total_size}
use indexer_go.RpcProxy.Multi.Dequeue.{HasLanes, Handed, multi_dequeue_lem, dequeue-close}

abbrev request : ℕ → ℕ → Request
request priority created_at = record {
  id = "r";
  kind = contract_call;
  priority = priority;
  payload = foreign;
  result_ch = none;
  created_at = created_at;
  timeout = 10;
}

abbrev two : PriorityQueue
two = record {
  items = request 0 7 ∷ request 1 3 ∷ [];
  max_size = 3;
  closed = false;
  enqueued = 2;
  dequeued = 0;
  dropped = 0;
}

-- By priority first, then by creation.
drained_in_order :
    drain (record two { items = request 0 7 ∷ request 1 3 ∷ request 0 8 ∷ [] })
    ≡ some (record two { items = [] }, request 0 7 ∷ request 0 8 ∷ request 1 3 ∷ [])
unfolding drain Queue.request_less Queue.before indexer_go.Heap.pop
drained_in_order = refl

two-IsValid : IsValid two
unfolding Queue.request_less Queue.before
two-IsValid = grind arith

drain_lem_example :
    (out : List Request) × (drain two ≡ some (record two { items = [] }, out))
    × IsServiceOrder out
    × Perm out two.items
    × IsValid (record two { items = [] })
drain_lem_example = drain_lem two two-IsValid

queue-Balanced_example :
    (l : Ledger) × (calls (start 2) (call_enqueue (request 0 7) ∷ call_close ∷ call_dequeue ∷ [])
      ≡ some l)
    × Balanced l
queue-Balanced_example =
    queue-Balanced 2 (call_enqueue (request 0 7) ∷ call_close ∷ call_dequeue ∷ [])

abbrev lanes : MultiPriorityQueue
lanes = record {
  critical = record two { items = [] };
  high = record two { items = request 1 7 ∷ request 1 9 ∷ [] };
  normal = record two { items = request 2 3 ∷ [] };
}

All-alike :
    (p : ℕ) (rs : List Request)
    → All (λ r. r.priority ≡ p) rs
    → (r : Request) → Mem r rs
    → r.priority ≡ p
All-alike p [] h = λ r m. absurd (not-mem-nil m)
All-alike p (x ∷ rs) h = (forall_mem-cons λ r. ℕ_set _ _).1 (h.0, All-alike p rs h.1)

lanes-HasLanes : HasLanes lanes
unfolding Queue.request_less Queue.before
lanes-HasLanes = record {
  critical = record { valid = grind arith; opened = refl; alike = All-alike 0 [] tt };
  high = record { valid = grind arith; opened = refl; alike = All-alike 1 _ (omega arith) };
  normal = record { valid = grind arith; opened = refl; alike = All-alike 2 _ (omega arith) };
}

multi_dequeue_lem_example :
    ((total_size lanes ≡ 0) × (Multi.dequeue lanes ≡ some (lanes, none)))
    ⊎ ((mpq' : MultiPriorityQueue) × (req : Request) × (Multi.dequeue lanes ≡ some (mpq', some req))
        × Handed lanes mpq' req)
multi_dequeue_lem_example = multi_dequeue_lem lanes lanes-HasLanes

dequeue-close_example : Multi.dequeue (Multi.close lanes) ≡ some (Multi.close lanes, none)
dequeue-close_example = dequeue-close lanes
