-- ===== src/RpcProxy/Queue/Trace.antt =====
-- Sequences of calls on one queue of pkg/rpcproxy/queue.go, in the order in which they take the
-- mutex, with the requests that were accepted and those that were handed out.
use mathlib.Core.List.{append-nil, append_assoc, perm_middle}
use mathlib.Core.List.Perm
use indexer_go.Base.{
  ℕ, ◌≡◌, refl, ◌⊎◌, inl, inr, Bool, true, false, List, [], ◌∷◌, ◌++◌, Perm, Option, none, some,
  ◌>>=◌,
}
use indexer_go.RpcProxy.Types.{Request}
use indexer_go.RpcProxy.Queue.{
  PriorityQueue, Pass, waits, returns, timed_head, timed_wake, new_priority_queue, enqueue,
  try_dequeue, dequeue, close, drain,
}
use indexer_go.RpcProxy.Queue.Order.{IsValid}
use indexer_go.RpcProxy.Queue.Ops.{
  Enqueued, refused, overflowed, accepted, enqueue_lem, try_dequeue_lem, dequeue_lem, new-IsValid,
  timed_head_cases, timed_wake_cases,
}
use indexer_go.RpcProxy.Queue.Drain.{drain_lem}

pub data Call : Type 0 where
  call_enqueue : Request → Call
  call_try_dequeue call_dequeue call_drain call_close : Call
  call_timed_head : ℕ → Call
  call_timed_wake : ℕ → ℕ → ℕ → Call

-- The queue, the requests for which Enqueue returned true, and those handed out, oldest first.
pub record Ledger : Type 0 where
  pub queue : PriorityQueue
  pub accepted_ones : List Request
  pub served : List Request

unfoldable pub note_enqueue : Ledger → Request → PriorityQueue × Bool → Ledger
note_enqueue l req (q, true) = record l { queue = q; accepted_ones = req ∷ l.accepted_ones }
note_enqueue l req (q, false) = record l { queue = q }

unfoldable pub note_served : Ledger → PriorityQueue → Option Request → Ledger
note_served l q none = record l { queue = q }
note_served l q (some req) = record l { queue = q; served = l.served ++ req ∷ [] }

unfoldable pub note_pass : Ledger → Pass → Ledger
unfolding note_served
note_pass l waits = l
note_pass l (returns q req) = note_served l q req

-- A Dequeue or DequeueWithTimeout that sleeps changes nothing; its later passes are calls of their
-- own.
unfoldable pub call : Ledger → Call → Option Ledger
unfolding note_enqueue note_served note_pass
call l (call_enqueue req) = enqueue l.queue req >>= λ r. some (note_enqueue l req r)
call l call_try_dequeue = try_dequeue l.queue >>= λ (q, req). some (note_served l q req)
call l call_dequeue = dequeue l.queue >>= λ pass. some (note_pass l pass)
call l (call_timed_head remaining) =
    timed_head remaining l.queue >>= λ pass. some (note_pass l pass)
call l (call_timed_wake deadline now remaining) =
    timed_wake deadline now remaining l.queue >>= λ pass. some (note_pass l pass)
call l call_drain =
    drain l.queue >>= λ (q, out). some (record l { queue = q; served = l.served ++ out })
call l call_close = some (record l { queue = close l.queue })

unfoldable pub calls : Ledger → List Call → Option Ledger
unfolding call
calls l [] = some l
calls l (c ∷ cs) = call l c >>= λ l'. calls l' cs

unfoldable pub start : ℕ → Ledger
unfolding new_priority_queue
start n = record { queue = new_priority_queue n; accepted_ones = []; served = [] }

-- The queue is valid, and each accepted request was handed out or is still queued, exactly once.
pub record Balanced (l : Ledger) : Type 0 where
  pub valid : IsValid l.queue
  pub same : Perm (l.served ++ l.queue.items) l.accepted_ones

abbrev Steps : Ledger → Call → Type 0
Steps l c = (l' : Ledger) × (call l c ≡ some l') × Balanced l'

serve-perm :
    (served items items' acc : List Request) (req : Request)
    → Perm (req ∷ items') items
    → Perm (served ++ items) acc
    → Perm ((served ++ req ∷ []) ++ items') acc
serve-perm served items items' acc req taken same =
    rw (append_assoc served (req ∷ []) items')
      (Perm.trans (Perm.append (Perm.refl served) taken) same)

enqueue-Balanced : (l : Ledger) (req : Request) → Balanced l → Steps l (call_enqueue req)
unfolding call
enqueue-Balanced l req b =
    let (q', ok, e, valid, done) = enqueue_lem l.queue req b.valid in
    (note_enqueue l req (q', ok), rw e, noted q' ok valid done)
  where
    noted :
        (q' : PriorityQueue) (ok : Bool)
        → IsValid q'
        → Enqueued l.queue req q' ok
        → Balanced (note_enqueue l req (q', ok))
    noted q' false valid (refused shut e) = record { valid = valid; same = rw e b.same }
    noted q' false valid (overflowed open_ full e) = record { valid = valid; same = rw e b.same }
    noted q' true valid (accepted open_ room same e) = record {
      valid = valid;
      same =
          Perm.trans (Perm.append (Perm.refl l.served) same)
            (Perm.trans (perm_middle l.served l.queue.items) (Perm.cons req b.same));
    }

-- A pass that does what Dequeue does, or gives up.
pass-Balanced :
    (l : Ledger) (r : Option Pass)
    → Balanced l
    → (r ≡ dequeue l.queue) ⊎ (r ≡ some (returns l.queue none))
    → (l' : Ledger) × ((r >>= λ pass. some (note_pass l pass)) ≡ some l') × Balanced l'
unfolding note_pass
pass-Balanced l r b (inr gave_up) = (l, rw (gave_up, ◌>>=◌), b)
pass-Balanced l r b (inl same) = elim (dequeue_lem l.queue b.valid) [
  | inl (empty, open_, e) ↦ (l, rw (same, e, ◌>>=◌), b)
  | inr (inl (empty, shut, e)) ↦ (l, rw (same, e, ◌>>=◌), b)
  | inr (inr (full, (q', req, e, t))) ↦ (
    note_served l q' (some req),
    rw (same, e, ◌>>=◌),
    record {
      valid = t.valid;
      same = serve-perm l.served l.queue.items q'.items l.accepted_ones req t.same b.same;
    },
  )
]

call-Balanced : (l : Ledger) (c : Call) → Balanced l → Steps l c
unfolding call close
call-Balanced l (call_enqueue req) b = enqueue-Balanced l req b
call-Balanced l call_try_dequeue b = elim (try_dequeue_lem l.queue b.valid) [
  | inl (why, e) ↦ (l, rw e, b)
  | inr (full, open_, (q', req, e, t)) ↦ (
    note_served l q' (some req),
    rw e,
    record {
      valid = t.valid;
      same = serve-perm l.served l.queue.items q'.items l.accepted_ones req t.same b.same;
    },
  )
]
call-Balanced l call_dequeue b = pass-Balanced l (dequeue l.queue) b (inl refl)
call-Balanced l (call_timed_head remaining) b =
    pass-Balanced l (timed_head remaining l.queue) b (timed_head_cases remaining l.queue)
call-Balanced l (call_timed_wake deadline now remaining) b =
    pass-Balanced l (timed_wake deadline now remaining l.queue) b
      (timed_wake_cases deadline now remaining l.queue)
call-Balanced l call_drain b =
    let (out, e, ordered, same, valid) = drain_lem l.queue b.valid in
    (
      record l { queue = record l.queue { items = [] }; served = l.served ++ out },
      rw e,
      record {
        valid = valid;
        same = rw append-nil (Perm.trans (Perm.append (Perm.refl l.served) same) b.same);
      },
    )
call-Balanced l call_close b = (
  record l { queue = close l.queue },
  refl,
  record {
    valid = record { heap = b.valid.heap; bounded = b.valid.bounded; counted = b.valid.counted };
    same = b.same;
  },
)

queue-Balanced_from :
    (l : Ledger) (cs : List Call)
    → Balanced l
    → (l' : Ledger) × (calls l cs ≡ some l') × Balanced l'
unfolding calls
queue-Balanced_from l [] b = (l, refl, b)
queue-Balanced_from l (c ∷ cs) b =
    let (l', e, b') = call-Balanced l c b in rw (e, ◌>>=◌) (queue-Balanced_from l' cs b')

-- Any sequence of Enqueue, TryDequeue, Dequeue, DequeueWithTimeout, Drain and Close calls on a new
-- queue runs without a panic; at its end the queue is a heap of at most its maxSize requests, and
-- the requests handed out together with those still queued are exactly the accepted ones, each as
-- often as it was accepted.
pub queue-Balanced :
    (max_size : ℕ) (cs : List Call)
    → (l : Ledger) × (calls (start max_size) cs ≡ some l) × Balanced l
unfolding start
queue-Balanced max_size cs =
    queue-Balanced_from (start max_size) cs
      (record { valid = new-IsValid max_size; same = Perm.refl [] })
