-- ===== src/RpcProxy/Multi/Dequeue.antt =====
-- What Dequeue of MultiPriorityQueue (pkg/rpcproxy/queue.go) hands out.
use mathlib.Core.List.{Mem, mem-cons_self, not-mem-nil, perm_middle}
use mathlib.Core.List.Perm
use indexer_go.Base.{
  ℕ, ◌<◌, ◌≡◌, ◌⊎◌, inl, inr, false, List, [], ◌∷◌, ◌++◌, Perm, none, some, ◌>>=◌, arith, length,
}
use indexer_go.RpcProxy.Types.{Request, priority_critical, priority_high, priority_normal}
use indexer_go.RpcProxy.Queue
use indexer_go.RpcProxy.Queue.{PriorityQueue}
use indexer_go.RpcProxy.Queue.Order.{ServedBefore, IsValid}
use indexer_go.RpcProxy.Queue.Ops.{try_dequeue_lem, Taken}
use indexer_go.RpcProxy.Multi.{MultiPriorityQueue, dequeue, total_size, close}

-- A valid open queue that holds requests of one priority alone.
pub record IsLane (p : ℕ) (q : PriorityQueue) : Type 0 where
  pub valid : IsValid q
  pub opened : q.closed ≡ false
  pub alike : (r : Request) → Mem r q.items → r.priority ≡ p

pub record HasLanes (mpq : MultiPriorityQueue) : Type 0 where
  pub critical : IsLane priority_critical mpq.critical
  pub high : IsLane priority_high mpq.high
  pub normal : IsLane priority_normal mpq.normal

-- A lane hands out its first request, unless it is empty.
lane_try :
    (p : ℕ) (q : PriorityQueue)
    → IsLane p q
    → ((length q.items ≡ 0) × (Queue.try_dequeue q ≡ some (q, none)))
      ⊎ ((q' : PriorityQueue) × (req : Request) × (Queue.try_dequeue q ≡ some (q', some req))
          × Taken q q' req
          × (req.priority ≡ p))
lane_try p q v = elim (try_dequeue_lem q v.valid) [
  | inl (inl empty, e) ↦ inl (empty, e)
  | inl (inr shut, e) ↦ absurd (ground (arith, v.opened))
  | inr (full, open_, (q', req, e, t)) ↦
      inr (q', req, e, t, v.alike req ((Perm.mem_iff t.same).0 mem-cons_self))
]

abbrev pub all_items : MultiPriorityQueue → List Request
all_items mpq = mpq.critical.items ++ (mpq.high.items ++ mpq.normal.items)

-- `req` was taken out of all the queues together, and is served before all that they held.
pub record Handed (mpq mpq' : MultiPriorityQueue) (req : Request) : Type 0 where
  pub before_critical : (r : Request) → Mem r mpq.critical.items → ServedBefore req r
  pub before_high : (r : Request) → Mem r mpq.high.items → ServedBefore req r
  pub before_normal : (r : Request) → Mem r mpq.normal.items → ServedBefore req r
  pub same : Perm (req ∷ all_items mpq') (all_items mpq)

not-mem_of_empty : (xs : List Request) (r : Request) → length xs ≡ 0 → Mem r xs → ⊥
not-mem_of_empty [] r h = not-mem-nil
not-mem_of_empty (x ∷ xs) r h = absurd (omega arith)

lower_first :
    (req r : Request) (p k : ℕ) → req.priority ≡ p → r.priority ≡ k → p < k → ServedBefore req r
lower_first req r p k e f h = inl (omega arith)

-- Dequeue over three valid open queues, each with requests of its own priority: it returns nothing,
-- changing nothing, exactly when all three are empty; otherwise it returns a request that is served
-- before every request in the three queues (by priority, then by creation time) and takes only it.
pub multi_dequeue_lem :
    (mpq : MultiPriorityQueue)
    → HasLanes mpq
    → ((total_size mpq ≡ 0) × (dequeue mpq ≡ some (mpq, none)))
      ⊎ ((mpq' : MultiPriorityQueue) × (req : Request) × (dequeue mpq ≡ some (mpq', some req))
          × Handed mpq mpq' req)
unfolding dequeue total_size Queue.size
multi_dequeue_lem mpq v = elim (lane_try priority_critical mpq.critical v.critical) [
  | inr (q', req, e, t, p) ↦ inr (
    record mpq { critical = q' },
    req,
    rw (e, ◌>>=◌),
    record {
      before_critical = t.first;
      before_high = λ r m. lower_first req r 0 1 p (v.high.alike r m) (omega arith);
      before_normal = λ r m. lower_first req r 0 2 p (v.normal.alike r m) (omega arith);
      same = Perm.append t.same (Perm.refl _);
    },
  )
  | inl (no_critical, e₀) ↦ elim (lane_try priority_high mpq.high v.high) [
    | inr (q', req, e, t, p) ↦ inr (
      record mpq { high = q' },
      req,
      rw (e₀, ◌>>=◌, e, ◌>>=◌),
      record {
        before_critical = λ r m. absurd (not-mem_of_empty _ r no_critical m);
        before_high = t.first;
        before_normal = λ r m. lower_first req r 1 2 p (v.normal.alike r m) (omega arith);
        same =
            Perm.trans (Perm.symm (perm_middle mpq.critical.items _))
              (Perm.append (Perm.refl _) (Perm.append t.same (Perm.refl _)));
      },
    )
    | inl (no_high, e₁) ↦ elim (lane_try priority_normal mpq.normal v.normal) [
      | inr (q', req, e, t, p) ↦ inr (
        record mpq { normal = q' },
        req,
        rw (e₀, ◌>>=◌, e₁, ◌>>=◌, e, ◌>>=◌),
        record {
          before_critical = λ r m. absurd (not-mem_of_empty _ r no_critical m);
          before_high = λ r m. absurd (not-mem_of_empty _ r no_high m);
          before_normal = t.first;
          same = Perm.trans (Perm.symm (perm_middle mpq.critical.items _)) (
              Perm.append (Perm.refl _) (
                Perm.trans (Perm.symm (perm_middle mpq.high.items _))
                  (Perm.append (Perm.refl _) t.same)));
        },
      )
      | inl (no_normal, e₂) ↦ inl (omega arith, rw (e₀, ◌>>=◌, e₁, ◌>>=◌, e₂, ◌>>=◌))
    ]
  ]
]

-- After Close, Dequeue hands out nothing and changes nothing, whatever is still in the queues.
pub dequeue-close : (mpq : MultiPriorityQueue) → dequeue (close mpq) ≡ some (close mpq, none)
unfolding dequeue close Queue.close Queue.try_dequeue
dequeue-close mpq = ground arith
