-- ===== src/RpcProxy/Queue/Drain.antt =====
-- Drain of pkg/rpcproxy/queue.go empties the queue in service order.
use mathlib.Core.List.{Mem, append-nil, append_assoc, mem-cons_self, mem-cons_of_mem}
use mathlib.Core.List.Perm
use indexer_go.Base.{
  ℕ, zero, suc, ◌-◌, ◌<◌, ◌≡◌, refl, ◌∙◌, inl, inr, List, [], ◌∷◌, ◌++◌, Perm, some, arith, ◌==◌,
  Bool-cases, All, length,
}
use indexer_go.Base.Slice.{length-perm}
use indexer_go.Heap.Ends.{IsHeap, pop_lem}
use indexer_go.RpcProxy.Types.{Request}
use indexer_go.RpcProxy.Queue.{PriorityQueue, request_less, drain_loop, drain}
use indexer_go.RpcProxy.Queue.Order.{
  ServedBefore, ServedBefore-of_not, IsServiceOrder, no_request, IsValid,
}

All-of_mem :
    (P : Request → Type 0) (xs : List Request) → ((x : Request) → Mem x xs → P x) → All P xs
All-of_mem P [] h = tt
All-of_mem P (x ∷ xs) h = (h x mem-cons_self, All-of_mem P xs (λ y m. h y (mem-cons_of_mem x m)))

empty_of_length : (xs : List Request) → length xs ≡ 0 → xs ≡ []
empty_of_length [] h = refl
empty_of_length (x ∷ xs) h = absurd (omega arith)

drain_loop_lem :
    (fuel : ℕ) (items out : List Request)
    → length items < fuel
    → IsHeap request_less no_request items
    → (rest : List Request) × (drain_loop fuel items out ≡ some (out ++ rest))
      × IsServiceOrder rest
      × Perm rest items
unfolding drain_loop request_less
drain_loop_lem zero items out f h = absurd (omega arith)
drain_loop_lem (suc fuel) items out f h = elim (Bool-cases (length items == 0)) [
  | inl empty ↦
      let none_left = empty_of_length items (ground arith) in
      ([], rw (empty, append-nil), tt, rw none_left (Perm.refl []))
  | inr more ↦
      let n = length items - 1 in
      let (req, left, e, popped) = pop_lem request_less no_request n items h (ground arith) in
      let (rest, looped, ordered, same) =
        drain_loop_lem fuel left (out ++ req ∷ []) (omega (arith, length-perm popped.same))
          popped.heap in
      let whole = Perm.trans (Perm.cons req same) popped.same in
      (
        req ∷ rest,
        rw (more, e) (looped ∙ ground (arith, append_assoc out (req ∷ []) rest)),
        (
          All-of_mem (ServedBefore req) rest λ r m.
              ServedBefore-of_not req r
                (popped.least r ((Perm.mem_iff whole).0 (mem-cons_of_mem req m))),
          ordered,
        ),
        whole,
      )
]

-- Drain on a valid queue returns all its requests, each served before those behind it, and leaves
-- a valid empty queue with the same counters.
pub drain_lem :
    (q : PriorityQueue)
    → IsValid q
    → (out : List Request) × (drain q ≡ some (record q { items = [] }, out))
      × IsServiceOrder out
      × Perm out q.items
      × IsValid (record q { items = [] })
unfolding drain
drain_lem q v =
    let (out, e, ordered, same) =
      drain_loop_lem (suc (length q.items)) q.items [] (omega arith) v.heap in
    (
      out,
      rw e,
      ordered,
      same,
      record {
        heap = λ c p h. absurd (omega arith);
        bounded = omega arith;
        counted = omega (arith, v.counted);
      },
    )
