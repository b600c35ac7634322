-- ===== src/Heap/Ends.antt =====
-- heap.Push and heap.Pop on a heap: the elements stay, and Pop takes a least one.
use mathlib.Core.List.{not-mem-nil, forall_mem-cons}
use mathlib.Core.List.Perm
use mathlib.Core.Bool.{Bool-set}
use mathlib.Core.List.{Mem, perm_append_singleton}
use indexer_go.Base.{
  ℕ, suc, ◌-◌, ◌<◌, ◌≡◌, refl, ◌∙◌, List, [], ◌∷◌, ◌++◌, Perm, some, arith, length, get_or, take,
  length-append,
}
use indexer_go.Base.Slice.{
  swapped, swap-swapped, length-swapped, get_or-swapped, swapped-perm, get_elem?-in_range,
  get_or-append, get_or-take, take-snoc, length-perm,
}
use indexer_go.Heap.{Less, parent, push, pop}
use indexer_go.Heap.Order.{NotAfter, IsHeapTo, root_least}
use indexer_go.Heap.Up.{UpInv, up_restores}
use indexer_go.Heap.Down.{DownInv, down_restores}

module _ {ℓ} {A : Type ℓ} (o : Less A) (d : A) where
  abbrev pub IsHeap : List A → Type 0
  IsHeap a = IsHeapTo o d (length a) a

  -- heap.Push neither panics nor diverges, adds exactly the element, and keeps the heap order.
  pub push_lem :
      (a : List A) (x : A)
      → IsHeap a
      → (b : List A) × (push o a x ≡ some b) × IsHeap b × Perm b (x ∷ a)
  unfolding push
  push_lem a x h =
      let size = length-append a (x ∷ []) in
      let grown = a ++ x ∷ [] in
      let start : UpInv o d (length grown) grown (length grown - 1) = record {
        size = refl;
        inside = omega (arith, size);
        edges = λ c p r s.
            ground (
              arith,
              size,
              h c,
              get_or-append d a (x ∷ []) c,
              get_or-append d a (x ∷ []) (parent c),
            );
        bridged = λ c p r s t. absurd (omega arith);
      } in
      let (b, e, s) = up_restores o d (length grown) grown (length grown - 1) start in
      (
        b,
        e,
        λ c p q. s.heap c p (rw (length-perm s.same) at q),
        Perm.trans s.same (perm_append_singleton x a),
      )

  NotAfter-of_mem :
      (a : List A) (x : A)
      → ((i : ℕ) → i < length a → NotAfter o x (get_or a i d))
      → (y : A) → Mem y a
      → NotAfter o x y
  NotAfter-of_mem [] x h = λ y m. absurd (not-mem-nil m)
  NotAfter-of_mem (z ∷ a) x h =
      (forall_mem-cons λ y. Bool-set _ _).1
        (h 0 (omega arith), NotAfter-of_mem a x λ i p. h (suc i) (omega arith))

  -- What heap.Pop returns of a non-empty heap.
  pub record Popped (a : List A) (x : A) (rest : List A) : Type ℓ where
    pub heap : IsHeap rest
    pub same : Perm (x ∷ rest) a
    pub least : (y : A) → Mem y a → NotAfter o x y

  exchanged-DownInv :
      (n : ℕ) (a : List A) → IsHeap a → length a ≡ suc n → DownInv o d n (swapped d a 0 n) 0
  exchanged-DownInv n a h size =
      let at = get_or-swapped d a 0 n (omega arith) (omega arith) in
      record {
        size = omega (arith, length-swapped d a 0 n);
        edges = λ c p q r. ground (arith, at c, at (parent c), h c);
        bridged = λ c p q r t. absurd (omega arith);
      }

  -- heap.Pop of a non-empty heap neither panics nor diverges, removes one element that no other is
  -- less than, and keeps the heap order.
  pub pop_lem :
      (n : ℕ) (a : List A)
      → IsHeap a
      → length a ≡ suc n
      → (x : A) × (rest : List A) × (pop o a ≡ some (x, rest)) × Popped a x rest
  unfolding pop
  pop_lem n a h size =
      let b = swapped d a 0 n in
      let h0 : 0 < length a = omega arith in
      let hn : n < length a = omega arith in
      let last : length a - 1 ≡ n = omega arith in
      let (c, e, s) = down_restores o d n b 0 (exchanged-DownInv n a h size) in
      let whole : Perm c a = Perm.trans s.same (swapped-perm d a 0 n h0 hn) in
      let long : length c ≡ suc n = length-perm whole ∙ size in
      let root : get_or c n d ≡ get_or a 0 d =
        s.outside n (omega arith) ∙ ground (arith, get_or-swapped d a 0 n h0 hn n) in
      let split = take-snoc d n c long in
      let same : Perm (get_or a 0 d ∷ take n c) a =
        Perm.trans (Perm.symm (perm_append_singleton (get_or a 0 d) (take n c)))
          (rw (← root, split) whole) in
      let short : length (take n c) ≡ n = omega (arith, length-perm same) in
      (
        get_or a 0 d,
        take n c,
        rw (last, swap-swapped d a 0 n h0 hn, e, get_elem?-in_range d c n (omega arith), root),
        record {
          heap = λ k p q.
              let hk : k < n = rw short at q in
              rw (get_or-take d n c k hk, get_or-take d n c (parent k) (omega arith))
                (s.heap k p hk);
          same = same;
          least = NotAfter-of_mem a (get_or a 0 d) λ i p. root_least o d (length a) a i h p;
        },
      )
