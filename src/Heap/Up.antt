-- ===== src/Heap/Up.antt =====
-- up of container/heap mends a heap whose last element may be too low in the tree.
use mathlib.Core.List.Perm
use indexer_go.Base.{
  ℕ, zero, suc, ◌<◌, ◌≡◌, ◌≢◌, refl, true, false, List, some, arith, inl, inr, Bool-cases, ◌∙◌,
  length, get_or, ◌==◌,
}
use native.Mathlib.Decide.{ℕ_discrete}
use indexer_go.Base.Slice.{
  swapped, swap-swapped, length-swapped, get_or-swapped, swapped-perm, get_elem?-in_range,
}
use indexer_go.Heap.{Less, parent, less_at, up_loop, up}
use indexer_go.Heap.Order.{OrderedAt, IsBridged, Sifted}

module _ {ℓ} {A : Type ℓ} (o : Less A) (d : A) where
  pub less_at-in_range :
      (a : List A) (i j : ℕ)
      → i < length a
      → j < length a
      → less_at o a i j ≡ some (o.less (get_or a i d) (get_or a j d))
  unfolding less_at
  less_at-in_range a i j hi hj = rw (get_elem?-in_range d a i hi, get_elem?-in_range d a j hj)

  -- Only the edge above `i` may be out of order.
  pub record UpInv (n : ℕ) (a : List A) (i : ℕ) : Type ℓ where
    pub size : length a ≡ n
    pub inside : i < n
    pub edges : (c : ℕ) → 0 < c → c < n → c ≢ i → OrderedAt o d a (parent c) c
    pub bridged : IsBridged o d n a i

  swapped-UpInv :
      (n : ℕ) (a : List A) (i : ℕ)
      → UpInv n a i
      → 0 < i
      → o.less (get_or a i d) (get_or a (parent i) d) ≡ true
      → UpInv n (swapped d a (parent i) i) (parent i)
  swapped-UpInv n a i v pos below =
      let hi : i < length a = omega arith in
      let hp : parent i < length a = omega arith in
      let at = get_or-swapped d a (parent i) i hp hi in
      let under = o.asym (get_or a i d) (get_or a (parent i) d) below in
      record {
        size = omega (arith, length-swapped d a (parent i) i);
        inside = omega arith;
        edges = λ c p q r. ground (
          arith,
          at c,
          at (parent c),
          under,
          v.edges c,
          v.bridged c,
          o.trans (get_or a i d) (get_or a (parent i) d) (get_or a c d),
        );
        bridged = λ c p q r t. ground (
          arith,
          at c,
          at (parent (parent i)),
          v.edges c,
          v.edges (parent i),
          o.trans (get_or a (parent (parent i)) d) (get_or a (parent i) d) (get_or a c d),
        );
      }

  up_loop_restores :
      (fuel n : ℕ) (a : List A) (i : ℕ)
      → i < fuel
      → UpInv n a i
      → (b : List A) × (up_loop o fuel a i ≡ some b) × Sifted o d n a b
  unfolding up_loop
  up_loop_restores zero n a i f v = absurd (omega arith)
  up_loop_restores (suc fuel) n a zero f v = (
    a,
    refl,
    record {
      heap = λ c p q. v.edges c p q (omega arith);
      same = Perm.refl a;
      outside = λ k h. refl;
    },
  )
  up_loop_restores (suc fuel) n a (suc i) f v =
      let p = parent (suc i) in
      let hi : suc i < length a = omega (arith, v.size, v.inside) in
      let hp : p < length a = omega (arith, v.size, v.inside) in
      let apart : (p == suc i) ≡ false = ground arith in
      elim (Bool-cases (o.less (get_or a (suc i) d) (get_or a p d))) [
        | inl below ↦
            let moved = swapped-UpInv n a (suc i) v (omega arith) below in
            let (b, e, s) = up_loop_restores fuel n (swapped d a p (suc i)) p (omega arith) moved in
            (
              b,
              rw
                  (
                    apart,
                    less_at-in_range a (suc i) p hi hp,
                    below,
                    swap-swapped d a p (suc i) hp hi,
                  )
                  e,
              record {
                heap = s.heap;
                same = Perm.trans s.same (swapped-perm d a p (suc i) hp hi);
                outside = λ k h.
                    s.outside k h ∙ ground (arith, v.inside, get_or-swapped d a p (suc i) hp hi k);
              },
            )
        | inr settled ↦ (
          a,
          rw (apart, less_at-in_range a (suc i) p hi hp, settled),
          record {
            heap = λ c q r. elim (ℕ_discrete c (suc i)) [
              | yes e ↦ rw e settled
              | no ne ↦ v.edges c q r ne
            ];
            same = Perm.refl a;
            outside = λ k h. refl;
          },
        )
      ]

  -- up turns a slice with one element too low in the tree into a heap of the same elements.
  pub up_restores :
      (n : ℕ) (a : List A) (i : ℕ)
      → UpInv n a i
      → (b : List A) × (up o a i ≡ some b) × Sifted o d n a b
  unfolding up
  up_restores n a i v = up_loop_restores (suc i) n a i (omega arith) v
