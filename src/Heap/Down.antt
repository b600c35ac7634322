-- ===== src/Heap/Down.antt =====
-- down of container/heap mends a heap whose first element may be too high in the tree.
use mathlib.Core.List.Perm
use native.Mathlib.Decide.{ℕ_discrete}
use indexer_go.Base.{
  ℕ, zero, suc, ◌+◌, ◌-◌, ◌*◌, ◌≤◌, ◌<◌, ◌≡◌, ◌≢◌, refl, ◌⊎◌, inl, inr, true, List, some, arith,
  ◌∙◌, Bool-cases, length, get_or, ltb, leb, ◌>>=◌,
}
use indexer_go.Base.Slice.{swapped, swap-swapped, length-swapped, get_or-swapped, swapped-perm}
use indexer_go.Heap.{Less, parent, lesser_child, down_loop, down}
use indexer_go.Heap.Order.{OrderedAt, IsHeapTo, IsBridged, Sifted, NotAfter-refl}
use indexer_go.Heap.Up.{less_at-in_range}

module _ {ℓ} {A : Type ℓ} (o : Less A) (d : A) where
  -- Among the first `n` elements only the edges below `i` may be out of order.
  pub record DownInv (n : ℕ) (a : List A) (i : ℕ) : Type ℓ where
    pub size : n ≤ length a
    pub edges : (c : ℕ) → 0 < c → c < n → parent c ≢ i → OrderedAt o d a (parent c) c
    pub bridged : IsBridged o d n a i

  -- `m` is a child of `i`, and no child of `i` is less.
  record IsLesser (n : ℕ) (a : List A) (i m : ℕ) : Type ℓ where
    inside : m < n
    child : (m ≡ 2 * i + 1) ⊎ (m ≡ 2 * i + 2)
    least : (c : ℕ) → 0 < c → c < n → parent c ≡ i → OrderedAt o d a m c

  lesser_child-IsLesser :
      (n : ℕ) (a : List A) (i : ℕ)
      → n ≤ length a
      → 2 * i + 1 < n
      → (m : ℕ) × (lesser_child o a n (2 * i + 1) ≡ some m) × IsLesser n a i m
  unfolding lesser_child
  lesser_child-IsLesser n a i size h =
      let l = 2 * i + 1 in
      let r = 2 * i + 1 + 1 in
      elim (Bool-cases (ltb r n)) [
        | inl two ↦
            let seen = less_at-in_range o d a r l (ground arith) (ground arith) in
            elim (Bool-cases (o.less (get_or a r d) (get_or a l d))) [
              | inl below ↦ (
                r,
                rw (two, seen, below),
                record {
                  inside = ground arith;
                  child = inr (omega arith);
                  least = λ c p q e. elim (ℕ_discrete c r) [
                    | yes same ↦ rw same (NotAfter-refl o (get_or a r d))
                    | no ne ↦
                        let left : c ≡ l = omega arith in
                        rw left (o.asym (get_or a r d) (get_or a l d) below)
                  ];
                },
              )
              | inr above ↦ (
                l,
                rw (two, seen, above),
                record {
                  inside = h;
                  child = inl refl;
                  least = λ c p q e. elim (ℕ_discrete c l) [
                    | yes same ↦ rw same (NotAfter-refl o (get_or a l d))
                    | no ne ↦ let right : c ≡ r = omega arith in rw right above
                  ];
                },
              )
            ]
        | inr one ↦ (
          l,
          rw one,
          record {
            inside = h;
            child = inl refl;
            least = λ c p q e.
                let only : c ≡ l = ground arith in rw only (NotAfter-refl o (get_or a l d));
          },
        )
      ]

  swapped-DownInv :
      (n : ℕ) (a : List A) (i m : ℕ)
      → DownInv n a i
      → IsLesser n a i m
      → o.less (get_or a m d) (get_or a i d) ≡ true
      → DownInv n (swapped d a i m) m
  swapped-DownInv n a i m v s below =
      let hm : m < length a = omega (arith, v.size, s.inside) in
      let hi : i < length a = omega (arith, s.child) in
      let at = get_or-swapped d a i m hi hm in
      let under = o.asym (get_or a m d) (get_or a i d) below in
      record {
        size = omega (arith, length-swapped d a i m, v.size);
        edges = λ c p q r.
            ground (arith, at c, at (parent c), under, s.child, s.least c, v.edges c, v.bridged m);
        bridged = λ c p q r t. ground (arith, at c, at (parent m), s.child, v.edges c);
      }

  Sifted-refl : (n : ℕ) (a : List A) → IsHeapTo o d n a → Sifted o d n a a
  Sifted-refl n a h = record { heap = h; same = Perm.refl a; outside = λ k p. refl }

  down_loop_restores :
      (fuel n : ℕ) (a : List A) (i : ℕ)
      → n - i < fuel
      → DownInv n a i
      → (b : List A) × (down_loop o fuel a i n ≡ some b) × Sifted o d n a b
  unfolding down_loop
  down_loop_restores zero n a i f v = absurd (omega arith)
  down_loop_restores (suc fuel) n a i f v = elim (Bool-cases (leb n (2 * i + 1))) [
    | inl leaf ↦ (a, rw leaf, Sifted-refl n a (λ c p q. v.edges c p q (ground arith)))
    | inr inner ↦
        let below_n : 2 * i + 1 < n = ground arith in
        let (m, found, s) = lesser_child-IsLesser n a i v.size below_n in
        let hm : m < length a = omega (arith, v.size, s.inside) in
        let hi : i < length a = omega (arith, v.size) in
        let seen = less_at-in_range o d a m i hm hi in
        elim (Bool-cases (o.less (get_or a m d) (get_or a i d))) [
          | inl below ↦
              let moved = swapped-DownInv n a i m v s below in
              let (b, e, sifted) =
                down_loop_restores fuel n (swapped d a i m) m (omega (arith, s.child, s.inside))
                  moved in
              (
                b,
                rw (inner, found, ◌>>=◌, seen, below, swap-swapped d a i m hi hm) e,
                record {
                  heap = sifted.heap;
                  same = Perm.trans sifted.same (swapped-perm d a i m hi hm);
                  outside = λ k h.
                      sifted.outside k h ∙ ground (arith, s.inside, get_or-swapped d a i m hi hm k);
                },
              )
          | inr settled ↦ (
            a,
            rw (inner, found, ◌>>=◌, seen, settled),
            Sifted-refl n a (λ c p q. elim (ℕ_discrete (parent c) i) [
              | yes e ↦
                  rw e
                    (o.trans (get_or a i d) (get_or a m d) (get_or a c d) settled (s.least c p q e))
              | no ne ↦ v.edges c p q ne
            ]),
          )
        ]
  ]

  -- down turns a prefix whose first element may be too large into a heap of the same elements.
  pub down_restores :
      (n : ℕ) (a : List A) (i : ℕ)
      → DownInv n a i
      → (b : List A) × (down o a i n ≡ some b) × Sifted o d n a b
  unfolding down
  down_restores n a i v = down_loop_restores (suc n) n a i (omega arith) v
