-- ===== src/Heap/Order.antt =====
-- The heap order of container/heap, on a prefix of the slice.
use indexer_go.Base.{
  ℕ, zero, suc, ◌≤◌, ◌<◌, ◌≡◌, false, List, Perm, arith, Bool-cases, inl, inr, get_or,
}
use indexer_go.Heap.{Less, parent}

module _ {ℓ} {A : Type ℓ} (o : Less A) where
  -- `b` is not less than `a`
  abbrev pub NotAfter : A → A → Type 0
  NotAfter a b = o.less b a ≡ false

  pub NotAfter-refl : (a : A) → NotAfter a a
  NotAfter-refl a = elim (Bool-cases (o.less a a)) [
    | inl below ↦ o.asym a a below
    | inr same ↦ same
  ]

  module _ (d : A) where
    abbrev pub OrderedAt : List A → ℕ → ℕ → Type 0
    OrderedAt a p c = NotAfter (get_or a p d) (get_or a c d)

    -- Among the first `n` elements no child is less than its parent.
    abbrev pub IsHeapTo : ℕ → List A → Type 0
    IsHeapTo n a = (c : ℕ) → 0 < c → c < n → OrderedAt a (parent c) c

    -- The grandparent edges through `i` are in order.
    abbrev pub IsBridged : ℕ → List A → ℕ → Type 0
    IsBridged n a i = (c : ℕ) → 0 < c → c < n → parent c ≡ i → 0 < i → OrderedAt a (parent i) c

    -- `b` is a heap up to `n`, with the elements of `a`, and agrees with it from `n` on.
    pub record Sifted (n : ℕ) (a b : List A) : Type ℓ where
      pub heap : IsHeapTo n b
      pub same : Perm b a
      pub outside : (k : ℕ) → n ≤ k → get_or b k d ≡ get_or a k d

    root_least_below :
        (fuel n : ℕ) (a : List A) (i : ℕ) → IsHeapTo n a → i < fuel → i < n → OrderedAt a 0 i
    root_least_below zero n a i h f p = absurd (omega arith)
    root_least_below (suc fuel) n a zero h f p = NotAfter-refl _
    root_least_below (suc fuel) n a (suc i) h f p =
        o.trans (get_or a 0 d) (get_or a (parent (suc i)) d) (get_or a (suc i) d)
          (root_least_below fuel n a (parent (suc i)) h (omega arith) (omega arith))
          (h (suc i) (omega arith) p)

    -- No element of a heap is less than the root.
    pub root_least : (n : ℕ) (a : List A) (i : ℕ) → IsHeapTo n a → i < n → OrderedAt a 0 i
    root_least n a i h p = root_least_below (suc i) n a i h (omega arith) p
