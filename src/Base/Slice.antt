-- ===== src/Base/Slice.antt =====
-- Go slices as lists: reads and writes by index, and the exchange of two elements.
use mathlib.Core.List.{Permᴰ}
use mathlib.Core.List.Perm
use mathlib.Core.Logic.{∥∥₁_elim}
use native.Mathlib.Nat.{ℕ_set}
use indexer_go.Base.{
  ℕ, zero, suc, ◌<◌, ◌≡◌, refl, ap, ◌∙◌, List, [], ◌∷◌, ◌++◌, Perm, Option, some, arith, ◌>>=◌,
  ◌==◌, if◌then◌else◌, length, length-set, get_elem?, get_or, set, take,
}

module _ {ℓ} {A : Type ℓ} where
  -- a[i], a[j] = a[j], a[i]; an index out of range is `none`.
  unfoldable pub swap : List A → ℕ → ℕ → Option (List A)
  swap a i j = do y ← get_elem? a j; x ← get_elem? a i; some (set (set a i y) j x)

  length-permᴰ : {old new : List A} → Permᴰ new old → length new ≡ length old
  length-permᴰ (Permᴰ.trans first second) = length-permᴰ first ∙ length-permᴰ second
  length-permᴰ (Permᴰ.swap y z) = refl
  length-permᴰ (Permᴰ.cons y rest) = ap suc (length-permᴰ rest)
  length-permᴰ Permᴰ.nil = refl

  pub length-perm : {old new : List A} → Perm new old → length new ≡ length old
  length-perm same = ∥∥₁_elim same (ℕ_set _ _) length-permᴰ

-- Reads with a default `d` stand for reads in range.
module _ {ℓ} {A : Type ℓ} (d : A) where
  pub get_elem?-in_range : (a : List A) (i : ℕ) → i < length a → get_elem? a i ≡ some (get_or a i d)
  get_elem?-in_range [] i h = absurd (omega arith)
  get_elem?-in_range (x ∷ a) zero h = refl
  get_elem?-in_range (x ∷ a) (suc i) h = get_elem?-in_range a i (omega arith)

  pub get_or-set :
      (a : List A) (i j : ℕ) (v : A)
      → i < length a
      → get_or (set a i v) j d ≡ (if i == j then v else get_or a j d)
  get_or-set [] i j v h = absurd (omega arith)
  get_or-set (x ∷ a) zero zero v h = refl
  get_or-set (x ∷ a) zero (suc j) v h = ground arith
  get_or-set (x ∷ a) (suc i) zero v h = ground arith
  get_or-set (x ∷ a) (suc i) (suc j) v h = ground (arith, get_or-set a i j v)

  pub get_or-append : (a b : List A) (i : ℕ) → i < length a → get_or (a ++ b) i d ≡ get_or a i d
  get_or-append [] b i h = absurd (omega arith)
  get_or-append (x ∷ a) b zero h = refl
  get_or-append (x ∷ a) b (suc i) h = get_or-append a b i (omega arith)

  pub get_or-take : (n : ℕ) (a : List A) (i : ℕ) → i < n → get_or (take n a) i d ≡ get_or a i d
  get_or-take zero a i h = absurd (omega arith)
  get_or-take (suc n) [] i h = refl
  get_or-take (suc n) (x ∷ a) zero h = refl
  get_or-take (suc n) (x ∷ a) (suc i) h = get_or-take n a i (omega arith)

  -- The elements but the last, and the last.
  pub take-snoc : (n : ℕ) (a : List A) → length a ≡ suc n → take n a ++ get_or a n d ∷ [] ≡ a
  take-snoc zero (x ∷ []) h = refl
  take-snoc (suc n) (x ∷ a) h = ap (◌∷◌ x) (take-snoc n a (omega arith))
  take-snoc zero [] h = absurd (omega arith)
  take-snoc zero (x ∷ y ∷ a) h = absurd (omega arith)
  take-snoc (suc n) [] h = absurd (omega arith)

  write-perm : (a : List A) (i : ℕ) (v : A) → i < length a → Perm (get_or a i d ∷ set a i v) (v ∷ a)
  write-perm [] i v h = absurd (omega arith)
  write-perm (x ∷ a) zero v h = Perm.swap v x a
  write-perm (x ∷ a) (suc i) v h =
      Perm.trans (Perm.swap x _ _)
        (Perm.trans (Perm.cons x (write-perm a i v (omega arith))) (Perm.swap v x a))

  -- What `swap` returns in range.
  unfoldable pub swapped : List A → ℕ → ℕ → List A
  swapped a i j = set (set a i (get_or a j d)) j (get_or a i d)

  pub length-swapped : (a : List A) (i j : ℕ) → length (swapped a i j) ≡ length a
  unfolding swapped
  length-swapped a i j = length-set (set a i (get_or a j d)) j _ ∙ length-set a i _

  module _ (a : List A) (i j : ℕ) (hi : i < length a) (hj : j < length a) where
    pub swap-swapped : swap a i j ≡ some (swapped a i j)
    unfolding swap swapped
    swap-swapped = rw (get_elem?-in_range a j hj, get_elem?-in_range a i hi)

    pub get_or-swapped :
        (c : ℕ)
        → get_or (swapped a i j) c d
          ≡ (if j == c then get_or a i d else if i == c then get_or a j d else get_or a c d)
    unfolding swapped
    get_or-swapped c = rw (
      get_or-set (set a i (get_or a j d)) j c (get_or a i d) (rw length-set hj),
      get_or-set a i c (get_or a j d) hi,
    )

    pub swapped-perm : Perm (swapped a i j) a
    unfolding swapped
    swapped-perm =
        let b = set a i (get_or a j d) in
        let same : get_or b j d ≡ get_or a j d = ground (arith, get_or-set a i j (get_or a j d)) in
        let back = rw same at (write-perm b j (get_or a i d) (rw length-set hj)) in
        Perm.cons_inv (Perm.trans back (write-perm a i (get_or a j d) hi))
