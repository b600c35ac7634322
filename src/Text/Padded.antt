-- ===== src/Text/Padded.antt =====
-- Numbers padded to a fixed width, as in %020d and %06d, sort as the numbers do.
use mathlib.Core.List.{append_assoc}
use native.Mathlib.Nat.{pow-suc}
use Prim.Native.Nat.{◌^◌}
use indexer_go.Base.{
  ℕ, zero, suc, ◌+◌, ◌-◌, ◌/◌, ◌%◌, ◌≤◌, ◌<◌, ◌≡◌, refl, sym, ap, ◌∙◌, ◌⊎◌, inl, inr, true, [], ◌∷◌,
  ◌++◌, arith, ltb, Bool-cases, length, replicate, length-append, ◌==◌,
}
use indexer_go.Text.{Bytes, decimal, padded, less}
use indexer_go.Text.Decimal.{decimal_small, decimal_large}
use indexer_go.Text.Order.{less-append_left, less-append_right, less_heads, less_irrefl}

-- The last `k` digits of `n`.
fixed : ℕ → ℕ → Bytes
fixed zero n = []
fixed (suc k) n = fixed k (n / 10) ++ (b'0' + n % 10) ∷ []

length-fixed : (k n : ℕ) → length (fixed k n) ≡ k
unfolding fixed
length-fixed zero n = refl
length-fixed (suc k) n =
    omega (arith, length-append (fixed k (n / 10)) ((b'0' + n % 10) ∷ []), length-fixed k (n / 10))

replicate-snoc : (k c : ℕ) → replicate k c ++ c ∷ [] ≡ c ∷ replicate k c
replicate-snoc zero c = refl
replicate-snoc (suc k) c = ap (◌∷◌ c) (replicate-snoc k c)

fixed-padded :
    (k n : ℕ)
    → n < 10 ^ suc k
    → replicate (suc k - length (decimal n)) b'0' ++ decimal n ≡ fixed (suc k) n
unfolding fixed
fixed-padded zero n h =
    let few : n < 10 = omega (arith, h) in rw (decimal_small n few) (ap (λ d. d ∷ []) (omega arith))
fixed-padded (suc k) n h = elim (Bool-cases (ltb n 10)) [
  | inl few ↦
      let small : n < 10 = ground arith in
      let top : n / 10 ≡ 0 = omega arith in
      let digit : n % 10 ≡ n = omega arith in
      let one : suc k - 1 ≡ k = omega arith in
      let ih = fixed-padded k 0 (pow_pos (suc k)) in
      let zeros : replicate k b'0' ++ b'0' ∷ [] ≡ fixed k (0 / 10) ++ (b'0' + 0 % 10) ∷ [] =
        rw (decimal_small 0 (omega arith), one) at ih in
      let two : suc (suc k) - 1 ≡ suc k = omega arith in
      rw (decimal_small n small, top, digit, ← zeros, replicate-snoc, two) refl
  | inr many ↦
      let large : 10 ≤ n = ground arith in
      let d = b'0' + n % 10 in
      let long = length-append (decimal (n / 10)) (d ∷ []) in
      let room : suc (suc k) - length (decimal (n / 10) ++ d ∷ [])
          ≡ suc k - length (decimal (n / 10)) =
        omega (arith, long) in
      let ih = fixed-padded k (n / 10) (omega (arith, h, pow-suc 10 (suc k))) in
      rw (decimal_large n large, room, ← append_assoc, ih) refl
]
  where
    pow_pos : (j : ℕ) → 0 < 10 ^ j
    pow_pos j = elim j as (λ i. 0 < 10 ^ i) [
      | zero ↦ omega arith
      | suc (i → ih) ↦ omega (arith, ih, pow-suc 10 i)
    ]

less-fixed : (k n m : ℕ) → n < m → m < 10 ^ k → less (fixed k n) (fixed k m) ≡ true
unfolding fixed
less-fixed zero n m h lt = absurd (omega arith)
less-fixed (suc k) n m h lt = elim (Bool-cases (n / 10 == m / 10)) [
  | inl same ↦
      let e : n / 10 ≡ m / 10 = ground arith in
      rw (e, less-append_left) (less_heads _ _ [] [] (omega arith))
  | inr differ ↦
      let below : n / 10 < m / 10 = ground arith in
      less-append_right (fixed k (n / 10)) (fixed k (m / 10)) _ _
        (length-fixed k (n / 10) ∙ sym (length-fixed k (m / 10)))
        (less-fixed k (n / 10) (m / 10) below (omega (arith, lt, pow-suc 10 k)))
]

padded-fixed : (w n : ℕ) → n < 10 ^ suc w → padded (suc w) n ≡ fixed (suc w) n
unfolding padded
padded-fixed w n h = fixed-padded w n h

pub length-padded : (w n : ℕ) → n < 10 ^ suc w → length (padded (suc w) n) ≡ suc w
length-padded w n h = rw (padded-fixed w n h) (length-fixed (suc w) n)

-- Keys that go on with padded numbers sort by the numbers.
pub less-padded :
    (w n m : ℕ) (s t : Bytes)
    → n < m
    → m < 10 ^ suc w
    → less (padded (suc w) n ++ s) (padded (suc w) m ++ t) ≡ true
less-padded w n m s t h lt =
    rw (padded-fixed w n (omega (arith, h, lt)), padded-fixed w m lt)
      (less-append_right (fixed (suc w) n) (fixed (suc w) m) s t
        (length-fixed (suc w) n ∙ sym (length-fixed (suc w) m)) (less-fixed (suc w) n m h lt))

-- Padded numbers determine the numbers.
pub padded_injective :
    (w n m : ℕ) → n < 10 ^ suc w → m < 10 ^ suc w → padded (suc w) n ≡ padded (suc w) m → n ≡ m
padded_injective w n m h k e =
    let irrefl = less_irrefl (padded (suc w) m ++ []) in
    elim (compare-cases n m) [
      | inl below ↦
          let wide = less-padded w n m [] [] below k in
          let same = rw e at wide in absurd (ground (arith, same, irrefl))
      | inr (inl above) ↦
          let wide = less-padded w m n [] [] above h in
          let same = rw e at wide in absurd (ground (arith, same, irrefl))
      | inr (inr same) ↦ same
    ]
  where
    compare-cases : (i j : ℕ) → (i < j) ⊎ ((j < i) ⊎ (i ≡ j))
    compare-cases i j = omega arith
