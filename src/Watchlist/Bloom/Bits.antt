-- ===== src/Watchlist/Bloom/Bits.antt =====
-- Reading the bitset after a write.
use indexer_go.Base.{
  ℕ, zero, suc, ◌*◌, ◌/◌, ◌%◌, ◌^◌, ◌<◌, ◌≡◌, refl, ap, false, ◌||◌, List, [], ◌∷◌, arith, ◌==◌,
  Bool-cases, inl, inr, length, get_or, set, length-set,
}
use indexer_go.Base.Words.{bit, word_or, bit-word_or, bit-pow, bit-of_zero}
use indexer_go.Watchlist.Bloom.{get_bit, set_bit, or_words}

get_or-set_self :
    {A : Type 0} (xs : List A) (i : ℕ) (v d : A) → i < length xs → get_or (set xs i v) i d ≡ v
get_or-set_self [] i v d h = absurd (omega arith)
get_or-set_self (x ∷ xs) zero v d h = refl
get_or-set_self (x ∷ xs) (suc i) v d h = get_or-set_self xs i v d (omega arith)

get_or-set_ne :
    {A : Type 0} (xs : List A) (i j : ℕ) (v d : A)
    → (i == j) ≡ false
    → get_or (set xs i v) j d ≡ get_or xs j d
get_or-set_ne [] i j v d h = refl
get_or-set_ne (x ∷ xs) zero zero v d h = absurd (ground arith)
get_or-set_ne (x ∷ xs) zero (suc j) v d h = refl
get_or-set_ne (x ∷ xs) (suc i) zero v d h = refl
get_or-set_ne (x ∷ xs) (suc i) (suc j) v d h = get_or-set_ne xs i j v d (ground arith)

pub length-set_bit : (idx : ℕ) (bitset : List ℕ) → length (set_bit idx bitset) ≡ length bitset
unfolding set_bit
length-set_bit idx bitset = length-set bitset (idx / 64) _

-- Setting a bit sets that bit and no other.
pub get_bit-set_bit :
    (idx j : ℕ) (bitset : List ℕ)
    → idx < length bitset * 64
    → get_bit j (set_bit idx bitset) ≡ (get_bit j bitset || idx == j)
unfolding get_bit set_bit
get_bit-set_bit idx j bitset h = elim (Bool-cases (idx / 64 == j / 64)) [
  | inl same ↦
      let e : idx / 64 ≡ j / 64 = ground arith in
      let inside : j / 64 < length bitset = omega (arith, e) in
      let word = word_or 64 (get_or bitset (j / 64) 0) (2 ^ (idx % 64)) in
      let read = get_or-set_self bitset (j / 64) word 0 inside in
      let digits =
        bit-word_or 64 (get_or bitset (j / 64) 0) (2 ^ (idx % 64)) (j % 64) (omega arith) in
      let there : (idx % 64 == j % 64) ≡ (idx == j) = ground (arith, e) in
      rw (e, read, digits, bit-pow (idx % 64) (j % 64), there) refl
  | inr other ↦
      let word = word_or 64 (get_or bitset (idx / 64) 0) (2 ^ (idx % 64)) in
      let apart : (idx == j) ≡ false = ground (arith, ap (λ n. n / 64)) in
      rw (get_or-set_ne bitset (idx / 64) (j / 64) word 0 other, apart) (ground arith)
]

pub length-or_words : (ws vs : List ℕ) → length (or_words ws vs) ≡ length ws
unfolding or_words
length-or_words [] vs = refl
length-or_words (w ∷ ws) [] = refl
length-or_words (w ∷ ws) (v ∷ vs) = ap suc (length-or_words ws vs)

get_or-or_words :
    (ws vs : List ℕ) (i k : ℕ)
    → length ws ≡ length vs
    → k < 64
    → bit (get_or (or_words ws vs) i 0) k ≡ (bit (get_or ws i 0) k || bit (get_or vs i 0) k)
unfolding or_words
get_or-or_words [] [] i k e h = ground (arith, bit-of_zero k)
get_or-or_words [] (v ∷ vs) i k e h = absurd (omega arith)
get_or-or_words (w ∷ ws) [] i k e h = absurd (omega arith)
get_or-or_words (w ∷ ws) (v ∷ vs) zero k e h = bit-word_or 64 w v k h
get_or-or_words (w ∷ ws) (v ∷ vs) (suc i) k e h = get_or-or_words ws vs i k (omega arith) h

-- A bit of the joined words is set where it is set in one of them.
pub get_bit-or_words :
    (ws vs : List ℕ) (j : ℕ)
    → length ws ≡ length vs
    → get_bit j (or_words ws vs) ≡ (get_bit j ws || get_bit j vs)
unfolding get_bit
get_bit-or_words ws vs j e = get_or-or_words ws vs (j / 64) (j % 64) e (omega arith)
