-- ===== src/Base/Words.antt =====
-- The bits of 64-bit words, and `|` on them.
use native.Mathlib.Nat.{pow-suc}
use indexer_go.Base.{
  ℕ, zero, suc, ◌+◌, ◌*◌, ◌/◌, ◌%◌, ◌^◌, ◌<◌, ◌≡◌, refl, Bool, false, ◌||◌, arith, ◌==◌,
  if◌then◌else◌,
}

-- w & (1 << i) != 0
unfoldable pub bit : ℕ → ℕ → Bool
bit w zero = w % 2 == 1
bit w (suc i) = bit (w / 2) i

-- One digit of a | b.
abbrev pub or_digit : ℕ → ℕ → ℕ
or_digit a b = if a == 1 then 1 else b

-- The low `k` bits of a | b.
unfoldable pub word_or : ℕ → ℕ → ℕ → ℕ
word_or zero a b = 0
word_or (suc k) a b = word_or k (a / 2) (b / 2) * 2 + or_digit (a % 2) (b % 2)

pub bit-word_or : (k a b i : ℕ) → i < k → bit (word_or k a b) i ≡ (bit a i || bit b i)
unfolding bit word_or
bit-word_or zero a b i h = absurd (omega arith)
bit-word_or (suc k) a b zero h =
    let digit : or_digit (a % 2) (b % 2) < 2 = ground arith in
    let low : (word_or k (a / 2) (b / 2) * 2 + or_digit (a % 2) (b % 2)) % 2
        ≡ or_digit (a % 2) (b % 2) =
      omega (arith, digit) in
    rw low (ground arith)
bit-word_or (suc k) a b (suc i) h =
    let digit : or_digit (a % 2) (b % 2) < 2 = ground arith in
    let high : (word_or k (a / 2) (b / 2) * 2 + or_digit (a % 2) (b % 2)) / 2
        ≡ word_or k (a / 2) (b / 2) =
      omega (arith, digit) in
    rw high (bit-word_or k (a / 2) (b / 2) i (omega arith))

-- A word of at most `k` bits stays one.
pub word_or-lt : (k a b : ℕ) → word_or k a b < 2 ^ k
unfolding word_or
word_or-lt zero a b = omega arith
word_or-lt (suc k) a b =
    let digit : or_digit (a % 2) (b % 2) < 2 = ground arith in
    omega (arith, digit, word_or-lt k (a / 2) (b / 2), pow-suc 2 k)

pub bit-of_zero : (i : ℕ) → bit 0 i ≡ false
unfolding bit
bit-of_zero zero = refl
bit-of_zero (suc i) = bit-of_zero i

pub bit-pow : (i j : ℕ) → bit (2 ^ i) j ≡ (i == j)
unfolding bit
bit-pow zero zero = refl
bit-pow zero (suc j) = ground (arith, bit-of_zero j)
bit-pow (suc i) zero =
    let even : 2 ^ suc i % 2 ≡ 0 = omega (arith, pow-suc 2 i) in rw even (ground arith)
bit-pow (suc i) (suc j) =
    let half : 2 ^ suc i / 2 ≡ 2 ^ i = omega (arith, pow-suc 2 i) in
    rw half (ground (arith, bit-pow i j))
