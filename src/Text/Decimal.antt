-- ===== src/Text/Decimal.antt =====
-- The digits of a number, and reading them back.
use indexer_go.Base.{
  ℕ, zero, suc, ◌+◌, ◌-◌, ◌*◌, ◌/◌, ◌%◌, ◌≤◌, ◌<◌, ◌≡◌, refl, ◌∙◌, List, [], ◌∷◌, ◌++◌, some, ◌>>=◌,
  arith, ltb, Bool-cases, inl, inr, length, length-append, All,
}
use indexer_go.Text.{Bytes, decimal_loop, decimal, parse_digits, parse_uint, uint64_limit}

-- Enough fuel is enough.
decimal_loop_fuel : (f g n : ℕ) → n < f → n < g → decimal_loop f n ≡ decimal_loop g n
unfolding decimal_loop
decimal_loop_fuel zero g n hf hg = absurd (omega arith)
decimal_loop_fuel (suc f) zero n hf hg = absurd (omega arith)
decimal_loop_fuel (suc f) (suc g) n hf hg = elim (Bool-cases (ltb n 10)) [
  | inl small ↦ rw small
  | inr large ↦ rw (large, decimal_loop_fuel f g (n / 10) (ground arith) (ground arith))
]

pub decimal_small : (n : ℕ) → n < 10 → decimal n ≡ (b'0' + n) ∷ []
unfolding decimal
decimal_small n h = ground arith

pub decimal_large : (n : ℕ) → 10 ≤ n → decimal n ≡ decimal (n / 10) ++ (b'0' + n % 10) ∷ []
unfolding decimal
decimal_large n h = elim (Bool-cases (ltb n 10)) [
  | inl small ↦ absurd (ground arith)
  | inr large ↦ rw (large, decimal_loop_fuel n (suc (n / 10)) (n / 10) (ground arith) (omega arith))
]

-- Induction on the digits.
pub decimal_induction :
    (P : ℕ → Type 0)
    → ((n : ℕ) → n < 10 → P n)
    → ((n : ℕ) → 10 ≤ n → P (n / 10) → P n)
    → (n : ℕ) → P n
decimal_induction P small large n = go (suc n) n (omega arith)
  where
    go : (fuel m : ℕ) → m < fuel → P m
    go fuel = elim fuel as (λ f. (m : ℕ) → m < f → P m) [
      | zero ↦ λ m h. absurd (omega arith)
      | suc (f → ih) ↦ λ m h. elim (Bool-cases (ltb m 10)) [
        | inl few ↦ small m (ground arith)
        | inr many ↦ large m (ground arith) (ih (m / 10) (ground arith))
      ]
    ]

abbrev pub IsDigit : ℕ → Type 0
IsDigit c = (b'0' ≤ c) × (c ≤ b'9')

pub All-append {ℓ} :
    {A : Type ℓ} (P : A → Type 0) (xs ys : List A) → All P xs → All P ys → All P (xs ++ ys)
All-append P [] ys h k = k
All-append P (x ∷ xs) ys h k = (h.0, All-append P xs ys h.1 k)

pub All-decimal : (n : ℕ) → All IsDigit (decimal n)
All-decimal =
    decimal_induction (λ n. All IsDigit (decimal n)) (λ n h. rw (decimal_small n h) (omega arith))
      λ n h ih. rw (decimal_large n h) (All-append IsDigit (decimal (n / 10)) _ ih (omega arith))

pub decimal_nonempty : (n : ℕ) → 0 < length (decimal n)
decimal_nonempty =
    decimal_induction (λ n. 0 < length (decimal n)) (λ n h. rw (decimal_small n h) (omega arith))
      λ n h ih.
        rw (decimal_large n h)
          (omega (arith, length-append (decimal (n / 10)) ((b'0' + n % 10) ∷ [])))

parse_digits-append :
    (n : ℕ) (xs ys : Bytes)
    → parse_digits n (xs ++ ys) ≡ (parse_digits n xs >>= λ m. parse_digits m ys)
unfolding parse_digits
parse_digits-append n [] ys = refl
parse_digits-append n (x ∷ xs) ys = ground (arith, parse_digits-append (n * 10 + (x - b'0')) xs ys)

parse_digits-decimal : (n : ℕ) → n < uint64_limit → parse_digits 0 (decimal n) ≡ some n
parse_digits-decimal =
    decimal_induction (λ n. n < uint64_limit → parse_digits 0 (decimal n) ≡ some n)
      (λ n h lt. rw (decimal_small n h) (unfold parse_digits in ground arith))
      λ n h ih lt.
        rw (decimal_large n h, parse_digits-append, ih (omega arith), ◌>>=◌)
          (unfold parse_digits in ground arith)

-- strconv.ParseUint reads back what %d prints.
pub parse_uint-decimal : (n : ℕ) → n < uint64_limit → parse_uint (decimal n) ≡ some n
parse_uint-decimal n h = nonempty (decimal n) (decimal_nonempty n) ∙ parse_digits-decimal n h
  where
    nonempty : (s : Bytes) → 0 < length s → parse_uint s ≡ parse_digits 0 s
    nonempty s = elim s as (λ t. 0 < length t → parse_uint t ≡ parse_digits 0 t) [
      | [] ↦ λ p. absurd (omega arith)
      | c ∷ t ↦ λ p. unfold parse_uint in refl
    ]
