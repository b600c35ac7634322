-- ===== src/Text/Split.antt =====
-- Prefixes, and a text cut at its slashes.
use indexer_go.Base.{ℕ, ◌≡◌, ◌≢◌, refl, true, [], ◌∷◌, ◌++◌, arith, All}
use indexer_go.Text.{Bytes, slash, has_prefix, drop_prefix, trim_prefix, split, decimal}
use indexer_go.Text.Decimal.{IsDigit, All-decimal}

pub has_prefix-append : (p s : Bytes) → has_prefix (p ++ s) p ≡ true
unfolding has_prefix
has_prefix-append [] s = refl
has_prefix-append (c ∷ p) s = ground (arith, has_prefix-append p s)

drop_prefix-append : (p s : Bytes) → drop_prefix (p ++ s) p ≡ s
unfolding drop_prefix
drop_prefix-append [] s = refl
drop_prefix-append (c ∷ p) s = drop_prefix-append p s

pub trim_prefix-append : (p s : Bytes) → trim_prefix (p ++ s) p ≡ s
unfolding trim_prefix
trim_prefix-append p s = rw (has_prefix-append p s) (drop_prefix-append p s)

-- A text that has the prefix is the prefix with what follows it.
pub append-trim_prefix : (s p : Bytes) → has_prefix s p ≡ true → p ++ trim_prefix s p ≡ s
unfolding trim_prefix
append-trim_prefix s p h = rw h (go s p h)
  where
    go : (s p : Bytes) → has_prefix s p ≡ true → p ++ drop_prefix s p ≡ s
    go s = elim s as (λ t. (p : Bytes) → has_prefix t p ≡ true → p ++ drop_prefix t p ≡ t) [
      | [] ↦ λ p. elim p as (λ q. has_prefix [] q ≡ true → q ++ drop_prefix [] q ≡ []) [
        | [] ↦ λ e. unfold has_prefix drop_prefix in refl
        | c ∷ q ↦ λ e. absurd (unfold has_prefix in ground arith)
      ]
      | d ∷ (t → ih) ↦ λ p.
          elim p as (λ q. has_prefix (d ∷ t) q ≡ true → q ++ drop_prefix (d ∷ t) q ≡ d ∷ t) [
            | [] ↦ λ e. unfold has_prefix drop_prefix in refl
            | c ∷ q ↦ λ e. unfold has_prefix drop_prefix in ground (arith, ih q)
          ]
    ]

abbrev pub IsNoSlash : ℕ → Type 0
IsNoSlash c = c ≢ slash

pub split_whole : (s : Bytes) → All IsNoSlash s → split s ≡ s ∷ []
unfolding split
split_whole [] h = refl
split_whole (c ∷ s) h = ground (arith, split_whole s h.1)

pub split-append : (s t : Bytes) → All IsNoSlash s → split (s ++ slash ∷ t) ≡ s ∷ split t
unfolding split
split-append [] t h = refl
split-append (c ∷ s) t h = ground (arith, split-append s t h.1)

IsNoSlash-of_digits : (s : Bytes) → All IsDigit s → All IsNoSlash s
IsNoSlash-of_digits [] h = tt
IsNoSlash-of_digits (c ∷ s) h = (omega (arith, h.0), IsNoSlash-of_digits s h.1)

pub decimal-IsNoSlash : (n : ℕ) → All IsNoSlash (decimal n)
decimal-IsNoSlash n = IsNoSlash-of_digits (decimal n) (All-decimal n)
