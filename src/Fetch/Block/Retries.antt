-- ===== src/Fetch/Block/Retries.antt =====
-- Which attempt the retry loop returns.
use indexer_go.Base.{
  ℕ, zero, suc, ◌+◌, ◌≤◌, ◌<◌, ◌≡◌, refl, ap, ◌∙◌, List, Option, none, some, arith, ◌⊎◌, inl, inr,
  Option-cases,
}
use indexer_go.Fetch.Block.{Node, answer, retry_loop, fetch_block_and_receipts_with_retry}

module _ {Block Receipt : Type 0} (node : Node Block Receipt) (height : ℕ) where
  -- Of the attempts from `first` on, with `left` after it, the result is that of the first one
  -- that is answered, if there is one.
  abbrev pub Tried : ℕ → ℕ → Option (Block × List Receipt) → Type 0
  Tried left first r =
      (r ≡ none) × ((i : ℕ) → i ≤ left → answer node height (first + i) ≡ none)
      ⊎ ((i : ℕ) × (p : Block × List Receipt) × (i ≤ left)
          × (r ≡ some p)
          × (answer node height (first + i) ≡ some p)
          × ((j : ℕ) → j < i → answer node height (first + j) ≡ none))

  at_first : (first i : ℕ) → i ≡ 0 → answer node height (first + i) ≡ answer node height first
  at_first first i e = ap (answer node height) (omega (arith, e))

  none_from :
      (first j : ℕ)
      → answer node height first ≡ none
      → ((k : ℕ) → k < j → answer node height (first + 1 + k) ≡ none)
      → answer node height (first + j) ≡ none
  none_from first zero n h = at_first first 0 refl ∙ n
  none_from first (suc j) n h = ap (answer node height) (omega arith) ∙ h j (omega arith)

  retry_loop-missed :
      (left first : ℕ)
      → answer node height first ≡ none
      → retry_loop node (suc left) first height ≡ retry_loop node left (first + 1) height
  unfolding retry_loop
  retry_loop-missed left first e = rw (e, retry_loop) refl

  retry_loop-answered :
      (left first : ℕ) (p : Block × List Receipt)
      → answer node height first ≡ some p
      → retry_loop node left first height ≡ some p
  unfolding retry_loop
  retry_loop-answered zero first p e = e
  retry_loop-answered (suc left) first p e = rw (e, retry_loop) refl

  retry_loop_lem : (left first : ℕ) → Tried left first (retry_loop node left first height)
  unfolding retry_loop
  retry_loop_lem zero first = elim (Option-cases (answer node height first)) [
    | inl n ↦ inl (n, λ i l. at_first first i (omega (arith, l)) ∙ n)
    | inr (p, s) ↦
        inr (0, p, omega arith, s, at_first first 0 refl ∙ s, λ j l. absurd (omega (arith, l)))
  ]
  retry_loop_lem (suc left) first = elim (Option-cases (answer node height first)) [
    | inr (p, s) ↦ inr (
      0,
      p,
      omega arith,
      retry_loop-answered (suc left) first p s,
      at_first first 0 refl ∙ s,
      λ j l. absurd (omega (arith, l)),
    )
    | inl n ↦
        let next = retry_loop-missed left first n in
        elim (retry_loop_lem left (first + 1)) [
          | inl (e, h) ↦
              inl (next ∙ e, λ i l. none_from first i n (λ k b. h k (omega (arith, b, l))))
          | inr (i, p, l, e, a, h) ↦ inr (
            suc i,
            p,
            omega (arith, l),
            next ∙ e,
            ap (answer node height) (omega arith) ∙ a,
            λ j b. none_from first j n (λ k c. h k (omega (arith, c, b))),
          )
        ]
  ]

-- Fetching a block with its receipts, with MaxRetries, fails exactly where each of the
-- MaxRetries + 1 attempts is answered with an error for the block or for the receipts; otherwise
-- it returns the answers of the first attempt that has both.
pub fetch_block_and_receipts_with_retry_lem :
    {Block Receipt : Type 0} (node : Node Block Receipt) (max_retries height : ℕ)
    → let r = fetch_block_and_receipts_with_retry node max_retries height in
      ((r ≡ none) × ((i : ℕ) → i ≤ max_retries → answer node height i ≡ none))
      ⊎ ((i : ℕ) × (p : Block × List Receipt) × (i ≤ max_retries)
          × (r ≡ some p)
          × (answer node height i ≡ some p)
          × ((j : ℕ) → j < i → answer node height j ≡ none))
unfolding fetch_block_and_receipts_with_retry
fetch_block_and_receipts_with_retry_lem node max_retries height =
    elim (retry_loop_lem node height max_retries 0) [
      | inl (e, h) ↦ inl (e, λ i l. from_zero i ∙ h i l)
      | inr (i, p, l, e, a, h) ↦ inr (i, p, l, e, from_zero i ∙ a, λ j b. from_zero j ∙ h j b)
    ]
  where
    from_zero : (i : ℕ) → answer node height i ≡ answer node height (0 + i)
    from_zero i = ap (answer node height) (omega arith)
