-- ===== src/Storage/Order.antt =====
-- The order in which the store iterates over the keys of one prefix.
use mathlib.Core.List.{append_assoc, append-nil}
use indexer_go.Base.{
  ℕ, suc, ◌+◌, ◌*◌, ◌/◌, ◌%◌, ◌^◌, ◌≤◌, ◌<◌, ◌≡◌, refl, ◌∙◌, ◌⊎◌, inl, inr, true, [], ◌∷◌, ◌++◌,
  arith, ltb, Bool-cases,
}
use indexer_go.Text.{Bytes, slash, decimal, padded, uint64_limit, less}
use indexer_go.Text.Decimal.{decimal_small, decimal_large}
use indexer_go.Text.Order.{less-append_left, less_heads}
use indexer_go.Text.Padded.{less-padded}
use indexer_go.Storage.Hex.{Hex, hex}
use indexer_go.Storage.Prefixes.{prefix_blocks, prefix_addr, prefix_logs}
use indexer_go.Storage.Blocks.{block_key, block_key_range, address_transaction_key}
use indexer_go.Storage.Logs.{log_key}

-- The order of two numbers followed by texts, where equal numbers leave it to the texts.
less-padded_or :
    (w n m : ℕ) (s t : Bytes)
    → m < 10 ^ suc w
    → (n < m) ⊎ ((n ≡ m) × (less s t ≡ true))
    → less (padded (suc w) n ++ s) (padded (suc w) m ++ t) ≡ true
less-padded_or w n m s t h (inl below) = less-padded w n m s t below h
less-padded_or w n m s t h (inr (same, rest)) =
    rw (same, less-append_left (padded (suc w) m) s t) rest

less-padded_last :
    (w n m : ℕ) → n < m → m < 10 ^ suc w → less (padded (suc w) n) (padded (suc w) m) ≡ true
less-padded_last w n m below h =
    let wide = less-padded w n m [] [] below h in
    rw (append-nil (padded (suc w) n), append-nil (padded (suc w) m)) at wide

-- The keys of the index of one address sort by their sequence numbers, for 64-bit numbers.
pub less-address_transaction_key :
    {Address : Type 0} ⦃address_hex : Hex Address⦄ (a : Address) (n m : ℕ)
    → n < m
    → m < uint64_limit
    → less (address_transaction_key a n) (address_transaction_key a m) ≡ true
unfolding address_transaction_key
less-address_transaction_key a n m below h =
    less-append_left (prefix_addr ++ hex a) (slash ∷ padded 20 n) (slash ∷ padded 20 m)
    ∙ less-append_left (slash ∷ []) (padded 20 n) (padded 20 m)
    ∙ less-padded_last 19 n m below (omega arith)

-- The order of blocks, then of transactions, then of logs.
unfoldable pub LogBefore : ℕ × ℕ × ℕ → ℕ × ℕ × ℕ → Type 0
LogBefore (b, i, l) (b', i', l') = (b < b') ⊎ ((b ≡ b') × ((i < i') ⊎ ((i ≡ i') × (l < l'))))

log_tail : ℕ → ℕ → ℕ → Bytes
log_tail b i l = padded 20 b ++ (slash ∷ (padded 6 i ++ (slash ∷ padded 6 l)))

less-log_tail :
    (b i l b' i' l' : ℕ)
    → LogBefore (b, i, l) (b', i', l')
    → b' < uint64_limit
    → i' < 1_000_000
    → l' < 1_000_000
    → less (log_tail b i l) (log_tail b' i' l') ≡ true
unfolding LogBefore log_tail
less-log_tail b i l b' i' l' (inl block) h j k =
    less-padded_or 19 b b' _ _ (omega arith) (inl block)
less-log_tail b i l b' i' l' (inr (e, inl tx)) h j k =
    less-padded_or 19 b b' _ _ (omega arith) (
      inr (e, less-append_left (slash ∷ []) _ _ ∙ less-padded_or 5 i i' _ _ (omega arith) (inl tx)))
less-log_tail b i l b' i' l' (inr (e, inr (d, log))) h j k =
    less-padded_or 19 b b' _ _ (omega arith) (
      inr (
        e,
        less-append_left (slash ∷ []) _ _
            ∙ less-padded_or 5 i i' _ _ (omega arith) (
                inr (
                  d,
                  less-append_left (slash ∷ []) _ _ ∙ less-padded_last 5 l l' log (omega arith),
                )),
      ))

-- A prefix, a block, a transaction and a log, grouped as a prefix and the numbers.
log_key_tail :
    (p : Bytes) (b i l : ℕ)
    → p ++ padded 20 b ++ slash ∷ padded 6 i ++ slash ∷ padded 6 l ≡ p ++ log_tail b i l
unfolding log_tail
log_key_tail p b i l = simp append_assoc refl

-- Log keys sort by block, then by transaction, then by log, where the later block is a 64-bit
-- number and the later transaction and log are below one million.
pub less-log_key :
    (b i l b' i' l' : ℕ)
    → LogBefore (b, i, l) (b', i', l')
    → b' < uint64_limit
    → i' < 1_000_000
    → l' < 1_000_000
    → less (log_key b i l) (log_key b' i' l') ≡ true
unfolding log_key
less-log_key b i l b' i' l' o h j k =
    subst2 (log_key_tail prefix_logs b i l) (log_key_tail prefix_logs b' i' l') (
      less-append_left prefix_logs (log_tail b i l) (log_tail b' i' l')
      ∙ less-log_tail b i l b' i' l' o h j k)
  where
    subst2 : {x y x' y' : Bytes} → x ≡ x' → y ≡ y' → less x' y' ≡ true → less x y ≡ true
    subst2 e d t = rw (e, d) t

less-decimal_tenfold :
    (h : ℕ) → 0 < h → h % 10 < 9 → less (decimal (10 * h)) (decimal (h + 1)) ≡ true
less-decimal_tenfold h pos digit = elim (Bool-cases (ltb h 9)) [
  | inl few ↦
      let small : h < 10 = ground arith in
      let next : h + 1 < 10 = ground arith in
      rw (tenfold, decimal_small h small, decimal_small (h + 1) next)
        (less_heads (b'0' + h) (b'0' + (h + 1)) (b'0' ∷ []) [] (omega arith))
  | inr many ↦
      let large : 10 ≤ h = ground arith in
      let top : (h + 1) / 10 ≡ h / 10 = omega arith in
      let start = decimal (h / 10) in
      let assoc = append_assoc start ((b'0' + h % 10) ∷ []) (b'0' ∷ []) in
      rw (tenfold, decimal_large h large, assoc, decimal_large (h + 1) (omega arith), top)
        (less-append_left start ((b'0' + h % 10) ∷ b'0' ∷ []) ((b'0' + (h + 1) % 10) ∷ [])
          ∙ less_heads (b'0' + h % 10) (b'0' + (h + 1) % 10) (b'0' ∷ []) [] (omega arith))
]
  where
    tenfold : decimal (10 * h) ≡ decimal h ++ b'0' ∷ []
    tenfold =
        let whole : 10 * h / 10 ≡ h = omega arith in
        let last : b'0' + 10 * h % 10 ≡ b'0' = omega arith in
        rw (decimal_large (10 * h) (omega arith), whole, last) refl

-- The heights of block keys are not padded, so that a range over heights may end before it
-- starts: for a positive height `h` that ends in a digit below nine and 10 * h below 2 ^ 64, the
-- range from h + 1 to 10 * h - 1 has its end key before its start key.
pub block_key_range-inverted :
    (h start end : ℕ)
    → 0 < h
    → h % 10 < 9
    → 10 * h < uint64_limit
    → start ≡ h + 1
    → end + 1 ≡ 10 * h
    → less (block_key_range start end).1 (block_key_range start end).0 ≡ true
unfolding block_key_range block_key
block_key_range-inverted h start end pos digit fits e d =
    let whole : (end + 1) % uint64_limit ≡ 10 * h = omega (arith, d, fits) in
    rw (whole, e)
      (less-append_left prefix_blocks (decimal (10 * h)) (decimal (h + 1))
        ∙ less-decimal_tenfold h pos digit)
