-- ===== src/Fetch/Fill/Latest.antt =====
-- Where the fetcher goes on after a gap was filled.
use indexer_go.Base.{
  ℕ, zero, suc, ◌+◌, ◌≤◌, ◌<◌, ◌≡◌, sym, ap, ◌∙◌, Bool, true, false, some, arith, ltb, leb, inl,
  inr,
}
use indexer_go.Text.{uint64_limit}
use indexer_go.Fetch.{GapRange, size, next}
use indexer_go.Fetch.Fill.{Fetcher, range_loop, fetch_range, fill_gap, get_next_height}
use indexer_go.Fetch.Fill.Recovery.{range_loop-cases}

module _ {S : Type 0} (f : Fetcher S) (done : ℕ → Bool) where
  latest-range_loop :
      (fuel : ℕ) (s t : S) (height last : ℕ)
      → last + 1 < uint64_limit
      → (last < height → f.latest s ≡ some last)
      → range_loop f done fuel s height last ≡ some (t, true)
      → f.latest t ≡ some last
  unfolding range_loop
  latest-range_loop zero s t height last l h e = absurd (ground arith)
  latest-range_loop (suc fuel) s t height last l h e =
      elim (range_loop-cases f done fuel s height last) [
        | inl (past, stop) ↦
            let ends = sym stop ∙ e in
            let same : s ≡ t = ground (arith, ends) in sym (ap f.latest same) ∙ h (ground arith)
        | inr (inl (u, stop, _)) ↦ let ends = sym stop ∙ e in absurd (ground (arith, ends))
        | inr (inr (inside, ok, step)) ↦
            let up : next height ≡ height + 1 = omega (arith, leb_le inside) in
            let onward = rw up at step in
            let now = f.fetch_block-latest s height ok in
            latest-range_loop fuel (f.fetch_block s height).0 t (height + 1) last l
              (λ past. now ∙ ap some (omega (arith, past, leb_le inside))) (sym onward ∙ e)
      ]
    where
      leb_le : leb height last ≡ true → height ≤ last
      leb_le i = ground arith

-- After FillGap has filled a gap of at most ten blocks that ends at or above the configured start
-- and below 2 ^ 64 - 1, GetNextHeight is the height after the gap, whatever the latest height was
-- before, so that blocks above the gap are fetched again.
pub get_next_height-fill_gap :
    {S : Type 0} (f : Fetcher S) (done : ℕ → Bool) (s t : S) (gap : GapRange) (start_height : ℕ)
    → gap.start ≤ gap.end
    → gap.end < gap.start + 10
    → gap.end + 1 < uint64_limit
    → start_height ≤ gap.end
    → fill_gap f done 12 s gap ≡ some (t, true)
    → get_next_height start_height (f.latest t) ≡ gap.end + 1
unfolding fill_gap fetch_range get_next_height size
get_next_height-fill_gap f done s t gap start_height o small l above e =
    let few : ltb 10 (size gap) ≡ false = ground arith in
    let loop = rw (few, fill_gap) at e in
    let now =
      latest-range_loop f done 12 s t gap.start gap.end l (λ past. absurd (omega arith)) loop in
    rw (now, get_next_height) (ground arith)
