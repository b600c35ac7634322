-- ===== src/Fetch/Fill.antt =====
-- FillGap and FillGaps of pkg/fetch/fetcher_gaps.go and FetchRange of pkg/fetch/fetcher.go, as
-- steps of a store. FetchBlock and FetchRangeConcurrent are operations of an interface: an
-- operation returns the store and whether it succeeded.
pub mod Recovery
pub mod Latest
use indexer_go.Base.{
  ℕ, zero, suc, ◌+◌, ◌%◌, ◌≤◌, ◌≡◌, Bool, true, false, List, [], ◌∷◌, Option, none, some, ltb, leb,
  if◌then◌else◌,
}
use indexer_go.Text.{uint64_limit}
use indexer_go.Fetch.{GapRange, size, next}

-- What gap filling uses of the fetcher and its store, for a context that does not end during a
-- concurrent fetch: a fetch that succeeds has stored what it was asked for, and none removes a
-- block. FetchBlock sets the latest height to its block. Fetch/Concurrent/Assembled makes such a
-- fetcher of the models of FetchBlock and FetchRangeConcurrent. Where the context ends before all
-- heights are handed to the workers, FetchRangeConcurrent may return without an error and without
-- the blocks.
pub record Fetcher (S : Type 0) : Type 0 where
  pub stored : S → ℕ → Bool
  pub latest : S → Option ℕ
  pub fetch_block : S → ℕ → S × Bool
  pub fetch_range_concurrent : S → ℕ → ℕ → S × Bool
  pub fetch_block-stores :
      (s : S) (x : ℕ) → (fetch_block s x).1 ≡ true → stored (fetch_block s x).0 x ≡ true
  pub fetch_block-latest :
      (s : S) (x : ℕ) → (fetch_block s x).1 ≡ true → latest (fetch_block s x).0 ≡ some x
  pub fetch_block-keeps :
      (s : S) (x y : ℕ) → stored s y ≡ true → stored (fetch_block s x).0 y ≡ true
  pub fetch_range_concurrent-stores :
      (s : S) (first last x : ℕ)
      → (fetch_range_concurrent s first last).1 ≡ true
      → first ≤ x
      → x ≤ last
      → stored (fetch_range_concurrent s first last).0 x ≡ true
  pub fetch_range_concurrent-keeps :
      (s : S) (first last y : ℕ)
      → stored s y ≡ true
      → stored (fetch_range_concurrent s first last).0 y ≡ true

module _ {S : Type 0} (f : Fetcher S) (done : ℕ → Bool) where
  -- The loop of FetchRange, which counts in 64 bits.
  unfoldable pub range_loop : ℕ → S → ℕ → ℕ → Option (S × Bool)
  range_loop zero s height last = none
  range_loop (suc fuel) s height last = elim (leb height last) [
    | false ↦ some (s, true)
    | true ↦ elim (done height) [
      | true ↦ some (s, false)
      | false ↦ elim (f.fetch_block s height).1 [
        | false ↦ some ((f.fetch_block s height).0, false)
        | true ↦ range_loop fuel (f.fetch_block s height).0 (next height) last
      ]
    ]
  ]

  unfoldable pub fetch_range : ℕ → S → ℕ → ℕ → Option (S × Bool)
  unfolding range_loop
  fetch_range fuel s start last = range_loop fuel s start last

  unfoldable pub fill_gap : ℕ → S → GapRange → Option (S × Bool)
  unfolding fetch_range size
  fill_gap fuel s gap =
      if ltb 10 (size gap)
      then some (f.fetch_range_concurrent s gap.start gap.end)
      else fetch_range fuel s gap.start gap.end

  unfoldable pub fill_gaps : ℕ → S → List GapRange → Option (S × Bool)
  unfolding fill_gap
  fill_gaps fuel s [] = some (s, true)
  fill_gaps fuel s (gap ∷ gaps) = elim (fill_gap fuel s gap) [
    | none ↦ none
    | some (t, false) ↦ some (t, false)
    | some (t, true) ↦ fill_gaps fuel t gaps
  ]

-- GetNextHeight: the height after the latest one, or the configured start.
unfoldable pub get_next_height : ℕ → Option ℕ → ℕ
get_next_height start_height none = start_height
get_next_height start_height (some latest) =
    if ltb latest start_height then start_height else (latest + 1) % uint64_limit
