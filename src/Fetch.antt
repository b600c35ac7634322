-- ===== src/Fetch.antt =====
-- Gap detection of pkg/fetch/fetcher_gaps.go. The store is asked for each height: HasBlock and
-- GetMissingReceipts are functions of the height, with `none` for an error, and so is the test
-- whether the context is cancelled when the loop is at a height. The loops count in 64 bits and
-- take fuel; `none` means that a loop is still running. Logging is left out.
pub mod Runs
pub mod Gaps
pub mod Fill
pub mod Receipts
pub mod Block
pub mod Concurrent
pub mod Recover
use indexer_go.Base.{
  ℕ, zero, suc, ◌+◌, ◌-◌, ◌%◌, Bool, true, false, List, [], ◌∷◌, ◌++◌, Option, none, some, ltb, leb,
  if◌then◌else◌, length,
}
use indexer_go.Text.{uint64_limit}

pub record GapRange : Type 0 where
  pub start : ℕ
  pub end : ℕ

unfoldable pub size : GapRange → ℕ
size g = if ltb g.end g.start then 0 else (g.end - g.start + 1) % uint64_limit

-- What the scans return: a list, the list so far with the context's error, or the height at which
-- the store failed.
pub data Scan (A : Type 0) : Type 0 where
  found : List A → Scan A
  cancelled : List A → Scan A
  failed : ℕ → Scan A

-- height++
abbrev pub next : ℕ → ℕ
next height = (height + 1) % uint64_limit

module _ (done : ℕ → Bool) (has_block : ℕ → Option Bool) where
  -- The gap at the end.
  unfoldable pub last_gap : ℕ → List GapRange → ℕ → Bool → List GapRange
  last_gap end gaps gap_start in_gap =
      if in_gap then gaps ++ record { start = gap_start; end = end } ∷ [] else gaps

  -- The loop over the heights, with the gaps so far, gapStart and inGap.
  unfoldable pub detect_loop : ℕ → ℕ → ℕ → List GapRange → ℕ → Bool → Option (Scan GapRange)
  unfolding last_gap
  detect_loop zero end height gaps gap_start in_gap = none
  detect_loop (suc fuel) end height gaps gap_start in_gap = elim (leb height end) [
    | false ↦ some (found (last_gap end gaps gap_start in_gap))
    | true ↦ elim (done height) [
      | true ↦ some (cancelled gaps)
      | false ↦ elim (has_block height) [
        | none ↦ some (failed height)
        | some false ↦
            detect_loop fuel end (next height) gaps (if in_gap then gap_start else height) true
        | some true ↦
            detect_loop fuel end (next height)
              (if in_gap then gaps ++ record { start = gap_start; end = height - 1 } ∷ [] else gaps)
              gap_start false
      ]
    ]
  ]

  unfoldable pub detect_gaps : ℕ → ℕ → ℕ → Option (Scan GapRange)
  unfolding detect_loop
  detect_gaps fuel start_height end_height = detect_loop fuel end_height start_height [] 0 false
