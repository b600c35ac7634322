-- ===== src/Fetch/Concurrent.antt =====
-- FetchRangeConcurrent of pkg/fetch/fetcher.go: the loop that takes the results of the workers, in
-- whatever order they come, and stores them in the order of the heights. The results are an
-- argument; they end when the workers have ended. The heights count in 64 bits.
pub mod Flush
pub mod Order
pub mod Interrupted
pub mod Agreement
pub mod Stores
pub mod Assembled
use indexer_go.Base.{
  ℕ, zero, suc, ◌+◌, Bool, true, false, List, [], ◌∷◌, Option, none, some, ltb, if◌then◌else◌,
}
use indexer_go.Base.Dict.{nat_eq, lookup, insert, delete}
use indexer_go.Fetch.{next}
use indexer_go.Fetch.Block.{Effects, store_result}

pub data JobResult (Block Receipt : Type 0) : Type 0 where
  fetched : ℕ → Block → List Receipt → JobResult Block Receipt
  not_fetched : ℕ → JobResult Block Receipt

-- The inner loop: an error, or the results that have to wait, with the next height.
pub data Flushed (S Block Receipt : Type 0) : Type 0 where
  stopped : S → Flushed S Block Receipt
  waiting : List (ℕ × (Block × List Receipt)) → ℕ → S → Flushed S Block Receipt

module _ {S Block Receipt : Type 0} (e : Effects S Block Receipt) where
  abbrev pub Waiting : Type 0
  Waiting = List (ℕ × (Block × List Receipt))

  unfoldable pub flush : ℕ → ℕ → Waiting → ℕ → S → Option (Flushed S Block Receipt)
  flush zero end results height s = none
  flush (suc fuel) end results height s = elim (lookup height results) [
    | none ↦ some (waiting results height s)
    | some (block, receipts) ↦ elim (store_result e height block receipts s).1 [
      | false ↦ some (stopped (store_result e height block receipts s).0)
      | true ↦ elim (ltb end (next height)) [
        | true ↦ some (
            waiting (delete height results) (next height)
              (store_result e height block receipts s).0)
        | false ↦
            flush fuel end (delete height results) (next height)
              (store_result e height block receipts s).0
      ]
    ]
  ]

  unfoldable pub collect :
      ℕ → ℕ → List (JobResult Block Receipt) → Waiting → ℕ → S → Option (S × Bool)
  unfolding flush
  collect fuel end [] results height s = some (s, true)
  collect fuel end (not_fetched h ∷ rest) results height s = some (s, false)
  collect fuel end (fetched h block receipts ∷ rest) results height s =
      elim (flush fuel end (insert h (block, receipts) results) height s) [
        | none ↦ none
        | some (stopped t) ↦ some (t, false)
        | some (waiting left height' t) ↦ collect fuel end rest left height' t
      ]

  unfoldable pub fetch_range_concurrent :
      ℕ → Bool → ℕ → ℕ → List (JobResult Block Receipt) → S → Option (S × Bool)
  unfolding collect
  fetch_range_concurrent fuel done start end results s =
      if done then some (s, false) else collect fuel end results [] start s
