-- ===== src/Fetch/Receipts.antt =====
-- DetectReceiptGaps of pkg/fetch/fetcher_gaps.go, over any type of transaction hashes.
pub mod Fill
pub mod Listed
use mathlib.Core.List.{append_assoc, append-nil}
use indexer_go.Base.{
  ℕ, zero, suc, ◌+◌, ◌≤◌, ◌<◌, ◌≡◌, ap, ◌∙◌, Bool, true, false, List, [], ◌∷◌, ◌++◌, Option, none,
  some, arith, leb, sym, inl, inr, Bool-cases, ◌-◌,
}
use indexer_go.Text.{uint64_limit}
use indexer_go.Fetch.{Scan, found, cancelled, failed, next}

pub record ReceiptGapInfo (Hash : Type 0) : Type 0 where
  pub block_number : ℕ
  pub missing_receipts : List Hash

module _ {Hash : Type 0} (done : ℕ → Bool) (has_block : ℕ → Option Bool)
    (get_missing_receipts : ℕ → Option (List Hash)) where
  -- What one height with a block adds; an error of GetMissingReceipts is only logged.
  unfoldable pub receipt_gap : ℕ → Option (List Hash) → List (ReceiptGapInfo Hash)
  receipt_gap height none = []
  receipt_gap height (some []) = []
  receipt_gap height (some (h ∷ hs)) =
      record { block_number = height; missing_receipts = h ∷ hs } ∷ []

  unfoldable pub receipt_loop :
      ℕ → ℕ → ℕ → List (ReceiptGapInfo Hash) → Option (Scan (ReceiptGapInfo Hash))
  unfolding receipt_gap
  receipt_loop zero end height gaps = none
  receipt_loop (suc fuel) end height gaps = elim (leb height end) [
    | false ↦ some (found gaps)
    | true ↦ elim (done height) [
      | true ↦ some (cancelled gaps)
      | false ↦ elim (has_block height) [
        | none ↦ some (failed height)
        | some false ↦ receipt_loop fuel end (next height) gaps
        | some true ↦
            receipt_loop fuel end (next height)
              (gaps ++ receipt_gap height (get_missing_receipts height))
      ]
    ]
  ]

  unfoldable pub detect_receipt_gaps : ℕ → ℕ → ℕ → Option (Scan (ReceiptGapInfo Hash))
  unfolding receipt_loop
  detect_receipt_gaps fuel start_height end_height = receipt_loop fuel end_height start_height []

  -- The reference: the gaps of `count` heights from `height` on, one height after the other.
  unfoldable pub each_gap : (ℕ → Bool) → ℕ → ℕ → List (ReceiptGapInfo Hash)
  unfolding receipt_gap
  each_gap blocks zero height = []
  each_gap blocks (suc count) height = elim (blocks height) [
    | true ↦ receipt_gap height (get_missing_receipts height) ++ each_gap blocks count (height + 1)
    | false ↦ each_gap blocks count (height + 1)
  ]

  module _ (blocks : ℕ → Bool) (end : ℕ) where
    receipt_loop_lem :
        (count fuel height : ℕ) (gaps : List (ReceiptGapInfo Hash))
        → count < fuel
        → height + count ≡ end + 1
        → end + 1 < uint64_limit
        → ((x : ℕ) → height ≤ x → x ≤ end → done x ≡ false)
        → ((x : ℕ) → height ≤ x → x ≤ end → has_block x ≡ some (blocks x))
        → receipt_loop fuel end height gaps ≡ some (found (gaps ++ each_gap blocks count height))
    unfolding receipt_loop each_gap
    receipt_loop_lem count zero height gaps f e l d h = absurd (omega arith)
    receipt_loop_lem zero (suc fuel) height gaps f e l d h =
        let past : leb height end ≡ false = ground arith in
        rw (past, receipt_loop) (ap (λ g. some (found g)) (sym (append-nil gaps)))
    receipt_loop_lem (suc count) (suc fuel) height gaps f e l d h =
        let inside : leb height end ≡ true = ground arith in
        let step : next height ≡ height + 1 = omega arith in
        let there : height ≤ end = omega arith in
        let go_on = d height (omega arith) there in
        let known = h height (omega arith) there in
        let ih = λ (g : List (ReceiptGapInfo Hash)).
          receipt_loop_lem count fuel (height + 1) g (omega arith) (omega arith) l
            (λ x a c. d x (omega (arith, a)) c) (λ x a c. h x (omega (arith, a)) c) in
        elim (Bool-cases (blocks height)) [
          | inl stored ↦
              let gap = receipt_gap height (get_missing_receipts height) in
              let here = known ∙ ap some stored in
              rw (inside, go_on, here, step, stored, receipt_loop, each_gap)
                (ih (gaps ++ gap)
                  ∙ ap (λ g. some (found g))
                      (append_assoc gaps gap (each_gap blocks count (height + 1))))
          | inr missing ↦
              let here = known ∙ ap some missing in
              rw (inside, go_on, here, step, missing, receipt_loop, each_gap) (ih gaps)
        ]

pub detect_receipt_gaps-each_gap :
    {Hash : Type 0} (done : ℕ → Bool) (has_block : ℕ → Option Bool)
    (get_missing_receipts : ℕ → Option (List Hash)) (blocks : ℕ → Bool) (fuel start end : ℕ)
    → end + 1 < uint64_limit
    → start ≤ end
    → end + 1 < fuel + start
    → ((x : ℕ) → start ≤ x → x ≤ end → done x ≡ false)
    → ((x : ℕ) → start ≤ x → x ≤ end → has_block x ≡ some (blocks x))
    → detect_receipt_gaps done has_block get_missing_receipts fuel start end
      ≡ some (found (each_gap done has_block get_missing_receipts blocks (end + 1 - start) start))
unfolding detect_receipt_gaps
detect_receipt_gaps-each_gap done has_block get blocks fuel start end l o f d h =
    receipt_loop_lem done has_block get blocks end (end + 1 - start) fuel start [] (omega arith)
      (omega arith) l d h
