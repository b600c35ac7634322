-- ===== src/Fetch/Concurrent/Agreement.antt =====
-- Where FetchBlock and FetchRangeConcurrent do the same with a block.
use indexer_go.Base.{
  ℕ, zero, suc, ◌+◌, ◌-◌, ◌<◌, ◌≤◌, some, All, ◌≡◌, refl, ap, ◌∙◌, sym, Bool, true, false, ◌&&◌,
  List, [], ◌∷◌, arith, ◌==◌, if◌then◌else◌,
}
use indexer_go.Fetch.Block.{
  Effects, Node, fetch_block, fetch_block_and_receipts_with_retry, ◌>->◌, process_block_metadata,
  logged, parsed, store_each, store_and_process_receipts, index_block, parse_all,
  publish_block_events, store_receipts, store_result,
}
use indexer_go.Text.{uint64_limit}
use indexer_go.Base.Dict.{nat_eq, has}
use indexer_go.Fetch.Concurrent.{fetch_range_concurrent}
use indexer_go.Fetch.Concurrent.Flush.{store_in_order, arriving}
use indexer_go.Fetch.Concurrent.Order.{fetch_range_concurrent-order}

rest_assoc :
    {S : Type 0} (r : S × Bool) (f g : S → S × Bool) → ((r >-> f) >-> g) ≡ (r >-> λ s. f s >-> g)
rest_assoc (s, true) f g = refl
rest_assoc (s, false) f g = refl

rest_cong :
    {S : Type 0} (r : S × Bool) {f g : S → S × Bool} → ((s : S) → f s ≡ g s) → (r >-> f) ≡ (r >-> g)
rest_cong (s, true) h = h s
rest_cong (s, false) h = refl

module _ {S Block Receipt : Type 0} (e : Effects S Block Receipt)
    (no_parser : e.has_parser ≡ false) where
  parsed_same : (r : Receipt) (t : S) → parsed e r t ≡ t
  parsed_same r t = ap (λ b. if b && e.has_logs r then e.parse_and_index_logs t r else t) no_parser

  store_each-store_receipts :
      (receipts : List Receipt) (s : S) → store_each e receipts s ≡ store_receipts e receipts s
  unfolding store_each store_receipts
  store_each-store_receipts [] s = refl
  store_each-store_receipts (r ∷ rs) s = rest_cong (e.set_receipt s r) (λ t.
      ap (store_each e rs) (parsed_same r (logged e r t))
      ∙ store_each-store_receipts rs (logged e r t))

  module _ (height : ℕ) (block : Block) (receipts : List Receipt) (positive : 0 < height)
      (small : e.should_process_in_batches block receipts ≡ false)
      (idle : (t : S) → e.process_block_with_processors t block receipts ≡ t)
      (quiet : (t : S) → e.publish_logs t block receipts ≡ t) where
    receipts_same :
        (s : S) → store_and_process_receipts e block receipts s ≡ store_receipts e receipts s
    unfolding store_and_process_receipts
    receipts_same s =
        ap
          (λ b.
            if b
            then (e.process_receipts_parallel s block receipts >-> λ t.
                (parse_all e receipts t, true))
            else store_each e receipts s)
          small
        ∙ store_each-store_receipts receipts s

    metadata_same :
        (s : S) (f : S → S × Bool)
        → (process_block_metadata e height block receipts s >-> f) ≡ (
            e.process_wbft_metadata s block >-> λ s1.
            e.process_address_indexing s1 block receipts >-> λ s2.
            e.process_balance_tracking s2 block receipts >-> f)
    unfolding process_block_metadata
    metadata_same s f =
        let zero_no : (height == 0) ≡ false = ground (arith, positive) in
        rw zero_no (
          rest_assoc (e.process_wbft_metadata s block)
            (λ s1. e.process_address_indexing s1 block receipts >-> λ s2.
              e.process_balance_tracking s2 block receipts >-> λ s3. (s3, true))
            f
          ∙ rest_cong (e.process_wbft_metadata s block) (λ s1.
            rest_assoc (e.process_address_indexing s1 block receipts)
              (λ s2. e.process_balance_tracking s2 block receipts >-> λ s3. (s3, true)) f
            ∙ rest_cong (e.process_address_indexing s1 block receipts) (λ s2.
              rest_assoc (e.process_balance_tracking s2 block receipts) (λ s3. (s3, true)) f)))

    -- The state before the receipts, and the end of FetchBlock from there.
    abbrev announced : S → S
    announced s =
        let t = e.process_fee_delegation_metadata s height in
        if e.has_event_bus then e.publish_block t block else t

    abbrev ending : S → S × Bool
    ending s = store_and_process_receipts e block receipts (announced s) >-> λ t.
        let u = if e.has_event_bus then publish_block_events e block receipts t else t in
        e.set_latest_height (e.process_block_with_processors u block receipts) height

    pub store_result-index_block :
        (s : S) → store_result e height block receipts s ≡ index_block e height block receipts s
    unfolding store_result index_block
    store_result-index_block s =
        let finish : (t : S)
            → e.set_latest_height
                (if e.has_event_bus then e.publish_transactions t block receipts else t) height
              ≡ e.set_latest_height
                  (e.process_block_with_processors
                    (if e.has_event_bus then publish_block_events e block receipts t else t) block
                    receipts)
                  height =
          λ t.
            ap (λ v. e.set_latest_height v height)
              (sym (
                  ap (λ v. if e.has_event_bus then v else t)
                    (quiet (e.publish_transactions t block receipts)))
                ∙ sym (
                    idle
                      (if e.has_event_bus then publish_block_events e block receipts t else t))) in
        rest_cong (e.set_block s block) (λ s1.
          rest_cong (e.process_wbft_metadata s1 block) (λ s2.
            rest_cong (e.process_address_indexing s2 block receipts) (λ s3.
              rest_cong (e.process_balance_tracking s3 block receipts) (λ s4.
                ap
                  (λ r. r >-> λ t.
                    e.set_latest_height
                      (if e.has_event_bus then e.publish_transactions t block receipts else t)
                      height)
                  (sym (receipts_same (announced s4)))
                ∙ rest_cong (store_and_process_receipts e block receipts (announced s4)) finish)))
          ∙ sym (metadata_same s1 ending))

-- FetchBlock for one height after the other, until one fails: what FetchRange does.
unfoldable pub fetch_each :
    {S Block Receipt : Type 0} (e : Effects S Block Receipt) (node : Node Block Receipt)
    → ℕ
    → ℕ
    → ℕ
    → S
    → S × Bool
unfolding fetch_block
fetch_each e node max_retries zero height s = (s, true)
fetch_each e node max_retries (suc count) height s =
    fetch_block e node max_retries height s >-> λ t.
    fetch_each e node max_retries count (height + 1) t

-- A block that both ways treat alike: it is no genesis block and not large, no processor acts on
-- it, and its log events change nothing.
abbrev pub IsPlain :
    {S Block Receipt : Type 0} → Effects S Block Receipt → ℕ → Block × List Receipt → Type 0
IsPlain {S} e height (block, receipts) =
    (0 < height)
    × (e.should_process_in_batches block receipts ≡ false)
    × ((t : S) → e.process_block_with_processors t block receipts ≡ t)
    × ((t : S) → e.publish_logs t block receipts ≡ t)

module _ {S Block Receipt : Type 0} (e : Effects S Block Receipt) (node : Node Block Receipt)
    (max_retries : ℕ) (answers : ℕ → Block × List Receipt) (end : ℕ)
    (no_parser : e.has_parser ≡ false) where
  -- What holds of a height of the range.
  abbrev IsAlike : ℕ → Type 0
  IsAlike x =
      (fetch_block_and_receipts_with_retry node max_retries x ≡ some (answers x))
      × IsPlain e x (answers x)

  alike_step :
      (height : ℕ) (s : S)
      → IsAlike height
      → store_result e height (answers height).0 (answers height).1 s
        ≡ fetch_block e node max_retries height s
  unfolding fetch_block
  alike_step height s (got, plain) =
      store_result-index_block e no_parser height (answers height).0 (answers height).1 plain.0
        plain.1 plain.2 plain.3 s
      ∙ rw got refl

  store_in_order-fetch_each :
      (count height : ℕ) (s : S)
      → height + count ≡ end + 1
      → ((x : ℕ) → height ≤ x → x ≤ end → IsAlike x)
      → store_in_order e answers count height s ≡ fetch_each e node max_retries count height s
  unfolding store_in_order fetch_each
  store_in_order-fetch_each zero height s c h = refl
  store_in_order-fetch_each (suc count) height s c h =
      ap (λ r. r >-> λ t. store_in_order e answers count (height + 1) t)
        (alike_step height s (h height (omega arith) (omega (arith, c))))
      ∙ rest_cong (fetch_block e node max_retries height s) (λ t.
        store_in_order-fetch_each count (height + 1) t (omega (arith, c))
          (λ x a b. h x (omega (arith, a)) b))

-- For a range of heights above 0 that ends below 2 ^ 64 - 1, with fuel above the number of its
-- heights, where there is no parser of system contract events, the node answers every height
-- within the retries, and each block is not large, acted on by no processor and without an effect
-- of its log events: whatever the order of the workers' results, as long as they are the node's
-- answers to the heights of the range, each at least once, FetchRangeConcurrent leaves the state
-- and the success or failure of calling FetchBlock for one height after the other.
pub fetch_range_concurrent-fetch_block :
    {S Block Receipt : Type 0} (e : Effects S Block Receipt) (node : Node Block Receipt)
    (max_retries : ℕ) (answers : ℕ → Block × List Receipt) (fuel start end : ℕ) (hs : List ℕ)
    (s : S)
    → end + 1 < uint64_limit
    → start ≤ end
    → end + 1 < fuel + start
    → e.has_parser ≡ false
    → ((x : ℕ)
        → start ≤ x
        → x ≤ end
        → (fetch_block_and_receipts_with_retry node max_retries x ≡ some (answers x))
          × IsPlain e x (answers x))
    → All (λ h. h ≤ end) hs
    → ((x : ℕ) → start ≤ x → x ≤ end → has x hs ≡ true)
    → fetch_range_concurrent e fuel false start end (arriving e answers hs) s
      ≡ some (fetch_each e node max_retries (end + 1 - start) start s)
fetch_range_concurrent-fetch_block e node max_retries answers fuel start end hs s room o f p h
      within all =
    fetch_range_concurrent-order e answers fuel start end hs s room o f within all
    ∙ ap some (
        store_in_order-fetch_each e node max_retries answers end p (end + 1 - start) start s
          (omega (arith, o)) h)
