-- ===== src/Fetch/Concurrent/Stores.antt =====
-- What FetchBlock of pkg/fetch/fetcher.go, and storing the results of FetchRangeConcurrent in
-- order, leave in the store.
use indexer_go.Base.{
  ℕ, zero, suc, ◌+◌, ◌≤◌, ◌<◌, ◌≡◌, ap, ◌∙◌, sym, Bool, true, false, List, some, arith,
  if◌then◌else◌, ◌==◌, inl, inr, Bool-cases, Option-cases,
}
use indexer_go.Fetch.Block.{
  Effects, ◌>->◌, index_block, store_receipts, store_result, Node, answer, fetch_block,
}
use indexer_go.Fetch.Block.Retries.{fetch_block_and_receipts_with_retry_lem}
use indexer_go.Fetch.Block.Stores.{
  Laws, There, rest_keeps, rest_final, rest_first, if_keeps, store_receipts-There, announced,
  announced-There, index_block-keeps, index_block-stores, index_block-latest,
}
use indexer_go.Base.Dict.{nat_eq}
use indexer_go.Base.{◌<◌}
use indexer_go.Fetch.Concurrent.Flush.{store_in_order}

module _ {S Block Receipt : Type 0} (e : Effects S Block Receipt) (k : Laws e) where
  module _ (y h : ℕ) (b : Block) (rs : List Receipt) where
    -- The end for a result that was fetched concurrently, and all that follows SetBlock.
    abbrev result_end : S → S × Bool
    result_end s =
        e.set_latest_height (if e.has_event_bus then e.publish_transactions s b rs else s) h

    abbrev after_set : S → S × Bool
    after_set s = e.process_wbft_metadata s b >-> λ s1. e.process_address_indexing s1 b rs >-> λ s2.
        e.process_balance_tracking s2 b rs >-> λ s3.
        store_receipts e rs (announced e k y h b rs s3) >-> result_end

    result_end-There : (s : S) → There e k y s → There e k y (result_end s).0
    result_end-There s p =
        let t = if e.has_event_bus then e.publish_transactions s b rs else s in
        k.set_latest_height-keeps t h y (
          if_keeps (There e k y) e.has_event_bus (e.publish_transactions s b rs) s
            (k.publish_transactions-keeps s b rs y p) p)

    after_set-There : (s : S) → There e k y s → There e k y (after_set s).0
    after_set-There s p =
        rest_keeps (There e k y) (e.process_wbft_metadata s b) _ (k.wbft-keeps s b y p) (λ s1 p1.
          rest_keeps (There e k y) (e.process_address_indexing s1 b rs) _
            (k.address-keeps s1 b rs y p1)
            (λ s2 p2.
              rest_keeps (There e k y) (e.process_balance_tracking s2 b rs) _
                (k.balance-keeps s2 b rs y p2)
                (λ s3 p3.
                  rest_keeps (There e k y) (store_receipts e rs (announced e k y h b rs s3))
                    result_end
                    (store_receipts-There e k y rs (announced e k y h b rs s3)
                      (announced-There e k y h b s3 p3))
                    result_end-There)))

    store_result-keeps : (s : S) → There e k y s → There e k y (store_result e h b rs s).0
    unfolding store_result
    store_result-keeps s p =
        rest_keeps (There e k y) (e.set_block s b) after_set (k.set_block-keeps s b y p)
          after_set-There

    store_result-stores :
        (s : S)
        → k.number b ≡ y
        → (store_result e h b rs s).1 ≡ true
        → There e k y (store_result e h b rs s).0
    unfolding store_result
    store_result-stores s n ok =
        rest_first (There e k y) (e.set_block s b) after_set
          (λ set. rw⁻¹ n (k.set_block-stores s b set)) after_set-There ok

  module _ (answers : ℕ → Block × List Receipt) (named : (x : ℕ) → k.number (answers x).0 ≡ x)
      (y : ℕ) where
    pub store_in_order-keeps :
        (count height : ℕ) (s : S)
        → There e k y s
        → There e k y (store_in_order e answers count height s).0
    unfolding store_in_order
    store_in_order-keeps zero height s p = p
    store_in_order-keeps (suc count) height s p =
        rest_keeps (There e k y) (store_result e height (answers height).0 (answers height).1 s)
          (λ t. store_in_order e answers count (height + 1) t)
          (store_result-keeps y height (answers height).0 (answers height).1 s p)
          (λ t q. store_in_order-keeps count (height + 1) t q)

    pub store_in_order-stores :
        (count height : ℕ) (s : S)
        → (store_in_order e answers count height s).1 ≡ true
        → height ≤ y
        → y < height + count
        → There e k y (store_in_order e answers count height s).0
    unfolding store_in_order
    store_in_order-stores zero height s ok a b = absurd (omega (arith, a, b))
    store_in_order-stores (suc count) height s ok a b =
        let r = store_result e height (answers height).0 (answers height).1 s in
        let rest = λ (t : S). store_in_order e answers count (height + 1) t in
        elim (Bool-cases (height == y)) [
          | inl here ↦
              let at : height ≡ y = ground (arith, here) in
              rest_first (There e k y) r rest
                (store_result-stores y height (answers height).0 (answers height).1 s
                  (named height ∙ at))
                (λ t q. store_in_order-keeps count (height + 1) t q) ok
          | inr later ↦
              let past : height + 1 ≤ y = ground (arith, later, a) in
              rest_final (There e k y) r rest
                (λ t good. store_in_order-stores count (height + 1) t good past (omega (arith, b)))
                ok
        ]

  module _ (node : Node Block Receipt) (max_retries : ℕ)
      (numbered : (h attempt : ℕ) (b : Block)
        → node.get_block h attempt ≡ some b
        → k.number b ≡ h) where
    answer-number :
        (h i : ℕ) (p : Block × List Receipt) → answer node h i ≡ some p → k.number p.0 ≡ h
    answer-number h i p got = elim (Option-cases (node.get_block h i)) [
      | inl n ↦ absurd (ground (arith, got, n))
      | inr (b, there) ↦ elim (Option-cases (node.get_receipts h i)) [
        | inl n ↦ absurd (ground (arith, got, there, n))
        | inr (rs, listed) ↦
            let same : b ≡ p.0 = ground (arith, got, there, listed) in
            ap k.number (sym same) ∙ numbered h i b there
      ]
    ]

    -- A property of what FetchBlock leaves, from what it does where it has the block.
    pub fetched_block :
        (P : S × Bool → Type 0) (x : ℕ) (s : S)
        → P (s, false)
        → ((b : Block) (rs : List Receipt) → k.number b ≡ x → P (index_block e x b rs s))
        → P (fetch_block e node max_retries x s)
    unfolding fetch_block
    fetched_block P x s failed done =
        elim (fetch_block_and_receipts_with_retry_lem node max_retries x) [
          | inl (n, h) ↦ rw n failed
          | inr (i, p, l, got, a, h) ↦ rw got (done p.0 p.1 (answer-number x i p a))
        ]

-- Where SetBlock stores a block under its number, SetLatestHeight sets the latest height, no step
-- removes a block, and a block that the node gives for a height has that number: FetchBlock, also
-- where it fails, removes no block, and where it succeeds the block of its height is stored and is
-- the latest height.
pub fetch_block_lem :
    {S Block Receipt : Type 0} (e : Effects S Block Receipt) (k : Laws e)
    (node : Node Block Receipt) (max_retries : ℕ)
    → ((h attempt : ℕ) (b : Block) → node.get_block h attempt ≡ some b → k.number b ≡ h)
    → (height : ℕ) (s : S)
    → let r = fetch_block e node max_retries height s in
      ((y : ℕ) → k.stored s y ≡ true → k.stored r.0 y ≡ true)
      × (r.1 ≡ true → (k.stored r.0 height ≡ true) × (k.latest r.0 ≡ some height))
fetch_block_lem e k node max_retries numbered height s = (
  λ y p.
      fetched_block e k node max_retries numbered (λ r. There e k y r.0) height s p
        (λ b rs n. index_block-keeps e k y height b rs s p),
  λ ok. (
    fetched_block e k node max_retries numbered (λ r. r.1 ≡ true → There e k height r.0) height s
        (λ bad. absurd (ground (arith, bad)))
        (λ b rs n. index_block-stores e k height height b rs s n) ok,
    fetched_block e k node max_retries numbered (λ r. r.1 ≡ true → k.latest r.0 ≡ some height)
        height s (λ bad. absurd (ground (arith, bad)))
        (λ b rs n. index_block-latest e k height height b rs s) ok,
  ),
)
