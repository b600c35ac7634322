-- ===== src/Fetch/Block/Stores.antt =====
-- FetchBlock stores its block, removes none and sets the latest height, for effects that do so.
use indexer_go.Base.{
  ℕ, ◌≡◌, refl, Bool, true, false, ◌&&◌, List, [], ◌∷◌, Option, some, arith, if◌then◌else◌, ◌==◌,
}
use indexer_go.Fetch.Block.{
  Effects, ◌>->◌, process_block_metadata, logged, parsed, parse_all, store_each,
  store_and_process_receipts, publish_block_events, index_block, store_receipts,
}

-- A step removes no block.
abbrev pub Keeps : {S : Type 0} → (S → ℕ → Bool) → S → S → Type 0
Keeps stored s t = (y : ℕ) → stored s y ≡ true → stored t y ≡ true

pub record Laws {S Block Receipt : Type 0} (e : Effects S Block Receipt) : Type 0 where
  pub number : Block → ℕ
  pub stored : S → ℕ → Bool
  pub latest : S → Option ℕ
  pub set_block-stores :
      (s : S) (b : Block)
      → (e.set_block s b).1 ≡ true
      → stored (e.set_block s b).0 (number b) ≡ true
  pub set_latest_height-sets :
      (s : S) (h : ℕ)
      → (e.set_latest_height s h).1 ≡ true
      → latest (e.set_latest_height s h).0 ≡ some h
  pub set_block-keeps : (s : S) (b : Block) → Keeps stored s (e.set_block s b).0
  pub wbft-keeps : (s : S) (b : Block) → Keeps stored s (e.process_wbft_metadata s b).0
  pub address-keeps :
      (s : S) (b : Block) (rs : List Receipt) → Keeps stored s (e.process_address_indexing s b rs).0
  pub balance-keeps :
      (s : S) (b : Block) (rs : List Receipt) → Keeps stored s (e.process_balance_tracking s b rs).0
  pub genesis-keeps : (s : S) (b : Block) → Keeps stored s (e.initialize_genesis_balances s b)
  pub tokens-keeps : (s : S) → Keeps stored s (e.initialize_genesis_token_metadata s)
  pub delegation-keeps : (s : S) (h : ℕ) → Keeps stored s (e.process_fee_delegation_metadata s h)
  pub set_receipt-keeps : (s : S) (r : Receipt) → Keeps stored s (e.set_receipt s r).0
  pub index_logs-keeps : (s : S) (r : Receipt) → Keeps stored s (e.index_logs s r)
  pub parse-keeps : (s : S) (r : Receipt) → Keeps stored s (e.parse_and_index_logs s r)
  pub parallel-keeps :
      (s : S) (b : Block) (rs : List Receipt)
      → Keeps stored s (e.process_receipts_parallel s b rs).0
  pub publish_block-keeps : (s : S) (b : Block) → Keeps stored s (e.publish_block s b)
  pub publish_transactions-keeps :
      (s : S) (b : Block) (rs : List Receipt) → Keeps stored s (e.publish_transactions s b rs)
  pub publish_logs-keeps :
      (s : S) (b : Block) (rs : List Receipt) → Keeps stored s (e.publish_logs s b rs)
  pub processors-keep :
      (s : S) (b : Block) (rs : List Receipt)
      → Keeps stored s (e.process_block_with_processors s b rs)
  pub set_latest_height-keeps : (s : S) (h : ℕ) → Keeps stored s (e.set_latest_height s h).0

-- A property of the state through a chain of steps, and a property of the last one's result.
pub rest_keeps :
    {S : Type 0} (P : S → Type 0) (r : S × Bool) (f : S → S × Bool)
    → P r.0
    → ((t : S) → P t → P (f t).0)
    → P (r >-> f).0
rest_keeps P (s, true) f p h = h s p
rest_keeps P (s, false) f p h = p

pub rest_final :
    {S : Type 0} (Q : S → Type 0) (r : S × Bool) (f : S → S × Bool)
    → ((t : S) → (f t).1 ≡ true → Q (f t).0)
    → (r >-> f).1 ≡ true
    → Q (r >-> f).0
rest_final Q (s, true) f h ok = h s ok
rest_final Q (s, false) f h ok = absurd (ground (arith, ok))

pub rest_first :
    {S : Type 0} (P : S → Type 0) (r : S × Bool) (f : S → S × Bool)
    → (r.1 ≡ true → P r.0)
    → ((t : S) → P t → P (f t).0)
    → (r >-> f).1 ≡ true
    → P (r >-> f).0
rest_first P (s, true) f p h ok = h s (p refl)
rest_first P (s, false) f p h ok = absurd (ground (arith, ok))

pub if_keeps :
    {S : Type 0} (P : S → Type 0) (b : Bool) (t u : S) → P t → P u → P (if b then t else u)
if_keeps P true t u p q = p
if_keeps P false t u p q = q

module _ {S Block Receipt : Type 0} (e : Effects S Block Receipt) (k : Laws e) (y : ℕ) where
  abbrev pub There : S → Type 0
  There s = k.stored s y ≡ true

  logged-There : (r : Receipt) (s : S) → There s → There (logged e r s)
  logged-There r s p =
      if_keeps There (e.has_log_writer && e.has_logs r) (e.index_logs s r) s
        (k.index_logs-keeps s r y p) p

  parsed-There : (r : Receipt) (s : S) → There s → There (parsed e r s)
  parsed-There r s p =
      if_keeps There (e.has_parser && e.has_logs r) (e.parse_and_index_logs s r) s
        (k.parse-keeps s r y p) p

  parse_all-There : (rs : List Receipt) (s : S) → There s → There (parse_all e rs s)
  unfolding parse_all
  parse_all-There [] s p = p
  parse_all-There (r ∷ rs) s p = parse_all-There rs (parsed e r s) (parsed-There r s p)

  store_each-There : (rs : List Receipt) (s : S) → There s → There (store_each e rs s).0
  unfolding store_each
  store_each-There [] s p = p
  store_each-There (r ∷ rs) s p =
      rest_keeps There (e.set_receipt s r) (λ t. store_each e rs (parsed e r (logged e r t)))
        (k.set_receipt-keeps s r y p)
        (λ t q.
          store_each-There rs (parsed e r (logged e r t))
            (parsed-There r (logged e r t) (logged-There r t q)))

  pub store_receipts-There : (rs : List Receipt) (s : S) → There s → There (store_receipts e rs s).0
  unfolding store_receipts
  store_receipts-There [] s p = p
  store_receipts-There (r ∷ rs) s p =
      rest_keeps There (e.set_receipt s r) (λ t. store_receipts e rs (logged e r t))
        (k.set_receipt-keeps s r y p)
        (λ t q. store_receipts-There rs (logged e r t) (logged-There r t q))

  process-There :
      (b : Block) (rs : List Receipt) (s : S)
      → There s
      → There (store_and_process_receipts e b rs s).0
  unfolding store_and_process_receipts
  process-There b rs s p =
      if_keeps (λ (r : S × Bool). There r.0) (e.should_process_in_batches b rs)
        (e.process_receipts_parallel s b rs >-> λ t. (parse_all e rs t, true)) (store_each e rs s)
        (rest_keeps There (e.process_receipts_parallel s b rs) (λ t. (parse_all e rs t, true))
          (k.parallel-keeps s b rs y p) (λ t q. parse_all-There rs t q))
        (store_each-There rs s p)

  metadata-There :
      (h : ℕ) (b : Block) (rs : List Receipt) (s : S)
      → There s
      → There (process_block_metadata e h b rs s).0
  unfolding process_block_metadata
  metadata-There h b rs s p =
      rest_keeps There (e.process_wbft_metadata s b) _ (k.wbft-keeps s b y p) (λ s1 p1.
        rest_keeps There (e.process_address_indexing s1 b rs) _ (k.address-keeps s1 b rs y p1)
          (λ s2 p2.
            rest_keeps There (e.process_balance_tracking s2 b rs) _ (k.balance-keeps s2 b rs y p2)
              (λ s3 p3.
                if_keeps There (h == 0)
                  (e.initialize_genesis_token_metadata (e.initialize_genesis_balances s3 b)) s3
                  (k.tokens-keeps (e.initialize_genesis_balances s3 b) y
                    (k.genesis-keeps s3 b y p3))
                  p3)))

  pub announced-There :
      (h : ℕ) (b : Block) (s : S)
      → There s
      → There (
          if e.has_event_bus
          then e.publish_block (e.process_fee_delegation_metadata s h) b
          else e.process_fee_delegation_metadata s h)
  announced-There h b s p =
      let t = e.process_fee_delegation_metadata s h in
      let q = k.delegation-keeps s h y p in
      if_keeps There e.has_event_bus (e.publish_block t b) t (k.publish_block-keeps t b y q) q

  module _ (h : ℕ) (b : Block) (rs : List Receipt) where
    abbrev pub announced : S → S
    announced s =
        let t = e.process_fee_delegation_metadata s h in
        if e.has_event_bus then e.publish_block t b else t

    -- The end of FetchBlock, and all that follows SetBlock.
    abbrev ending : S → S × Bool
    ending s =
        let t = if e.has_event_bus then publish_block_events e b rs s else s in
        e.set_latest_height (e.process_block_with_processors t b rs) h

    abbrev stored_on : S → S × Bool
    stored_on s = store_and_process_receipts e b rs (announced s) >-> ending

    ending-There : (s : S) → There s → There (ending s).0
    ending-There s p =
        let t = if e.has_event_bus then publish_block_events e b rs s else s in
        let u = e.process_block_with_processors t b rs in
        let published =
          if_keeps There e.has_event_bus (publish_block_events e b rs s) s
            (k.publish_logs-keeps (e.publish_transactions s b rs) b rs y
              (k.publish_transactions-keeps s b rs y p))
            p in
        k.set_latest_height-keeps u h y (k.processors-keep t b rs y published)

    stored_on-There : (s : S) → There s → There (stored_on s).0
    stored_on-There s p =
        rest_keeps There (store_and_process_receipts e b rs (announced s)) ending
          (process-There b rs (announced s) (announced-There h b s p)) ending-There

    after_block-There :
        (s : S) → There s → There (process_block_metadata e h b rs s >-> stored_on).0
    after_block-There s p =
        rest_keeps There (process_block_metadata e h b rs s) stored_on (metadata-There h b rs s p)
          stored_on-There

    module _ (s : S) where
      pub index_block-keeps : There s → There (index_block e h b rs s).0
      unfolding index_block
      index_block-keeps p =
          rest_keeps There (e.set_block s b) (λ t. process_block_metadata e h b rs t >-> stored_on)
            (k.set_block-keeps s b y p) after_block-There

      pub index_block-stores :
          k.number b ≡ y → (index_block e h b rs s).1 ≡ true → There (index_block e h b rs s).0
      unfolding index_block
      index_block-stores n ok =
          rest_first There (e.set_block s b) (λ t. process_block_metadata e h b rs t >-> stored_on)
            (λ set. rw⁻¹ n (k.set_block-stores s b set)) after_block-There ok

      pub index_block-latest :
          (index_block e h b rs s).1 ≡ true → k.latest (index_block e h b rs s).0 ≡ some h
      unfolding index_block
      index_block-latest ok =
          rest_final Latest (e.set_block s b) (λ t. process_block_metadata e h b rs t >-> stored_on)
            (λ s1. rest_final Latest (process_block_metadata e h b rs s1) stored_on (λ s2.
              rest_final Latest (store_and_process_receipts e b rs (announced s2)) ending
                (λ s3 good.
                  let t = if e.has_event_bus then publish_block_events e b rs s3 else s3 in
                  k.set_latest_height-sets (e.process_block_with_processors t b rs) h good)))
            ok
        where
          Latest : S → Type 0
          Latest t = k.latest t ≡ some h
