-- ===== src/Watchlist/Matcher/Refinement.antt =====
-- The check of the filter never changes the events that are found.
use Prim.Native.String.{String}
use indexer_go.Base.{
  ◌≡◌, refl, ap, true, List, [], ◌∷◌, Option, none, some, arith, Bool-cases, Option-cases, inl, inr,
}
use mathlib.Core.Path.{fun_ext}
use indexer_go.Base.Dict.{
  string_eq, lookup, insert, delete, lookup-insert, lookup-delete, is_some, ◌==◌,
}
use indexer_go.Text.{Bytes}
use indexer_go.Text.Equality.{bytes_eq, bytes_beq, bytes_beq_sound}
use indexer_go.Watchlist.Types.{WatchedAddress, WatchEvent, Transaction, Receipt, Log, Block}
use indexer_go.Watchlist.Bloom.{BloomFilter, add, might_contain}
use indexer_go.Watchlist.Bloom.Members.{
  IsValid, add-IsValid, might_contain-add_self, might_contain-add,
}
use indexer_go.Watchlist.Matcher.{
  EventMatcher, AddressMap, new_event_matcher, or_else, add_address, remove_address, watched_at,
  with_chain, tx_events, log_events, match_transaction, match_logs,
}

-- Every watched address of a chain passes the filter of the chain, and every filter is valid.
pub record IsCovered (m : EventMatcher) : Type 0 where
  pub filters : (c : String) (bf : BloomFilter) → lookup c m.bloom_filters ≡ some bf → IsValid bf
  pub passed :
      (c : String) (addrs : AddressMap)
      → lookup c m.addresses ≡ some addrs
      → (bf : BloomFilter) × (lookup c m.bloom_filters ≡ some bf)
        × ((x : Bytes) → is_some (lookup x addrs) ≡ true → might_contain bf x ≡ true)

new-IsCovered : IsCovered new_event_matcher
unfolding new_event_matcher lookup
new-IsCovered = record {
  filters = λ c bf e. absurd (ground arith);
  passed = λ c addrs e. absurd (ground arith);
}

module _ (default : BloomFilter) (fresh : IsValid default) (m : EventMatcher)
    (v : IsCovered m) where
  default-IsValid : (c : String) → IsValid (or_else default (lookup c m.bloom_filters))
  default-IsValid c = elim (Option-cases (lookup c m.bloom_filters)) [
    | inl missing ↦ rw missing fresh
    | inr (bf, there) ↦ rw there (v.filters c bf there)
  ]

  -- The addresses that were there before pass what stands for the chain's filter.
  passed_before :
      (c : String) (x : Bytes)
      → is_some (lookup x (or_else [] (lookup c m.addresses))) ≡ true
      → might_contain (or_else default (lookup c m.bloom_filters)) x ≡ true
  unfolding lookup
  passed_before c x h = elim (Option-cases (lookup c m.addresses)) [
    | inl missing ↦ absurd (ground (arith, missing))
    | inr (addrs, there) ↦
        let p = v.passed c addrs there in rw p.1 (p.2 x (ground (arith, there, h)))
  ]

  add-passed :
      (w : WatchedAddress) (x : Bytes)
      → is_some (lookup x (insert w.address w (or_else [] (lookup w.chain_id m.addresses)))) ≡ true
      → might_contain (add w.address (or_else default (lookup w.chain_id m.bloom_filters))) x ≡ true
  add-passed w x h =
      let old = or_else default (lookup w.chain_id m.bloom_filters) in
      let valid = default-IsValid w.chain_id in
      let read = lookup-insert w.address x w (or_else [] (lookup w.chain_id m.addresses)) in
      elim (Bool-cases (bytes_beq w.address x)) [
        | inl same ↦
            rw (← bytes_beq_sound w.address x same) (might_contain-add_self w.address old valid)
        | inr other ↦
            might_contain-add w.address old valid x
              (passed_before w.chain_id x (ground (arith, other, read, h)))
      ]

  add_address-IsCovered : (w : WatchedAddress) → IsCovered (add_address default w m)
  unfolding add_address
  add_address-IsCovered w =
      let old = or_else default (lookup w.chain_id m.bloom_filters) in
      let valid = default-IsValid w.chain_id in
      let bf = add w.address old in
      let addrs = insert w.address w (or_else [] (lookup w.chain_id m.addresses)) in
      record {
        filters = λ c b e.
            let read = lookup-insert w.chain_id c bf m.bloom_filters in
            elim (Bool-cases (w.chain_id == c)) [
              | inl same ↦
                  let value : bf ≡ b = ground (arith, same, read, e) in
                  rw (← value) (add-IsValid w.address old valid)
              | inr other ↦ v.filters c b (ground (arith, other, read, e))
            ];
        passed = λ c found e.
            let read = lookup-insert w.chain_id c bf m.bloom_filters in
            let list = lookup-insert w.chain_id c addrs m.addresses in
            elim (Bool-cases (w.chain_id == c)) [
              | inl same ↦
                  let value : addrs ≡ found = ground (arith, same, list, e) in
                  (bf, rw same at read, λ x h. add-passed w x (rw (← value) at h))
              | inr other ↦
                  let p = v.passed c found (ground (arith, other, list, e)) in
                  (p.0, ground (arith, other, read, p.1), p.2)
            ];
      }

remove_address-IsCovered :
    (c : String) (a : Bytes) (m : EventMatcher) → IsCovered m → IsCovered (remove_address c a m)
unfolding remove_address
remove_address-IsCovered c a m v = elim (Option-cases (lookup c m.addresses)) [
  | inl missing ↦ rw missing v
  | inr (addrs, there) ↦ rw there (record {
    filters = v.filters;
    passed = λ d found e.
        let list = lookup-insert c d (delete a addrs) m.addresses in
        elim (Bool-cases (c == d)) [
          | inl same ↦
              let value : delete a addrs ≡ found = ground (arith, same, list, e) in
              let p = v.passed c addrs there in
              let one : c ≡ d = (string_eq.beq_iff c d).0 same in
              let passes : (x : Bytes)
                  → is_some (lookup x found) ≡ true
                  → might_contain p.0 x ≡ true =
                λ x h.
                  let read = lookup-delete a x addrs in
                  let kept = rw (← value) at h in p.2 x (ground (arith, read, kept)) in
              (p.0, rw one at p.1, passes)
          | inr other ↦ v.passed d found (ground (arith, other, list, e))
        ];
  })
]

-- The calls that change the matcher.
pub data Call : Type 0 where
  call_add : WatchedAddress → Call
  call_remove : String → Bytes → Call

unfoldable pub calls : BloomFilter → EventMatcher → List Call → EventMatcher
unfolding add_address remove_address
calls default m [] = m
calls default m (call_add w ∷ rest) = calls default (add_address default w m) rest
calls default m (call_remove c a ∷ rest) = calls default (remove_address c a m) rest

calls-IsCovered :
    (default : BloomFilter) (m : EventMatcher) (cs : List Call)
    → IsValid default
    → IsCovered m
    → IsCovered (calls default m cs)
unfolding calls
calls-IsCovered default m [] f v = v
calls-IsCovered default m (call_add w ∷ cs) f v =
    calls-IsCovered default (add_address default w m) cs f (add_address-IsCovered default f m v w)
calls-IsCovered default m (call_remove c a ∷ cs) f v =
    calls-IsCovered default (remove_address c a m) cs f (remove_address-IsCovered c a m v)

-- The reference: the addresses of the chain are looked up with no filter in front.
abbrev pub without_filter : (AddressMap → List WatchEvent) → Option AddressMap → List WatchEvent
without_filter events none = []
without_filter events (some addrs) = events addrs

module _ (to_address : Bytes → Bytes) (to_hex : Bytes → Bytes) where
  unfoldable pub exact_transaction :
      EventMatcher → String → Transaction → Receipt → Block → List WatchEvent
  unfolding lookup tx_events
  exact_transaction m chain_id tx receipt block =
      without_filter
        (λ addrs. tx_events to_address to_hex (λ x. lookup x addrs) block tx receipt tx.sender)
        (lookup chain_id m.addresses)

  unfoldable pub exact_logs : EventMatcher → String → List Log → Block → List WatchEvent
  unfolding lookup log_events
  exact_logs m chain_id logs block =
      without_filter (λ addrs. log_events to_address to_hex (λ x. lookup x addrs) block logs)
        (lookup chain_id m.addresses)

  watched_at-lookup :
      (bf : BloomFilter) (addrs : AddressMap)
      → ((x : Bytes) → is_some (lookup x addrs) ≡ true → might_contain bf x ≡ true)
      → watched_at to_address to_hex bf addrs ≡ (λ x. lookup x addrs)
  unfolding watched_at
  watched_at-lookup bf addrs passes = fun_ext λ x. elim (Option-cases (lookup x addrs)) [
    | inl missing ↦ rw missing (ground arith)
    | inr (w, there) ↦ rw (passes x (rw there refl)) refl
  ]

  with_chain-lookup :
      (m : EventMatcher) (c : String) (events : (Bytes → Option WatchedAddress) → List WatchEvent)
      → IsCovered m
      → with_chain to_address to_hex
          (λ bf addrs. events (watched_at to_address to_hex bf addrs))
          (lookup c m.bloom_filters)
          (lookup c m.addresses)
        ≡ without_filter (λ addrs. events (λ x. lookup x addrs)) (lookup c m.addresses)
  with_chain-lookup m c events v = elim (Option-cases (lookup c m.addresses)) [
    | inl missing ↦ elim (Option-cases (lookup c m.bloom_filters)) [
      | inl bare ↦ rw (missing, bare) refl
      | inr (bf, there) ↦ rw (missing, there) refl
    ]
    | inr (addrs, there) ↦
        let p = v.passed c addrs there in
        rw (there, p.1) (ap events (watched_at-lookup p.0 addrs p.2))
  ]

  -- After any calls of AddAddress and RemoveAddress on a new matcher, where new filters are valid,
  -- MatchTransaction and MatchLogs find exactly the events that they would find by looking every
  -- address up, with no filter in front: the filter hides no event and adds none.
  pub match-exact :
      (default : BloomFilter) (cs : List Call)
      → IsValid default
      → (chain_id : String) (tx : Transaction) (receipt : Receipt) (logs : List Log) (block : Block)
      → let m = calls default new_event_matcher cs in
        (match_transaction to_address to_hex m chain_id tx receipt block
          ≡ exact_transaction m chain_id tx receipt block)
        × (match_logs to_address to_hex m chain_id logs block ≡ exact_logs m chain_id logs block)
  unfolding match_transaction match_logs exact_transaction exact_logs
  match-exact default cs f chain_id tx receipt logs block =
      let m = calls default new_event_matcher cs in
      let v = calls-IsCovered default new_event_matcher cs f new-IsCovered in
      (
        with_chain-lookup m chain_id
            (λ find. tx_events to_address to_hex find block tx receipt tx.sender) v,
        with_chain-lookup m chain_id (λ find. log_events to_address to_hex find block logs) v,
      )
