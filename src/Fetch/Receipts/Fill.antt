-- ===== src/Fetch/Receipts/Fill.antt =====
-- FillReceiptGap and FillReceiptGaps of pkg/fetch/fetcher_gaps.go, over any types of hashes and
-- receipts. The node's receipts of a block, SetReceipt and the test of the context before each gap
-- are arguments.
use indexer_go.Base.{
  ℕ, ◌≡◌, refl, ap, ◌∙◌, sym, subst, Bool, true, false, ◌||◌, List, [], ◌∷◌, Option, none, some,
  arith, Bool-cases, Option-cases, inl, inr, All,
}
use indexer_go.Base.Dict.{Eq, ◌==◌, lookup, insert, lookup-insert, is_some}
use indexer_go.Fetch.Receipts.{ReceiptGapInfo}

module _ {S Hash Receipt : Type 0} ⦃hash_eq : Eq Hash⦄ (tx_hash : Receipt → Hash)
    (set_receipt : S → Receipt → S × Bool) (get_block_receipts : ℕ → Option (List Receipt)) where
  -- The map from hashes to receipts; a later receipt replaces an earlier one.
  unfoldable pub receipt_map : List Receipt → List (Hash × Receipt) → List (Hash × Receipt)
  unfolding insert
  receipt_map [] m = m
  receipt_map (r ∷ rs) m = receipt_map rs (insert (tx_hash r) r m)

  -- The loop over the missing receipts; one that the node does not have is skipped.
  unfoldable pub store_missing : List (Hash × Receipt) → List Hash → S → S × Bool
  unfolding lookup
  store_missing m [] s = (s, true)
  store_missing m (h ∷ hs) s = elim (lookup h m) [
    | none ↦ store_missing m hs s
    | some r ↦ elim (set_receipt s r).1 [
      | false ↦ ((set_receipt s r).0, false)
      | true ↦ store_missing m hs (set_receipt s r).0
    ]
  ]

  abbrev pub store_listed : List Hash → S → Option (List Receipt) → S × Bool
  store_listed missing s none = (s, false)
  store_listed missing s (some receipts) = store_missing (receipt_map receipts []) missing s

  unfoldable pub fill_receipt_gap : ReceiptGapInfo Hash → S → S × Bool
  unfolding receipt_map store_missing
  fill_receipt_gap gap s = store_listed gap.missing_receipts s (get_block_receipts gap.block_number)

  -- `ended` tells for each gap whether the context has ended when its turn comes.
  unfoldable pub fill_receipt_gaps :
      (ReceiptGapInfo Hash → Bool) → List (ReceiptGapInfo Hash) → S → S × Bool
  unfolding fill_receipt_gap
  fill_receipt_gaps ended [] s = (s, true)
  fill_receipt_gaps ended (gap ∷ gaps) s = elim (ended gap) [
    | true ↦ (s, false)
    | false ↦ elim (fill_receipt_gap gap s).1 [
      | false ↦ ((fill_receipt_gap gap s).0, false)
      | true ↦ fill_receipt_gaps ended gaps (fill_receipt_gap gap s).0
    ]
  ]

  -- The receipts of the node have one with this hash.
  unfoldable pub listed : Hash → List Receipt → Bool
  listed h [] = false
  listed h (r ∷ rs) = tx_hash r == h || listed h rs

  -- The map has each hash with a receipt of that hash.
  receipt_map_lem :
      (rs : List Receipt) (m : List (Hash × Receipt)) (h : Hash)
      → is_some (lookup h (receipt_map rs m)) ≡ (is_some (lookup h m) || listed h rs)
  unfolding receipt_map listed
  receipt_map_lem [] m h = ground arith
  receipt_map_lem (r ∷ rs) m h =
      ground (arith, receipt_map_lem rs (insert (tx_hash r) r m) h, lookup-insert (tx_hash r) h r m)

  abbrev Keyed : List (Hash × Receipt) → Type 0
  Keyed m = (h : Hash) (r : Receipt) → lookup h m ≡ some r → tx_hash r ≡ h

  receipt_map-Keyed :
      (rs : List Receipt) (m : List (Hash × Receipt)) → Keyed m → Keyed (receipt_map rs m)
  unfolding receipt_map
  receipt_map-Keyed [] m k = k
  receipt_map-Keyed (r ∷ rs) m k = receipt_map-Keyed rs (insert (tx_hash r) r m) (λ h q e.
      elim (Bool-cases (tx_hash r == h)) [
        | inl same ↦
            let there : r ≡ q = ground (arith, lookup-insert (tx_hash r) h r m, same, e) in
            ap tx_hash (sym there) ∙ (hash_eq.beq_iff (tx_hash r) h).0 same
        | inr other ↦ k h q (ground (arith, lookup-insert (tx_hash r) h r m, other, e))
      ])

  module _ (m : List (Hash × Receipt)) (h : Hash) (hs : List Hash) (s : S) where
    pub missing_skipped : lookup h m ≡ none → store_missing m (h ∷ hs) s ≡ store_missing m hs s
    unfolding store_missing
    missing_skipped n = rw (n, store_missing) refl

    pub missing_fails :
        (r : Receipt)
        → lookup h m ≡ some r
        → (set_receipt s r).1 ≡ false
        → store_missing m (h ∷ hs) s ≡ ((set_receipt s r).0, false)
    unfolding store_missing
    missing_fails r there bad = rw (there, bad, store_missing) refl

    pub missing_goes :
        (r : Receipt)
        → lookup h m ≡ some r
        → (set_receipt s r).1 ≡ true
        → store_missing m (h ∷ hs) s ≡ store_missing m hs (set_receipt s r).0
    unfolding store_missing
    missing_goes r there good = rw (there, good, store_missing) refl

  module _ (ended : ReceiptGapInfo Hash → Bool) (gap : ReceiptGapInfo Hash)
      (gaps : List (ReceiptGapInfo Hash)) (s : S) (live : ended gap ≡ false) where
    pub gaps_fail :
        (fill_receipt_gap gap s).1 ≡ false
        → fill_receipt_gaps ended (gap ∷ gaps) s ≡ ((fill_receipt_gap gap s).0, false)
    unfolding fill_receipt_gaps
    gaps_fail bad = rw (live, bad, fill_receipt_gaps) refl

    pub gaps_go :
        (fill_receipt_gap gap s).1 ≡ true
        → fill_receipt_gaps ended (gap ∷ gaps) s
          ≡ fill_receipt_gaps ended gaps (fill_receipt_gap gap s).0
    unfolding fill_receipt_gaps
    gaps_go good = rw (live, good, fill_receipt_gaps) refl

  -- What holds where the node's receipts of a block are known.
  abbrev pub available : ℕ → Hash → Bool
  available height h = elim (get_block_receipts height) [ none ↦ false | some rs ↦ listed h rs ]

  module _ (stored : S → Hash → Bool)
      (set_receipt-stores : (s : S) (r : Receipt)
        → (set_receipt s r).1 ≡ true
        → stored (set_receipt s r).0 (tx_hash r) ≡ true)
      (set_receipt-keeps : (s : S) (r : Receipt) (h : Hash)
        → stored s h ≡ true
        → stored (set_receipt s r).0 h ≡ true) where
    -- Nothing is lost, and after a success each of these hashes that the node has is stored.
    abbrev pub Recovered : S → S × Bool → (Hash → Bool) → List Hash → Type 0
    Recovered s r available missing =
        ((h : Hash) → stored s h ≡ true → stored r.0 h ≡ true)
        × (r.1 ≡ true → All (λ h. available h ≡ true → stored r.0 h ≡ true) missing)

    store_missing-Recovered :
        (m : List (Hash × Receipt)) (hs : List Hash) (s : S)
        → Keyed m
        → Recovered s (store_missing m hs s) (λ h. is_some (lookup h m)) hs
    unfolding store_missing
    store_missing-Recovered m [] s k = (λ h p. p, λ ok. tt)
    store_missing-Recovered m (h ∷ hs) s k =
        let Known = λ (h : Hash). is_some (lookup h m) in
        let from =
          λ (r : S × Bool) (e : store_missing m (h ∷ hs) s ≡ r) (q : Recovered s r Known (h ∷ hs)).
            subst (λ x. Recovered s x Known (h ∷ hs)) (sym e) q in
        elim (Option-cases (lookup h m)) [
          | inl n ↦
              let ih = store_missing-Recovered m hs s k in
              from (store_missing m hs s) (missing_skipped m h hs s n)
                (ih.0, λ ok. (λ a. absurd (ground (arith, a, n)), ih.1 ok))
          | inr (r, there) ↦
              let t = (set_receipt s r).0 in
              let keep = set_receipt-keeps s r in
              elim (Bool-cases (set_receipt s r).1) [
                | inr bad ↦
                    from (t, false) (missing_fails m h hs s r there bad)
                      (keep, λ ok. absurd (ground (arith, ok)))
                | inl good ↦
                    let ih = store_missing-Recovered m hs t k in
                    let now : stored t h ≡ true =
                      ap (stored t) (sym (k h r there)) ∙ set_receipt-stores s r good in
                    from (store_missing m hs t) (missing_goes m h hs s r there good)
                      (λ x p. ih.0 x (keep x p), λ ok. (λ a. ih.0 h now, ih.1 ok))
              ]
        ]

    each_available :
        (P Q : Hash → Bool) (t : S) (hs : List Hash)
        → ((h : Hash) → Q h ≡ P h)
        → All (λ h. P h ≡ true → stored t h ≡ true) hs
        → All (λ h. Q h ≡ true → stored t h ≡ true) hs
    each_available P Q t [] same a = tt
    each_available P Q t (h ∷ hs) same a =
        (λ q. a.0 (sym (same h) ∙ q), each_available P Q t hs same a.1)

    fill_receipt_gap-Recovered :
        (gap : ReceiptGapInfo Hash) (s : S)
        → Recovered s (fill_receipt_gap gap s) (available gap.block_number) gap.missing_receipts
    unfolding fill_receipt_gap lookup
    fill_receipt_gap-Recovered gap s = elim (Option-cases (get_block_receipts gap.block_number)) [
      | inl n ↦ rw n (λ h p. p, λ ok. absurd (ground (arith, ok)))
      | inr (rs, there) ↦
          let m = receipt_map rs [] in
          let keyed = receipt_map-Keyed rs [] (λ h r e. absurd (ground (arith, e))) in
          let same : (h : Hash) → available gap.block_number h ≡ is_some (lookup h m) =
            λ h. rw (available, there) (sym (receipt_map_lem rs [] h)) in
          let done = store_missing-Recovered m gap.missing_receipts s keyed in
          rw there (
            done.0,
            λ ok.
                each_available (λ h. is_some (lookup h m)) (available gap.block_number)
                  (store_missing m gap.missing_receipts s).0 gap.missing_receipts same (done.1 ok),
          )
    ]

    each_kept :
        (P : Hash → Bool) (t u : S) (hs : List Hash)
        → ((h : Hash) → stored t h ≡ true → stored u h ≡ true)
        → All (λ h. P h ≡ true → stored t h ≡ true) hs
        → All (λ h. P h ≡ true → stored u h ≡ true) hs
    each_kept P t u [] keep a = tt
    each_kept P t u (h ∷ hs) keep a = (λ q. keep h (a.0 q), each_kept P t u hs keep a.1)

    abbrev pub Regained : S → S × Bool → List (ReceiptGapInfo Hash) → Type 0
    Regained s r gaps =
        ((h : Hash) → stored s h ≡ true → stored r.0 h ≡ true)
        × (r.1 ≡ true
            → All
                (λ gap.
                  All (λ h. available gap.block_number h ≡ true → stored r.0 h ≡ true)
                    gap.missing_receipts)
                gaps)

    -- Where SetReceipt stores a receipt that it reports no error for, and loses none: FillReceiptGaps
    -- loses no receipt, also where it fails; and where it succeeds, for each of the gaps, every
    -- missing receipt that is among the node's receipts of its block is stored.
    pub fill_receipt_gaps_lem :
        (ended : ReceiptGapInfo Hash → Bool) (gaps : List (ReceiptGapInfo Hash)) (s : S)
        → Regained s (fill_receipt_gaps ended gaps s) gaps
    unfolding fill_receipt_gaps
    fill_receipt_gaps_lem ended [] s = (λ h p. p, λ ok. tt)
    fill_receipt_gaps_lem ended (gap ∷ gaps) s =
        let one = fill_receipt_gap-Recovered gap s in
        let t = (fill_receipt_gap gap s).0 in
        let from =
          λ (r : S × Bool) (e : fill_receipt_gaps ended (gap ∷ gaps) s ≡ r)
              (q : Regained s r (gap ∷ gaps)).
            subst (λ x. Regained s x (gap ∷ gaps)) (sym e) q in
        elim (Bool-cases (ended gap)) [
          | inl stop ↦
              from (s, false) (rw (stop, fill_receipt_gaps) refl)
                (λ h p. p, λ ok. absurd (ground (arith, ok)))
          | inr live ↦ elim (Bool-cases (fill_receipt_gap gap s).1) [
            | inr bad ↦
                from (t, false) (gaps_fail ended gap gaps s live bad)
                  (one.0, λ ok. absurd (ground (arith, ok)))
            | inl good ↦
                let ih = fill_receipt_gaps_lem ended gaps t in
                let u = (fill_receipt_gaps ended gaps t).0 in
                from (fill_receipt_gaps ended gaps t) (gaps_go ended gap gaps s live good) (
                  λ h p. ih.0 h (one.0 h p),
                  λ ok. (
                    each_kept (available gap.block_number) t u gap.missing_receipts ih.0
                        (one.1 good),
                    ih.1 ok,
                  ),
                )
          ]
        ]
