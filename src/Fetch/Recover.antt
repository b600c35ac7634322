-- ===== src/Fetch/Recover.antt =====
-- What RunWithGapRecovery of pkg/fetch/fetcher_gaps.go does before Run: the block gaps, then the
-- receipt gaps, up to the latest height. Errors on the way are only logged. `fuel` is that of the
-- scans; the loops of FillGaps have 12.
use indexer_go.Base.{
  ℕ, ◌+◌, ◌-◌, ◌≤◌, ◌<◌, ◌≡◌, refl, ap, ◌∙◌, sym, subst, Bool, true, false, List, [], ◌∷◌, Option,
  none, some, arith, ltb, if◌then◌else◌, Bool-cases, Option-cases, inl, inr, ◌>>=◌,
}
use indexer_go.Base.Dict.{Eq, lookup}
use indexer_go.Text.{uint64_limit}
use indexer_go.Fetch.{GapRange, found, detect_gaps}
use indexer_go.Fetch.Runs.{in_gaps}
use indexer_go.Fetch.Gaps.{detect_gaps_lem}
use indexer_go.Fetch.Receipts.{
  ReceiptGapInfo, detect_receipt_gaps, each_gap, detect_receipt_gaps-each_gap,
}
use indexer_go.Fetch.Receipts.Fill.{
  receipt_map, store_missing, fill_receipt_gap, fill_receipt_gaps, missing_skipped, missing_fails,
  missing_goes, gaps_fail, gaps_go,
}
use indexer_go.Fetch.Fill.{Fetcher, fill_gaps}
use indexer_go.Fetch.Fill.Recovery.{fill_gaps-detect_gaps}

module _ {S Hash Receipt : Type 0} ⦃hash_eq : Eq Hash⦄ (f : Fetcher S) (done : ℕ → Bool)
    (tx_hash : Receipt → Hash) (set_receipt : S → Receipt → S × Bool)
    (get_block_receipts : ℕ → Option (List Receipt))
    (get_missing_receipts : S → ℕ → Option (List Hash)) (ended : ReceiptGapInfo Hash → Bool) where
  abbrev pub first_of : S × Bool → Option S
  first_of r = some r.0

  unfoldable pub recover_blocks : ℕ → ℕ → ℕ → S → Option S
  recover_blocks fuel start end s =
      elim (detect_gaps done (λ x. some (f.stored s x)) fuel start end) [
        | none ↦ none
        | some (found gaps) ↦ fill_gaps f done 12 s gaps >>= first_of
        | some _ ↦ some s
      ]

  unfoldable pub recover_receipts : ℕ → ℕ → ℕ → S → Option S
  recover_receipts fuel start end s =
      elim (detect_receipt_gaps done (λ x. some (f.stored s x)) (get_missing_receipts s) fuel start
        end) [
          | none ↦ none
          | some (found gaps) ↦
              first_of (fill_receipt_gaps tx_hash set_receipt get_block_receipts ended gaps s)
          | some _ ↦ some s
        ]

  abbrev pub recover_to : ℕ → ℕ → S → Option ℕ → Option S
  recover_to fuel start s none = some s
  recover_to fuel start s (some latest) =
      if ltb start latest
      then recover_blocks fuel start latest s >>= recover_receipts fuel start latest
      else some s

  unfoldable pub recover_gaps : ℕ → ℕ → S → Option S
  unfolding recover_blocks recover_receipts
  recover_gaps fuel start s = recover_to fuel start s (f.latest s)

  module _ (P : S → Type 0) (keep : (s : S) (r : Receipt) → P s → P (set_receipt s r).0) where
    store_missing-keeps :
        (m : List (Hash × Receipt)) (hs : List Hash) (s : S)
        → P s
        → P (store_missing tx_hash set_receipt get_block_receipts m hs s).0
    unfolding store_missing
    store_missing-keeps m [] s p = p
    store_missing-keeps m (h ∷ hs) s p = elim (Option-cases (lookup h m)) [
      | inl n ↦
          subst (λ (r : S × Bool). P r.0)
            (sym (missing_skipped tx_hash set_receipt get_block_receipts m h hs s n))
            (store_missing-keeps m hs s p)
      | inr (r, there) ↦ elim (Bool-cases (set_receipt s r).1) [
        | inr bad ↦
            subst (λ (r : S × Bool). P r.0)
              (sym (missing_fails tx_hash set_receipt get_block_receipts m h hs s r there bad))
              (keep s r p)
        | inl good ↦
            subst (λ (r : S × Bool). P r.0)
              (sym (missing_goes tx_hash set_receipt get_block_receipts m h hs s r there good))
              (store_missing-keeps m hs (set_receipt s r).0 (keep s r p))
      ]
    ]

    fill_receipt_gap-keeps :
        (gap : ReceiptGapInfo Hash) (s : S)
        → P s
        → P (fill_receipt_gap tx_hash set_receipt get_block_receipts gap s).0
    unfolding fill_receipt_gap
    fill_receipt_gap-keeps gap s p = elim (Option-cases (get_block_receipts gap.block_number)) [
      | inl n ↦ rw n p
      | inr (rs, there) ↦ rw there (
          store_missing-keeps (receipt_map tx_hash set_receipt get_block_receipts rs [])
            gap.missing_receipts s p)
    ]

    fill_receipt_gaps-keeps :
        (gaps : List (ReceiptGapInfo Hash)) (s : S)
        → P s
        → P (fill_receipt_gaps tx_hash set_receipt get_block_receipts ended gaps s).0
    unfolding fill_receipt_gaps
    fill_receipt_gaps-keeps [] s p = p
    fill_receipt_gaps-keeps (gap ∷ gaps) s p =
        let one = fill_receipt_gap-keeps gap s p in
        let t = (fill_receipt_gap tx_hash set_receipt get_block_receipts gap s).0 in
        elim (Bool-cases (ended gap)) [
          | inl stop ↦ rw (stop, fill_receipt_gaps) p
          | inr live ↦
              elim (Bool-cases (fill_receipt_gap tx_hash set_receipt get_block_receipts gap s).1) [
                | inr bad ↦
                    subst (λ (r : S × Bool). P r.0)
                      (sym (
                        gaps_fail tx_hash set_receipt get_block_receipts ended gap gaps s live bad))
                      one
                | inl good ↦
                    subst (λ (r : S × Bool). P r.0)
                      (sym
                        (gaps_go tx_hash set_receipt get_block_receipts ended gap gaps s live good))
                      (fill_receipt_gaps-keeps gaps t one)
              ]
        ]

  module _ (fuel start end : ℕ) (s u : S) where
    blocks_found :
        (gaps : List GapRange) (ok : Bool)
        → detect_gaps done (λ x. some (f.stored s x)) fuel start end ≡ some (found gaps)
        → fill_gaps f done 12 s gaps ≡ some (u, ok)
        → recover_blocks fuel start end s ≡ some u
    unfolding recover_blocks
    blocks_found gaps ok scan filled = rw (scan, filled, recover_blocks) refl

    receipts_found :
        (gaps : List (ReceiptGapInfo Hash))
        → detect_receipt_gaps done
            (λ x. some (f.stored u x))
            (get_missing_receipts u)
            fuel
            start
            end
          ≡ some (found gaps)
        → recover_receipts fuel start end u
          ≡ some (fill_receipt_gaps tx_hash set_receipt get_block_receipts ended gaps u).0
    unfolding recover_receipts
    receipts_found gaps scan = rw (scan, recover_receipts) refl

    both_found :
        (t : S)
        → f.latest s ≡ some end
        → start < end
        → recover_blocks fuel start end s ≡ some u
        → recover_receipts fuel start end u ≡ some t
        → recover_gaps fuel start s ≡ some t
    unfolding recover_gaps
    both_found t latest inside blocks receipts =
        let yes_inside : ltb start end ≡ true = ground (arith, inside) in
        rw (latest, yes_inside, blocks, receipts) refl

  -- No gap found, so every height is stored.
  no_gap :
      (fuel start end : ℕ) (t : S)
      → end + 1 < uint64_limit
      → start ≤ end
      → end + 1 < fuel + start
      → ((x : ℕ) → start ≤ x → x ≤ end → done x ≡ false)
      → detect_gaps done (λ x. some (f.stored t x)) fuel start end ≡ some (found [])
      → (x : ℕ) → start ≤ x
      → x ≤ end
      → f.stored t x ≡ true
  unfolding in_gaps
  no_gap fuel start end t l o e d clean x a b =
      let scan =
        detect_gaps_lem done (λ x. some (f.stored t x)) (f.stored t) fuel start end l o e d
          (λ x a b. refl) in
      let both : some (found scan.0) ≡ some (found []) = sym scan.1 ∙ clean in
      let none_there : scan.0 ≡ [] = ground (arith, both) in
      ground (arith, scan.2 x, ap (in_gaps x) none_there, a, b)

  -- RunWithGapRecovery with a latest height above the start and below 2 ^ 64 - 1, no cancellation
  -- in the range, fuel above the number of heights, and a SetReceipt that keeps stored blocks: the
  -- block scan answers gaps, FillGaps ends on them with fuel 12, and the recovery before Run ends
  -- in a store t. Every block stored before is stored in t, and when FillGaps reports no error
  -- every height from the start to the latest is stored in t, whatever the receipts' recovery
  -- meets. What fetching blocks does is assumed by the laws of Fetcher.
  pub recover_gaps_lem :
      (s : S) (fuel start end : ℕ)
      → ((s : S) (r : Receipt) (y : ℕ)
          → f.stored s y ≡ true
          → f.stored (set_receipt s r).0 y ≡ true)
      → f.latest s ≡ some end
      → start < end
      → end + 1 < uint64_limit
      → end + 1 < fuel + start
      → ((x : ℕ) → start ≤ x → x ≤ end → done x ≡ false)
      → (gaps : List GapRange) × (r : S × Bool) × (t : S) × (detect_gaps done
            (λ x. some (f.stored s x))
            fuel
            start
            end
          ≡ some (found gaps))
        × (fill_gaps f done 12 s gaps ≡ some r)
        × (recover_gaps fuel start s ≡ some t)
        × ((y : ℕ) → f.stored s y ≡ true → f.stored t y ≡ true)
        × (r.1 ≡ true → (x : ℕ) → start ≤ x → x ≤ end → f.stored t x ≡ true)
  recover_gaps_lem s fuel start end keep latest inside l e d =
      let (gaps, (u, ok), scan, filled, kept, clean) =
        fill_gaps-detect_gaps f done s fuel start end l (omega (arith, inside)) e d in
      let missing =
        each_gap done (λ x. some (f.stored u x)) (get_missing_receipts u) (f.stored u)
          (end + 1 - start) start in
      let receipts =
        detect_receipt_gaps-each_gap done (λ x. some (f.stored u x)) (get_missing_receipts u)
          (f.stored u) fuel start end l (omega (arith, inside)) e d (λ x a b. refl) in
      let t = (fill_receipt_gaps tx_hash set_receipt get_block_receipts ended missing u).0 in
      let still : (y : ℕ) → f.stored u y ≡ true → f.stored t y ≡ true =
        λ y p. fill_receipt_gaps-keeps (λ s. f.stored s y ≡ true) (λ s r. keep s r y) missing u p in
      (
        gaps,
        (u, ok),
        t,
        scan,
        filled,
        both_found fuel start end s u t latest inside
            (blocks_found fuel start end s u gaps ok scan filled)
            (receipts_found fuel start end s u missing receipts),
        λ y p. still y (kept y p),
        λ good x a b.
            still x (no_gap fuel start end u l (omega (arith, inside)) e d (clean good) x a b),
      )
