-- ===== src/Fetch/Receipts/Listed.antt =====
-- What DetectReceiptGaps of pkg/fetch/fetcher_gaps.go lists, height by height.
use indexer_go.Base.{
  ℕ, zero, suc, ◌+◌, ◌-◌, ◌≤◌, ◌<◌, ◌≡◌, ◌≢◌, refl, sym, ap, ◌∙◌, Bool, true, false, ◌&&◌, List, [],
  ◌∷◌, ◌++◌, Option, none, some, arith, leb, ltb, ◌==◌, if◌then◌else◌, inl, inr, Bool-cases,
}
use indexer_go.Text.{uint64_limit}
use indexer_go.Fetch.{found}
use indexer_go.Fetch.Receipts.{
  ReceiptGapInfo, receipt_gap, detect_receipt_gaps, each_gap, detect_receipt_gaps-each_gap,
}

-- The hashes that a list of gaps has for the block `x`.
abbrev pub listed : {Hash : Type 0} → ℕ → List (ReceiptGapInfo Hash) → List Hash
listed x [] = []
listed x (g ∷ gs) = if g.block_number == x then g.missing_receipts else listed x gs

abbrev pub or_empty : {Hash : Type 0} → Option (List Hash) → List Hash
or_empty none = []
or_empty (some hs) = hs

-- Entries with at least one hash, for rising blocks from `low` on.
abbrev pub Rising : {Hash : Type 0} → ℕ → List (ReceiptGapInfo Hash) → Type 0
Rising low [] = Unit
Rising low (g ∷ gs) =
    (low ≤ g.block_number) × (g.missing_receipts ≢ []) × Rising (g.block_number + 1) gs

module _ {Hash : Type 0} where
  Rising-le :
      (low high : ℕ) (gs : List (ReceiptGapInfo Hash)) → low ≤ high → Rising high gs → Rising low gs
  Rising-le low high [] l r = tt
  Rising-le low high (g ∷ gs) l r = (omega (arith, l, r.0), r.1, r.2)

module _ {Hash : Type 0} (done : ℕ → Bool) (has_block : ℕ → Option Bool)
    (get_missing_receipts : ℕ → Option (List Hash)) (blocks : ℕ → Bool) where
  abbrev gap_at : ℕ → Option (List Hash) → List (ReceiptGapInfo Hash)
  gap_at = receipt_gap done has_block get_missing_receipts

  -- The entry of one height in front of those of later heights.
  receipt_gap-Rising :
      (height : ℕ) (answer : Option (List Hash)) (rest : List (ReceiptGapInfo Hash))
      → Rising (height + 1) rest
      → Rising height (gap_at height answer ++ rest)
  unfolding receipt_gap
  receipt_gap-Rising height none rest r = Rising-le height (height + 1) rest (omega arith) r
  receipt_gap-Rising height (some []) rest r = Rising-le height (height + 1) rest (omega arith) r
  receipt_gap-Rising height (some (h ∷ hs)) rest r = (omega arith, λ e. ground (arith, e), r)

  receipt_gap-listed :
      (x height : ℕ) (answer : Option (List Hash)) (rest : List (ReceiptGapInfo Hash))
      → listed height rest ≡ []
      → listed x (gap_at height answer ++ rest)
        ≡ (if height == x then or_empty answer else listed x rest)
  unfolding receipt_gap
  receipt_gap-listed x height none rest z = elim (Bool-cases (height == x)) [
    | inl e ↦ let same : height ≡ x = ground (arith, e) in rw (e, sym same) z
    | inr e ↦ rw e refl
  ]
  receipt_gap-listed x height (some []) rest z = elim (Bool-cases (height == x)) [
    | inl e ↦ let same : height ≡ x = ground (arith, e) in rw (e, sym same) z
    | inr e ↦ rw e refl
  ]
  receipt_gap-listed x height (some (h ∷ hs)) rest z = refl

  abbrev each : ℕ → ℕ → List (ReceiptGapInfo Hash)
  each = each_gap done has_block get_missing_receipts blocks

  -- What should be listed for the block `x`.
  abbrev pub missing_of : ℕ → List Hash
  missing_of x = if blocks x then or_empty (get_missing_receipts x) else []

  each_gap-Rising : (count height : ℕ) → Rising height (each count height)
  unfolding each_gap
  each_gap-Rising zero height = tt
  each_gap-Rising (suc count) height =
      let ih = each_gap-Rising count (height + 1) in
      elim (Bool-cases (blocks height)) [
        | inl stored ↦
            rw (stored, each_gap)
              (receipt_gap-Rising height (get_missing_receipts height) (each count (height + 1)) ih)
        | inr absent ↦
            rw (absent, each_gap)
              (Rising-le height (height + 1) (each count (height + 1)) (omega arith) ih)
      ]

  each_gap-listed :
      (count height x : ℕ)
      → listed x (each count height)
        ≡ (if leb height x && ltb x (height + count) then missing_of x else [])
  unfolding each_gap
  each_gap-listed zero height x = ground arith
  each_gap-listed (suc count) height x =
      let ih = each_gap-listed count (height + 1) x in
      let rest = each count (height + 1) in
      let before : listed height rest ≡ [] =
        ground (arith, each_gap-listed count (height + 1) height) in
      let answer = get_missing_receipts height in
      elim (Bool-cases (blocks height)) [
        | inl stored ↦
            let here = receipt_gap-listed x height answer rest before in
            elim (Bool-cases (height == x)) [
              | inl e ↦
                  let same : height ≡ x = ground (arith, e) in
                  let inside : (leb height x && ltb x (height + suc count)) ≡ true = ground arith in
                  let kept : blocks x ≡ true = ap blocks (sym same) ∙ stored in
                  rw (stored, each_gap, here, e, inside, kept, same) refl
              | inr e ↦
                  let apart : height ≢ x = λ q. ground (arith, e, q) in
                  let inside : (leb (height + 1) x && ltb x (height + 1 + count))
                      ≡ (leb height x && ltb x (height + suc count)) =
                    ground (arith, apart) in
                  rw (stored, each_gap, here, e, sym inside) ih
            ]
        | inr absent ↦ elim (Bool-cases (height == x)) [
          | inl e ↦
              let same : height ≡ x = ground (arith, e) in
              let inside : (leb height x && ltb x (height + suc count)) ≡ true = ground arith in
              let kept : blocks x ≡ false = ap blocks (sym same) ∙ absent in
              rw (absent, each_gap, inside, kept, sym same) before
          | inr e ↦
              let apart : height ≢ x = λ q. ground (arith, e, q) in
              let inside : (leb (height + 1) x && ltb x (height + 1 + count))
                  ≡ (leb height x && ltb x (height + suc count)) =
                ground (arith, apart) in
              rw (absent, each_gap, sym inside) ih
        ]
      ]

  -- Where the context is not cancelled and HasBlock answers for every height of the range, which
  -- ends below 2 ^ 64 - 1, with fuel above the number of heights DetectReceiptGaps returns entries
  -- for rising blocks, each with at least one hash. For each stored block of the range the
  -- entries have exactly the hashes that GetMissingReceipts answers for it, none if it fails, and
  -- for every other height they have none.
  pub detect_receipt_gaps_lem :
      (fuel start end : ℕ)
      → end + 1 < uint64_limit
      → start ≤ end
      → end + 1 < fuel + start
      → ((x : ℕ) → start ≤ x → x ≤ end → done x ≡ false)
      → ((x : ℕ) → start ≤ x → x ≤ end → has_block x ≡ some (blocks x))
      → (gaps : List (ReceiptGapInfo Hash)) × (detect_receipt_gaps done has_block
            get_missing_receipts fuel start end
          ≡ some (found gaps))
        × Rising start gaps
        × ((x : ℕ)
            → listed x gaps ≡ (
                if leb start x && leb x end && blocks x
                then or_empty (get_missing_receipts x)
                else []))
  detect_receipt_gaps_lem fuel start end l o f d h =
      let count = end + 1 - start in
      (
        each count start,
        detect_receipt_gaps-each_gap done has_block get_missing_receipts blocks fuel start end l o f
            d h,
        each_gap-Rising count start,
        λ x. ground (arith, each_gap-listed count start x, o),
      )
