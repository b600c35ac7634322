-- ===== src/Fetch/Fill/Recovery.antt =====
-- Filling the gaps that were found leaves no gap.
use indexer_go.Base.{
  ℕ, zero, suc, ◌+◌, ◌≤◌, ◌<◌, ◌≡◌, refl, ap, Bool, true, false, List, [], ◌∷◌, some, arith, ltb,
  leb, Bool-cases, inl, inr, ◌⊎◌, ◌==◌, ◌∙◌,
}
use indexer_go.Text.{uint64_limit}
use indexer_go.Fetch.{GapRange, size, next, found, detect_gaps}
use indexer_go.Fetch.Runs.{in_gaps, Apart}
use indexer_go.Fetch.Gaps.{detect_gaps_lem}
use indexer_go.Fetch.Fill.{Fetcher, range_loop, fetch_range, fill_gap, fill_gaps}

module _ {S : Type 0} (f : Fetcher S) (done : ℕ → Bool) where
  -- A step of the loop: it ends, stops without success, or goes on with the next height.
  pub range_loop-cases :
      (fuel : ℕ) (s : S) (height last : ℕ)
      → ((leb height last ≡ false) × (range_loop f done (suc fuel) s height last ≡ some (s, true)))
        ⊎ (((t : S) × (range_loop f done (suc fuel) s height last ≡ some (t, false))
              × (t ≡ s ⊎ t ≡ (f.fetch_block s height).0))
            ⊎ ((leb height last ≡ true)
                × ((f.fetch_block s height).1 ≡ true)
                × (range_loop f done (suc fuel) s height last
                    ≡ range_loop f done fuel (f.fetch_block s height).0 (next height) last)))
  unfolding range_loop
  range_loop-cases fuel s height last = elim (Bool-cases (leb height last)) [
    | inl inside ↦ elim (Bool-cases (done height)) [
      | inl stop ↦ inr (inl (s, rw (inside, stop, range_loop) refl, inl refl))
      | inr live ↦ elim (Bool-cases (f.fetch_block s height).1) [
        | inl ok ↦ inr (inr (inside, ok, rw (inside, live, ok, range_loop) refl))
        | inr bad ↦
            inr
              (inl ((f.fetch_block s height).0, rw (inside, live, bad, range_loop) refl, inr refl))
      ]
    ]
    | inr past ↦ inl (past, rw (past, range_loop) refl)
  ]

  -- No block is lost, and after a success the heights from `first` to `last` are stored.
  abbrev Fetched : S → S × Bool → ℕ → ℕ → Type 0
  Fetched s r first last =
      ((y : ℕ) → f.stored s y ≡ true → f.stored r.0 y ≡ true)
      × (r.1 ≡ true → (x : ℕ) → first ≤ x → x ≤ last → f.stored r.0 x ≡ true)

  range_loop_lem :
      (fuel : ℕ) (s : S) (height last : ℕ)
      → last + 1 < uint64_limit
      → 0 < fuel
      → last + 1 < fuel + height
      → (r : S × Bool) × (range_loop f done fuel s height last ≡ some r) × Fetched s r height last
  range_loop_lem zero s height last l p e = absurd (omega arith)
  range_loop_lem (suc fuel) s height last l p e = elim (range_loop-cases fuel s height last) [
    | inl (past, stop) ↦ ((s, true), stop, (λ y h. h, λ ok x a b. absurd (ground arith)))
    | inr (inl (t, stop, inl same)) ↦
        ((t, false), stop, (λ y h. rw same h, λ ok x a b. absurd (ground arith)))
    | inr (inl (t, stop, inr after)) ↦ (
      (t, false),
      stop,
      (λ y h. rw after (f.fetch_block-keeps s height y h), λ ok x a b. absurd (ground arith)),
    )
    | inr (inr (inside, ok, step)) ↦
        let there : height ≤ last = ground arith in
        let up : next height ≡ height + 1 = omega arith in
        let ih =
          range_loop_lem fuel (f.fetch_block s height).0 (height + 1) last l (omega arith)
            (omega arith) in
        let r = ih.0 in
        let onward = rw up at step in
        let keeps = ih.2.0 in
        (
          r,
          onward ∙ ih.1,
          (
            λ y h. keeps y (f.fetch_block-keeps s height y h),
            λ done_well x a b. elim (Bool-cases (x == height)) [
              | inl here ↦
                  let at_height : x ≡ height = ground arith in
                  rw at_height (keeps height (f.fetch_block-stores s height ok))
              | inr later ↦ ih.2.1 done_well x (ground arith) b
            ],
          ),
        )
  ]

  -- A gap of at most ten blocks is fetched in order, a larger one concurrently, so that fuel 12 is
  -- enough.
  fill_gap_lem :
      (s : S) (gap : GapRange)
      → gap.end + 1 < uint64_limit
      → gap.start ≤ gap.end
      → (r : S × Bool) × (fill_gap f done 12 s gap ≡ some r) × Fetched s r gap.start gap.end
  unfolding fill_gap size fetch_range
  fill_gap_lem s gap l o = elim (Bool-cases (ltb 10 (size gap))) [
    | inl large ↦
        let r = f.fetch_range_concurrent s gap.start gap.end in
        (
          r,
          rw (large, fill_gap) refl,
          (
            λ y. f.fetch_range_concurrent-keeps s gap.start gap.end y,
            λ ok x. f.fetch_range_concurrent-stores s gap.start gap.end x ok,
          ),
        )
    | inr few ↦
        let ih = range_loop_lem 12 s gap.start gap.end l (omega arith) (ground arith) in
        (ih.0, rw (few, fill_gap) ih.1, ih.2)
  ]

  module _ (s t : S) (gap : GapRange) (gaps : List GapRange) where
    fill_gaps_stop :
        fill_gap f done 12 s gap ≡ some (t, false)
        → fill_gaps f done 12 s (gap ∷ gaps) ≡ some (t, false)
    unfolding fill_gaps
    fill_gaps_stop e = rw (e, fill_gaps) refl

    fill_gaps_go :
        fill_gap f done 12 s gap ≡ some (t, true)
        → fill_gaps f done 12 s (gap ∷ gaps) ≡ fill_gaps f done 12 t gaps
    unfolding fill_gaps
    fill_gaps_go e = rw (e, fill_gaps) refl

  fill_gaps_lem :
      (gaps : List GapRange) (s : S) (lo : ℕ)
      → Apart lo gaps
      → ((x : ℕ) → in_gaps x gaps ≡ true → x + 1 < uint64_limit)
      → (r : S × Bool) × (fill_gaps f done 12 s gaps ≡ some r)
        × ((y : ℕ) → f.stored s y ≡ true → f.stored r.0 y ≡ true)
        × (r.1 ≡ true → (x : ℕ) → in_gaps x gaps ≡ true → f.stored r.0 x ≡ true)
  unfolding fill_gaps Apart in_gaps
  fill_gaps_lem [] s lo a h = ((s, true), refl, (λ y k. k), λ ok x i. absurd (ground arith))
  fill_gaps_lem (gap ∷ gaps) s lo a h =
      let fits : gap.end + 1 < uint64_limit = h gap.end (ground (arith, a.1)) in
      let one = fill_gap_lem s gap fits a.1 in
      let t = one.0.0 in
      elim (Bool-cases one.0.1) [
        | inr bad ↦ (
          (t, false),
          fill_gaps_stop s t gap gaps (one.1 ∙ ap (λ b. some (t, b)) bad),
          one.2.0,
          λ ok x i. absurd (ground arith),
        )
        | inl good ↦
            let rest = fill_gaps_lem gaps t (gap.end + 2) a.2 (λ x i. h x (ground (arith, i))) in
            (
              rest.0,
              fill_gaps_go s t gap gaps (one.1 ∙ ap (λ b. some (t, b)) good) ∙ rest.1,
              λ y k. rest.2 y (one.2.0 y k),
              λ ok x i. elim (Bool-cases (in_gaps x gaps)) [
                | inl later ↦ rest.3 ok x later
                | inr here ↦
                    rest.2 x (one.2.1 good x (ground (arith, i, here)) (ground (arith, i, here)))
              ],
            )
      ]

no_gaps :
    (lo : ℕ) (gaps : List GapRange) → Apart lo gaps → ((x : ℕ) → in_gaps x gaps ≡ false) → gaps ≡ []
unfolding Apart in_gaps
no_gaps lo [] a h = refl
no_gaps lo (gap ∷ gaps) a h = absurd (ground (arith, h gap.start, a.1))

-- For a range that ends below 2 ^ 64 - 1, a context that is not cancelled while the range is
-- scanned nor during a concurrent fetch, a store that answers, and fuel above the number of
-- heights, the gaps that DetectGaps finds can be passed to FillGaps, whose loops end with fuel 12;
-- no block is lost, and where FillGaps succeeds a second DetectGaps over the range finds no gap.
-- What fetching one block and fetching a range concurrently do is assumed by the laws of Fetcher.
pub fill_gaps-detect_gaps :
    {S : Type 0} (f : Fetcher S) (done : ℕ → Bool) (s : S) (fuel start end : ℕ)
    → end + 1 < uint64_limit
    → start ≤ end
    → end + 1 < fuel + start
    → ((x : ℕ) → start ≤ x → x ≤ end → done x ≡ false)
    → (gaps : List GapRange) × (r : S × Bool) × (detect_gaps done
          (λ x. some (f.stored s x))
          fuel
          start
          end
        ≡ some (found gaps))
      × (fill_gaps f done 12 s gaps ≡ some r)
      × ((y : ℕ) → f.stored s y ≡ true → f.stored r.0 y ≡ true)
      × (r.1 ≡ true
          → detect_gaps done (λ x. some (f.stored r.0 x)) fuel start end ≡ some (found []))
fill_gaps-detect_gaps f done s fuel start end l o e d =
    let first =
      detect_gaps_lem done (λ x. some (f.stored s x)) (f.stored s) fuel start end l o e d
        (λ x a b. refl) in
    let gaps = first.0 in
    let room : (x : ℕ) → in_gaps x gaps ≡ true → x + 1 < uint64_limit =
      λ x i. ground (arith, i, first.2 x) in
    let filled = fill_gaps_lem f done gaps s start first.3 room in
    let t = filled.0.0 in
    let second =
      detect_gaps_lem done (λ x. some (f.stored t x)) (f.stored t) fuel start end l o e d
        (λ x a b. refl) in
    (
      gaps,
      filled.0,
      first.1,
      filled.1,
      filled.2,
      λ ok.
          let covered : (x : ℕ) → in_gaps x second.0 ≡ false =
            λ x. ground (arith, first.2 x, second.2 x, filled.3 ok x, filled.2 x) in
          second.1 ∙ ap (λ g. some (found g)) (no_gaps start second.0 second.3 covered),
    )
