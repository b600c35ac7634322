-- ===== src/Fetch/Runs.antt =====
-- The maximal runs of missing heights, as a reference for the scan.
use indexer_go.Base.{
  ℕ, zero, suc, ◌+◌, ◌-◌, ◌≤◌, ◌<◌, ◌≡◌, refl, ap, Bool, true, false, not, ◌&&◌, ◌||◌, List, [],
  ◌∷◌, arith, ltb, leb, Bool-cases, inl, inr,
}
use indexer_go.Fetch.{GapRange}

-- The runs in the `count` heights from `height` on, with a run from `first` still open or not.
unfoldable pub runs : (ℕ → Bool) → ℕ → ℕ → Bool → ℕ → List GapRange
runs blocks zero height true first = record { start = first; end = height - 1 } ∷ []
runs blocks zero height false first = []
runs blocks (suc count) height true first = elim (blocks height) [
  | true ↦ record { start = first; end = height - 1 } ∷ runs blocks count (height + 1) false first
  | false ↦ runs blocks count (height + 1) true first
]
runs blocks (suc count) height false first = elim (blocks height) [
  | true ↦ runs blocks count (height + 1) false first
  | false ↦ runs blocks count (height + 1) true height
]

module _ (blocks : ℕ → Bool) (count height first : ℕ) where
  pub runs_close :
      blocks height ≡ true
      → runs blocks (suc count) height true first
        ≡ record { start = first; end = height - 1 } ∷ runs blocks count (height + 1) false first
  unfolding runs
  runs_close e = rw (e, runs) refl

  pub runs_extend :
      blocks height ≡ false
      → runs blocks (suc count) height true first ≡ runs blocks count (height + 1) true first
  unfolding runs
  runs_extend e = rw (e, runs) refl

  pub runs_pass :
      blocks height ≡ true
      → runs blocks (suc count) height false first ≡ runs blocks count (height + 1) false first
  unfolding runs
  runs_pass e = rw (e, runs) refl

  pub runs_begin :
      blocks height ≡ false
      → runs blocks (suc count) height false first ≡ runs blocks count (height + 1) true height
  unfolding runs
  runs_begin e = rw (e, runs) refl

-- Whether a height is in one of the gaps.
unfoldable pub in_gaps : ℕ → List GapRange → Bool
in_gaps x [] = false
in_gaps x (g ∷ gs) = leb g.start x && leb x g.end || in_gaps x gs

-- The gaps start at `lo` or later, are not empty, and are in order, with a height between each
-- and the next one.
unfoldable pub Apart : ℕ → List GapRange → Type 0
Apart lo [] = Unit
Apart lo (g ∷ gs) = (lo ≤ g.start) × (g.start ≤ g.end) × Apart (g.end + 2) gs

Apart-mono : (lo hi : ℕ) (gs : List GapRange) → lo ≤ hi → Apart hi gs → Apart lo gs
unfolding Apart
Apart-mono lo hi [] h a = tt
Apart-mono lo hi (g ∷ gs) h a = ground (arith, a)

pub in_gaps-runs :
    (blocks : ℕ → Bool) (count height : ℕ) (in_gap : Bool) (first x : ℕ)
    → (in_gap ≡ true → first < height)
    → in_gaps x (runs blocks count height in_gap first) ≡ (
        in_gap && leb first x && ltb x height
        || leb height x && ltb x (height + count) && not (blocks x))
unfolding in_gaps runs
in_gaps-runs blocks zero height true first x h = ground (arith, h refl)
in_gaps-runs blocks zero height false first x h = ground arith
in_gaps-runs blocks (suc count) height true first x h =
    let there : x ≡ height → blocks x ≡ blocks height = ap blocks in
    elim (Bool-cases (blocks height)) [
      | inl stored ↦
          let ih =
            in_gaps-runs blocks count (height + 1) false first x (λ e. absurd (ground arith)) in
          rw (runs_close blocks count height first stored)
            (ground (arith, there, stored, h refl, ih))
      | inr missing ↦
          let ih =
            in_gaps-runs blocks count (height + 1) true first x (λ e. omega (arith, h refl)) in
          rw (runs_extend blocks count height first missing)
            (ground (arith, there, missing, h refl, ih))
    ]
in_gaps-runs blocks (suc count) height false first x h =
    let there : x ≡ height → blocks x ≡ blocks height = ap blocks in
    elim (Bool-cases (blocks height)) [
      | inl stored ↦
          let ih =
            in_gaps-runs blocks count (height + 1) false first x (λ e. absurd (ground arith)) in
          rw (runs_pass blocks count height first stored) (ground (arith, there, stored, ih))
      | inr missing ↦
          let ih = in_gaps-runs blocks count (height + 1) true height x (λ e. omega arith) in
          rw (runs_begin blocks count height first missing) (ground (arith, there, missing, ih))
    ]

pub runs-Apart :
    (blocks : ℕ → Bool) (count height first : ℕ)
    → Apart height (runs blocks count height false first)
      × (first < height → Apart first (runs blocks count height true first))
unfolding Apart runs
runs-Apart blocks zero height first = (tt, λ h. ground arith)
runs-Apart blocks (suc count) height first = elim (Bool-cases (blocks height)) [
  | inl stored ↦
      let later = (runs-Apart blocks count (height + 1) first).0 in
      (
        rw (runs_pass blocks count height first stored) (
            Apart-mono height (height + 1) (runs blocks count (height + 1) false first)
              (omega arith) later),
        λ h.
            let e : height - 1 + 2 ≡ height + 1 = omega (arith, h) in
            rw (runs_close blocks count height first stored)
              (omega arith, omega (arith, h), rw e later),
      )
  | inr missing ↦ (
    rw (runs_begin blocks count height first missing)
        ((runs-Apart blocks count (height + 1) height).1 (omega arith)),
    λ h.
        rw (runs_extend blocks count height first missing)
          ((runs-Apart blocks count (height + 1) first).1 (omega (arith, h))),
  )
]
