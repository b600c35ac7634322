-- ===== src/Fetch/Gaps.antt =====
-- DetectGaps finds the maximal runs of missing heights, and every missing height is in one.
use mathlib.Core.List.{append_assoc, append-nil}
use indexer_go.Base.{
  ℕ, zero, suc, ◌+◌, ◌-◌, ◌≤◌, ◌<◌, ◌≡◌, refl, ap, ◌∙◌, Bool, true, false, not, ◌&&◌, List, [], ◌∷◌,
  ◌++◌, Option, some, arith, leb, Bool-cases, inl, inr, if◌then◌else◌,
}
use indexer_go.Text.{uint64_limit}
use indexer_go.Fetch.{GapRange, Scan, found, last_gap, detect_loop, detect_gaps, next}
use indexer_go.Fetch.Runs.{
  runs, runs_close, runs_extend, runs_pass, runs_begin, in_gaps, in_gaps-runs, Apart, runs-Apart,
}

module _ (done : ℕ → Bool) (has_block : ℕ → Option Bool) (blocks : ℕ → Bool) (end : ℕ) where
  module _ (fuel height first : ℕ) (gaps : List GapRange) (in_gap : Bool) where
    loop_past :
        leb height end ≡ false
        → detect_loop done has_block (suc fuel) end height gaps first in_gap
          ≡ some (found (last_gap done has_block end gaps first in_gap))
    unfolding detect_loop
    loop_past e = rw (e, detect_loop) refl

    loop_stored :
        leb height end ≡ true
        → done height ≡ false
        → has_block height ≡ some true
        → detect_loop done has_block (suc fuel) end height gaps first in_gap
          ≡ detect_loop done has_block fuel end
              (next height)
              (if in_gap then gaps ++ record { start = first; end = height - 1 } ∷ [] else gaps)
              first
              false
    unfolding detect_loop
    loop_stored e d h = rw (e, d, h, detect_loop) refl

    loop_missing :
        leb height end ≡ true
        → done height ≡ false
        → has_block height ≡ some false
        → detect_loop done has_block (suc fuel) end height gaps first in_gap
          ≡ detect_loop done has_block fuel end
              (next height)
              gaps
              (if in_gap then first else height)
              true
    unfolding detect_loop
    loop_missing e d h = rw (e, d, h, detect_loop) refl

  -- The heights after one with a block.
  closing :
      (count height : ℕ) (gaps : List GapRange) (first : ℕ) (in_gap : Bool)
      {scan : List GapRange → Option (Scan GapRange)}
      → blocks height ≡ true
      → ((g : List GapRange)
          → scan g ≡ some (found (g ++ runs blocks count (height + 1) false first)))
      → scan (if in_gap then gaps ++ record { start = first; end = height - 1 } ∷ [] else gaps)
        ≡ some (found (gaps ++ runs blocks (suc count) height in_gap first))
  closing count height gaps first true stored ih =
      let gap : GapRange = record { start = first; end = height - 1 } in
      rw (runs_close blocks count height first stored) (
        ih (gaps ++ gap ∷ [])
        ∙ ap (λ g. some (found g))
            (append_assoc gaps (gap ∷ []) (runs blocks count (height + 1) false first)))
  closing count height gaps first false stored ih =
      rw (runs_pass blocks count height first stored) (ih gaps)

  -- The heights after one without a block.
  opening :
      (count height : ℕ) (gaps : List GapRange) (first : ℕ) (in_gap : Bool)
      {scan : ℕ → Option (Scan GapRange)}
      → blocks height ≡ false
      → ((k : ℕ) → scan k ≡ some (found (gaps ++ runs blocks count (height + 1) true k)))
      → scan (if in_gap then first else height)
        ≡ some (found (gaps ++ runs blocks (suc count) height in_gap first))
  opening count height gaps first true missing ih =
      rw (runs_extend blocks count height first missing) (ih first)
  opening count height gaps first false missing ih =
      rw (runs_begin blocks count height first missing) (ih height)

  loop-runs :
      (count fuel height : ℕ) (gaps : List GapRange) (first : ℕ) (in_gap : Bool)
      → count < fuel
      → height + count ≡ end + 1
      → end + 1 < uint64_limit
      → ((x : ℕ) → height ≤ x → x ≤ end → done x ≡ false)
      → ((x : ℕ) → height ≤ x → x ≤ end → has_block x ≡ some (blocks x))
      → detect_loop done has_block fuel end height gaps first in_gap
        ≡ some (found (gaps ++ runs blocks count height in_gap first))
  unfolding detect_loop last_gap runs
  loop-runs count zero height gaps first in_gap f e l d h = absurd (omega arith)
  loop-runs zero (suc fuel) height gaps first true f e l d h =
      let last : height - 1 ≡ end = omega arith in
      rw (loop_past fuel height first gaps true (ground arith), last) refl
  loop-runs zero (suc fuel) height gaps first false f e l d h =
      rw (loop_past fuel height first gaps false (ground arith), append-nil gaps) refl
  loop-runs (suc count) (suc fuel) height gaps first in_gap f e l d h =
      let inside : leb height end ≡ true = ground arith in
      let step : next height ≡ height + 1 = omega arith in
      let there : height ≤ end = omega arith in
      let known = h height (omega arith) there in
      let ih = λ (g : List GapRange) (b : Bool) (k : ℕ).
        loop-runs count fuel (height + 1) g k b (omega arith) (omega arith) l
          (λ x a c. d x (omega (arith, a)) c) (λ x a c. h x (omega (arith, a)) c) in
      elim (Bool-cases (blocks height)) [
        | inl stored ↦
            let stored_there = known ∙ ap some stored in
            rw
              (
                loop_stored fuel height first gaps in_gap inside (d height (omega arith) there)
                    stored_there,
                step,
              )
              (closing count height gaps first in_gap stored (λ g. ih g false first))
        | inr missing ↦
            let missing_there = known ∙ ap some missing in
            rw
              (
                loop_missing fuel height first gaps in_gap inside (d height (omega arith) there)
                    missing_there,
                step,
              )
              (opening count height gaps first in_gap missing (λ k. ih gaps true k))
      ]

-- Where the context is not cancelled and the store answers for every height of the range, which
-- ends below 2 ^ 64 - 1, with fuel above the number of heights DetectGaps returns gaps such that a
-- height is in one of them exactly when it is in the range and its block is missing; the gaps are
-- in order, none is empty, and between two of them there is a height that is in none.
pub detect_gaps_lem :
    (done : ℕ → Bool) (has_block : ℕ → Option Bool) (blocks : ℕ → Bool) (fuel start end : ℕ)
    → end + 1 < uint64_limit
    → start ≤ end
    → end + 1 < fuel + start
    → ((x : ℕ) → start ≤ x → x ≤ end → done x ≡ false)
    → ((x : ℕ) → start ≤ x → x ≤ end → has_block x ≡ some (blocks x))
    → (gaps : List GapRange) × (detect_gaps done has_block fuel start end ≡ some (found gaps))
      × ((x : ℕ) → in_gaps x gaps ≡ (leb start x && leb x end && not (blocks x)))
      × Apart start gaps
unfolding detect_gaps
detect_gaps_lem done has_block blocks fuel start end l o f d h =
    let count = end + 1 - start in
    let gaps = runs blocks count start false 0 in
    (
      gaps,
      loop-runs done has_block blocks end count fuel start [] 0 false (omega arith) (omega arith) l
          d h,
      λ x.
          let inside = in_gaps-runs blocks count start false 0 x (λ e. absurd (ground arith)) in
          ground (arith, inside),
      (runs-Apart blocks count start 0).0,
    )
