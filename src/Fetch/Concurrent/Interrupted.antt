-- ===== src/Fetch/Concurrent/Interrupted.antt =====
-- What FetchRangeConcurrent stores when jobs fail or the results end early.
use indexer_go.Base.{
  ℕ, ◌+◌, ◌-◌, ◌≤◌, ◌<◌, ◌≡◌, refl, ap, ◌∙◌, Bool, true, false, List, [], ◌∷◌, some, arith, map,
  All,
}
use indexer_go.Base.Dict.{nat_eq, lookup, insert}
use indexer_go.Text.{uint64_limit}
use indexer_go.Fetch.Block.{Effects}
use indexer_go.Fetch.Concurrent.{
  JobResult, fetched, not_fetched, Flushed, stopped, waiting, Waiting, flush, collect,
  fetch_range_concurrent,
}
use indexer_go.Fetch.Concurrent.Flush.{store_in_order, Answered, Left, insert-Answered, flush_lem}
use indexer_go.Fetch.Concurrent.Order.{collect_error, collect_goes}

module _ {S Block Receipt : Type 0} (e : Effects S Block Receipt)
    (answers : ℕ → Block × List Receipt) where
  -- A job that ended, with or without the node's answer.
  abbrev pub outcome : ℕ × Bool → JobResult Block Receipt
  outcome (h, true) = fetched h (answers h).0 (answers h).1
  outcome (h, false) = not_fetched h

  -- What was stored is what storing some of the heights in order from the first one stores; where
  -- there was no error, all of these succeeded.
  abbrev pub StoredPrefix : ℕ → ℕ → S → S × Bool → Type 0
  StoredPrefix count height s r =
      (j : ℕ) × (j ≤ count)
      × ((store_in_order e answers j height s).0 ≡ r.0)
      × (r.1 ≡ true → (store_in_order e answers j height s).1 ≡ true)

  module _ (end : ℕ) (room : end + 1 < uint64_limit) where
    abbrev Ends : List (ℕ × Bool) → Type 0
    Ends hs =
        (fuel count height : ℕ) (m : Waiting e) (s : S)
        → count < fuel
        → height + count ≡ end + 1
        → All (λ p. p.0 ≤ end) hs
        → Answered e answers end m
        → (r : S × Bool) × (collect e fuel end (map outcome hs) m height s ≡ some r)
          × StoredPrefix count height s r

    job_step : (h : ℕ) (hs : List (ℕ × Bool)) → Ends hs → Ends ((h, true) ∷ hs)
    job_step h hs ih fuel count height m s f c within a = go (
        flush_lem e answers end room fuel count height m1 s f c
          (insert-Answered e answers end room h m within.0 a))
      where
        m1 : Waiting e
        m1 = insert h (answers h) m

        go :
            ((r : Flushed S Block Receipt) × (flush e fuel end m1 height s ≡ some r)
              × Left e answers end room height count m1 s r)
            → (r : S × Bool) × (collect e fuel end (map outcome ((h, true) ∷ hs)) m height s
                ≡ some r)
              × StoredPrefix count height s r
        go (stopped t, run, (j, l, left)) =
            let all : store_in_order e answers j height s ≡ (t, false) =
              ap (λ i. store_in_order e answers i height s) (omega arith) ∙ left 0 in
            (
              (t, false),
              collect_error e answers end room fuel height h m s t (map outcome hs) run,
              (j, l, ap (λ (p : S × Bool). p.0) all, λ ok. absurd (ground (arith, ok))),
            )
        go (waiting m' height' t, run, (j, l, at, same, a', n', kept)) =
            let (r, rest, (i, b, stored, ok)) =
              ih fuel (count - j) height' m' t (omega (arith, f)) (omega (arith, c, l, at)) within.1
                a' in
            (
              r,
              collect_goes e answers end room fuel height h height' m m' s t (map outcome hs) run
                  ∙ rest,
              (
                j + i,
                omega (arith, b, l),
                ap (λ (p : S × Bool). p.0) (same i) ∙ stored,
                λ fine. ap (λ (p : S × Bool). p.1) (same i) ∙ ok fine,
              ),
            )

    jobs_lem : (hs : List (ℕ × Bool)) → Ends hs
    unfolding collect store_in_order
    jobs_lem [] =
        λ fuel count height m s f c within a. ((s, true), refl, (0, omega arith, refl, λ ok. refl))
    jobs_lem ((h, false) ∷ hs) = λ fuel count height m s f c within a.
        ((s, false), refl, (0, omega arith, refl, λ ok. absurd (ground (arith, ok))))
    jobs_lem ((h, true) ∷ hs) = job_step h hs (jobs_lem hs)

-- For a range that ends below 2 ^ 64 - 1, with fuel above the number of its heights: whether the
-- context has ended at the start or not, whatever results come in whatever order, as long as those
-- of successful jobs are the node's answers for heights up to the end, and wherever the results
-- stop, FetchRangeConcurrent returns, and has stored what storing the first heights of the range
-- in order stores, for some number of them, so that none is stored before the ones below it; and
-- where it returns no error all of these succeeded.
pub fetch_range_concurrent-prefix :
    {S Block Receipt : Type 0} (e : Effects S Block Receipt) (answers : ℕ → Block × List Receipt)
    (fuel : ℕ) (done : Bool) (start end : ℕ) (hs : List (ℕ × Bool)) (s : S)
    → end + 1 < uint64_limit
    → start ≤ end
    → end + 1 < fuel + start
    → All (λ p. p.0 ≤ end) hs
    → (r : S × Bool) × (fetch_range_concurrent e fuel done start end (map (outcome e answers) hs) s
        ≡ some r)
      × StoredPrefix e answers (end + 1 - start) start s r
unfolding fetch_range_concurrent lookup store_in_order
fetch_range_concurrent-prefix e answers fuel true start end hs s room o f within =
    ((s, false), refl, (0, omega arith, refl, λ ok. absurd (ground (arith, ok))))
fetch_range_concurrent-prefix e answers fuel false start end hs s room o f within =
    jobs_lem e answers end room hs fuel (end + 1 - start) start [] s (omega (arith, o, f))
      (omega (arith, o)) within (λ h p q. absurd (ground arith))
