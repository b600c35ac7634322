-- ===== src/Fetch/Concurrent/Order.antt =====
-- Whatever the order in which the workers end, the blocks are stored in the order of the heights.
use indexer_go.Base.{
  ℕ, zero, suc, ◌+◌, ◌-◌, ◌≤◌, ◌<◌, ◌≡◌, refl, ap, ◌∙◌, sym, true, false, ◌||◌, List, [], ◌∷◌, none,
  some, arith, All, ==_iff,
}
use indexer_go.Base.Dict.{nat_eq, has, lookup, insert, is_some, lookup-insert}
use indexer_go.Text.{uint64_limit}
use indexer_go.Fetch.Block.{Effects}
use indexer_go.Fetch.Concurrent.{
  JobResult, fetched, Flushed, stopped, waiting, Waiting, flush, collect, fetch_range_concurrent,
}
use indexer_go.Fetch.Concurrent.Flush.{
  store_in_order, arriving, Answered, Left, insert-Answered, flush_lem,
}

module _ {S Block Receipt : Type 0} (e : Effects S Block Receipt)
    (answers : ℕ → Block × List Receipt) where
  module _ (end : ℕ) (room : end + 1 < uint64_limit) where
    pub collect_error :
        (fuel height h : ℕ) (m : Waiting e) (s t : S) (rest : List (JobResult Block Receipt))
        → flush e fuel end (insert h (answers h) m) height s ≡ some (stopped t)
        → collect e fuel end (fetched h (answers h).0 (answers h).1 ∷ rest) m height s
          ≡ some (t, false)
    unfolding collect
    collect_error fuel height h m s t rest run = rw (run, collect) refl

    pub collect_goes :
        (fuel height h height' : ℕ) (m m' : Waiting e) (s t : S)
        (rest : List (JobResult Block Receipt))
        → flush e fuel end (insert h (answers h) m) height s ≡ some (waiting m' height' t)
        → collect e fuel end (fetched h (answers h).0 (answers h).1 ∷ rest) m height s
          ≡ collect e fuel end rest m' height' t
    unfolding collect
    collect_goes fuel height h height' m m' s t rest run = rw (run, collect) refl

    -- Every remaining height waits or is still to come.
    abbrev Coming : ℕ → Waiting e → List ℕ → Type 0
    Coming height m hs = (x : ℕ) → height ≤ x → x ≤ end → (is_some (lookup x m) || has x hs) ≡ true

    abbrev Collects : List ℕ → Type 0
    Collects hs =
        (fuel count height : ℕ) (m : Waiting e) (s : S)
        → count < fuel
        → height + count ≡ end + 1
        → All (λ h. h ≤ end) hs
        → Answered e answers end m
        → lookup height m ≡ none
        → Coming height m hs
        → collect e fuel end (arriving e answers hs) m height s
          ≡ some (store_in_order e answers count height s)

    collect_none : Collects []
    unfolding store_in_order collect has
    collect_none fuel zero height m s f c within a n w = refl
    collect_none fuel (suc count) height m s f c within a n w =
        absurd (ground (arith, w height (omega arith) (omega (arith, c)), n))

    collect_step : (h : ℕ) (hs : List ℕ) → Collects hs → Collects (h ∷ hs)
    unfolding has
    collect_step h hs ih fuel count height m s f c within a n w = go (
        flush_lem e answers end room fuel count height m1 s f c
          (insert-Answered e answers end room h m within.0 a))
      where
        m1 : Waiting e
        m1 = insert h (answers h) m

        go :
            ((r : Flushed S Block Receipt) × (flush e fuel end m1 height s ≡ some r)
              × Left e answers end room height count m1 s r)
            → collect e fuel end (arriving e answers (h ∷ hs)) m height s
              ≡ some (store_in_order e answers count height s)
        go (stopped t, run, (j, l, left)) =
            collect_error fuel height h m s t (arriving e answers hs) run
            ∙ ap some (
                sym (left (count - j))
                ∙ ap (λ i. store_in_order e answers i height s) (omega (arith, l)))
        go (waiting m' height' t, run, (j, l, at, same, a', n', kept)) =
            let coming : Coming height' m' hs = λ x o b. ground (
              arith,
              w x (omega (arith, o, at)) b,
              kept x o,
              lookup-insert h x (answers h) m,
              ==_iff h x,
            ) in
            collect_goes fuel height h height' m m' s t (arriving e answers hs) run
            ∙ ih fuel (count - j) height' m' t (omega (arith, f)) (omega (arith, c, l, at)) within.1
                a' n' coming
            ∙ ap some (
                sym (same (count - j))
                ∙ ap (λ i. store_in_order e answers i height s) (omega (arith, l)))

    collect_lem : (hs : List ℕ) → Collects hs
    collect_lem [] = collect_none
    collect_lem (h ∷ hs) = collect_step h hs (collect_lem hs)

-- For a range that ends below 2 ^ 64 - 1, with fuel above the number of its heights: when the
-- workers' results are the node's answers to the heights of the range, in any order and each at
-- least once, FetchRangeConcurrent leaves the state, and the success or failure, of storing one
-- height after the other from the first to the last, up to the first that fails.
pub fetch_range_concurrent-order :
    {S Block Receipt : Type 0} (e : Effects S Block Receipt) (answers : ℕ → Block × List Receipt)
    (fuel start end : ℕ) (hs : List ℕ) (s : S)
    → end + 1 < uint64_limit
    → start ≤ end
    → end + 1 < fuel + start
    → All (λ h. h ≤ end) hs
    → ((x : ℕ) → start ≤ x → x ≤ end → has x hs ≡ true)
    → fetch_range_concurrent e fuel false start end (arriving e answers hs) s
      ≡ some (store_in_order e answers (end + 1 - start) start s)
unfolding fetch_range_concurrent lookup
fetch_range_concurrent-order e answers fuel start end hs s room o f within all =
    collect_lem e answers end room hs fuel (end + 1 - start) start [] s (omega (arith, o, f))
      (omega (arith, o)) within (λ h p q. absurd (ground arith)) refl (λ x a b. all x a b)
