-- ===== src/Fetch/Concurrent/Flush.antt =====
-- The inner loop of FetchRangeConcurrent stores the results that are there, in order.
use indexer_go.Base.{
  ℕ, zero, suc, ◌+◌, ◌≤◌, ◌<◌, ◌≡◌, refl, ap, ◌∙◌, sym, subst, Bool, true, false, List, none, some,
  arith, ltb, Bool-cases, Option-cases, inl, inr, map, ◌==◌ as nat_beq,
}
use indexer_go.Base.Dict.{nat_eq, lookup, insert, delete, lookup-insert, lookup-delete}
use indexer_go.Text.{uint64_limit}
use indexer_go.Fetch.{next}
use indexer_go.Fetch.Block.{Effects, store_result, ◌>->◌}
use indexer_go.Fetch.Concurrent.{JobResult, fetched, Flushed, stopped, waiting, Waiting, flush}

module _ {S Block Receipt : Type 0} (e : Effects S Block Receipt)
    (answers : ℕ → Block × List Receipt) where
  -- The reference: one height after the other, until one fails.
  unfoldable pub store_in_order : ℕ → ℕ → S → S × Bool
  store_in_order zero height s = (s, true)
  store_in_order (suc count) height s =
      store_result e height (answers height).0 (answers height).1 s >-> λ t.
      store_in_order count (height + 1) t

  -- The results of the workers for these heights, in the order in which they end.
  abbrev pub arriving : List ℕ → List (JobResult Block Receipt)
  arriving = map (λ h. fetched h (answers h).0 (answers h).1)

  -- The results that wait are the node's, for heights up to the end.
  abbrev pub Answered : ℕ → Waiting e → Type 0
  Answered end m =
      (h : ℕ) (p : Block × List Receipt) → lookup h m ≡ some p → (p ≡ answers h) × (h ≤ end)

  module _ (end : ℕ) (room : end + 1 < uint64_limit) where
    pub insert-Answered :
        (k : ℕ) (m : Waiting e) → k ≤ end → Answered end m → Answered end (insert k (answers k) m)
    insert-Answered k m b a h p q = elim (Bool-cases (nat_beq k h)) [
      | inl same ↦
          let e1 : k ≡ h = ground (arith, same) in
          let there : answers k ≡ p = ground (arith, lookup-insert k h (answers k) m, same, q) in
          (sym there ∙ ap answers e1, ground (arith, same, b))
      | inr other ↦ a h p (ground (arith, lookup-insert k h (answers k) m, other, q))
    ]

    delete-Answered : (k : ℕ) (m : Waiting e) → Answered end m → Answered end (delete k m)
    delete-Answered k m a h p q = a h p (ground (arith, lookup-delete k h m, q))

    -- What the inner loop did: it stored `j` heights in order, and the last of them failed, or the
    -- rest waits for the height after them.
    abbrev pub Left : ℕ → ℕ → Waiting e → S → Flushed S Block Receipt → Type 0
    Left height count m s (stopped t) =
        (j : ℕ) × (j ≤ count) × ((k : ℕ) → store_in_order (j + k) height s ≡ (t, false))
    Left height count m s (waiting m' height' t) =
        (j : ℕ) × (j ≤ count)
        × (height' ≡ height + j)
        × ((k : ℕ) → store_in_order (j + k) height s ≡ store_in_order k height' t)
        × Answered end m'
        × (lookup height' m' ≡ none)
        × ((h : ℕ) → height' ≤ h → lookup h m' ≡ lookup h m)

    module _ (fuel height : ℕ) (m : Waiting e) (s : S) where
      flush_waits :
          lookup height m ≡ none → flush e (suc fuel) end m height s ≡ some (waiting m height s)
      unfolding flush
      flush_waits n = rw (n, flush) refl

      module _ (there : lookup height m ≡ some (answers height)) where
        abbrev stored : S × Bool
        stored = store_result e height (answers height).0 (answers height).1 s

        flush_fails : stored.1 ≡ false → flush e (suc fuel) end m height s ≡ some (stopped stored.0)
        unfolding flush
        flush_fails bad = rw (there, bad, flush) refl

        flush_last :
            stored.1 ≡ true
            → ltb end (next height) ≡ true
            → flush e (suc fuel) end m height s
              ≡ some (waiting (delete height m) (next height) stored.0)
        unfolding flush
        flush_last ok past = rw (there, ok, past, flush) refl

        flush_more :
            stored.1 ≡ true
            → ltb end (next height) ≡ false
            → flush e (suc fuel) end m height s
              ≡ flush e fuel end (delete height m) (next height) stored.0
        unfolding flush
        flush_more ok inside = rw (there, ok, inside, flush) refl

    module _ (count height : ℕ) (s : S) where
      abbrev here : S × Bool
      here = store_result e height (answers height).0 (answers height).1 s

      in_order_fails : here.1 ≡ false → store_in_order (suc count) height s ≡ (here.0, false)
      unfolding store_in_order
      in_order_fails bad = rw (bad, store_in_order) refl

      in_order_goes :
          here.1 ≡ true
          → store_in_order (suc count) height s ≡ store_in_order count (height + 1) here.0
      unfolding store_in_order
      in_order_goes ok = rw (ok, store_in_order) refl

    one_more :
        (j k height : ℕ) (s : S)
        → store_in_order (suc j + k) height s ≡ store_in_order (suc (j + k)) height s
    one_more j k height s = ap (λ n. store_in_order n height s) (omega arith)

    extend :
        (count height : ℕ) (m : Waiting e) (s : S) (r : Flushed S Block Receipt)
        → ((k : ℕ)
            → store_in_order (suc k) height s
              ≡ store_in_order k (height + 1) (here count height s).0)
        → ((h : ℕ) → height + 1 ≤ h → lookup h (delete height m) ≡ lookup h m)
        → Left (height + 1) count (delete height m) (here count height s).0 r
        → Left height (suc count) m s r
    extend count height m s (stopped t) goes same (j, l, left) =
        (suc j, omega (arith, l), λ k. one_more j k height s ∙ goes (j + k) ∙ left k)
    extend count height m s (waiting m' height' t) goes same (j, l, at, left, a, none_there, kept) =
        (
          suc j,
          omega (arith, l),
          omega (arith, at),
          λ k. one_more j k height s ∙ goes (j + k) ∙ left k,
          a,
          none_there,
          λ h o. kept h o ∙ same h (omega (arith, o, at)),
        )

    abbrev pub Works : ℕ → Type 0
    Works fuel =
        (count height : ℕ) (m : Waiting e) (s : S)
        → count < fuel
        → height + count ≡ end + 1
        → Answered end m
        → (r : Flushed S Block Receipt) × (flush e fuel end m height s ≡ some r)
          × Left height count m s r

    flush_present :
        (fuel : ℕ)
        → Works fuel
        → (count height : ℕ) (m : Waiting e) (s : S) → count < suc fuel
        → height + count ≡ end + 1
        → Answered end m
        → height ≤ end
        → lookup height m ≡ some (answers height)
        → (r : Flushed S Block Receipt) × (flush e (suc fuel) end m height s ≡ some r)
          × Left height count m s r
    flush_present fuel works zero height m s f c a b q = absurd (omega (arith, c, b))
    flush_present fuel works (suc count) height m s f c a b q =
        let t = (here count height s).0 in
        let up : next height ≡ height + 1 = omega (arith, room, b) in
        let m' = delete height m in
        let a' = delete-Answered height m a in
        let same : (h : ℕ) → height + 1 ≤ h → lookup h m' ≡ lookup h m =
          λ h o. ground (arith, lookup-delete height h m, o) in
        let first : (k : ℕ) → store_in_order (1 + k) height s ≡ store_in_order (suc k) height s =
          λ k. ap (λ n. store_in_order n height s) (omega arith) in
        elim (Bool-cases (here count height s).1) [
          | inr bad ↦ (
            stopped t,
            flush_fails fuel height m s q bad,
            (1, omega arith, λ k. first k ∙ in_order_fails k height s bad),
          )
          | inl ok ↦ elim (Bool-cases (ltb end (next height))) [
            | inl past ↦
                let z : count ≡ 0 = ground (arith, past, up, c) in
                (
                  waiting m' (next height) t,
                  flush_last fuel height m s q ok past,
                  rw up (
                    1,
                    omega arith,
                    refl,
                    λ k. first k ∙ in_order_goes k height s ok,
                    a',
                    elim (Option-cases (lookup (height + 1) m')) [
                      | inl n ↦ n
                      | inr (p, w) ↦ absurd (omega (arith, (a' (height + 1) p w).1, z, c))
                    ],
                    same,
                  ),
                )
            | inr inside ↦
                let (r, run, left) =
                  works count (height + 1) m' t (omega (arith, f)) (omega (arith, c)) a' in
                (
                  r,
                  subst (λ k. flush e (suc fuel) end m height s ≡ flush e fuel end m' k t) up
                        (flush_more fuel height m s q ok inside)
                      ∙ run,
                  extend count height m s r (λ k. in_order_goes k height s ok) same left,
                )
          ]
        ]

    flush_step : (fuel : ℕ) → Works fuel → Works (suc fuel)
    flush_step fuel works count height m s f c a = elim (Option-cases (lookup height m)) [
      | inl n ↦ (
        waiting m height s,
        flush_waits fuel height m s n,
        (
          0,
          omega arith,
          omega arith,
          λ k. ap (λ i. store_in_order i height s) (omega arith),
          a,
          n,
          λ h o. refl,
        ),
      )
      | inr (p, q) ↦
          flush_present fuel works count height m s f c a (a height p q).1
            (q ∙ ap some (a height p q).0)
    ]

    pub flush_lem : (fuel : ℕ) → Works fuel
    flush_lem zero = λ count height m s f c a. absurd (omega (arith, f))
    flush_lem (suc fuel) = flush_step fuel (flush_lem fuel)
