-- ===== src/JsonRpc/Pending/Polls.antt =====
-- What a client sees of the pool, and in which bounds the pool stays.
use indexer_go.Base.{
  ℕ, ◌+◌, ◌-◌, ◌≤◌, ◌<◌, ◌≡◌, refl, ap, sym, subst, true, false, List, [], ◌∷◌, arith, inl, inr,
  ltb, length, All, ◌⊎◌,
}
use indexer_go.Base.Dict.{has}
use indexer_go.Text.{uint64_limit}
use indexer_go.Text.Equality.{bytes_eq}
use indexer_go.JsonRpc.Pending.{
  PendingTransaction, PendingPool, new_pending_pool, get_transactions_since,
}
use indexer_go.JsonRpc.Pending.Entries.{entries_of, entries, IsLinked, length-entries, after}
use indexer_go.JsonRpc.Pending.Invariant.{
  Step, run, arrivals, run-arrivals, run-Same, new_pending_pool-IsLinked,
}
use indexer_go.JsonRpc.Pending.Bounds.{Rising, Bounded, all_handled-Bounded}
use indexer_go.JsonRpc.Pending.Since.{
  highest, highest-bounds, highest-lt, get_transactions_since_lem,
}
use indexer_go.JsonRpc.Pending.Kept.{run-All}
use indexer_go.JsonRpc.Pending.Covered.{Seen, after-Seen, after-covered}

-- Between two positions there is no entry.
after_gap :
    (low n : ℕ) (l : List PendingTransaction)
    → low < n
    → All (λ t. (t.seen_index ≤ low) ⊎ (n ≤ t.seen_index)) l
    → after low l ≡ after (n - 1) l
after_gap low n [] b a = refl
after_gap low n (t ∷ l) b a = elim (a.0) [
  | inl le ↦
      let old : ltb low t.seen_index ≡ false = ground arith in
      let old_too : ltb (n - 1) t.seen_index ≡ false = ground arith in
      rw (old, old_too) (after_gap low n l b a.1)
  | inr ge ↦
      let new : ltb low t.seen_index ≡ true = ground arith in
      let new_too : ltb (n - 1) t.seen_index ≡ true = ground arith in
      rw (new, new_too) (ap (λ r. t.hash ∷ r) (after_gap low n l b a.1))
]

weaken :
    (top : ℕ) (n : ℕ) (l : List PendingTransaction)
    → All (λ t. t.seen_index ≤ top) l
    → All (λ t. (t.seen_index ≤ top) ⊎ (n ≤ t.seen_index)) l
weaken top n [] a = tt
weaken top n (t ∷ l) a = (inl a.0, weaken top n l a.1)

-- A pool that is linked and within its bounds.
abbrev pub IsPool : PendingPool → Type 0
IsPool p =
    IsLinked p
    × (0 < p.max_size)
    × (length p.transactions ≤ p.max_size)
    × Rising 0 p.next_index (entries p)
    × (0 < p.next_index)

IsPool-Bounded : (p : PendingPool) → IsPool p → Bounded p.max_size p.next_index (arrivals p)
IsPool-Bounded p i = (omega (arith, length-entries p i.0, i.2), i.3, i.4, omega arith)

-- A new pool is a valid pool.
pub new_pending_pool-IsPool : (max_size ttl : ℕ) → IsPool (new_pending_pool max_size ttl)
unfolding new_pending_pool entries_of
new_pending_pool-IsPool max_size ttl =
    (new_pending_pool-IsLinked max_size ttl, ground arith, omega arith, tt, omega arith)

-- For a pool whose hashes and details agree, without a repeated hash, with a size above 0 that it
-- does not exceed and rising indices below the next one, and fewer steps than indices are left
-- below 2 ^ 64: after any events and cleanups all of that holds again.
pub run-IsPool :
    (steps : List Step) (p : PendingPool)
    → IsPool p
    → p.next_index + length steps < uint64_limit
    → IsPool (run steps p)
run-IsPool steps p i w =
    let after_steps = run-arrivals steps p i.0 in
    let q = run steps p in
    let b =
      all_handled-Bounded p.max_size p.ttl p.next_index steps (arrivals p) i.1 w
        (IsPool-Bounded p i) in
    let c = subst (Bounded p.max_size (p.next_index + length steps)) (sym after_steps.1) b in
    let same = run-Same steps p in
    (
      after_steps.0,
      omega (arith, i.1, same),
      omega (arith, same, c.0, length-entries q after_steps.0),
      c.1,
      c.2,
    )

-- What holds of all entries and of each later index still holds of all entries after the steps.
between :
    (P : PendingTransaction → Type 0) (n : ℕ)
    (later : (t : PendingTransaction) → n ≤ t.seen_index → P t) (steps : List Step)
    (p : PendingPool)
    → IsPool p
    → p.next_index + length steps < uint64_limit
    → All P (entries p)
    → n ≤ p.next_index
    → All P (entries (run steps p)) × (n ≤ (run steps p).next_index)
between P n later steps p i w all low =
    subst (λ a. All P a.list × (n ≤ a.next)) (sym (run-arrivals steps p i.0).1)
      (run-All P n later p.max_size p.ttl p.next_index steps (arrivals p) i.1 w (IsPool-Bounded p i)
        (all, low))

-- For a pool whose hashes and details agree, without a repeated hash, with a size above 0 that it
-- does not exceed and rising indices below the next one, a client whose position is below the next
-- index, and any events and cleanups between its two polls, fewer than indices are left below
-- 2 ^ 64: the first poll returns exactly the transactions of the pool above the client's position,
-- in order of arrival; the second one, from the position that the first returned, exactly those
-- of the pool that arrived after the first; its position is again below the next index; and the
-- hash of every transaction that is in the pool at the second poll and lies above the client's
-- first position is in one of the two answers.
pub polls_again :
    (since : ℕ) (steps : List Step) (p : PendingPool)
    → IsPool p
    → since < p.next_index
    → p.next_index + length steps < uint64_limit
    → let q = run steps p in
      let first = get_transactions_since since p in
      let second = get_transactions_since first.1 q in
      (first.0 ≡ after since (entries p))
      × (second.0 ≡ after (p.next_index - 1) (entries q))
      × (second.1 < q.next_index)
      × All (λ h. (has h first.0 ≡ true) ⊎ (has h second.0 ≡ true)) (after since (entries q))
polls_again since steps p i s w =
    let n = p.next_index in
    let q = run steps p in
    let top = highest since since (entries p) in
    let valid = run-IsPool steps p i w in
    let poll = get_transactions_since_lem since p i.0 in
    let again = get_transactions_since_lem top q valid.0 in
    let low : top < n = highest-lt since since 0 n (entries p) s i.3 in
    let seen = weaken top n (entries p) (highest-bounds since since (entries p) (omega arith)).1 in
    let Low = λ (t : PendingTransaction). (t.seen_index ≤ top) ⊎ (n ≤ t.seen_index) in
    let there = between Low n (λ t h. inr h) steps p i w seen (omega arith) in
    let first = after since (entries p) in
    let noted =
      between (Seen since n i.4 first) n (λ t h. inr (inr h)) steps p i w
        (after-Seen since n i.4 first (entries p) (λ h e. e)) (omega arith) in
    let second = after (n - 1) (entries q) in
    let gap = after_gap top n (entries q) low there.0 in
    rw (poll, again, gap)
      (
        refl,
        refl,
        highest-lt top top 0 q.next_index (entries q) (omega (arith, low, there.1)) valid.3,
        after-covered since n i.4 first second (entries q) (λ h e. e) noted.0,
      )
