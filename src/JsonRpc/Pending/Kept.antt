-- ===== src/JsonRpc/Pending/Kept.antt =====
-- What events and cleanups of the pool keep of its entries.
use indexer_go.Base.{
  ℕ, ◌+◌, ◌≤◌, ◌<◌, Bool, true, false, List, [], ◌∷◌, ◌++◌, arith, Bool-cases, inl, inr, leb,
  length, All, ◌==◌ as nat_beq,
}
use indexer_go.Base.Dict.{has}
use indexer_go.Text.{Bytes, uint64_limit}
use indexer_go.Text.Equality.{bytes_eq, bytes_beq}
use indexer_go.JsonRpc.Pending.{PendingTransaction, is_expired, pending_tx}
use indexer_go.JsonRpc.Pending.Entries.{hashes, dropped_oldest, leave, fresh}
use indexer_go.JsonRpc.Pending.Arrival.{pending_tx-hash}
use indexer_go.JsonRpc.Pending.Invariant.{Step, processed, cleaned, Arrivals, handled, all_handled}
use indexer_go.JsonRpc.Pending.Bounds.{Bounded, handled-Bounded}

-- All entries satisfy what held before and what holds for each later index.
module _ (P : PendingTransaction → Type 0) (n : ℕ)
    (later : (t : PendingTransaction) → n ≤ t.seen_index → P t) where
  dropped_oldest-All :
      (full : Bool) (l : List PendingTransaction) → All P l → All P (dropped_oldest full l)
  dropped_oldest-All true [] a = tt
  dropped_oldest-All false [] a = tt
  dropped_oldest-All true (t ∷ l) a = a.1
  dropped_oldest-All false (t ∷ l) a = a

  snoc-All :
      (l : List PendingTransaction) (t : PendingTransaction) → P t → All P l → All P (l ++ t ∷ [])
  snoc-All [] t h a = (h, tt)
  snoc-All (u ∷ l) t h a = (a.0, snoc-All l t h a.1)

  leave-All : (h : Bytes) (l : List PendingTransaction) → All P l → All P (leave h l)
  leave-All h [] a = tt
  leave-All h (t ∷ l) a = elim (Bool-cases (bytes_beq t.hash h)) [
    | inl e ↦ rw e a.1
    | inr e ↦ rw e (a.0, leave-All h l a.1)
  ]

  fresh-All : (now ttl : ℕ) (l : List PendingTransaction) → All P l → All P (fresh now ttl l)
  fresh-All now ttl [] a = tt
  fresh-All now ttl (t ∷ l) a = elim (Bool-cases (is_expired now ttl t)) [
    | inl e ↦ rw e (fresh-All now ttl l a.1)
    | inr e ↦ rw e (a.0, fresh-All now ttl l a.1)
  ]

  abbrev Kept : Arrivals → Type 0
  Kept a = All P a.list × (n ≤ a.next)

  handled-All :
      (max_size ttl : ℕ) (s : Step) (a : Arrivals)
      → a.next + 1 < uint64_limit
      → Kept a
      → Kept (handled max_size ttl s a)
  handled-All max_size ttl (cleaned now) a w k = (fresh-All now ttl a.list k.0, k.1)
  handled-All max_size ttl (processed now ev) a w k =
      elim (Bool-cases (nat_beq ev.block_number 0)) [
        | inr mined ↦ rw mined (leave-All ev.hash a.list k.0, k.1)
        | inl pending ↦ elim (Bool-cases (has ev.hash (hashes a.list))) [
          | inl there ↦ rw (pending, (pending_tx-hash now a.next ev).0, there) k
          | inr new ↦
              let t = pending_tx now a.next ev in
              let full = leb max_size (length a.list) in
              rw (pending, (pending_tx-hash now a.next ev).0, new)
                (
                  snoc-All (dropped_oldest full a.list) t
                      (later t (omega (arith, (pending_tx-hash now a.next ev).1, k.1)))
                      (dropped_oldest-All full a.list k.0),
                  omega (arith, k.1, w),
                )
        ]
      ]

  pub run-All :
      (max_size ttl top : ℕ) (steps : List Step) (a : Arrivals)
      → 0 < max_size
      → top + length steps < uint64_limit
      → Bounded max_size top a
      → Kept a
      → Kept (all_handled max_size ttl steps a)
  run-All max_size ttl top [] a p w b k = k
  run-All max_size ttl top (s ∷ steps) a p w b k =
      let one = handled max_size ttl s a in
      run-All max_size ttl (top + 1) steps one p (omega (arith, w))
        (handled-Bounded max_size ttl top s a p (omega (arith, w)) b)
        (handled-All max_size ttl s a (omega (arith, w, b.3)) k)
