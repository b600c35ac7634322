-- ===== src/JsonRpc/Pending/Bounds.antt =====
-- The size of the pool, the order of its indices, and the transactions that a client sees.
use indexer_go.Base.{
  ℕ, suc, ◌+◌, ◌%◌, ◌≤◌, ◌<◌, ◌≡◌, Bool, true, false, List, [], ◌∷◌, ◌++◌, arith, Bool-cases, inl,
  inr, leb, length, ◌==◌ as nat_beq, length-append,
}
use indexer_go.Base.Dict.{has}
use indexer_go.Text.{Bytes, uint64_limit}
use indexer_go.Text.Equality.{bytes_eq, bytes_beq}
use indexer_go.JsonRpc.Pending.{PendingTransaction, is_expired, pending_tx}
use indexer_go.JsonRpc.Pending.Entries.{hashes, dropped_oldest, leave, fresh}
use indexer_go.JsonRpc.Pending.Arrival.{pending_tx-hash}
use indexer_go.JsonRpc.Pending.Invariant.{Step, processed, cleaned, Arrivals, handled, all_handled}

-- The indices are above `lo`, below `hi` and rising.
abbrev pub Rising : ℕ → ℕ → List PendingTransaction → Type 0
Rising lo hi [] = Unit
Rising lo hi (t ∷ l) = (lo < t.seen_index) × (t.seen_index < hi) × Rising t.seen_index hi l

Rising-mono :
    (low lo hi high : ℕ) (l : List PendingTransaction)
    → low ≤ lo
    → hi ≤ high
    → Rising lo hi l
    → Rising low high l
Rising-mono low lo hi high [] a b r = tt
Rising-mono low lo hi high (t ∷ l) a b r = (
  omega (arith, a, r.0),
  omega (arith, b, r.1),
  Rising-mono t.seen_index t.seen_index hi high l (omega arith) b r.2,
)

Rising-snoc :
    (lo hi : ℕ) (l : List PendingTransaction) (t : PendingTransaction)
    → lo < hi
    → t.seen_index ≡ hi
    → Rising lo hi l
    → Rising lo (hi + 1) (l ++ t ∷ [])
Rising-snoc lo hi [] t a e r = (omega (arith, a, e), omega (arith, e), tt)
Rising-snoc lo hi (u ∷ l) t a e r =
    (r.0, omega (arith, r.1), Rising-snoc u.seen_index hi l t r.1 e r.2)

dropped_oldest-Rising :
    (full : Bool) (lo hi : ℕ) (l : List PendingTransaction)
    → Rising lo hi l
    → Rising lo hi (dropped_oldest full l)
dropped_oldest-Rising full lo hi [] r = ground (arith, r)
dropped_oldest-Rising true lo hi (t ∷ l) r =
    Rising-mono lo t.seen_index hi hi l (omega (arith, r.0)) (omega arith) r.2
dropped_oldest-Rising false lo hi (t ∷ l) r = r

leave-Rising :
    (h : Bytes) (lo hi : ℕ) (l : List PendingTransaction)
    → Rising lo hi l
    → Rising lo hi (leave h l)
leave-Rising h lo hi [] r = tt
leave-Rising h lo hi (t ∷ l) r = elim (Bool-cases (bytes_beq t.hash h)) [
  | inl same ↦ rw same (Rising-mono lo t.seen_index hi hi l (omega (arith, r.0)) (omega arith) r.2)
  | inr other ↦ rw other (r.0, r.1, leave-Rising h t.seen_index hi l r.2)
]

fresh-Rising :
    (now ttl lo hi : ℕ) (l : List PendingTransaction)
    → Rising lo hi l
    → Rising lo hi (fresh now ttl l)
fresh-Rising now ttl lo hi [] r = tt
fresh-Rising now ttl lo hi (t ∷ l) r =
    let ih = fresh-Rising now ttl t.seen_index hi l r.2 in
    elim (Bool-cases (is_expired now ttl t)) [
      | inl old ↦ rw old (
          Rising-mono lo t.seen_index hi hi (fresh now ttl l) (omega (arith, r.0)) (omega arith) ih)
      | inr new ↦ rw new (r.0, r.1, ih)
    ]

length-dropped_oldest :
    (l : List PendingTransaction) (max_size : ℕ)
    → 0 < max_size
    → length l ≤ max_size
    → length (dropped_oldest (leb max_size (length l)) l) < max_size
length-dropped_oldest [] max_size p h = ground arith
length-dropped_oldest (t ∷ l) max_size p h = elim (Bool-cases (leb max_size (length (t ∷ l)))) [
  | inl full ↦ rw full (omega (arith, h))
  | inr room ↦ rw room (ground (arith, room, h))
]

length-leave : (h : Bytes) (l : List PendingTransaction) → length (leave h l) ≤ length l
length-leave h [] = omega arith
length-leave h (t ∷ l) = ground (arith, length-leave h l)

length-fresh : (now ttl : ℕ) (l : List PendingTransaction) → length (fresh now ttl l) ≤ length l
length-fresh now ttl [] = omega arith
length-fresh now ttl (t ∷ l) = ground (arith, length-fresh now ttl l)

-- At most `max_size` transactions, with rising indices below the next one, which is at most `top`.
abbrev pub Bounded : ℕ → ℕ → Arrivals → Type 0
Bounded max_size top a =
    (length a.list ≤ max_size) × Rising 0 a.next a.list × (0 < a.next) × (a.next ≤ top)

pub handled-Bounded :
    (max_size ttl top : ℕ) (s : Step) (a : Arrivals)
    → 0 < max_size
    → top + 1 < uint64_limit
    → Bounded max_size top a
    → Bounded max_size (top + 1) (handled max_size ttl s a)
handled-Bounded max_size ttl top (cleaned now) a p w b = (
  omega (arith, length-fresh now ttl a.list, b.0),
  fresh-Rising now ttl 0 a.next a.list b.1,
  b.2,
  omega (arith, b.3),
)
handled-Bounded max_size ttl top (processed now ev) a p w b =
    elim (Bool-cases (nat_beq ev.block_number 0)) [
      | inr mined ↦ rw mined (
        omega (arith, length-leave ev.hash a.list, b.0),
        leave-Rising ev.hash 0 a.next a.list b.1,
        b.2,
        omega (arith, b.3),
      )
      | inl pending ↦ elim (Bool-cases (has ev.hash (hashes a.list))) [
        | inl there ↦
            let t = pending_tx now a.next ev in
            rw (pending, (pending_tx-hash now a.next ev).0, there)
              (b.0, b.1, b.2, omega (arith, b.3))
        | inr new ↦
            let t = pending_tx now a.next ev in
            let room = dropped_oldest (leb max_size (length a.list)) a.list in
            let up : (a.next + 1) % uint64_limit ≡ a.next + 1 = omega (arith, b.3, w) in
            rw (pending, (pending_tx-hash now a.next ev).0, new, up)
              (
                omega (
                  arith,
                  length-append room (t ∷ []),
                  length-dropped_oldest a.list max_size p b.0,
                ),
                Rising-snoc 0 a.next room t b.2 (pending_tx-hash now a.next ev).1
                    (dropped_oldest-Rising (leb max_size (length a.list)) 0 a.next a.list b.1),
                omega arith,
                omega (arith, b.3),
              )
      ]
    ]

pub all_handled-Bounded :
    (max_size ttl top : ℕ) (steps : List Step) (a : Arrivals)
    → 0 < max_size
    → top + length steps < uint64_limit
    → Bounded max_size top a
    → Bounded max_size (top + length steps) (all_handled max_size ttl steps a)
all_handled-Bounded max_size ttl top [] a p w b = let z : top + 0 ≡ top = omega arith in rw z b
all_handled-Bounded max_size ttl top (s ∷ steps) a p w b =
    let e : top + suc (length steps) ≡ top + 1 + length steps = omega arith in
    rw e (
      all_handled-Bounded max_size ttl (top + 1) steps (handled max_size ttl s a) p
        (omega (arith, w)) (handled-Bounded max_size ttl top s a p (omega (arith, w)) b))
