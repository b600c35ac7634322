-- ===== src/JsonRpc/Pending/Invariant.antt =====
-- The pool over any sequence of bus events and cleanups.
use indexer_go.Base.{
  ℕ, ◌+◌, ◌%◌, ◌≡◌, refl, ◌∙◌, List, [], ◌∷◌, arith, if◌then◌else◌, Bool-cases, inl, inr, leb,
  length, ◌==◌ as nat_beq,
}
use indexer_go.Base.Dict.{lookup, has}
use indexer_go.Text.{Bytes, uint64_limit}
use indexer_go.Text.Equality.{bytes_eq}
use indexer_go.JsonRpc.Pending.{
  TransactionEvent, PendingTransaction, PendingPool, pending_tx, add_transaction,
  remove_transaction, process_event, rebuilt, cleanup, make_room, append, new_pending_pool, expired,
}
use indexer_go.JsonRpc.Pending.Entries.{entries, IsLinked, hashes, arrive, leave, fresh}
use indexer_go.JsonRpc.Pending.Arrival.{add_transaction_lem}
use indexer_go.JsonRpc.Pending.Departure.{remove_transaction_lem}
use indexer_go.JsonRpc.Pending.Expiry.{cleanup_lem}

-- An event that is processed, or a cleanup, at a time.
pub data Step : Type 0 where
  processed : ℕ → TransactionEvent → Step
  cleaned : ℕ → Step

abbrev pub step : Step → PendingPool → PendingPool
step (processed now ev) p = process_event now ev p
step (cleaned now) p = cleanup now p

abbrev pub run : List Step → PendingPool → PendingPool
run [] p = p
run (s ∷ steps) p = run steps (step s p)

-- A pool as it should behave: transactions in order of arrival, and the index of the next one.
pub record Arrivals : Type 0 where
  pub list : List PendingTransaction
  pub next : ℕ

abbrev pub arrived : ℕ → ℕ → TransactionEvent → Arrivals → Arrivals
arrived max_size now ev a = record {
  list = arrive max_size (pending_tx now a.next ev) a.list;
  next = if has ev.hash (hashes a.list) then a.next else (a.next + 1) % uint64_limit;
}

abbrev pub handled : ℕ → ℕ → Step → Arrivals → Arrivals
handled max_size ttl (processed now ev) a =
    if nat_beq ev.block_number 0
    then arrived max_size now ev a
    else record a { list = leave ev.hash a.list }
handled max_size ttl (cleaned now) a = record a { list = fresh now ttl a.list }

abbrev pub all_handled : ℕ → ℕ → List Step → Arrivals → Arrivals
all_handled max_size ttl [] a = a
all_handled max_size ttl (s ∷ steps) a = all_handled max_size ttl steps (handled max_size ttl s a)

abbrev pub arrivals : PendingPool → Arrivals
arrivals p = record { list = entries p; next = p.next_index }

make_room-Same :
    (p : PendingPool) (hs : List Bytes)
    → p.transactions ≡ hs
    → ((make_room p).max_size ≡ p.max_size) × ((make_room p).ttl ≡ p.ttl)
unfolding make_room
make_room-Same p [] e = elim (Bool-cases (leb p.max_size (length p.transactions))) [
  | inl full ↦ rw (full, e) (refl, refl)
  | inr room ↦ rw room (refl, refl)
]
make_room-Same p (h ∷ hs) e = elim (Bool-cases (leb p.max_size (length p.transactions))) [
  | inl full ↦ rw (full, e) (refl, refl)
  | inr room ↦ rw room (refl, refl)
]

step-Same :
    (s : Step) (p : PendingPool) → ((step s p).max_size ≡ p.max_size) × ((step s p).ttl ≡ p.ttl)
unfolding process_event add_transaction append remove_transaction cleanup
step-Same (processed now ev) p =
    let room = make_room-Same p p.transactions refl in ground (arith, room.0, room.1)
step-Same (cleaned now) p = expired_case (expired now p.ttl p.tx_details)
  where
    expired_case :
        (hs : List Bytes) → ((rebuilt hs p).max_size ≡ p.max_size) × ((rebuilt hs p).ttl ≡ p.ttl)
    expired_case [] = (refl, refl)
    expired_case (h ∷ hs) = (refl, refl)

step_lem :
    (s : Step) (p : PendingPool)
    → IsLinked p
    → IsLinked (step s p) × (arrivals (step s p) ≡ handled p.max_size p.ttl s (arrivals p))
unfolding process_event
step_lem (cleaned now) p l = let done = cleanup_lem now p l in (done.0, rw (done.1, done.2) refl)
step_lem (processed now ev) p l = elim (Bool-cases (nat_beq ev.block_number 0)) [
  | inl pending ↦
      let done = add_transaction_lem now ev p l in rw pending (done.0, rw (done.1, done.2) refl)
  | inr mined ↦
      let done = remove_transaction_lem ev.hash p l in rw mined (done.0, rw (done.1, done.2) refl)
]

-- Where each hash of the pool has details with that hash, no hash is there twice, and none has
-- details that is not there: after any steps that is so again, and the list of the details in the
-- order of the hashes, with the next index, is what those steps make of a plain list: a pending
-- transaction that is not there goes to the end, the first one goes if the list was full, a mined
-- one goes, and a cleanup takes away the expired ones.
pub run-arrivals :
    (steps : List Step) (p : PendingPool)
    → IsLinked p
    → IsLinked (run steps p)
      × (arrivals (run steps p) ≡ all_handled p.max_size p.ttl steps (arrivals p))
run-arrivals [] p l = (l, refl)
run-arrivals (s ∷ steps) p l =
    let one = step_lem s p l in
    let same = step-Same s p in
    let ih = run-arrivals steps (step s p) one.0 in (ih.0, rw (ih.1, one.1, same.0, same.1) refl)

pub new_pending_pool-IsLinked : (max_size ttl : ℕ) → IsLinked (new_pending_pool max_size ttl)
unfolding new_pending_pool has lookup
new_pending_pool-IsLinked max_size ttl = (tt, tt, λ h. refl, λ h t e. absurd (ground arith))

pub run-Same : (steps : List Step) (p : PendingPool) → (run steps p).max_size ≡ p.max_size
run-Same [] p = refl
run-Same (s ∷ steps) p = run-Same steps (step s p) ∙ (step-Same s p).0
