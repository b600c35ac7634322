-- ===== src/JsonRpc/Pending/Arrival.antt =====
-- AddTransaction keeps the hashes and the details together, and acts on the list of entries.
use indexer_go.Base.{
  ℕ, ◌+◌, ◌%◌, ◌≡◌, refl, ap, ◌∙◌, sym, subst, true, false, ◌||◌, List, [], ◌∷◌, ◌++◌, Option, none,
  some, arith, if◌then◌else◌, Bool-cases, Option-cases, inl, inr, leb, length,
}
use indexer_go.Base.Dict.{
  lookup, insert, delete, is_some, has, Distinct, lookup-insert, lookup-delete, insert-Distinct,
  delete-Distinct,
}
use indexer_go.Text.{Bytes, uint64_limit}
use indexer_go.Text.Equality.{bytes_eq, bytes_beq, bytes_beq_refl, bytes_beq_sound, bytes_beq_iff}
use indexer_go.JsonRpc.Pending.{
  TxData, TransactionEvent, PendingTransaction, PendingPool, pending_tx, with_data, without_oldest,
  make_room, append, add_transaction,
}
use indexer_go.JsonRpc.Pending.Entries.{
  Details, entries_of, entries, Linked, IsLinked, arrive, hashes, length-entries, hashes-entries,
  dropped_oldest, entries_of-append, entries_of-insert, entries_of-delete, entries_of_present,
}

with_data-keeps :
    (x : Option TxData) (t : PendingTransaction)
    → ((with_data x t).hash ≡ t.hash) × ((with_data x t).seen_index ≡ t.seen_index)
with_data-keeps none t = (refl, refl)
with_data-keeps (some x) t = (refl, refl)

pub pending_tx-hash :
    (now n : ℕ) (ev : TransactionEvent)
    → ((pending_tx now n ev).hash ≡ ev.hash) × ((pending_tx now n ev).seen_index ≡ n)
pending_tx-hash now n ev = with_data-keeps ev.tx (pending_tx now n (record ev { tx = none }))

has-snoc : (k h : Bytes) (hs : List Bytes) → has k (hs ++ h ∷ []) ≡ (has k hs || bytes_beq h k)
unfolding has
has-snoc k h [] = ground arith
has-snoc k h (i ∷ hs) = ground (arith, has-snoc k h hs)

snoc-Distinct :
    (h : Bytes) (hs : List Bytes) → has h hs ≡ false → Distinct hs → Distinct (hs ++ h ∷ [])
unfolding has
snoc-Distinct h [] out d = (refl, tt)
snoc-Distinct h (i ∷ hs) out d = ground (
  arith,
  out,
  has-snoc i h hs,
  bytes_beq_iff i h,
  bytes_beq_iff h i,
  d.0,
  snoc-Distinct h hs (ground (arith, out)) d.1,
)

-- The oldest transaction.
oldest_lem :
    (p : PendingPool) (oldest : Bytes) (rest : List Bytes)
    → Linked p.tx_details (oldest ∷ rest)
    → Linked (delete oldest p.tx_details) rest
      × (dropped_oldest true (entries_of p.tx_details (oldest ∷ rest))
          ≡ entries_of (delete oldest p.tx_details) rest)
unfolding has
oldest_lem p oldest rest (dt, dd, same, named) =
    let there : is_some (lookup oldest p.tx_details) ≡ true =
      sym (same oldest) ∙ rw (bytes_beq_refl oldest) refl in
    (
      (
        dt.1,
        delete-Distinct oldest p.tx_details dd,
        λ h.
            ground
              (arith, lookup-delete oldest h p.tx_details, same h, dt.0, bytes_beq_iff oldest h),
        λ h t e. named h t (ground (arith, lookup-delete oldest h p.tx_details, e)),
      ),
      elim (Option-cases (lookup oldest p.tx_details)) [
        | inl n ↦ absurd (ground (arith, there, n))
        | inr (t, s) ↦
            rw (entries_of_present p.tx_details oldest rest t s)
              (sym (entries_of-delete oldest p.tx_details rest dt.0))
      ],
    )

without_oldest_lem :
    (p : PendingPool) (hs : List Bytes)
    → p.transactions ≡ hs
    → IsLinked p
    → IsLinked (without_oldest hs p)
      × (entries (without_oldest hs p) ≡ dropped_oldest true (entries p))
unfolding entries_of
without_oldest_lem p [] e l = (l, rw e refl)
without_oldest_lem p (oldest ∷ rest) e l =
    let linked = subst (λ hs. Linked p.tx_details hs) e l in
    let known = oldest_lem p oldest rest linked in (known.0, sym (rw e known.1))

make_room_lem :
    (p : PendingPool)
    → IsLinked p
    → IsLinked (make_room p)
      × (entries (make_room p)
          ≡ dropped_oldest (leb p.max_size (length p.transactions)) (entries p))
unfolding make_room
make_room_lem p l = elim (Bool-cases (leb p.max_size (length p.transactions))) [
  | inl full ↦ rw full (without_oldest_lem p p.transactions refl l)
  | inr room ↦ rw room (l, refl)
]

make_room-keeps :
    (p : PendingPool) (h : Bytes)
    → lookup h p.tx_details ≡ none
    → (lookup h (make_room p).tx_details ≡ none)
      × ((make_room p).next_index ≡ p.next_index)
      × ((make_room p).max_size ≡ p.max_size)
      × ((make_room p).ttl ≡ p.ttl)
unfolding make_room
make_room-keeps p h n = elim (Bool-cases (leb p.max_size (length p.transactions))) [
  | inl full ↦ rw full (oldest p.transactions)
  | inr room ↦ rw room (n, refl, refl, refl)
]
  where
    oldest :
        (hs : List Bytes)
        → (lookup h (without_oldest hs p).tx_details ≡ none)
          × ((without_oldest hs p).next_index ≡ p.next_index)
          × ((without_oldest hs p).max_size ≡ p.max_size)
          × ((without_oldest hs p).ttl ≡ p.ttl)
    oldest [] = (n, refl, refl, refl)
    oldest (k ∷ hs) = (ground (arith, lookup-delete k h p.tx_details, n), refl, refl, refl)

insert-named :
    (t : PendingTransaction) (details : Details)
    → ((k : Bytes) (u : PendingTransaction) → lookup k details ≡ some u → u.hash ≡ k)
    → (h k : Bytes) (u : PendingTransaction) → t.hash ≡ h
    → lookup k (insert h t details) ≡ some u
    → u.hash ≡ k
insert-named t details named h k u hash e =
    let read = lookup-insert h k t details in
    elim (Bool-cases (bytes_beq h k)) [
      | inl same ↦
          let there : t ≡ u = ground (arith, read, e, same) in
          ap (λ (x : PendingTransaction). x.hash) (sym there) ∙ hash ∙ bytes_beq_sound h k same
      | inr other ↦ named k u (ground (arith, read, e, other))
    ]

append_lem :
    (now : ℕ) (ev : TransactionEvent) (p : PendingPool)
    → IsLinked p
    → lookup ev.hash p.tx_details ≡ none
    → IsLinked (append now ev p)
      × (entries (append now ev p) ≡ entries p ++ pending_tx now p.next_index ev ∷ [])
unfolding append entries_of
append_lem now ev p (dt, dd, same, named) new =
    let h = ev.hash in
    let t = pending_tx now p.next_index ev in
    let hash = (pending_tx-hash now p.next_index ev).0 in
    let out : has h p.transactions ≡ false = same h ∙ ap is_some new in
    let read = λ (k : Bytes). lookup-insert h k t p.tx_details in
    (
      (
        snoc-Distinct h p.transactions out dt,
        insert-Distinct h t p.tx_details dd,
        λ k. ground (arith, has-snoc k h p.transactions, read k, same k),
        λ k u e. insert-named t p.tx_details named h k u hash e,
      ),
      entries_of-append (insert h t p.tx_details) p.transactions (h ∷ [])
          ∙ rw
              (
                entries_of-insert h t p.tx_details p.transactions out,
                entries_of_present (insert h t p.tx_details) h [] t
                    (read h ∙ rw (bytes_beq_refl h) refl),
              )
              refl,
    )

pub add_transaction_lem :
    (now : ℕ) (ev : TransactionEvent) (p : PendingPool)
    → IsLinked p
    → IsLinked (add_transaction now ev p)
      × (entries (add_transaction now ev p)
          ≡ arrive p.max_size (pending_tx now p.next_index ev) (entries p))
      × ((add_transaction now ev p).next_index ≡ (
          if has ev.hash (hashes (entries p))
          then p.next_index
          else (p.next_index + 1) % uint64_limit))
unfolding add_transaction append
add_transaction_lem now ev p l =
    let t = pending_tx now p.next_index ev in
    let hash = (pending_tx-hash now p.next_index ev).0 in
    let known : has ev.hash (hashes (entries p)) ≡ is_some (lookup ev.hash p.tx_details) =
      rw (hashes-entries p l) (l.2 ev.hash) in
    elim (Option-cases (lookup ev.hash p.tx_details)) [
      | inr (u, s) ↦ rw (s, hash, known, s) (l, refl, refl)
      | inl n ↦
          let kept = make_room-keeps p ev.hash n in
          let room = make_room_lem p l in
          let added = append_lem now ev (make_room p) room.0 kept.0 in
          rw (n, hash, known, n)
            (added.0, rw (added.1, room.1, kept.1, length-entries p l) refl, rw kept.1 refl)
    ]
