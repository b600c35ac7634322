-- ===== src/JsonRpc/Filters/Ids.antt =====
-- How long an identifier of generateID stays with its filter.
use indexer_go.Base.{
  ℕ, ◌+◌, ◌%◌, ◌≤◌, ◌<◌, ◌≡◌, refl, ap, ◌∙◌, sym, ◌≢◌, Bool, false, List, [], ◌∷◌, ◌++◌, Option,
  none, some, arith, length, replicate, if◌then◌else◌, Bool-cases, inl, inr, get_elem?,
}
use indexer_go.Base.Dict.{lookup, lookup-insert}
use indexer_go.Text.{Bytes, uint64_limit}
use indexer_go.Text.Equality.{bytes_eq, bytes_beq, bytes_beq_refl, bytes_beq_sound}
use indexer_go.JsonRpc.Filters.{
  FilterType, LogFilter, Filter, FilterManager, id_of, made, new_filter,
}

-- The arguments of a call of NewFilter, with the clock and the pool's index.
pub record Call : Type 0 where
  pub now : ℕ
  pub filter_type : FilterType
  pub log_filter : Option LogFilter
  pub last_block : ℕ
  pub decode : Bool
  pub pending : Option ℕ

bytes_beq-ne : (a b : Bytes) → a ≢ b → bytes_beq a b ≡ false
bytes_beq-ne a b ne = elim (Bool-cases (bytes_beq a b)) [
  | inl e ↦ absurd (ne (bytes_beq_sound a b e))
  | inr e ↦ e
]

last_byte : (a b : ℕ) → replicate 31 0 ++ a ∷ [] ≡ replicate 31 0 ++ b ∷ [] → a ≡ b
last_byte a b e =
    let f : Option ℕ → ℕ = λ o. elim o [ none ↦ 0 | some x ↦ x ] in ap (λ l. f (get_elem? l 31)) e

module _ (to_hex : Bytes → Bytes) where
  abbrev pub call : Call → FilterManager → FilterManager × Bytes
  call c = new_filter to_hex c.now c.filter_type c.log_filter c.last_block c.decode c.pending

  -- The filter of a call at a value of the counter.
  abbrev pub filter_of : Call → ℕ → Filter
  filter_of c n = made to_hex c.now n c.filter_type c.log_filter c.last_block c.decode c.pending

  abbrev pub calls : List Call → FilterManager → FilterManager
  calls [] fm = fm
  calls (c ∷ cs) fm = calls cs (call c fm).0

  id_of-wrap : (n k : ℕ) → id_of to_hex ((n + k) % uint64_limit) ≡ id_of to_hex (n + k)
  unfolding id_of
  id_of-wrap n k =
      let e : (n + k) % uint64_limit % 256 ≡ (n + k) % 256 = omega arith in
      ap (λ b. to_hex (replicate 31 0 ++ b ∷ [])) e

  id_of-again : (n : ℕ) → id_of to_hex (n + 256) ≡ id_of to_hex n
  unfolding id_of
  id_of-again n =
      let e : (n + 256) % 256 ≡ n % 256 = omega arith in
      ap (λ b. to_hex (replicate 31 0 ++ b ∷ [])) e

  next_id-calls :
      (cs : List Call) (fm : FilterManager)
      → fm.next_id < uint64_limit
      → (calls cs fm).next_id ≡ (fm.next_id + length cs) % uint64_limit
  unfolding new_filter
  next_id-calls [] fm l = omega arith
  next_id-calls (c ∷ cs) fm l = omega (arith, next_id-calls cs (call c fm).0 (omega arith))

  module _ (injective : (a b : Bytes) → to_hex a ≡ to_hex b → a ≡ b) where
    id_of-ne : (n k : ℕ) → 0 < k → k < 256 → id_of to_hex (n + k) ≢ id_of to_hex n
    unfolding id_of
    id_of-ne n k p l e = omega (
      arith,
      last_byte ((n + k) % 256) (n % 256)
          (injective (replicate 31 0 ++ (n + k) % 256 ∷ []) (replicate 31 0 ++ n % 256 ∷ []) e),
    )

    lookup-calls :
        (cs : List Call) (fm : FilterManager) (n k : ℕ) (f : Filter)
        → fm.next_id ≡ (n + k) % uint64_limit
        → 0 < k
        → k + length cs ≤ 256
        → lookup (id_of to_hex n) fm.filters ≡ some f
        → lookup (id_of to_hex n) (calls cs fm).filters ≡ some f
    unfolding new_filter made
    lookup-calls [] fm n k f e p l h = h
    lookup-calls (c ∷ cs) fm n k f e p l h =
        let id = id_of to_hex n in
        let m = id_of to_hex fm.next_id in
        let other : m ≡ id_of to_hex (n + k) = ap (id_of to_hex) e ∙ id_of-wrap n k in
        let ne : m ≢ id = λ q. id_of-ne n k p (omega arith) (sym other ∙ q) in
        let read = lookup-insert m id (filter_of c fm.next_id) fm.filters in
        let kept : lookup id (call c fm).0.filters ≡ some f =
          read
          ∙ ap (λ b. if b then some (filter_of c fm.next_id) else lookup id fm.filters)
              (bytes_beq-ne m id ne)
          ∙ h in
        lookup-calls cs (call c fm).0 n (k + 1) f (omega (arith, e)) (omega arith) (omega arith)
          kept

-- Where the text of a hash determines it and the counter is below 2 ^ 64: after a call of NewFilter
-- and at most 255 further calls of NewFilter, whatever their arguments, the first filter is found
-- under the identifier that its call returned; and after exactly 255 further calls the next one
-- returns the same identifier, under which its own filter is then found in place of the first.
pub id_reuse :
    (to_hex : Bytes → Bytes)
    → ((a b : Bytes) → to_hex a ≡ to_hex b → a ≡ b)
    → (first : Call) (fm : FilterManager) → fm.next_id < uint64_limit
    → (others : List Call) → length others ≤ 255
    → let id = (call to_hex first fm).1 in
      let later = calls to_hex others (call to_hex first fm).0 in
      (lookup id later.filters ≡ some (filter_of to_hex first fm.next_id))
      × ((last : Call)
          → length others ≡ 255
          → ((call to_hex last later).1 ≡ id)
            × (lookup id (call to_hex last later).0.filters
                ≡ some (filter_of to_hex last later.next_id)))
unfolding new_filter made
id_reuse to_hex injective first fm l others few =
    let n = fm.next_id in
    let id = id_of to_hex n in
    let fm1 = (call to_hex first fm).0 in
    let later = calls to_hex others fm1 in
    let f = filter_of to_hex first n in
    let stored : lookup id fm1.filters ≡ some f =
      lookup-insert id id f fm.filters
      ∙ ap (λ b. if b then some f else lookup id fm.filters) (bytes_beq_refl id) in
    (
      lookup-calls to_hex injective others fm1 n 1 f refl (omega arith) (omega arith) stored,
      λ last full.
          let g = filter_of to_hex last later.next_id in
          let at : later.next_id ≡ (n + 256) % uint64_limit =
            omega (arith, next_id-calls to_hex others fm1 (omega arith)) in
          let same : id_of to_hex later.next_id ≡ id =
            ap (id_of to_hex) at ∙ id_of-wrap to_hex n 256 ∙ id_of-again to_hex n in
          (
            same,
            lookup-insert (id_of to_hex later.next_id) id g later.filters
                ∙ ap (λ b. if b then some g else lookup id later.filters)
                    (ap (λ k. bytes_beq k id) same ∙ bytes_beq_refl id),
          ),
    )
