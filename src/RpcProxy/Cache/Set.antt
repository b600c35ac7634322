-- ===== src/RpcProxy/Cache/Set.antt =====
-- Set of pkg/rpcproxy/cache.go: it returns, and what can be read after it; sequences of calls.
use Prim.Native.String.{String}
use indexer_go.Base.{
  ℕ, zero, suc, ◌+◌, ◌<◌, ◌≡◌, ◌≢◌, refl, sym, ap, ◌∙◌, ◌⊎◌, inl, inr, true, false, ◌∷◌, Option,
  none, some, ◌>>=◌, arith, ltb, if◌then◌else◌, Option-cases, length,
}
use indexer_go.Base.Dict.{
  string_eq, ◌==◌, has, lookup, insert, is_some, beq_refl, lookup-insert, lookup-delete,
  insert-Distinct,
}
use indexer_go.RpcProxy.Cache.{
  CacheConfig, CacheEntry, Cache, back, new_cache, remove_entry, move_to_front, get_entry, get,
  evict_oldest, evict_loop, entry_at, set, is_expired,
}
use indexer_go.RpcProxy.Cache.Valid.{IsValid, move_to_front-IsValid, with_room, evict_loop_lem}

-- What Set leaves of a cache in which its loop has ended.
unfoldable pub after_set : {V : Type 0} → ℕ → String → V → ℕ → Cache V → Cache V
after_set now key value ttl c = elim (lookup key c.items) [
  | some _ ↦ move_to_front key (record c { items = insert key (entry_at now value ttl) c.items })
  | none ↦ record (with_room c) {
    lru = key ∷ (with_room c).lru;
    items = insert key (entry_at now value ttl) (with_room c).items;
  }
]

write-IsValid :
    {V : Type 0} (n : ℕ) (c : Cache V) (key : String) (e : CacheEntry V)
    → IsValid n c
    → has key c.lru ≡ true
    → IsValid n (record c { items = insert key e c.items })
write-IsValid n c key e v h = record {
  distinct_items = insert-Distinct key e c.items v.distinct_items;
  distinct_lru = v.distinct_lru;
  agree = λ k. ground (arith, v.agree k, lookup-insert key k e c.items, string_eq.beq_iff key k, h);
  limit = v.limit;
  bounded = v.bounded;
}

add-IsValid :
    {V : Type 0} (n : ℕ) (c : Cache V) (key : String) (e : CacheEntry V)
    → IsValid n c
    → has key c.lru ≡ false
    → length c.lru < n
    → IsValid n (record c { lru = key ∷ c.lru; items = insert key e c.items })
unfolding has
add-IsValid n c key e v h room = record {
  distinct_items = insert-Distinct key e c.items v.distinct_items;
  distinct_lru = (h, v.distinct_lru);
  agree = λ k. ground (arith, v.agree k, lookup-insert key k e c.items);
  limit = v.limit;
  bounded = omega arith;
}

module _ {V : Type 0} where
  missing-with_room :
      (n : ℕ) (c : Cache V) (key : String)
      → IsValid n c
      → lookup key c.items ≡ none
      → lookup key (with_room c).items ≡ none
  unfolding with_room evict_oldest remove_entry
  missing-with_room n c key v h = elim (Option-cases (back c.lru)) [
    | inl empty ↦ ground (arith, empty, h)
    | inr (last, found) ↦ ground (arith, found, h, lookup-delete last key c.items)
  ]

  -- On a valid cache with a positive MaxSize, Set returns, and leaves a valid cache.
  pub set_lem :
      (n : ℕ) (c : Cache V) (fuel now : ℕ) (key : String) (value : V) (ttl : ℕ)
      → IsValid n c
      → 0 < n
      → (set (suc (suc fuel)) now key value ttl c ≡ some (after_set now key value ttl c))
        × IsValid n (after_set now key value ttl c)
  unfolding set after_set
  set_lem n c fuel now key value ttl v positive = elim (Option-cases (lookup key c.items)) [
    | inr (e, found) ↦
        let here : has key c.lru ≡ true = v.agree key ∙ ground (arith, found) in
        let written = write-IsValid n c key (entry_at now value ttl) v here in
        (
          rw (found, set, after_set),
          rw (found, after_set) (move_to_front-IsValid n _ written key here),
        )
    | inl missing ↦
        let (ends, room, short) = evict_loop_lem n c v positive fuel in
        let gone : has key (with_room c).lru ≡ false =
          room.agree key ∙ ground (arith, missing-with_room n c key v missing) in
        (
          rw (missing, set, after_set, ends, ◌>>=◌),
          rw (missing, after_set)
              (add-IsValid n (with_room c) key (entry_at now value ttl) room gone short),
        )
  ]

  -- The value of an entry that has not expired at the instant `now`.
  abbrev pub fresh : ℕ → Option (CacheEntry V) → Option V
  fresh now none = none
  fresh now (some e) = if ltb e.expires_at now then none else some e.value

  pub lookup-after_set :
      (now : ℕ) (key j : String) (value : V) (ttl : ℕ) (c : Cache V)
      → lookup j (after_set now key value ttl c).items ≡ (
          if key == j
          then some (entry_at now value ttl)
          else if is_some (lookup key c.items)
          then lookup j c.items
          else lookup j (with_room c).items)
  unfolding after_set move_to_front
  lookup-after_set now key j value ttl c = elim (Option-cases (lookup key c.items)) [
    | inr (e, found) ↦ rw (found, after_set) (lookup-insert key j _ c.items)
    | inl missing ↦ rw (missing, after_set) (lookup-insert key j _ (with_room c).items)
  ]

  pub lookup-with_room :
      (j : String) (c : Cache V)
      → length c.lru < c.max_size ⊎ back c.lru ≢ some j
      → lookup j (with_room c).items ≡ lookup j c.items
  unfolding with_room evict_oldest remove_entry
  lookup-with_room j c (inl room) = ground arith
  lookup-with_room j c (inr kept) = elim (Option-cases (back c.lru)) [
    | inl empty ↦ ground (arith, empty)
    | inr (last, found) ↦
        ground (arith, found, kept, lookup-delete last j c.items, string_eq.beq_iff last j)
  ]

  pub get-fresh :
      (now : ℕ) (j : String) (c : Cache V) → (get now j c).1 ≡ fresh now (lookup j c.items)
  unfolding get get_entry is_expired
  get-fresh now j c = elim (Option-cases (lookup j c.items)) [
    | inl missing ↦ rw (missing, get)
    | inr (e, found) ↦ rw (found, get) (ground arith)
  ]

  pub entry-fresh :
      (later now : ℕ) (value : V) (ttl : ℕ)
      → fresh later (some (entry_at now value ttl))
        ≡ (if ltb (now + ttl) later then none else some value)
  unfolding entry_at
  entry-fresh later now value ttl = refl

  -- On a valid cache with a positive MaxSize, Set returns a valid cache, and a Get of the key then
  -- returns the value until the TTL has passed since Set, and nothing afterwards.
  pub get-set_self :
      (n : ℕ) (c : Cache V) (fuel now : ℕ) (key : String) (value : V) (ttl later : ℕ)
      → IsValid n c
      → 0 < n
      → (c' : Cache V) × (set (suc (suc fuel)) now key value ttl c ≡ some c')
        × IsValid n c'
        × ((get later key c').1 ≡ (if ltb (now + ttl) later then none else some value))
  get-set_self n c fuel now key value ttl later v positive =
      let c' = after_set now key value ttl c in
      let (returns, valid) = set_lem n c fuel now key value ttl v positive in
      let written : lookup key c'.items ≡ some (entry_at now value ttl) =
        lookup-after_set now key key value ttl c ∙ rw beq_refl in
      (
        c',
        returns,
        valid,
        get-fresh later key c' ∙ ap (fresh later) written ∙ entry-fresh later now value ttl,
      )

  -- On a valid cache with a positive MaxSize, Set changes nothing that a Get of another key returns
  -- at any later instant, unless it had to make room for a new key in a full cache and the other
  -- key was the last of the list.
  pub get-set_ne :
      (n : ℕ) (c : Cache V) (fuel now : ℕ) (key : String) (value : V) (ttl later : ℕ) (j : String)
      → IsValid n c
      → 0 < n
      → j ≢ key
      → (length c.lru < n) ⊎ (lookup key c.items ≢ none) ⊎ (back c.lru ≢ some j)
      → (c' : Cache V) × (set (suc (suc fuel)) now key value ttl c ≡ some c')
        × ((get later j c').1 ≡ (get later j c).1)
  get-set_ne n c fuel now key value ttl later j v positive other kept =
      let c' = after_set now key value ttl c in
      (
        c',
        (set_lem n c fuel now key value ttl v positive).0,
        get-fresh later j c' ∙ ap (fresh later) (unchanged kept) ∙ sym (get-fresh later j c),
      )
    where
      unchanged :
          (length c.lru < n) ⊎ (lookup key c.items ≢ none) ⊎ (back c.lru ≢ some j)
          → lookup j (after_set now key value ttl c).items ≡ lookup j c.items
      unchanged (inl room) = ground (
        arith,
        string_eq.beq_iff key j,
        lookup-after_set now key j value ttl c,
        lookup-with_room j c (inl (omega (arith, v.limit))),
      )
      unchanged (inr (inl present)) =
          ground (arith, string_eq.beq_iff key j, present, lookup-after_set now key j value ttl c)
      unchanged (inr (inr gone)) = ground (
        arith,
        string_eq.beq_iff key j,
        lookup-after_set now key j value ttl c,
        lookup-with_room j c (inr gone),
      )

  -- With MaxSize 0 the loop of Set never ends on an empty cache: no amount of fuel is enough, so
  -- Set of any key does not return.
  pub set-diverges :
      (fuel now : ℕ) (key : String) (value : V) (ttl : ℕ) (config : CacheConfig)
      → config.max_size ≡ 0
      → set fuel now key value ttl (new_cache (some config)) ≡ none
  unfolding set new_cache lookup
  set-diverges fuel now key value ttl config e = rw (spins fuel)
    where
      empty : Cache V
      empty = new_cache (some config)

      spins : (f : ℕ) → evict_loop f empty ≡ none
      spins zero = refl
      spins (suc f) = ground (arith, spins f)
