-- ===== src/RpcProxy/Cache/Calls.antt =====
-- Sequences of calls on one cache of pkg/rpcproxy/cache.go.
use Prim.Native.String.{String}
use indexer_go.Base.{
  ℕ, suc, ◌+◌, ◌<◌, ◌≤◌, ◌≡◌, refl, ◌∙◌, true, List, [], ◌∷◌, Option, some, ◌>>=◌, inl, inr, arith,
  Bool-cases, Option-cases,
}
use indexer_go.Base.Dict.{string_eq, has, lookup, is_some}
use indexer_go.RpcProxy.Cache.{
  CacheConfig, CacheEntry, Cache, is_expired, new_cache, get_entry, get, set, delete_key, clear,
  size, cleanup_loop, cleanup, get_or_set,
}
use indexer_go.RpcProxy.Cache.Valid.{
  IsValid, remove_entry-IsValid, move_to_front-IsValid, length-items,
}
use indexer_go.RpcProxy.Cache.Set.{after_set, set_lem}

-- A call with its clock readings; get_or_set also has what fn returns.
pub data Call (V : Type 0) : Type 0 where
  call_get : ℕ → String → Call V
  call_set : ℕ → String → V → ℕ → Call V
  call_delete : String → Call V
  call_clear : Call V
  call_cleanup : ℕ → Call V
  call_get_or_set : ℕ → ℕ → String → ℕ → Option V → Call V

module _ {V : Type 0} where
  unfoldable pub call : ℕ → Cache V → Call V → Option (Cache V)
  call fuel c (call_get now key) = some (get now key c).0
  call fuel c (call_set now key value ttl) = set fuel now key value ttl c
  call fuel c (call_delete key) = some (delete_key key c)
  call fuel c call_clear = some (clear c)
  call fuel c (call_cleanup now) = some (cleanup now c)
  call fuel c (call_get_or_set asked stored key ttl produced) =
      get_or_set fuel asked stored key ttl produced c >>= λ r. some r.0

  unfoldable pub calls : ℕ → Cache V → List (Call V) → Option (Cache V)
  unfolding call
  calls fuel c [] = some c
  calls fuel c (a ∷ as_) = call fuel c a >>= λ c'. calls fuel c' as_

  counters-IsValid :
      (n : ℕ) (c : Cache V) (hits misses : ℕ)
      → IsValid n c
      → IsValid n (record c { hits = hits; misses = misses })
  counters-IsValid n c hits misses v = record {
    distinct_items = v.distinct_items;
    distinct_lru = v.distinct_lru;
    agree = v.agree;
    limit = v.limit;
    bounded = v.bounded;
  }

  pub get-IsValid :
      (n : ℕ) (c : Cache V) (now : ℕ) (key : String) → IsValid n c → IsValid n (get now key c).0
  unfolding get get_entry
  get-IsValid n c now key v = elim (Option-cases (lookup key c.items)) [
    | inl missing ↦ rw (missing, get) (counters-IsValid n c c.hits (c.misses + 1) v)
    | inr (e, found) ↦ elim (Bool-cases (is_expired now e)) [
      | inl old ↦
          rw (found, get, old)
            (counters-IsValid n _ c.hits (c.misses + 1) (remove_entry-IsValid n c v key))
      | inr young ↦
          let here : has key c.lru ≡ true = v.agree key ∙ ground (arith, found) in
          rw (found, get, young)
            (counters-IsValid n _ (c.hits + 1) c.misses (move_to_front-IsValid n c v key here))
    ]
  ]

  delete-IsValid : (n : ℕ) (c : Cache V) (key : String) → IsValid n c → IsValid n (delete_key key c)
  unfolding delete_key
  delete-IsValid n c key v = elim (Bool-cases (is_some (lookup key c.items))) [
    | inl there ↦ rw there (remove_entry-IsValid n c v key)
    | inr absent ↦ rw absent v
  ]

  clear-IsValid : (n : ℕ) (c : Cache V) → IsValid n c → IsValid n (clear c)
  unfolding clear has lookup
  clear-IsValid n c v = record {
    distinct_items = tt;
    distinct_lru = tt;
    agree = λ k. refl;
    limit = v.limit;
    bounded = omega arith;
  }

  cleanup_loop-IsValid :
      (n now : ℕ) (es : List (String × CacheEntry V)) (c : Cache V)
      → IsValid n c
      → IsValid n (cleanup_loop now es c)
  unfolding cleanup_loop
  cleanup_loop-IsValid n now [] c v = v
  cleanup_loop-IsValid n now ((key, e) ∷ es) c v = elim (Bool-cases (is_expired now e)) [
    | inl old ↦ rw old (cleanup_loop-IsValid n now es _ (remove_entry-IsValid n c v key))
    | inr young ↦ rw young (cleanup_loop-IsValid n now es c v)
  ]

  pub call-IsValid :
      (n fuel : ℕ) (c : Cache V) (a : Call V)
      → IsValid n c
      → 0 < n
      → (c' : Cache V) × (call (suc (suc fuel)) c a ≡ some c') × IsValid n c'
  unfolding call cleanup get_or_set
  call-IsValid n fuel c (call_get now key) v p =
      ((get now key c).0, refl, get-IsValid n c now key v)
  call-IsValid n fuel c (call_set now key value ttl) v p =
      let (returns, kept) = set_lem n c fuel now key value ttl v p in
      (after_set now key value ttl c, returns, kept)
  call-IsValid n fuel c (call_delete key) v p = (delete_key key c, refl, delete-IsValid n c key v)
  call-IsValid n fuel c call_clear v p = (clear c, refl, clear-IsValid n c v)
  call-IsValid n fuel c (call_cleanup now) v p =
      (cleanup now c, refl, cleanup_loop-IsValid n now c.items c v)
  call-IsValid n fuel c (call_get_or_set asked stored key ttl produced) v p =
      let c' = (get asked key c).0 in
      let valid = get-IsValid n c asked key v in
      elim (Option-cases (get asked key c).1) [
        | inr (x, hit) ↦ (c', rw (hit, get_or_set), valid)
        | inl miss ↦ elim (Option-cases produced) [
          | inl failed ↦ (c', rw (miss, get_or_set, failed), valid)
          | inr (x, made) ↦
              let (returns, kept) = set_lem n c' fuel stored key x ttl valid p in
              (after_set stored key x ttl c', rw (miss, get_or_set, made, returns), kept)
        ]
      ]

  cache-IsValid_from :
      (n fuel : ℕ) (c : Cache V) (cs : List (Call V))
      → IsValid n c
      → 0 < n
      → (c' : Cache V) × (calls (suc (suc fuel)) c cs ≡ some c') × IsValid n c'
  unfolding calls
  cache-IsValid_from n fuel c [] v p = (c, refl, v)
  cache-IsValid_from n fuel c (a ∷ cs) v p =
      let (c₁, e, v₁) = call-IsValid n fuel c a v p in
      rw (e, ◌>>=◌) (cache-IsValid_from n fuel c₁ cs v₁ p)

  new-IsValid : (config : CacheConfig) → IsValid {V = V} config.max_size (new_cache (some config))
  unfolding new_cache has lookup
  new-IsValid config = record {
    distinct_items = tt;
    distinct_lru = tt;
    agree = λ k. refl;
    limit = refl;
    bounded = omega arith;
  }

  -- With a positive MaxSize, any sequence of Get, Set, Delete, Clear, cleanup and GetOrSet calls on
  -- a new cache, at any instants, returns; the map and the list then hold the same keys, none twice,
  -- and Size is at most MaxSize. Two rounds of fuel are enough for the loop of each Set.
  pub cache-IsValid :
      (config : CacheConfig) (fuel : ℕ) (cs : List (Call V))
      → 0 < config.max_size
      → (c : Cache V) × (calls (suc (suc fuel)) (new_cache (some config)) cs ≡ some c)
        × IsValid config.max_size c
        × (size c ≤ config.max_size)
  unfolding size
  cache-IsValid config fuel cs p =
      let (c, e, v) =
        cache-IsValid_from config.max_size fuel (new_cache (some config)) cs (new-IsValid config)
          p in
      (c, e, v, omega (arith, length-items config.max_size c v, v.bounded))
