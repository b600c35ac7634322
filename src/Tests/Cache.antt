-- ===== src/Tests/Cache.antt =====
-- Inputs for the theorems on the cache of pkg/rpcproxy/cache.go.
use indexer_go.Base.{ℕ, ◌+◌, ◌≤◌, ◌≡◌, refl, [], ◌∷◌, some, none, arith, ltb, if◌then◌else◌}
use indexer_go.Base.Dict.{string_eq, has, lookup, insert, remove}
use indexer_go.RpcProxy.Cache.{CacheConfig, Cache, new_cache, get, set, size, is_expired}
use indexer_go.RpcProxy.Cache.Valid.{IsValid}
use indexer_go.RpcProxy.Cache.Set.{get-set_self, set-diverges}
use indexer_go.RpcProxy.Cache.Calls.{call_get, call_set, call_cleanup, calls, cache-IsValid}
use indexer_go.RpcProxy.Cache.Recency.{recently_used_survives}

abbrev small : CacheConfig
small = record {
  max_size = 2;
  default_ttl = 30;
  immutable_ttl = 100;
  balance_ttl = 15;
  token_metadata_ttl = 100;
}

abbrev empty : Cache ℕ
empty = new_cache (some small)

-- Two entries, "b" used last.
abbrev full : Cache ℕ
full = record {
  max_size = 2;
  items =
      ("a", record { value = 1; expires_at = 30 })
      ∷ ("b", record { value = 2; expires_at = 31 })
      ∷ [];
  lru = "b" ∷ "a" ∷ [];
  config = small;
  hits = 0;
  misses = 0;
  evictions = 0;
}

filled : calls 2 empty (call_set 0 "a" 1 30 ∷ call_set 1 "b" 2 30 ∷ []) ≡ some full
unfolding calls set new_cache lookup insert remove
filled = refl

full-IsValid : IsValid 2 full
unfolding has lookup
full-IsValid = record {
  distinct_items = (refl, (refl, tt));
  distinct_lru = (refl, (refl, tt));
  agree = λ k. ground (arith, string_eq.beq_iff "a" k, string_eq.beq_iff "b" k);
  limit = refl;
  bounded = omega arith;
}

get-set_self_example :
    (c' : Cache ℕ) × (set 2 5 "c" 3 10 full ≡ some c')
    × IsValid 2 c'
    × ((get 12 "c" c').1 ≡ (if ltb (5 + 10) 12 then none else some 3))
get-set_self_example = get-set_self 2 full 0 5 "c" 3 10 12 full-IsValid (omega arith)

set-diverges_example :
    set {V = ℕ} 100 0 "a" 7 30 (new_cache (some (record small { max_size = 0 }))) ≡ none
set-diverges_example = set-diverges 100 0 "a" 7 30 (record small { max_size = 0 }) refl

cache-IsValid_example :
    (c : Cache ℕ) × (calls 2
        (new_cache (some small))
        (call_set 0 "a" 1 30 ∷ call_get 5 "a" ∷ call_cleanup 40 ∷ call_set 41 "b" 2 9 ∷ [])
      ≡ some c)
    × IsValid 2 c
    × (size c ≤ 2)
cache-IsValid_example =
    cache-IsValid small 0
      (call_set 0 "a" 1 30 ∷ call_get 5 "a" ∷ call_cleanup 40 ∷ call_set 41 "b" 2 9 ∷ [])
      (omega arith)

-- "a" is the entry used last but one; the Get saves it from the Set of "d".
recently_used_survives_example :
    (c' : Cache ℕ) × (calls 2 full (call_get 5 "a" ∷ call_set 6 "d" 4 10 ∷ []) ≡ some c')
    × ((get 12 "a" c').1 ≡ (if ltb 30 12 then none else some 1))
unfolding lookup is_expired
recently_used_survives_example =
    recently_used_survives 2 0 "a" (record { value = 1; expires_at = 30 }) full (call_get 5 "a")
      (call_set 6 "d" 4 10 ∷ []) 12 full-IsValid (refl, refl, refl) (omega arith)
      ((λ e. ground (arith, string_eq.beq_iff "d" "a")), tt)
