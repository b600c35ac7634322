-- ===== src/RpcProxy/Cache.antt =====
-- Cache of pkg/rpcproxy/cache.go over any type of values. The entries of container/list are told
-- apart by their keys, so the list is a list of keys, most recently used first; an entry's element
-- is the one with its key. Each method runs under the mutex; the clock readings are arguments, in
-- nanoseconds. The loop of Set takes fuel, and `none` means that it is still running.
-- HitRate, a float, is left out.
pub mod Keys
pub mod Valid
pub mod Set
pub mod Calls
pub mod Within
pub mod Recency
use Prim.Native.String.{String}
use indexer_go.Base.{
  ℕ, zero, suc, ◌+◌, ◌*◌, Bool, true, false, List, [], ◌∷◌, Option, none, some, ◌>>=◌, ltb, leb,
  if◌then◌else◌, length,
}
use indexer_go.Base.Dict
use indexer_go.Base.Dict.{string_eq, lookup, insert, delete, remove, is_some}

pub record CacheConfig : Type 0 where
  pub max_size : ℕ
  pub default_ttl : ℕ
  pub immutable_ttl : ℕ
  pub balance_ttl : ℕ
  pub token_metadata_ttl : ℕ

abbrev pub second : ℕ
second = 1_000_000_000

unfoldable pub default_cache_config : CacheConfig
default_cache_config = record {
  max_size = 10000;
  default_ttl = 30 * second;
  immutable_ttl = 24 * 3600 * second;
  balance_ttl = 15 * second;
  token_metadata_ttl = 24 * 3600 * second;
}

pub record CacheEntry (V : Type 0) : Type 0 where
  pub value : V
  pub expires_at : ℕ

-- now.After(e.ExpiresAt)
unfoldable pub is_expired : {V : Type 0} → ℕ → CacheEntry V → Bool
is_expired now e = ltb e.expires_at now

pub record Cache (V : Type 0) : Type 0 where
  pub max_size : ℕ
  pub items : List (String × CacheEntry V)
  pub lru : List String
  pub config : CacheConfig
  pub hits : ℕ
  pub misses : ℕ
  pub evictions : ℕ

-- c.lru.Back()
unfoldable pub back : List String → Option String
back [] = none
back (k ∷ []) = some k
back (k ∷ j ∷ ks) = back (j ∷ ks)

module _ {V : Type 0} where
  -- NewCache; its cleanup goroutine is a call of cleanup at some later time.
  unfoldable pub new_cache : Option CacheConfig → Cache V
  unfolding default_cache_config
  new_cache given =
      let config : CacheConfig = elim given [ none ↦ default_cache_config | some c ↦ c ] in
      record {
        max_size = config.max_size;
        items = [];
        lru = [];
        config = config;
        hits = 0;
        misses = 0;
        evictions = 0;
      }

  unfoldable pub remove_entry : String → Cache V → Cache V
  remove_entry key c = record c { lru = remove key c.lru; items = delete key c.items }

  -- lru.MoveToFront(entry.element)
  unfoldable pub move_to_front : String → Cache V → Cache V
  move_to_front key c = record c { lru = key ∷ remove key c.lru }

  -- Get once the entry has been found.
  unfoldable pub get_entry : ℕ → String → CacheEntry V → Cache V → Cache V × Option V
  unfolding is_expired remove_entry move_to_front
  get_entry now key e c =
      if is_expired now e
      then (let left = remove_entry key c in (record left { misses = left.misses + 1 }, none))
      else (let moved = move_to_front key c in
          (record moved { hits = moved.hits + 1 }, some e.value))

  unfoldable pub get : ℕ → String → Cache V → Cache V × Option V
  unfolding get_entry
  get now key c = elim (lookup key c.items) [
    | none ↦ (record c { misses = c.misses + 1 }, none)
    | some e ↦ get_entry now key e c
  ]

  unfoldable pub evict_oldest : Cache V → Cache V
  unfolding back remove_entry
  evict_oldest c = elim (back c.lru) [
    | none ↦ c
    | some key ↦ let left = remove_entry key c in record left { evictions = left.evictions + 1 }
  ]

  -- for c.lru.Len() >= c.maxSize { c.evictOldest() }
  unfoldable pub evict_loop : ℕ → Cache V → Option (Cache V)
  unfolding evict_oldest
  evict_loop zero c = none
  evict_loop (suc fuel) c =
      let rest = evict_loop fuel (evict_oldest c) in
      if leb c.max_size (length c.lru) then rest else some c

  -- The entry that Set writes.
  unfoldable pub entry_at : ℕ → V → ℕ → CacheEntry V
  entry_at now value ttl = record { value = value; expires_at = now + ttl }

  unfoldable pub set : ℕ → ℕ → String → V → ℕ → Cache V → Option (Cache V)
  unfolding evict_loop entry_at move_to_front
  set fuel now key value ttl c = elim (lookup key c.items) [
    | some _ ↦
        let c' = record c { items = insert key (entry_at now value ttl) c.items } in
        some (move_to_front key c')
    | none ↦ do
      room ← evict_loop fuel c
      some (record room {
        lru = key ∷ room.lru;
        items = insert key (entry_at now value ttl) room.items;
      })
  ]

  unfoldable pub set_with_default_ttl : ℕ → ℕ → String → V → Cache V → Option (Cache V)
  set_with_default_ttl fuel now key value c = set fuel now key value c.config.default_ttl c

  unfoldable pub set_immutable : ℕ → ℕ → String → V → Cache V → Option (Cache V)
  set_immutable fuel now key value c = set fuel now key value c.config.immutable_ttl c

  unfoldable pub set_balance : ℕ → ℕ → String → V → Cache V → Option (Cache V)
  set_balance fuel now key value c = set fuel now key value c.config.balance_ttl c

  unfoldable pub set_token_metadata : ℕ → ℕ → String → V → Cache V → Option (Cache V)
  set_token_metadata fuel now key value c = set fuel now key value c.config.token_metadata_ttl c

  -- Delete
  unfoldable pub delete_key : String → Cache V → Cache V
  unfolding remove_entry
  delete_key key c = if is_some (lookup key c.items) then remove_entry key c else c

  unfoldable pub clear : Cache V → Cache V
  clear c = record c { items = []; lru = [] }

  unfoldable pub size : Cache V → ℕ
  size c = length c.items

  unfoldable pub stats : Cache V → ℕ × ℕ × ℕ × ℕ
  stats c = (c.hits, c.misses, c.evictions, length c.items)

  -- The loop of cleanup over the entries, in any order.
  unfoldable pub cleanup_loop : ℕ → List (String × CacheEntry V) → Cache V → Cache V
  unfolding is_expired remove_entry
  cleanup_loop now [] c = c
  cleanup_loop now ((key, e) ∷ es) c =
      cleanup_loop now es (if is_expired now e then remove_entry key c else c)

  unfoldable pub cleanup : ℕ → Cache V → Cache V
  unfolding cleanup_loop
  cleanup now c = cleanup_loop now c.items c

  -- GetOrSet: what fn returns is an argument, an error as `none`. The result is the value and
  -- whether it was cached; the inner `none` is the error. Get and Set each take the mutex; no other
  -- call comes between them here.
  unfoldable pub get_or_set :
      ℕ → ℕ → ℕ → String → ℕ → Option V → Cache V → Option (Cache V × Option (V × Bool))
  get_or_set fuel asked stored key ttl produced c =
      let (c', found) = get asked key c in
      elim found [
        | some v ↦ some (c', some (v, true))
        | none ↦ elim produced [
          | none ↦ some (c', none)
          | some v ↦ set fuel stored key v ttl c' >>= λ c''. some (c'', some (v, false))
        ]
      ]
