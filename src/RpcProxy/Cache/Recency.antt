-- ===== src/RpcProxy/Cache/Recency.antt =====
-- Least recently used: what the cache of pkg/rpcproxy/cache.go keeps over further calls.
use Prim.Native.String.{String}
use indexer_go.Base.{
  ℕ, suc, ◌+◌, ◌<◌, ◌≡◌, ◌≢◌, refl, ◌∙◌, inl, inr, false, List, [], ◌∷◌, none, some, ◌>>=◌, arith,
  ap, ltb, if◌then◌else◌, Option-cases, length, All,
}
use indexer_go.Base.Dict.{string_eq, has, remove, lookup, beq_refl}
use indexer_go.RpcProxy.Cache.{
  Cache, CacheEntry, get, move_to_front, get_entry, is_expired, entry_at,
}
use indexer_go.RpcProxy.Cache.Keys.{ahead}
use indexer_go.RpcProxy.Cache.Calls.{
  Call, call_get, call_set, call_delete, call_clear, call_cleanup, call_get_or_set, call, calls,
  get-IsValid,
}
use indexer_go.RpcProxy.Cache.Valid.{IsValid}
use indexer_go.RpcProxy.Cache.Set.{get-fresh, fresh, lookup-after_set, after_set, set_lem}
use indexer_go.RpcProxy.Cache.Within.{Within, set-Within, get-Within}

-- A Set or a Get of another key than `k`.
abbrev pub IsOther : {V : Type 0} → String → Call V → Type 0
IsOther k (call_get now key) = key ≢ k
IsOther k (call_set now key value ttl) = key ≢ k
IsOther k _ = ⊥

module _ {V : Type 0} (n fuel : ℕ) (k : String) where
  other-Within :
      (m : ℕ) (c : Cache V) (a : Call V)
      → IsValid n c
      → suc m < n
      → IsOther k a
      → Within k m c.lru
      → (c' : Cache V) × (call (suc (suc fuel)) c a ≡ some c')
        × IsValid n c'
        × Within k (suc m) c'.lru
        × (lookup k c'.items ≡ lookup k c.items)
  unfolding call
  other-Within m c (call_get now key) v room other w =
      let (back_one, same) = get-Within n k m now key c v other w in
      ((get now key c).0, refl, get-IsValid n c now key v, back_one, same)
  other-Within m c (call_set now key value ttl) v room other w =
      let (returns, valid) = set_lem n c fuel now key value ttl v (omega arith) in
      let (back_one, same) = set-Within n k m now key value ttl c v room other w in
      (after_set now key value ttl c, returns, valid, back_one, same)
  other-Within m c (call_delete key) v room other w = absurd other
  other-Within m c call_clear v room other w = absurd other
  other-Within m c (call_cleanup now) v room other w = absurd other
  other-Within m c (call_get_or_set asked stored key ttl produced) v room other w = absurd other

  others-lookup :
      (m : ℕ) (c : Cache V) (cs : List (Call V))
      → IsValid n c
      → m + length cs < n
      → All (IsOther k) cs
      → Within k m c.lru
      → (c' : Cache V) × (calls (suc (suc fuel)) c cs ≡ some c')
        × (lookup k c'.items ≡ lookup k c.items)
  unfolding calls
  others-lookup m c [] v room others w = (c, refl, refl)
  others-lookup m c (a ∷ cs) v room others w =
      let (c₁, e, v₁, w₁, same₁) = other-Within m c a v (omega arith) others.0 w in
      let (c₂, e₂, same₂) = others-lookup (suc m) c₁ cs v₁ (omega arith) others.1 w₁ in
      (c₂, rw (e, ◌>>=◌) e₂, same₂ ∙ same₁)

head_Within : (k : String) (ks : List String) → Within k 0 (k ∷ ks)
unfolding has ahead
head_Within k ks = record {
  present = ground (arith, beq_refl k);
  near = ground (arith, beq_refl k);
}

after_set-front :
    {V : Type 0} (now : ℕ) (key : String) (value : V) (ttl : ℕ) (c : Cache V)
    → Within key 0 (after_set now key value ttl c).lru
unfolding after_set move_to_front
after_set-front now key value ttl c = elim (Option-cases (lookup key c.items)) [
  | inl missing ↦ rw (missing, after_set) (head_Within key _)
  | inr (e, found) ↦ rw (found, after_set) (head_Within key _)
]

-- A call that uses `key`, after which its entry is `e`: a Set that stores it, or a Get that finds
-- it before its TTL has passed.
abbrev pub IsUse : {V : Type 0} → String → CacheEntry V → Cache V → Call V → Type 0
IsUse key e c (call_get now k) =
    (k ≡ key) × (lookup key c.items ≡ some e) × (is_expired now e ≡ false)
IsUse key e c (call_set now k value ttl) = (k ≡ key) × (e ≡ entry_at now value ttl)
IsUse key e c _ = ⊥

module _ {V : Type 0} (n fuel : ℕ) (key : String) (e : CacheEntry V) (c : Cache V) (v : IsValid n c)
    (positive : 0 < n) where
  -- After a use the key is at the front of the list, with its entry.
  use-front :
      (u : Call V)
      → IsUse key e c u
      → (c₀ : Cache V) × (call (suc (suc fuel)) c u ≡ some c₀)
        × IsValid n c₀
        × Within key 0 c₀.lru
        × (lookup key c₀.items ≡ some e)
  unfolding call get get_entry move_to_front
  use-front (call_get now k) (same, found, young) = rw same (
    (get now key c).0,
    refl,
    get-IsValid n c now key v,
    rw (found, get, young) (head_Within key (remove key c.lru)),
    rw (found, get, young) found,
  )
  use-front (call_set now k value ttl) (same, entry) =
      let (returns, valid) = set_lem n c fuel now key value ttl v positive in
      rw (same, entry)
        (
          after_set now key value ttl c,
          returns,
          valid,
          after_set-front now key value ttl c,
          lookup-after_set now key key value ttl c ∙ rw beq_refl,
        )
  use-front (call_delete k) u = absurd u
  use-front call_clear u = absurd u
  use-front (call_cleanup now) u = absurd u
  use-front (call_get_or_set asked stored k ttl produced) u = absurd u

-- On a valid cache of positive MaxSize, an entry that Set stores or that Get finds survives the
-- next MaxSize - 1 calls at least: after that many or fewer Set and Get calls on other keys, a Get
-- of its key returns its value until its TTL has passed.
pub recently_used_survives :
    {V : Type 0} (n fuel : ℕ) (key : String) (e : CacheEntry V) (c : Cache V) (u : Call V)
    (cs : List (Call V)) (later : ℕ)
    → IsValid n c
    → IsUse key e c u
    → length cs < n
    → All (IsOther key) cs
    → (c' : Cache V) × (calls (suc (suc fuel)) c (u ∷ cs) ≡ some c')
      × ((get later key c').1 ≡ (if ltb e.expires_at later then none else some e.value))
unfolding calls
recently_used_survives n fuel key e c u cs later v used short others =
    let (c₀, returns, v₀, front, there) =
      use-front n fuel key e c v (omega (arith, short)) u used in
    let (c', ran, same) = others-lookup n fuel key 0 c₀ cs v₀ (omega arith) others front in
    (c', rw (returns, ◌>>=◌) ran, get-fresh later key c' ∙ ap (fresh later) (same ∙ there))
