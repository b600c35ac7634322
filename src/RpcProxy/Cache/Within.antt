-- ===== src/RpcProxy/Cache/Within.antt =====
-- How far a key of pkg/rpcproxy/cache.go moves back in the list with one call.
use Prim.Native.String.{String}
use indexer_go.Base.{
  ℕ, suc, ◌≤◌, ◌<◌, ◌≡◌, ◌≢◌, refl, inl, inr, true, false, List, ◌∷◌, some, arith, leb, Bool-cases,
  Option-cases, length,
}
use indexer_go.Base.Dict.{lookup-delete, string_eq, ◌==◌, has, remove, lookup, has-remove}
use indexer_go.RpcProxy.Cache.{
  Cache, back, get, evict_oldest, remove_entry, move_to_front, get_entry, is_expired,
}
use indexer_go.RpcProxy.Cache.Keys.{ahead, ahead-remove-le, back-ahead}
use indexer_go.RpcProxy.Cache.Valid.{IsValid, with_room}
use indexer_go.RpcProxy.Cache.Set.{lookup-after_set, lookup-with_room, after_set}

-- `k` is in the list, with at most `m` keys in front of it.
pub record Within (k : String) (m : ℕ) (ks : List String) : Type 0 where
  pub present : has k ks ≡ true
  pub near : ahead k ks ≤ m

pub front_Within :
    (k : String) (m : ℕ) (key : String) (rest : List String)
    → (key == k) ≡ false
    → has k rest ≡ true
    → ahead k rest ≤ m
    → Within k (suc m) (key ∷ rest)
unfolding has ahead
front_Within k m key rest other h a = record { present = ground arith; near = ground arith }

module _ {V : Type 0} (n : ℕ) (k : String) where
  -- The key that a full cache evicts is not one with fewer than MaxSize - 1 keys in front of it.
  back-spared :
      (m : ℕ) (c : Cache V)
      → IsValid n c
      → suc m < n
      → Within k m c.lru
      → (last : String) → back c.lru ≡ some last
      → leb c.max_size (length c.lru) ≡ true
      → (last == k) ≡ false
  back-spared m c v room w last found full =
      ground
        (arith, string_eq.beq_iff last k, back-ahead c.lru k v.distinct_lru, found, w.near, v.limit)

  with_room-Within :
      (m : ℕ) (c : Cache V)
      → IsValid n c
      → suc m < n
      → Within k m c.lru
      → Within k m (with_room c).lru
  unfolding with_room evict_oldest remove_entry
  with_room-Within m c v room w = elim (Bool-cases (leb c.max_size (length c.lru))) [
    | inr below ↦ rw below w
    | inl full ↦ elim (Option-cases (back c.lru)) [
      | inl empty ↦ rw (full, empty, evict_oldest) w
      | inr (last, found) ↦
          let spared = back-spared m c v room w last found full in
          rw (full, found, evict_oldest)
            (record {
              present = ground (
                arith,
                has-remove last k c.lru v.distinct_lru,
                string_eq.beq_iff k last,
                string_eq.beq_iff last k,
                spared,
                w.present,
              );
              near = omega (arith, ahead-remove-le k last c.lru spared, w.near);
            })
    ]
  ]

  lookup-room :
      (m : ℕ) (c : Cache V)
      → IsValid n c
      → suc m < n
      → Within k m c.lru
      → lookup k (with_room c).items ≡ lookup k c.items
  lookup-room m c v room w = elim (Bool-cases (leb c.max_size (length c.lru))) [
    | inr below ↦ lookup-with_room k c (inl (ground arith))
    | inl full ↦
        lookup-with_room k c (
          inr λ found. ground (arith, back-spared m c v room w k found full, string_eq.beq_iff k k))
  ]

  -- One call on another key moves `k` back by one place at most.
  pub set-Within :
      (m now : ℕ) (key : String) (value : V) (ttl : ℕ) (c : Cache V)
      → IsValid n c
      → suc m < n
      → key ≢ k
      → Within k m c.lru
      → Within k (suc m) (after_set now key value ttl c).lru
        × (lookup k (after_set now key value ttl c).items ≡ lookup k c.items)
  unfolding after_set move_to_front
  set-Within m now key value ttl c v room other w =
      let apart : (key == k) ≡ false = ground (arith, string_eq.beq_iff key k) in
      let apart' : (k == key) ≡ false = ground (arith, string_eq.beq_iff k key) in
      let kept = lookup-after_set now key k value ttl c in
      elim (Option-cases (lookup key c.items)) [
        | inr (e, found) ↦ (
          rw (found, after_set)
              (front_Within k m key (remove key c.lru) apart
                (ground (arith, has-remove key k c.lru v.distinct_lru, w.present))
                (omega (arith, ahead-remove-le k key c.lru apart, w.near))),
          ground (arith, kept, found),
        )
        | inl missing ↦
            let w' = with_room-Within m c v room w in
            (
              rw (missing, after_set)
                  (front_Within k m key (with_room c).lru apart w'.present w'.near),
              ground (arith, kept, missing, lookup-room m c v room w),
            )
      ]

  pub get-Within :
      (m now : ℕ) (key : String) (c : Cache V)
      → IsValid n c
      → key ≢ k
      → Within k m c.lru
      → Within k (suc m) (get now key c).0.lru
        × (lookup k (get now key c).0.items ≡ lookup k c.items)
  unfolding get get_entry remove_entry move_to_front
  get-Within m now key c v other w =
      let apart : (key == k) ≡ false = ground (arith, string_eq.beq_iff key k) in
      let apart' : (k == key) ≡ false = ground (arith, string_eq.beq_iff k key) in
      let still : has k (remove key c.lru) ≡ true =
        ground (arith, has-remove key k c.lru v.distinct_lru, w.present) in
      let near = ahead-remove-le k key c.lru apart in
      elim (Option-cases (lookup key c.items)) [
        | inl missing ↦
            rw (missing, get) (record { present = w.present; near = omega (arith, w.near) }, refl)
        | inr (e, found) ↦ elim (Bool-cases (is_expired now e)) [
          | inl old ↦
              rw (found, get, old)
                (
                  record { present = still; near = omega (arith, near, w.near) },
                  ground (arith, lookup-delete key k c.items, apart),
                )
          | inr young ↦
              let front =
                front_Within k m key (remove key c.lru) apart still (omega (arith, near, w.near)) in
              rw (found, get, young) (record { present = front.present; near = front.near }, refl)
        ]
      ]
