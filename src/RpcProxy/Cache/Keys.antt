-- ===== src/RpcProxy/Cache/Keys.antt =====
-- Facts on the key list of pkg/rpcproxy/cache.go: its last key, and two lists of the same keys.
use Prim.Native.String.{String}
use indexer_go.Base.{
  Bool-cases, ℕ, suc, ◌≤◌, ◌<◌, ◌≡◌, refl, inl, inr, true, false, List, [], ◌∷◌, some, arith,
  if◌then◌else◌, length,
}
use indexer_go.Base.Dict.{
  string_eq, ◌==◌, has, remove, Distinct, beq_refl, has-remove, remove-Distinct, length-remove,
}
use indexer_go.RpcProxy.Cache.{back}

pub back-has : (ks : List String) (k : String) → back ks ≡ some k → has k ks ≡ true
unfolding back has
back-has [] k h = cc
back-has (j ∷ []) k h = ground (arith, string_eq.beq_iff j k)
back-has (j ∷ i ∷ ks) k h = ground (arith, back-has (i ∷ ks) k h)

pub back_of_nonempty : (ks : List String) → 0 < length ks → (k : String) × (back ks ≡ some k)
unfolding back
back_of_nonempty [] h = absurd (omega arith)
back_of_nonempty (j ∷ []) h = (j, refl)
back_of_nonempty (j ∷ i ∷ ks) h = back_of_nonempty (i ∷ ks) (omega arith)

-- How many keys stand in front of `k`.
unfoldable pub ahead : String → List String → ℕ
ahead k [] = 0
ahead k (j ∷ ks) = if j == k then 0 else suc (ahead k ks)

pub ahead-remove-le :
    (k j : String) (ks : List String) → (j == k) ≡ false → ahead k (remove j ks) ≤ ahead k ks
unfolding ahead remove
ahead-remove-le k j [] h = omega arith
ahead-remove-le k j (i ∷ ks) h = elim (Bool-cases (i == j)) [
  | inl same ↦
      let other : (i == k) ≡ false = rw (← (string_eq.beq_iff i j).0 same) at h in
      rw (same, other) (omega arith)
  | inr differ ↦ rw differ (ground (arith, ahead-remove-le k j ks h))
]

-- The last key has all others in front of it.
pub back-ahead :
    (ks : List String) (k : String) → Distinct ks → back ks ≡ some k → suc (ahead k ks) ≡ length ks
unfolding back ahead
back-ahead [] k d h = cc
back-ahead (j ∷ []) k d h = ground (arith, string_eq.beq_iff j k)
back-ahead (j ∷ i ∷ ks) k d h =
    ground (arith, back-ahead (i ∷ ks) k d.1 h, string_eq.beq_iff j k, back-has (i ∷ ks) k h)

-- Lists of the same keys, none repeated, are equally long.
pub length_of_same :
    (xs ys : List String)
    → Distinct xs
    → Distinct ys
    → ((k : String) → has k xs ≡ has k ys)
    → length xs ≡ length ys
unfolding has
length_of_same [] [] dx dy h = refl
length_of_same [] (y ∷ ys) dx dy h = absurd (ground (arith, h y, beq_refl y))
length_of_same (x ∷ xs) ys dx dy h =
    let inside : has x ys ≡ true = ground (arith, h x, beq_refl x) in
    let ih = length_of_same xs (remove x ys) dx.1 (remove-Distinct x ys dy) λ k.
      ground (arith, h k, has-remove x k ys dy, string_eq.beq_iff x k, string_eq.beq_iff k x) in
    omega (arith, ih, length-remove x ys inside)
