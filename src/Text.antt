-- ===== src/Text.antt =====
-- Texts as lists of bytes, and what pkg/storage/schema.go uses of the Go standard library on them:
-- %d, %020d and %06d of fmt, ParseUint of strconv, Split, HasPrefix and TrimPrefix of strings, and the
-- order of bytes.Compare, in which the store iterates over its keys.
pub mod Decimal
pub mod Split
pub mod Concat
pub mod Equality
pub mod Order
pub mod Padded
use Prim.Native.Char.{code}
use Prim.Native.String.{String}
use indexer_go.Base.{
  ℕ, zero, suc, ◌+◌, ◌-◌, ◌*◌, ◌/◌, ◌%◌, ◌^◌, Bool, true, false, ◌&&◌, List, [], ◌∷◌, ◌++◌, Option,
  none, some, ltb, leb, ◌==◌, if◌then◌else◌, length, replicate,
}

abbrev pub Bytes : Type 0
Bytes = List ℕ

-- The bytes of an ASCII text.
abbrev pub bytes : String → Bytes
bytes String.[] = []
bytes (String.◌∷◌ c s) = code c ∷ bytes s

abbrev pub slash : ℕ
slash = b'/'

-- The digits of `n`, for fuel above `n`.
unfoldable pub decimal_loop : ℕ → ℕ → Bytes
decimal_loop zero n = []
decimal_loop (suc fuel) n =
    let rest = decimal_loop fuel (n / 10) in
    if ltb n 10 then (b'0' + n) ∷ [] else rest ++ (b'0' + n % 10) ∷ []

-- fmt.Sprintf("%d", n)
unfoldable pub decimal : ℕ → Bytes
unfolding decimal_loop
decimal n = decimal_loop (suc n) n

-- fmt.Sprintf("%0<width>d", n)
unfoldable pub padded : ℕ → ℕ → Bytes
unfolding decimal
padded width n = replicate (width - length (decimal n)) b'0' ++ decimal n

abbrev pub uint64_limit : ℕ
uint64_limit = 2 ^ 64

-- The digits of strconv.ParseUint with base 10 and 64 bits, after the number `n`.
unfoldable pub parse_digits : ℕ → Bytes → Option ℕ
parse_digits n [] = some n
parse_digits n (c ∷ cs) =
    let m = n * 10 + (c - b'0') in
    let rest = parse_digits m cs in
    if leb b'0' c && leb c b'9' then (if leb uint64_limit m then none else rest) else none

-- strconv.ParseUint(s, 10, 64); an error is `none`.
unfoldable pub parse_uint : Bytes → Option ℕ
unfolding parse_digits
parse_uint [] = none
parse_uint (c ∷ cs) = parse_digits 0 (c ∷ cs)

-- strings.HasPrefix, bytes.HasPrefix
unfoldable pub has_prefix : Bytes → Bytes → Bool
has_prefix s [] = true
has_prefix [] (p ∷ ps) = false
has_prefix (c ∷ s) (p ∷ ps) = c == p && has_prefix s ps

-- What follows the prefix, where there is one.
unfoldable pub drop_prefix : Bytes → Bytes → Bytes
drop_prefix s [] = s
drop_prefix [] (p ∷ ps) = []
drop_prefix (c ∷ s) (p ∷ ps) = drop_prefix s ps

-- strings.TrimPrefix
unfoldable pub trim_prefix : Bytes → Bytes → Bytes
unfolding has_prefix drop_prefix
trim_prefix s p = if has_prefix s p then drop_prefix s p else s

abbrev add_front : ℕ → List Bytes → List Bytes
add_front c [] = (c ∷ []) ∷ []
add_front c (s ∷ ss) = (c ∷ s) ∷ ss

-- strings.Split(s, "/")
unfoldable pub split : Bytes → List Bytes
split [] = [] ∷ []
split (c ∷ cs) = let rest = split cs in if c == slash then [] ∷ rest else add_front c rest

-- bytes.Compare(a, b) < 0
unfoldable pub less : Bytes → Bytes → Bool
less a [] = false
less [] (y ∷ b) = true
less (x ∷ a) (y ∷ b) = if x == y then less a b else ltb x y
