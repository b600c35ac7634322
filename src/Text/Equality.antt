-- ===== src/Text/Equality.antt =====
-- Texts can be compared, so that they can be keys.
use indexer_go.Base.{◌≡◌, refl, ◌↔◌, Bool, true, false, ◌&&◌, [], ◌∷◌, arith, ◌==◌}
use indexer_go.Base.Dict.{Eq}
use indexer_go.Text.{Bytes}

abbrev pub bytes_beq : Bytes → Bytes → Bool
bytes_beq [] [] = true
bytes_beq (x ∷ a) (y ∷ b) = x == y && bytes_beq a b
bytes_beq _ _ = false

pub bytes_beq_refl : (a : Bytes) → bytes_beq a a ≡ true
bytes_beq_refl [] = refl
bytes_beq_refl (x ∷ a) = ground (arith, bytes_beq_refl a)

pub bytes_beq_sound : (a b : Bytes) → bytes_beq a b ≡ true → a ≡ b
bytes_beq_sound [] [] h = refl
bytes_beq_sound [] (y ∷ b) h = absurd (ground arith)
bytes_beq_sound (x ∷ a) [] h = absurd (ground arith)
bytes_beq_sound (x ∷ a) (y ∷ b) h =
    let ih = bytes_beq_sound a b (ground arith) in
    let heads : x ≡ y = ground arith in ground (arith, ih, heads)

pub bytes_beq_iff : (a b : Bytes) → (bytes_beq a b ≡ true) ↔ (a ≡ b)
bytes_beq_iff a b = (bytes_beq_sound a b, λ e. rw e (bytes_beq_refl b))

instance abbrev pub bytes_eq : Eq Bytes
bytes_eq = record { beq = bytes_beq; beq_iff = bytes_beq_iff }
