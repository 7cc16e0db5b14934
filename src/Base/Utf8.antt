-- ===== src/Base/Utf8.antt =====
-- `str::as_bytes`: the UTF-8 encoding of a text.
use Prim.Native.Nat.{ℕ, ◌+◌, ◌/◌, ◌%◌, ◌<◌}
use mathlib.Core.Path.{◌≡◌, refl, sym}
use mathlib.Core.List.{List, [], ◌∷◌, ◌++◌}
use native.Mathlib.Omega.{arith}
use vm_vitals.Base.Tests.{ltb, if◌then◌else◌}
use vm_vitals.Base.Lists.{All}
use vm_vitals.Base.Texts.{Text}

-- The encoding of one code point.
unfoldable pub encode_char : ℕ → List ℕ
encode_char c =
    if ltb c 0x80
    then c ∷ []
    else if ltb c 0x800
    then (0xC0 + c / 64) ∷ (0x80 + c % 64) ∷ []
    else if ltb c 0x10000
    then (0xE0 + c / 4096) ∷ (0x80 + c / 64 % 64) ∷ (0x80 + c % 64) ∷ []
    else (0xF0 + c / 262144) ∷ (0x80 + c / 4096 % 64) ∷ (0x80 + c / 64 % 64) ∷ (0x80 + c % 64) ∷ []

-- `s.as_bytes()`.
unfoldable pub as_bytes : Text → List ℕ
as_bytes [] = []
as_bytes (c ∷ s) = encode_char c ++ as_bytes s

-- A `char` is at most 0x10FFFF.
abbrev pub IsText : Text → Type 0
IsText = All (λ c. c < 0x110000)

encode_char_prefix :
    (c d : ℕ) (r s : List ℕ)
    → c < 0x110000
    → d < 0x110000
    → encode_char c ++ r ≡ encode_char d ++ s
    → (c ≡ d) × (r ≡ s)
unfolding encode_char
encode_char_prefix c d r s p q h = ground arith

not-nil-encode_char : (c : ℕ) (r : List ℕ) → ¬ (encode_char c ++ r ≡ [])
unfolding encode_char
not-nil-encode_char c r h = ground arith

-- Two texts with the same bytes are the same text.
pub as_bytes-injective : (s t : Text) → IsText s → IsText t → as_bytes s ≡ as_bytes t → s ≡ t
unfolding as_bytes
as_bytes-injective [] [] p q h = refl
as_bytes-injective [] (d ∷ t) p q h = absurd (not-nil-encode_char d (as_bytes t) (sym h))
as_bytes-injective (c ∷ s) [] p q h = absurd (not-nil-encode_char c (as_bytes s) h)
as_bytes-injective (c ∷ s) (d ∷ t) p q h =
    let e = encode_char_prefix c d (as_bytes s) (as_bytes t) p.0 q.0 h in
    cc (e.0, as_bytes-injective s t p.1 q.1 e.1)
