-- ===== src/Base/Hex.antt =====
-- auth.rs, `hex32`: 32 random bytes in lower-case hexadecimal.
use Prim.Native.Nat.{ℕ, ◌+◌, ◌-◌, ◌*◌, ◌/◌, ◌%◌, ◌<◌}
use mathlib.Core.Path.{◌≡◌, refl}
use mathlib.Core.List.{List, [], ◌∷◌}
use native.Mathlib.Omega.{arith}
use vm_vitals.Base.Tests.{ltb, if◌then◌else◌}
use vm_vitals.Base.Lists.{length, All}
use vm_vitals.Base.Texts.{Text}

-- One digit of `{:x}`.
unfoldable pub hex_digit : ℕ → ℕ
hex_digit n = if ltb n 10 then b'0' + n else b'a' + (n - 10)

-- `format!("{b:02x}")` of every byte; `rand::random()` gives the bytes.
unfoldable pub hex32 : List ℕ → Text
unfolding hex_digit
hex32 [] = []
hex32 (b ∷ bytes) = hex_digit (b / 16) ∷ hex_digit (b % 16) ∷ hex32 bytes

abbrev pub IsBytes : List ℕ → Type 0
IsBytes = All (λ b. b < 256)

pub length-hex32 : (bytes : List ℕ) → length (hex32 bytes) ≡ 2 * length bytes
unfolding hex32
length-hex32 [] = refl
length-hex32 (b ∷ bytes) = omega (arith, length-hex32 bytes)

-- Two draws that differ give tokens that differ.
pub hex32-injective : (a b : List ℕ) → IsBytes a → IsBytes b → hex32 a ≡ hex32 b → a ≡ b
unfolding hex32
hex32-injective [] [] p q h = refl
hex32-injective [] (y ∷ b) p q h = ground arith
hex32-injective (x ∷ a) [] p q h = ground arith
hex32-injective (x ∷ a) (y ∷ b) p q h = ground (arith, hex32-injective a b p.1 q.1)
