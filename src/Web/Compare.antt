-- ===== src/Web/Compare.antt =====
-- web.rs, `ct_eq`: the comparison of secrets that does not stop at the first difference.
use Prim.Native.Nat.{bit_or, bit_xor}
use vm_vitals.Base.{
  ℕ, ◌≡◌, refl, ◌↔◌, Bool, true, false, List, [], ◌∷◌, arith, ◌==◌, if◌then◌else◌, length,
}
use vm_vitals.Base.Bits.{bit_xor-eq_zero, bit_xor_self, bit_or-eq_zero, bit_or_zero}

-- The loop over `a.iter().zip(b.iter())`, with `diff` as its accumulator.
unfoldable pub fold_diff : ℕ → List ℕ → List ℕ → ℕ
fold_diff diff [] ys = diff
fold_diff diff (x ∷ xs) [] = diff
fold_diff diff (x ∷ xs) (y ∷ ys) = fold_diff (bit_or diff (bit_xor x y)) xs ys

unfoldable pub ct_eq : List ℕ → List ℕ → Bool
unfolding fold_diff
ct_eq a b = if length a == length b then fold_diff 0 a b == 0 else false

fold_diff-eq_zero :
    (diff : ℕ) (a b : List ℕ) → length a ≡ length b → fold_diff diff a b ≡ 0 → (diff ≡ 0) × (a ≡ b)
unfolding fold_diff
fold_diff-eq_zero diff [] [] l h = (h, refl)
fold_diff-eq_zero diff [] (y ∷ b) l h = absurd (omega arith)
fold_diff-eq_zero diff (x ∷ a) [] l h = absurd (omega arith)
fold_diff-eq_zero diff (x ∷ a) (y ∷ b) l h =
    let (d, e) = fold_diff-eq_zero (bit_or diff (bit_xor x y)) a b (omega arith) h in
    let (z, w) = bit_or-eq_zero diff (bit_xor x y) d in (z, cc (bit_xor-eq_zero x y w, e))

fold_diff_self : (a : List ℕ) → fold_diff 0 a a ≡ 0
unfolding fold_diff
fold_diff_self [] = refl
fold_diff_self (x ∷ a) = rw (bit_xor_self, bit_or_zero) (fold_diff_self a)

ct_eq→eq : (a b : List ℕ) → ct_eq a b ≡ true → a ≡ b
unfolding ct_eq
ct_eq→eq a b h = ground (arith, fold_diff-eq_zero 0 a b)

pub ct_eq_self : (a : List ℕ) → ct_eq a a ≡ true
unfolding ct_eq
ct_eq_self a = ground (arith, fold_diff_self a)

-- `ct_eq` accepts exactly the equal byte strings, although it accumulates differences by `|` and
-- `^` instead of comparing.
pub ct_eq_iff : (a b : List ℕ) → (ct_eq a b ≡ true) ↔ (a ≡ b)
ct_eq_iff a b = (ct_eq→eq a b, λ e. rw (← e) (ct_eq_self a))
