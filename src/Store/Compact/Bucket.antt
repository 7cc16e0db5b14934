-- ===== src/Store/Compact/Bucket.antt =====
-- store.rs, `try_compact`: the bucket of a time, described without a division.
use native.Mathlib.Nat.{div-add-mod, mod-lt}
use vm_vitals.Base.{
  ℕ, zero, suc, ◌+◌, ◌*◌, ◌/◌, ◌%◌, ◌≤◌, ◌<◌, ◌==◌, ◌≡◌, refl, Bool, true, ◌&&◌, arith, ltb, leb,
  Bool-cases, inl, inr, ap, ◌∙◌,
}
use vm_vitals.Base.Int.{ℤ, pos, negsuc, pos_part, neg_part, ◌-ℤ◌, eq_ℤ}
use vm_vitals.Store.Compact.{bucket_of}

-- A multiple of the width, less than one width from the number.
abbrev pub next_below : ℕ → ℕ → ℕ → Bool
next_below width t k = k % width == 0 && leb k t && ltb t (k + width)

-- A time is in the bucket that starts, on the side of zero, less than one width from it.
unfoldable pub in_bucket : ℕ → ℤ → ℤ → Bool
in_bucket width (pos t) b = neg_part b == 0 && next_below width t (pos_part b)
in_bucket width (negsuc t) b = pos_part b == 0 && next_below width (t + 1) (neg_part b)

multiple_mod : (x w : ℕ) → 0 < w → x * w % w ≡ 0
multiple_mod x w h = grind arith

-- Two multiples less than a width apart are one.
same_multiple : (x y w : ℕ) → 0 < w → x * w < y * w + w → y * w < x * w + w → x * w ≡ y * w
same_multiple x y w h p q =
    let a : x ≤ y = grind arith in
    let b : y ≤ x = grind arith in ap (λ z. z * w) (omega (arith, a, b))

next_below_self : (w t : ℕ) → 0 < w → next_below w t (t / w * w) ≡ true
next_below_self w t h = ground (arith, multiple_mod (t / w) w h, div-add-mod t w, mod-lt t h)

next_below_same : (w t k : ℕ) → 0 < w → next_below w t k ≡ true → t / w * w ≡ k
next_below_same w t k h e =
    let a : k % w ≡ 0 = ground arith in
    let b : k ≤ t = ground arith in
    let d : t < k + w = ground arith in
    let m = div-add-mod k w in
    let n = div-add-mod t w in
    let r = mod-lt t h in
    let k' : k / w * w ≡ k = omega (arith, m, a) in
    same_multiple (t / w) (k / w) w h (omega (arith, k', n, d)) (omega (arith, k', n, r, b)) ∙ k'

next_below-div : (w t k : ℕ) → 0 < w → (t / w * w == k) ≡ next_below w t k
next_below-div w t k h = elim (Bool-cases (next_below w t k)) [
  | inl e ↦ rw e (let s = next_below_same w t k h e in ground (arith, s))
  | inr e ↦ elim (Bool-cases (t / w * w == k)) [
    | inl s ↦
        let same : t / w * w ≡ k = ground (arith, s) in
        let e' = rw (← same) at e in absurd (let x = next_below_self w t h in ground (arith, x, e'))
    | inr s ↦ rw (e, s) refl
  ]
]

eq_ℤ-sub : (m : ℕ) (b : ℤ) → eq_ℤ (pos 0 -ℤ pos m) b ≡ (pos_part b == 0 && m == neg_part b)
unfolding ◌-ℤ◌
eq_ℤ-sub zero (pos k) = ground arith
eq_ℤ-sub zero (negsuc k) = ground arith
eq_ℤ-sub (suc m) (pos k) = ground arith
eq_ℤ-sub (suc m) (negsuc k) = ground arith

pub eq_ℤ-bucket_of : (w : ℕ) (t b : ℤ) → 0 < w → eq_ℤ (bucket_of w t) b ≡ in_bucket w t b
unfolding bucket_of in_bucket
eq_ℤ-bucket_of w (pos t) (pos k) h = ground (arith, next_below-div w t k h)
eq_ℤ-bucket_of w (pos t) (negsuc k) h = ground arith
eq_ℤ-bucket_of w (negsuc t) b h =
    rw (eq_ℤ-sub ((t + 1) / w * w) b, next_below-div w (t + 1) (neg_part b) h) refl
