-- ===== src/Store/Buckets.antt =====
-- store.rs: the three resolutions, and the boundary of a bucket. Times are `i64` as integers: the
-- sum in `ceil_bucket` stays inside an `i64` for times up to 2 ^ 63 - 3600.
use native.Mathlib.Nat.{div-add-mod, mod-lt}
use vm_vitals.Base.{
  ℕ, zero, suc, ◌+◌, ◌-◌, ◌*◌, ◌/◌, ◌≤◌, ◌<◌, ◌≡◌, ◌↔◌, Bool, ◌||◌, arith, ◌==◌, if◌then◌else◌,
}
use vm_vitals.Base.Int.{ℤ, pos, negsuc, ◌≤ℤ◌, leb_ℤ, eq_ℤ}

abbrev pub raw : ℕ
raw = 15

abbrev pub five_min : ℕ
five_min = 300

abbrev pub hour : ℕ
hour = 3600

-- The smallest bucket boundary that is not before the time.
unfoldable pub ceil_bucket : ℤ → ℕ → ℤ
ceil_bucket (negsuc n) width = pos 0
ceil_bucket (pos t) width = if t == 0 then pos 0 else pos ((t + width - 1) / width * width)

unfoldable pub pick_res : ℤ → ℕ
pick_res span_secs =
    if leb_ℤ span_secs (pos 3600)
    then raw
    else if leb_ℤ span_secs (pos 86400)
    then five_min
    else hour

unfoldable pub is_valid_res : ℤ → Bool
is_valid_res res = eq_ℤ res (pos raw) || eq_ℤ res (pos five_min) || eq_ℤ res (pos hour)

-- Not before the time, and a boundary.
ceil_up : (t w : ℕ) → 0 < w → (t ≤ (t + w - 1) / w * w) × ((t + w - 1) / w * w < t + w)
ceil_up t w h = omega (arith, div-add-mod (t + w - 1) w, mod-lt (t + w - 1) h)

le_of_boundary : (a k w : ℕ) → 0 < w → a * w < k * w + w → a ≤ k
le_of_boundary a k w h lt = grind arith

mul_mono : (k j w : ℕ) → k ≤ j → k * w ≤ j * w
mul_mono k j w h = grind arith

-- A boundary that is not after a time is not after the start of the time's bucket.
pub boundary_le : (t k w : ℕ) → 0 < w → k * w ≤ t → k * w ≤ t / w * w
boundary_le t k w h p =
    let d = div-add-mod t w in
    let r = mod-lt t h in mul_mono k (t / w) w (le_of_boundary k (t / w) w h (omega (arith, d, r)))

-- `ceil_bucket` is the least boundary that is neither negative nor before the time.
pub ceil_bucket_least :
    (t : ℤ) (width : ℕ)
    → 0 < width
    → (k : ℕ) × (ceil_bucket t width ≡ pos (k * width))
      × (t ≤ℤ ceil_bucket t width)
      × ((j : ℕ) → t ≤ℤ pos (j * width) → ceil_bucket t width ≤ℤ pos (j * width))
unfolding ceil_bucket
ceil_bucket_least (negsuc n) w h = (0, ground arith, omega arith, λ j p. omega arith)
ceil_bucket_least (pos zero) w h = (0, ground arith, omega arith, λ j p. omega arith)
ceil_bucket_least (pos (suc t)) w h =
    let k = (suc t + w - 1) / w in
    let up = ceil_up (suc t) w h in
    let e : ceil_bucket (pos (suc t)) w ≡ pos (k * w) = ground arith in
    (
      k,
      e,
      rw e (omega (arith, up.0)),
      λ j p. rw e (omega (arith, mul_mono k j w (le_of_boundary k j w h (omega (arith, up.1))))),
    )

-- The number of steps of the chosen resolution in a span is at most 500 exactly for spans under 501
-- hours; for a day or less it is at most 288.
pub pick_res_points :
    (s : ℕ)
    → ((s / pick_res (pos s) ≤ 500) ↔ (s < 501 * 3600)) × (s ≤ 86400 → s / pick_res (pos s) ≤ 288)
unfolding pick_res
pick_res_points s = ((λ h. ground arith, λ h. ground arith), λ h. ground arith)
