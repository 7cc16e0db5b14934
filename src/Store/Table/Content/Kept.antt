-- ===== src/Store/Table/Content/Kept.antt =====
-- store.rs, the specification of a write: what is left of each point when no two have one key.
use vm_vitals.Base.{
  ◌≡◌, refl, ◌∙◌, ap, inl, inr, true, false, List, [], ◌∷◌, Option, some, arith, if◌then◌else◌,
  Bool-cases, All, Text, text_eq, text_eq_iff, text_eq_refl,
}
use vm_vitals.Base.Int.{ℤ, pos, eq_ℤ}
use vm_vitals.Collect.Cpu.{Float}
use vm_vitals.Store.Buckets.{raw}
use vm_vitals.Store.Table.Content.{Stat, Contents, put_point, put_points}

pub text_eq_sym : (s t : Text) → text_eq s t ≡ false → text_eq t s ≡ false
text_eq_sym s t h = ground (arith, text_eq_iff s t, text_eq_iff t s)

module _ {F : Type 0} where
  -- No key of the points is the name.
  abbrev pub Misses : Text → List (Text × F) → Type 0
  Misses name = All (λ p. text_eq p.0 name ≡ false)

  -- No two points have one key.
  abbrev pub PointsDistinct : List (Text × F) → Type 0
  PointsDistinct [] = Unit
  PointsDistinct (p ∷ points) = Misses p.0 points × PointsDistinct points

module _ (fl : Float) where
  open fl use {F, is_finite}

  abbrev single : F → Stat F
  single v = record { avg = v; min = v; max = v; n = 1 }

  eq_ℤ_refl : (a : ℤ) → eq_ℤ a a ≡ true
  eq_ℤ_refl a = ground arith

  put_point_other :
      (ts : ℤ) (m : Text) (v : F) (f : Contents F) (name : Text) (res t : ℤ)
      → text_eq m name ≡ false
      → put_point fl ts m v f name res t ≡ f name res t
  unfolding put_point
  put_point_other ts m v f name res t h = rw h

  put_point_here :
      (ts : ℤ) (m : Text) (v : F) (f : Contents F)
      → put_point fl ts m v f m (pos raw) ts ≡ some (single v)
  unfolding put_point
  put_point_here ts m v f = rw (text_eq_refl m, eq_ℤ_refl ts)

  put_points_missed :
      (ts : ℤ) (points : List (Text × F)) (f : Contents F) (name : Text) (res t : ℤ)
      → Misses name points
      → put_points fl ts points f name res t ≡ f name res t
  unfolding put_points
  put_points_missed ts [] f name res t h = refl
  put_points_missed ts ((m, v) ∷ points) f name res t h = elim (Bool-cases (is_finite v)) [
    | inl e ↦ rw e (
        put_points_missed ts points (put_point fl ts m v f) name res t h.1
        ∙ put_point_other ts m v f name res t h.0)
    | inr e ↦ rw e (put_points_missed ts points f name res t h.1)
  ]

  -- What is left of a point: its value, or what there was when it is not finite.
  abbrev pub kept : Contents F → ℤ → Text × F → Option (Stat F)
  kept f ts p = if is_finite p.1 then some (single p.1) else f p.0 (pos raw) ts

  kept_other :
      (ts : ℤ) (m : Text) (v : F) (f : Contents F) (p : Text × F)
      → text_eq p.0 m ≡ false
      → kept (put_point fl ts m v f) ts p ≡ kept f ts p
  kept_other ts m v f p h = rw (put_point_other ts m v f p.0 (pos raw) ts (text_eq_sym p.0 m h))

  kept_after :
      (ts : ℤ) (m : Text) (v : F) (f after : Contents F) (rest : List (Text × F))
      → Misses m rest
      → All (λ p. after p.0 (pos raw) ts ≡ kept (put_point fl ts m v f) ts p) rest
      → All (λ p. after p.0 (pos raw) ts ≡ kept f ts p) rest
  kept_after ts m v f after [] h all = tt
  kept_after ts m v f after (p ∷ rest) h all =
      (all.0 ∙ kept_other ts m v f p h.0, kept_after ts m v f after rest h.1 all.1)

  pub pointwise_kept :
      (ts : ℤ) (f after after' : Contents F) (rest : List (Text × F))
      → ((name : Text) → after' name (pos raw) ts ≡ after name (pos raw) ts)
      → All (λ p. after p.0 (pos raw) ts ≡ kept f ts p) rest
      → All (λ p. after' p.0 (pos raw) ts ≡ kept f ts p) rest
  pointwise_kept ts f after after' [] e all = tt
  pointwise_kept ts f after after' (p ∷ rest) e all =
      (e p.0 ∙ all.0, pointwise_kept ts f after after' rest e all.1)

  put_points_finite :
      (ts : ℤ) (m : Text) (v : F) (points : List (Text × F)) (f : Contents F)
      → is_finite v ≡ true
      → put_points fl ts ((m, v) ∷ points) f ≡ put_points fl ts points (put_point fl ts m v f)
  unfolding put_points
  put_points_finite ts m v points f e = rw e refl

  put_points_skipped :
      (ts : ℤ) (m : Text) (v : F) (points : List (Text × F)) (f : Contents F)
      → is_finite v ≡ false
      → put_points fl ts ((m, v) ∷ points) f ≡ put_points fl ts points f
  unfolding put_points
  put_points_skipped ts m v points f e = rw e refl

  pub put_points-kept :
      (ts : ℤ) (points : List (Text × F)) (f : Contents F)
      → PointsDistinct points
      → All (λ p. put_points fl ts points f p.0 (pos raw) ts ≡ kept f ts p) points
  put_points-kept ts [] f d = tt
  put_points-kept ts ((m, v) ∷ points) f d = elim (Bool-cases (is_finite v)) [
    | inl e ↦
        let f' = put_point fl ts m v f in
        let step = put_points_finite ts m v points f e in
        (
          rw (step, e)
              (put_points_missed ts points f' m (pos raw) ts d.0 ∙ put_point_here ts m v f),
          pointwise_kept ts f (put_points fl ts points f') (put_points fl ts ((m, v) ∷ points) f)
              points (λ name. ap (λ g. g name (pos raw) ts) step)
              (kept_after ts m v f (put_points fl ts points f') points d.0
                (put_points-kept ts points f' d.1)),
        )
    | inr e ↦
        let step = put_points_skipped ts m v points f e in
        (
          rw (step, e) (put_points_missed ts points f m (pos raw) ts d.0),
          pointwise_kept ts f (put_points fl ts points f) (put_points fl ts ((m, v) ∷ points) f)
              points (λ name. ap (λ g. g name (pos raw) ts) step) (put_points-kept ts points f d.1),
        )
  ]
