-- ===== src/Web/Series.antt =====
-- web.rs, `series`: the checks of a query and the resolution it is answered at.
use vm_vitals.Base.{
  ℕ, ◌-◌, ◌^◌, ◌≡◌, refl, ap, ◌⊎◌, inl, inr, true, String, Option, none, some, arith, if◌then◌else◌,
  Bool-cases, Text, Result, ok, err, Result-cases,
}
use vm_vitals.Base.Http.{Status, Reject}
use vm_vitals.Base.Int.{ℤ, pos, negsuc, ◌≤ℤ◌, ◌-ℤ◌, ltb_ℤ}
use vm_vitals.Store.Buckets.{pick_res, is_valid_res, raw, five_min, hour}

abbrev pub max_points : ℕ
max_points = 20000

pub record SeriesQuery : Type 0 where
  pub metric : Text
  pub from : ℤ
  pub to : ℤ
  pub res : Option ℤ

-- `a.saturating_sub(b)` on `i64`.
unfoldable pub saturating_sub : ℤ → ℤ → ℤ
saturating_sub a b =
    let d = a -ℤ b in
    if ltb_ℤ (pos (2 ^ 63 - 1)) d
    then pos (2 ^ 63 - 1)
    else if ltb_ℤ d (negsuc (2 ^ 63 - 1))
    then negsuc (2 ^ 63 - 1)
    else d

unfoldable pub choose_res : Option ℤ → ℤ → Result ℤ Reject
choose_res none span = ok (pos (pick_res span))
choose_res (some r) span =
    if is_valid_res r then ok r else err (Status.bad_request, "res must be one of 15, 300, 3600")

-- What `series` asks of the store: metric, from, to, resolution and limit.
pub record StoreQuery : Type 0 where
  pub metric : Text
  pub from : ℤ
  pub to : ℤ
  pub res : ℤ
  pub limit : ℕ

to_query : SeriesQuery → Result ℤ Reject → Result StoreQuery Reject
to_query q (err e) = err e
to_query q (ok r) =
    ok (record { metric = q.metric; from = q.from; to = q.to; res = r; limit = max_points })

unfoldable pub checked_query : SeriesQuery → Result StoreQuery Reject
unfolding to_query choose_res saturating_sub
checked_query q =
    if ltb_ℤ q.to q.from
    then err (Status.bad_request, "to must be >= from")
    else to_query q (choose_res q.res (saturating_sub q.to q.from))

-- `run` is the read of the store; `none` is a task that failed.
unfoldable pub answer :
    {S : Type 0}
    → (StoreQuery → Option (Result S String))
    → Result StoreQuery Reject
    → Result (ℤ × S) Reject
answer run (err e) = err e
answer run (ok q) = elim (run q) [
  | some (ok s) ↦ ok (q.res, s)
  | some (err e) ↦ err (Status.internal_server_error, "query failed")
  | none ↦ err (Status.internal_server_error, "query failed")
]

-- The resolutions that there are.
abbrev pub IsTier : ℤ → Type 0
IsTier r = (r ≡ pos raw) ⊎ (r ≡ pos five_min) ⊎ (r ≡ pos hour)

is_valid_res-IsTier : (r : ℤ) → is_valid_res r ≡ true → IsTier r
unfolding is_valid_res
is_valid_res-IsTier (pos n) h = ground arith
is_valid_res-IsTier (negsuc n) h = absurd (ground arith)

pick_res-IsTier : (s : ℤ) → IsTier (pos (pick_res s))
unfolding pick_res
pick_res-IsTier s = ground arith

choose_res-IsTier :
    (o : Option ℤ) (span r : ℤ) → choose_res o span ≡ ok r → IsTier r × ((o ≡ none) ⊎ (o ≡ some r))
unfolding choose_res
choose_res-IsTier none span r h =
    let e : r ≡ pos (pick_res span) = ground arith in (rw e (pick_res-IsTier span), inl refl)
choose_res-IsTier (some q) span r h = elim (Bool-cases (is_valid_res q)) [
  | inl v ↦ let e : q ≡ r = ground arith in (rw (← e) (is_valid_res-IsTier q v), inr (ap some e))
  | inr v ↦ absurd (ground arith)
]

-- A query reaches the store only with its range in order, one of the three resolutions, the one it
-- asked for if it asked for one, its own metric and bounds, and the limit of 20,000 points.
pub checked_query_sound :
    (q : SeriesQuery) (s : StoreQuery)
    → checked_query q ≡ ok s
    → (q.from ≤ℤ q.to)
      × IsTier s.res
      × ((q.res ≡ none) ⊎ (q.res ≡ some s.res))
      × (s.metric ≡ q.metric)
      × (s.from ≡ q.from)
      × (s.to ≡ q.to)
      × (s.limit ≡ max_points)
unfolding checked_query
checked_query_sound q s h = elim (Bool-cases (ltb_ℤ q.to q.from)) [
  | inl back ↦ absurd (ground arith)
  | inr order ↦ elim (Result-cases (choose_res q.res (saturating_sub q.to q.from))) [
    | inr (x, e) ↦ let h' = rw (order, e) at h in absurd (ground arith)
    | inl (r, e) ↦
        let h' = rw (order, e) at h in
        let r_is : s.res ≡ r = ground arith in
        let (tier, asked) = choose_res-IsTier q.res (saturating_sub q.to q.from) r e in
        (
          ground arith,
          rw r_is tier,
          rw r_is asked,
          ground arith,
          ground arith,
          ground arith,
          ground arith,
        )
  ]
]
