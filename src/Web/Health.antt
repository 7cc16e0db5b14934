-- ===== src/Web/Health.antt =====
-- web.rs, `healthz`, with the age of a snapshot of collect/mod.rs and the staleness limit of main.rs.
use vm_vitals.Base.{
  ℕ, ◌+◌, ◌-◌, ◌*◌, ◌^◌, ◌≤◌, ◌≡◌, refl, ◌↔◌, ◌⊎◌, Option, none, some, arith, ltb, if◌then◌else◌,
  is_some, Text, min, max,
}
use vm_vitals.Base.Http.{Status}

-- What `healthz` reads of the published snapshot.
pub record Published : Type 0 where
  pub ts : ℕ
  pub docker_error : Option Text
  pub stale_after_secs : ℕ

-- `now_secs().saturating_sub(self.ts)`.
unfoldable pub age_secs : ℕ → Published → ℕ
age_secs now s = now - s.ts

-- `tick.as_secs().saturating_mul(3).max(30)`, on u64.
unfoldable pub stale_after : ℕ → ℕ
stale_after tick_secs = max (min (tick_secs * 3) (2 ^ 64 - 1)) 30

-- The text of the answer, with its numbers and reason.
pub data Answer : Type 0 where
  starting : Answer
  stale : ℕ → Answer
  degraded : Option Text → Answer
  healthy : Answer

-- `now` is what the test reads, `now'` what the message reads.
unfoldable pub healthz : ℕ → ℕ → Option Published → Status × Answer
unfolding age_secs
healthz now now' none = (Status.service_unavailable, starting)
healthz now now' (some s) =
    if ltb s.stale_after_secs (age_secs now s)
    then (Status.service_unavailable, stale (age_secs now' s))
    else if is_some s.docker_error
    then (Status.service_unavailable, degraded s.docker_error)
    else (Status.ok, healthy)

-- The collector is alive: it has published, not longer ago than its limit, and it saw Docker.
pub record IsFresh (now : ℕ) (snapshot : Option Published) : Type 0 where
  pub last : Published
  pub published : snapshot ≡ some last
  pub recent : now ≤ last.ts + last.stale_after_secs
  pub sees_docker : last.docker_error ≡ none

healthz-IsFresh :
    (now now' : ℕ) (o : Option Published) → (healthz now now' o).0 ≡ Status.ok → IsFresh now o
unfolding healthz
healthz-IsFresh now now' none h = absurd (ground arith)
healthz-IsFresh now now' (some s) h = record {
  last = s;
  published = refl;
  recent = ground arith;
  sees_docker = ground arith;
}

fresh-healthz :
    (now now' : ℕ) (o : Option Published) → IsFresh now o → (healthz now now' o).0 ≡ Status.ok
unfolding healthz
fresh-healthz now now' o f = ground arith

-- `healthz` answers 200 exactly when a snapshot has been published, is not older than its limit, and
-- has no Docker error; otherwise 503.
pub healthz_iff :
    (now now' : ℕ) (o : Option Published)
    → (((healthz now now' o).0 ≡ Status.ok) ↔ IsFresh now o)
      × (((healthz now now' o).0 ≡ Status.ok)
          ⊎ ((healthz now now' o).0 ≡ Status.service_unavailable))
unfolding healthz
healthz_iff now now' o = ((healthz-IsFresh now now' o, fresh-healthz now now' o), ground arith)
