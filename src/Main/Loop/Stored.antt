-- ===== src/Main/Loop/Stored.antt =====
-- main.rs and store.rs: from the snapshot of a tick to the contents of the history.
use vm_vitals.Base.{
  ℕ, ◌≡◌, refl, ◌∙◌, ap, inl, inr, String, List, some, Result, err, is_some, unwrap_or, Bool-cases,
  All, Text, ok,
}
use vm_vitals.Base.Int.{pos}
use vm_vitals.Collect.Cpu.{Float}
use vm_vitals.Collect.Snapshot.{Snapshot}
use vm_vitals.Store.Buckets.{raw}
use vm_vitals.Store.Table.{as_i64, try_write}
use vm_vitals.Store.Table.Sound.{IsFresh, Sound}
use vm_vitals.Store.Table.Content.{content, put_points}
use vm_vitals.Store.Table.Content.Write.{try_write-content}
use vm_vitals.Main.Points.{HostFigures, sample_points}
use vm_vitals.Main.Loop.{
  Tick, Loop, connect_docker, try_connect, reconnect, take_snapshot, collect_and_write, tick,
}
use vm_vitals.Store.Table.Content.Kept.{kept, pointwise_kept, put_points-kept}
use vm_vitals.Main.Points.Distinct.{NamesOk, sample_points-Distinct}

module _ {Client : Type 0} (fl : Float) (rowid : List (ℕ × Text) → ℕ) where
  open fl use {F}

  try_connect-history :
      (r : Result Client String) (l : Loop Client fl) → (try_connect fl r l).0.history ≡ l.history
  unfolding try_connect
  try_connect-history (ok d) l = refl
  try_connect-history (err e) l = elim (Bool-cases l.warned) [
    | inl w ↦ rw w refl
    | inr w ↦ rw w refl
  ]

  pub reconnect-history :
      (socket : Text) (t : Tick Client fl) (l : Loop Client fl)
      → (reconnect fl socket t l).0.history ≡ l.history
  unfolding reconnect
  reconnect-history socket t l = elim (Bool-cases (is_some l.docker)) [
    | inl d ↦ rw d refl
    | inr d ↦ rw d (try_connect-history (connect_docker t.connect socket) l)
  ]

  -- The write of a tick is that of the points of its snapshot.
  pub tick-history :
      (socket : Text) (tick_secs : ℕ) (t : Tick Client fl) (l : Loop Client fl)
      (s : Snapshot (HostFigures F) F)
      → (tick fl rowid socket tick_secs t l).0.snapshot ≡ some s
      → (tick fl rowid socket tick_secs t l).0.history
        ≡ (try_write fl rowid t.run s.ts (sample_points fl s) l.history).0
  unfolding tick collect_and_write
  tick-history socket tick_secs t l s e =
      let same : (take_snapshot fl tick_secs t (reconnect fl socket t l).0).1 ≡ s =
        ap (λ o. unwrap_or o s) e in
      let x = (take_snapshot fl tick_secs t (reconnect fl socket t l).0).1 in
      ap (λ h. (try_write fl rowid t.run x.ts (sample_points fl x) h).0)
        (reconnect-history socket t l)
      ∙ ap (λ y. (try_write fl rowid t.run y.ts (sample_points fl y) l.history).0) same

  -- From the readings to the history, where SQLite gives fresh ids: when the write of a tick
  -- succeeds, on a store in order and with containers of different names without the separator,
  -- each point of the published snapshot is found in the history under its key and the time of the
  -- tick, as a raw sample; a value that is not finite is left out, and what was there stays.
  pub tick-stored :
      IsFresh rowid
      → (socket : Text) (tick_secs : ℕ) (t : Tick Client fl) (l : Loop Client fl)
        (s : Snapshot (HostFigures F) F)
      → Sound l.history
      → (tick fl rowid socket tick_secs t l).0.snapshot ≡ some s
      → NamesOk fl s.containers
      → (try_write fl rowid t.run s.ts (sample_points fl s) l.history).1 ≡ ok tt
      → All
          (λ p.
            content (tick fl rowid socket tick_secs t l).0.history p.0 (pos raw) (as_i64 s.ts)
            ≡ kept fl (content l.history) (as_i64 s.ts) p)
          (sample_points fl s)
  tick-stored fresh socket tick_secs t l s sound e names good =
      let ts = as_i64 s.ts in
      let points = sample_points fl s in
      let f = content l.history in
      let after = content (tick fl rowid socket tick_secs t l).0.history in
      pointwise_kept fl ts f (put_points fl ts points f) after points
        (λ name.
          ap (λ h. content h name (pos raw) ts) (tick-history socket tick_secs t l s e)
          ∙ try_write-content fl rowid fresh t.run s.ts points l.history sound good name (pos raw)
              ts)
        (put_points-kept fl ts points f (sample_points-Distinct fl s names))
