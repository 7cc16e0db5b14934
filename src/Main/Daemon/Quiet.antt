-- ===== src/Main/Daemon/Quiet.antt =====
-- main.rs and store.rs: the store under the tasks of the daemon, as long as no write is logged as
-- failed.
use vm_vitals.Base.{
  ℕ, ◌≡◌, refl, ap, ◌∙◌, sym, Bool, true, false, ◌||◌, inl, inr, String, List, [], ◌∷◌, ◌++◌, map,
  Option, arith, Text, Result, ok, err, any, Result-cases,
}
use vm_vitals.Auth.Crates.{Crates}
use vm_vitals.Auth.State.{AuthState}
use vm_vitals.Collect.Cpu.{Float}
use vm_vitals.Store.Table.{History, as_i64, try_write}
use vm_vitals.Store.Table.Sound.{IsFresh, Sound}
use vm_vitals.Store.Compact.{Aggregate}
use vm_vitals.Store.Compact.Run.{try_compact}
use vm_vitals.Store.Compact.Run.Reach.{Reach, wrote, compacted, gave_up, restarted, Reach-Sound}
use vm_vitals.Main.Points.{sample_points}
use vm_vitals.Main.Loop.{
  Event, connected, no_docker, docker_failed, write_failed, Tick, Loop, reconnect, take_snapshot,
  write_log, docker_log, collect_and_write, tick, start,
}
use vm_vitals.Main.Loop.Stored.{reconnect-history, tick-history}
use vm_vitals.Main.Daemon.{
  launch, Entry, collector, compact_failed, Process, Task, collects, compacts, sweeps, run_task,
  run_tasks,
}

-- An entry about a write that failed.
unfoldable pub is_lost : Entry → Bool
is_lost (collector (write_failed e)) = true
is_lost (collector connected) = false
is_lost (collector (no_docker e)) = false
is_lost (collector (docker_failed e)) = false
is_lost (compact_failed e) = false

any-append : (xs ys : List Entry) → any is_lost (xs ++ ys) ≡ (any is_lost xs || any is_lost ys)
any-append [] ys = refl
any-append (x ∷ xs) ys = ground (arith, any-append xs ys)

none_lost-left : (xs ys : List Entry) → any is_lost (xs ++ ys) ≡ false → any is_lost xs ≡ false
none_lost-left xs ys h = ground (arith, any-append xs ys)

none_lost-right : (xs ys : List Entry) → any is_lost (xs ++ ys) ≡ false → any is_lost ys ≡ false
none_lost-right xs ys h = ground (arith, any-append xs ys)

map-append : (xs ys : List Event) → map collector (xs ++ ys) ≡ map collector xs ++ map collector ys
map-append [] ys = refl
map-append (x ∷ xs) ys = ap (λ zs. collector x ∷ zs) (map-append xs ys)

write_log_quiet :
    (w : Result (Unit {0}) String) → any is_lost (map collector (write_log w)) ≡ false → w ≡ ok tt
unfolding write_log is_lost
write_log_quiet (ok u) h = refl
write_log_quiet (err e) h = absurd (ground arith)

log_quiet :
    (xs ys : List Event) (w : Result (Unit {0}) String)
    → any is_lost (map collector (xs ++ (ys ++ write_log w))) ≡ false
    → w ≡ ok tt
log_quiet xs ys w h =
    let after = rw (map-append xs (ys ++ write_log w)) at h in
    let inner = none_lost-right (map collector xs) (map collector (ys ++ write_log w)) after in
    let split = rw (map-append ys (write_log w)) at inner in
    write_log_quiet w (none_lost-right (map collector ys) (map collector (write_log w)) split)

module _ {Client : Type 0} (c : Crates) (fl : Float) (rowid : List (ℕ × Text) → ℕ)
    (ag : Aggregate fl.F) where
  -- A tick that logs no failed write has written.
  tick-written :
      (socket : Text) (tick_secs : ℕ) (t : Tick Client fl) (l : Loop Client fl)
      → any is_lost (map collector (tick fl rowid socket tick_secs t l).1) ≡ false
      → let s = (take_snapshot fl tick_secs t (reconnect fl socket t l).0).1 in
        (try_write fl rowid t.run s.ts (sample_points fl s) l.history).1 ≡ ok tt
  unfolding tick collect_and_write
  tick-written socket tick_secs t l h =
      let s = (take_snapshot fl tick_secs t (reconnect fl socket t l).0).1 in
      let written =
        log_quiet (reconnect fl socket t l).1
          (docker_log fl (reconnect fl socket t l).0.docker s.docker_error) _ h in
      sym (
        ap (λ x. (try_write fl rowid t.run s.ts (sample_points fl s) x).1)
          (reconnect-history fl rowid socket t l))
      ∙ written

  run_task-Reach :
      (socket : Text) (tick_secs : ℕ) (t : Task Client c fl) (d : Process Client c fl)
      → Reach fl rowid ag true d.loop.history
      → any is_lost (run_task c fl rowid ag socket tick_secs t d).1 ≡ false
      → Reach fl rowid ag true (run_task c fl rowid ag socket tick_secs t d).0.loop.history
  unfolding run_task
  run_task-Reach socket tick_secs (collects t) d r h =
      let s = (take_snapshot fl tick_secs t (reconnect fl socket t d.loop).0).1 in
      rw (tick-history fl rowid socket tick_secs t d.loop s (unfold tick collect_and_write in refl))
        (wrote t.run s.ts (sample_points fl s) r (tick-written socket tick_secs t d.loop h))
  run_task-Reach socket tick_secs (compacts run now) d r h =
      elim (Result-cases (try_compact ag run (as_i64 now) d.loop.history).1) [
        | inl (u, e) ↦ compacted run (as_i64 now) r e
        | inr (x, e) ↦ gave_up run (as_i64 now) x r e
      ]
  run_task-Reach socket tick_secs (sweeps now) d r h = r

  run_tasks-Reach :
      (socket : Text) (tick_secs : ℕ) (ts : List (Task Client c fl)) (d : Process Client c fl)
      → Reach fl rowid ag true d.loop.history
      → any is_lost (run_tasks c fl rowid ag socket tick_secs ts d).1 ≡ false
      → Reach fl rowid ag true (run_tasks c fl rowid ag socket tick_secs ts d).0.loop.history
  unfolding run_tasks
  run_tasks-Reach socket tick_secs [] d r h = r
  run_tasks-Reach socket tick_secs (t ∷ ts) d r h =
      let first = run_task c fl rowid ag socket tick_secs t d in
      let rest = (run_tasks c fl rowid ag socket tick_secs ts first.0).1 in
      run_tasks-Reach socket tick_secs ts first.0
        (run_task-Reach socket tick_secs t d r (none_lost-left first.1 rest h))
        (none_lost-right first.1 rest h)

  -- Where SQLite gives fresh ids: from a store that is opened over tables that an earlier run
  -- left, in whatever order the collector, the compactor and the sweeper take their turns, and
  -- whichever compactions fail, as long as no write is logged as failed, the store stays in order
  -- and its memo agrees with the table of names.
  pub run_tasks-Sound :
      IsFresh rowid
      → (socket : Text) (tick_secs : ℕ) (ts : List (Task Client c fl)) (b : Bool) (h : History fl.F)
        (auth : Option (AuthState c))
      → Reach fl rowid ag b h
      → any is_lost (run_tasks c fl rowid ag socket tick_secs ts (launch c fl h.tables auth)).1
        ≡ false
      → Sound
          (run_tasks c fl rowid ag socket tick_secs ts (launch c fl h.tables auth)).0.loop.history
  unfolding launch start
  run_tasks-Sound fresh socket tick_secs ts b h auth r quiet =
      Reach-Sound fl rowid ag fresh (run_tasks-Reach socket tick_secs ts _ (restarted r) quiet)
