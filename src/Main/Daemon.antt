-- ===== src/Main/Daemon.antt =====
-- main.rs, the tasks of `run` side by side: the collector loop, the compactor and the sweeper. Each
-- turn of a task is a step, in whatever order the runtime takes them; a write and a compaction hold the
-- same lock of the store.
pub mod Quiet
pub mod Served
use vm_vitals.Base.{
  ℕ, ◌≡◌, Bool, true, false, ◌||◌, String, List, [], ◌∷◌, ◌++◌, map, Option, none, some, Text,
  Result, ok, err,
}
use mathlib.Core.Option
use vm_vitals.Auth.Crates.{Crates}
use vm_vitals.Auth.State.{AuthState}
use vm_vitals.Auth.Session.{sweep}
use vm_vitals.Collect.Cpu.{Float}
use vm_vitals.Store.Table.{Tables, as_i64}
use vm_vitals.Store.Compact.{Aggregate}
use vm_vitals.Store.Compact.Run.{CompactRun, try_compact}
use vm_vitals.Store.Compact.Run.Reach.{reopened}
use vm_vitals.Main.Loop.{Event, write_failed, Tick, Loop, tick, start}

-- What the tasks log.
pub data Entry : Type 0 where
  collector : Event → Entry
  compact_failed : String → Entry

module _ (Client : Type 0) (c : Crates) (fl : Float) where
  -- The variables of the collector loop, the history among them, and the state of the sign-in.
  pub record Process : Type 0 where
    pub loop : Loop Client fl
    pub auth : Option (AuthState c)

  -- A turn of a task, with what it meets: `now` is a reading of the clock.
  pub data Task : Type 0 where
    collects : Tick Client fl → Task
    compacts : (run : CompactRun) (now : ℕ) → Task
    sweeps : (now : ℕ) → Task

unfoldable pub compact_log : Result (Unit {0}) String → List Entry
compact_log (ok u) = []
compact_log (err e) = compact_failed e ∷ []

module _ {Client : Type 0} (c : Crates) (fl : Float) (rowid : List (ℕ × Text) → ℕ)
    (ag : Aggregate fl.F) where
  unfoldable pub run_task :
      Text → ℕ → Task Client c fl → Process Client c fl → Process Client c fl × List Entry
  unfolding compact_log
  run_task socket tick_secs (collects t) d =
      let (loop, events) = tick fl rowid socket tick_secs t d.loop in
      (record d { loop = loop }, map collector events)
  run_task socket tick_secs (compacts run now) d =
      let (history, compacted) = try_compact ag run (as_i64 now) d.loop.history in
      (record d { loop = record d.loop { history = history } }, compact_log compacted)
  run_task socket tick_secs (sweeps now) d =
      (record d { auth = Option.map (sweep c now) d.auth }, [])

  unfoldable pub run_tasks :
      Text → ℕ → List (Task Client c fl) → Process Client c fl → Process Client c fl × List Entry
  unfolding run_task
  run_tasks socket tick_secs [] d = (d, [])
  run_tasks socket tick_secs (t ∷ ts) d =
      let (d', entries) = run_task socket tick_secs t d in
      let (d'', entries') = run_tasks socket tick_secs ts d' in (d'', entries ++ entries')

-- The tasks before their first turns, over the tables of the file.
unfoldable pub launch :
    {Client : Type 0} (c : Crates) (fl : Float)
    → Tables fl.F
    → Option (AuthState c)
    → Process Client c fl
unfolding start reopened
launch c fl t auth = record { loop = start fl (reopened t); auth = auth }
