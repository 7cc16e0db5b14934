-- ===== src/Main/Loop/Warnings.antt =====
-- main.rs, the collector loop: the warning that there is no Docker is given once per loss.
use vm_vitals.Base.{
  ℕ, ◌≡◌, refl, ◌∙◌, inl, inr, Bool, true, false, not, ◌&&◌, String, List, [], ◌∷◌, ◌++◌, Option,
  none, some, is_some, arith, Bool-cases, Text, Result, ok, err,
}
use vm_vitals.Collect.Cpu.{Float}
use vm_vitals.Store.Table.{History}
use vm_vitals.Main.Loop.{
  Event, connected, no_docker, docker_failed, write_failed, Tick, Loop, connect_docker, reconnect,
  try_connect, collect_and_write, docker_log, write_log, tick, ticks, start,
}

-- No warning follows a warning without a connection in between. The argument says whether one stands.
unfoldable pub warns_once : Bool → List Event → Bool
warns_once w [] = true
warns_once w (connected ∷ es) = warns_once false es
warns_once w (no_docker e ∷ es) = not w && warns_once true es
warns_once w (docker_failed e ∷ es) = warns_once w es
warns_once w (write_failed e ∷ es) = warns_once w es

-- Whether a warning stands after the events.
stands : Bool → List Event → Bool
stands w [] = w
stands w (connected ∷ es) = stands false es
stands w (no_docker e ∷ es) = stands true es
stands w (docker_failed e ∷ es) = stands w es
stands w (write_failed e ∷ es) = stands w es

warns_once-append :
    (w : Bool) (es fs : List Event)
    → warns_once w es ≡ true
    → warns_once (stands w es) fs ≡ true
    → warns_once w (es ++ fs) ≡ true
unfolding warns_once stands
warns_once-append w [] fs h k = k
warns_once-append w (connected ∷ es) fs h k = warns_once-append false es fs h k
warns_once-append w (no_docker e ∷ es) fs h k =
    let rest = warns_once-append true es fs (ground arith) k in ground arith
warns_once-append w (docker_failed e ∷ es) fs h k = warns_once-append w es fs h k
warns_once-append w (write_failed e ∷ es) fs h k = warns_once-append w es fs h k

stands-append : (w : Bool) (es fs : List Event) → stands w (es ++ fs) ≡ stands (stands w es) fs
unfolding stands
stands-append w [] fs = refl
stands-append w (connected ∷ es) fs = stands-append false es fs
stands-append w (no_docker e ∷ es) fs = stands-append true es fs
stands-append w (docker_failed e ∷ es) fs = stands-append w es fs
stands-append w (write_failed e ∷ es) fs = stands-append w es fs

-- The events keep the order of warnings, and the loop remembers whether one stands.
record Agrees (w w' : Bool) (es : List Event) : Type 0 where
  once : warns_once w es ≡ true
  remembered : stands w es ≡ w'

Agrees-append :
    (w w' w'' : Bool) (es fs : List Event)
    → Agrees w w' es
    → Agrees w' w'' fs
    → Agrees w w'' (es ++ fs)
Agrees-append w w' w'' es fs a b = record {
  once = warns_once-append w es fs a.once (rw a.remembered b.once);
  remembered = stands-append w es fs ∙ rw a.remembered b.remembered;
}

silent : (w : Bool) → Agrees w w []
unfolding warns_once stands
silent w = record { once = refl; remembered = refl }

write_log-Agrees : (w : Bool) (r : Result (Unit {0}) String) → Agrees w w (write_log r)
unfolding write_log warns_once stands
write_log-Agrees w (ok u) = silent w
write_log-Agrees w (err e) = record { once = refl; remembered = refl }

module _ {Client : Type 0} (fl : Float) where
  docker_log-Agrees :
      (w : Bool) (d : Option Client) (e : Option Text) → Agrees w w (docker_log fl d e)
  unfolding docker_log warns_once stands
  docker_log-Agrees w none e = silent w
  docker_log-Agrees w (some d) none = silent w
  docker_log-Agrees w (some d) (some e) = record { once = refl; remembered = refl }

  try_connect-Agrees :
      (r : Result Client String) (l : Loop Client fl)
      → Agrees l.warned (try_connect fl r l).0.warned (try_connect fl r l).1
  unfolding try_connect warns_once stands
  try_connect-Agrees (ok d) l = record { once = refl; remembered = refl }
  try_connect-Agrees (err e) l = elim (Bool-cases l.warned) [
    | inl w ↦ rw w (silent true)
    | inr w ↦ rw w (record { once = refl; remembered = refl })
  ]

  reconnect-Agrees :
      (socket : Text) (t : Tick Client fl) (l : Loop Client fl)
      → Agrees l.warned (reconnect fl socket t l).0.warned (reconnect fl socket t l).1
  unfolding reconnect
  reconnect-Agrees socket t l = elim (Bool-cases (is_some l.docker)) [
    | inl d ↦ rw d (silent l.warned)
    | inr d ↦ rw d (try_connect-Agrees (connect_docker t.connect socket) l)
  ]

module _ {Client : Type 0} (fl : Float) (rowid : List (ℕ × Text) → ℕ) where
  open fl use {F}

  tick-Agrees :
      (socket : Text) (tick_secs : ℕ) (t : Tick Client fl) (l : Loop Client fl)
      → let after = tick fl rowid socket tick_secs t l in Agrees l.warned after.0.warned after.1
  unfolding tick collect_and_write
  tick-Agrees socket tick_secs t l =
      let l' = (reconnect fl socket t l).0 in
      Agrees-append l.warned l'.warned l'.warned (reconnect fl socket t l).1 _
        (reconnect-Agrees fl socket t l)
        (Agrees-append l'.warned l'.warned l'.warned _ _
          (docker_log-Agrees fl l'.warned l'.docker _) (write_log-Agrees l'.warned _))

  ticks-Agrees :
      (socket : Text) (tick_secs : ℕ) (ts : List (Tick Client fl)) (l : Loop Client fl)
      → let after = ticks fl rowid socket tick_secs ts l in Agrees l.warned after.0.warned after.1
  unfolding ticks
  ticks-Agrees socket tick_secs [] l = silent l.warned
  ticks-Agrees socket tick_secs (t ∷ ts) l =
      let l' = (tick fl rowid socket tick_secs t l).0 in
      Agrees-append l.warned l'.warned _ (tick fl rowid socket tick_secs t l).1 _
        (tick-Agrees socket tick_secs t l) (ticks-Agrees socket tick_secs ts l')

  -- Over any number of ticks from the start of the loop, however Docker comes and goes, the log never
  -- has two warnings that there is no Docker without a connection between them.
  pub ticks-warns_once :
      (socket : Text) (tick_secs : ℕ) (ts : List (Tick Client fl)) (h : History F)
      → warns_once false (ticks fl rowid socket tick_secs ts (start fl h)).1 ≡ true
  unfolding start
  ticks-warns_once socket tick_secs ts h = (ticks-Agrees socket tick_secs ts (start fl h)).once
