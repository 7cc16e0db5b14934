-- ===== src/Main/Run.antt =====
-- main.rs, `run`, from the configuration to the server: whatever fails ends it before it serves.
pub mod Ready
pub mod Closed
use vm_vitals.Base.{ℕ, Bool, String, Option, Text, Result, ok, err}
use vm_vitals.Auth.Crates.{Crates}
use vm_vitals.Auth.State.{AuthState, Env, Disk}
use vm_vitals.Auth.Persist.{new}
use vm_vitals.Collect.Cpu.{Float}
use vm_vitals.Config.{Raw, Config, load}
use vm_vitals.Store.Table.{Tables}
use vm_vitals.Store.Open.{File, Opening, open_store}
use vm_vitals.Main.Startup.{IpAddr, startup}
use vm_vitals.Main.Daemon.{Process, launch}

-- What the start meets outside: the environment, the decoded file, the creation of the data
-- directory, what `AuthState::new` meets, the opening of the store, and the listener.
pub record Outside : Type 0 where
  pub from_env : Option Text
  pub decoded : Result Raw String
  pub data_dir : Result (Unit {0}) String
  pub env : Env
  pub setup : Result (Unit {0}) String
  pub readable : Bool
  pub disk : Disk
  pub opening : Opening
  pub listener : Result (Unit {0}) String

module _ (Client Addr : Type 0) (c : Crates) (fl : Float) where
  -- The tasks, and what the server has besides.
  pub record Running : Type 0 where
    pub config : Config Addr
    pub process : Process Client c fl

module _ {Client Addr : Type 0} (c : Crates) (fl : Float) (parse_addr : Text → Result Addr String)
    (ip : Addr → IpAddr) where
  listen :
      Config Addr
      → Option (AuthState c)
      → Tables fl.F
      → Result (Unit {0}) String
      → Result (Running Client Addr c fl) String
  unfolding launch
  listen cfg auth t (ok u) = ok (record { config = cfg; process = launch c fl t auth })
  listen cfg auth t (err e) = err e

  with_store :
      Outside
      → Config Addr
      → Option (AuthState c)
      → File fl.F × Result (Tables fl.F) String
      → File fl.F × Result (Running Client Addr c fl) String
  unfolding listen
  with_store out cfg auth (file, ok t) = (file, listen cfg auth t out.listener)
  with_store out cfg auth (file, err e) = (file, err e)

  with_sign_in :
      Outside
      → Config Addr
      → File fl.F
      → Result (Option (AuthState c)) String
      → File fl.F × Result (Running Client Addr c fl) String
  unfolding with_store
  with_sign_in out cfg file (ok auth) = with_store out cfg auth (open_store out.opening file)
  with_sign_in out cfg file (err e) = (file, err e)

  with_data_dir :
      Outside
      → Config Addr
      → File fl.F
      → Result (Unit {0}) String
      → File fl.F × Result (Running Client Addr c fl) String
  unfolding with_sign_in
  with_data_dir out cfg file (ok u) = with_sign_in out cfg file (
      startup c (ip cfg.web_bind) cfg.token cfg.rp_id cfg.rp_origin
        (new c out.env out.setup out.readable out.disk))
  with_data_dir out cfg file (err e) = (file, err e)

  with_config :
      Outside
      → File fl.F
      → Result (Config Addr) String
      → File fl.F × Result (Running Client Addr c fl) String
  unfolding with_data_dir
  with_config out file (ok cfg) = with_data_dir out cfg file out.data_dir
  with_config out file (err e) = (file, err e)

  -- The file of the history, and the server with its tasks.
  unfoldable pub run : Outside → File fl.F → File fl.F × Result (Running Client Addr c fl) String
  unfolding with_config
  run out file = with_config out file (load parse_addr out.from_env out.decoded)
