-- ===== src/Main/Run/Ready.antt =====
-- main.rs, `run`: what holds once the server runs.
use vm_vitals.Base.{
  ◌≡◌, refl, ap, ◌∙◌, inl, inr, some, Option, Text, Result, ok, err, Result-cases, Option-cases,
  String, arith,
}
use vm_vitals.Auth.Crates.{Crates}
use vm_vitals.Auth.State.{AuthState}
use vm_vitals.Auth.Persist.{new, load_store, start_with, fresh_state}
use vm_vitals.Collect.Cpu.{Float}
use vm_vitals.Config.{Config, load}
use vm_vitals.Store.Table.{Tables}
use vm_vitals.Store.Open.{File, Opening, migrate, open_store, tables_of}
use vm_vitals.Auth.Persist.Atomic.{Holds, load_store-Holds}
use vm_vitals.Store.Open.Resumes.{migrated, migrate-resumes}
use vm_vitals.Main.Startup.{IpAddr, startup, choose_auth, refuse_open}
use vm_vitals.Main.Daemon.{launch}
use vm_vitals.Main.Run.{Outside, Running, run}

open_store-ok :
    {F : Type 0} (o : Opening) (f : File F) (t : Tables F)
    → (open_store o f).1 ≡ ok t
    → t ≡ tables_of (migrate f)
unfolding open_store
open_store-ok o f t h = elim (Result-cases o.writes) [
  | inr (x, e) ↦ let h' = rw e at h in absurd (ground arith)
  | inl (u, e) ↦ elim (Option-cases o.migrates) [
    | inr (p, m) ↦ let h' = rw (e, m) at h in absurd (ground arith)
    | inl m ↦ elim (Result-cases o.reads) [
      | inr (x, r) ↦ let h' = rw (e, m, r) at h in absurd (ground arith)
      | inl (v, r) ↦ let h' = rw (e, m, r) at h in ground arith
    ]
  ]
]

module _ (c : Crates) where
  new-loads :
      (out : Outside) (a : AuthState c)
      → new c out.env out.setup out.readable out.disk ≡ ok a
      → load_store c out.readable out.disk.json ≡ ok a.store
  unfolding new start_with fresh_state
  new-loads out a h = elim (Result-cases out.setup) [
    | inr (x, e) ↦ let h' = rw e at h in absurd (ground arith)
    | inl (u, e) ↦ elim (Result-cases (load_store c out.readable out.disk.json)) [
      | inr (x, l) ↦ let h' = rw (e, l) at h in absurd (ground arith)
      | inl (s, l) ↦
          let h' = rw (e, l) at h in
          let same : fresh_state c out.env out.disk s ≡ a = ground (arith, h') in
          l ∙ ap (λ x. ok x.store) same
    ]
  ]

  startup-signs :
      (addr : IpAddr) (token : Option Text) (id origin : Text) (init : Result (AuthState c) String)
      (auth : Option (AuthState c))
      → startup c addr token (some id) (some origin) init ≡ ok auth
      → (a : AuthState c) × (auth ≡ some a) × (init ≡ ok a)
  unfolding startup choose_auth refuse_open
  startup-signs addr token id origin (ok a) auth h = (a, ground arith, refl)
  startup-signs addr token id origin (err e) auth h = absurd (ground arith)

module _ {Client Addr : Type 0} (c : Crates) (fl : Float) (parse_addr : Text → Result Addr String)
    (ip : Addr → IpAddr) where
  -- The server runs with the configuration that was loaded, the sign-in that the guard let through,
  -- and the tables of the file, migrated.
  pub record Ready (out : Outside) (file : File fl.F) (d : Running Client Addr c fl) : Type 0 where
    pub loaded : load parse_addr out.from_env out.decoded ≡ ok d.config
    pub guarded :
        startup c
          (ip d.config.web_bind)
          d.config.token
          d.config.rp_id
          d.config.rp_origin
          (new c out.env out.setup out.readable out.disk)
        ≡ ok d.process.auth
    pub launched : d.process ≡ launch c fl (tables_of (migrate file)) d.process.auth

  running :
      (out : Outside) (file : File fl.F) (d : Running Client Addr c fl) (cfg : Config Addr)
      (auth : Option (AuthState c)) (t : Tables fl.F)
      → load parse_addr out.from_env out.decoded ≡ ok cfg
      → startup c
          (ip cfg.web_bind)
          cfg.token
          cfg.rp_id
          cfg.rp_origin
          (new c out.env out.setup out.readable out.disk)
        ≡ ok auth
      → t ≡ tables_of (migrate file)
      → record { config = cfg; process = launch c fl t auth } ≡ d
      → Ready out file d
  unfolding launch
  running out file d cfg auth t l g o same =
      rw (← same) (record { loaded = l; guarded = g; launched = ap (λ x. launch c fl x auth) o })

  pub run-Ready :
      (out : Outside) (file : File fl.F) (d : Running Client Addr c fl)
      → (run c fl parse_addr ip out file).1 ≡ ok d
      → Ready out file d
  unfolding run launch
  run-Ready out file d h = elim (Result-cases (load parse_addr out.from_env out.decoded)) [
    | inr (x, l) ↦ let h' = rw l at h in absurd (ground arith)
    | inl (cfg, l) ↦ elim (Result-cases out.data_dir) [
      | inr (x, m) ↦ let h' = rw (l, m) at h in absurd (ground arith)
      | inl (u, m) ↦
          elim (Result-cases (
            startup c (ip cfg.web_bind) cfg.token cfg.rp_id cfg.rp_origin
              (new c out.env out.setup out.readable out.disk))) [
                | inr (x, g) ↦ let h' = rw (l, m, g) at h in absurd (ground arith)
                | inl (auth, g) ↦ elim (Result-cases (open_store out.opening file).1) [
                  | inr (x, o) ↦ let h' = rw (l, m, g, o) at h in absurd (ground arith)
                  | inl (t, o) ↦ elim (Result-cases out.listener) [
                    | inr (x, b) ↦ let h' = rw (l, m, g, o, b) at h in absurd (ground arith)
                    | inl (v, b) ↦
                        running out file d cfg auth t l g (open_store-ok out.opening file t o)
                          (let h' = rw (l, m, g, o, b) at h in ground (arith, h'))
                  ]
                ]
              ]
    ]
  ]

  -- The sign-in and the history that the server comes up with: where both halves of the identity are
  -- configured, either there is no auth.json and nobody is enrolled, or auth.json could be read and its
  -- text is that of the credentials, so that a file that cannot be read or parsed keeps the server from
  -- running; the tables are those of a history file of this schema, and empty for any other.
  pub run-restores :
      (out : Outside) (file : File fl.F) (d : Running Client Addr c fl) (id origin : Text)
      → (run c fl parse_addr ip out file).1 ≡ ok d
      → d.config.rp_id ≡ some id
      → d.config.rp_origin ≡ some origin
      → (a : AuthState c) × (d.process.auth ≡ some a)
        × Holds c out.readable out.disk.json a.store
        × (d.process.loop.history.tables ≡ tables_of (migrated file))
  unfolding launch
  run-restores out file d id origin h i o =
      let r = run-Ready out file d h in
      let (a, up, made) =
        startup-signs c (ip d.config.web_bind) d.config.token id origin
          (new c out.env out.setup out.readable out.disk) d.process.auth (rw (i, o) at r.guarded) in
      (
        a,
        up,
        load_store-Holds c out.readable out.disk.json a.store (new-loads c out a made),
        rw r.launched (ap tables_of (migrate-resumes 0 file).0),
      )
