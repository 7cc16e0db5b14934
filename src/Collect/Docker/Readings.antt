-- ===== src/Collect/Docker/Readings.antt =====
-- collect/docker.rs, `DockerCollector::collect`: its outcomes, and the samples that it keeps.
use mathlib.Core.List.{Permᴰ}
use vm_vitals.Base.{
  ℕ, suc, ◌+◌, ◌≤◌, ◌<◌, ◌≡◌, refl, ap, ◌∙◌, ◌⊎◌, inl, inr, true, String, List, [], ◌∷◌, map,
  Option, none, some, arith, Bool-cases, Option-cases, Text, text_eq_iff, Map, get, insert,
  get-insert, length, length-remove-le, ok, err, Result-cases,
}
use vm_vitals.Collect.Cpu.{
  Float, CpuSample, Stats, sample_stats, cpu_share, cpu_share-some, cpu_count,
}
use vm_vitals.Collect.Docker.{
  Listed, Daemon, Container, Reading, container_address, is_running, figures, read_stats,
  read_container, keep_sample, keep_samples, collect_containers,
}

Permᴰ-length : {A : Type 0} {xs ys : List A} → Permᴰ xs ys → length xs ≡ length ys
Permᴰ-length Permᴰ.nil = refl
Permᴰ-length (Permᴰ.cons _ p) = ap suc (Permᴰ-length p)
Permᴰ-length (Permᴰ.swap _ _) = refl
Permᴰ-length (Permᴰ.trans p q) = Permᴰ-length p ∙ Permᴰ-length q

length-map : {A B : Type 0} (f : A → B) (xs : List A) → length (map f xs) ≡ length xs
length-map f [] = refl
length-map f (x ∷ xs) = ap suc (length-map f xs)

module _ (fl : Float) where
  open fl use {F}

  -- A reading of the list has the key and the sample.
  abbrev pub IsSampled : Text → CpuSample → List (Reading F) → Type 0
  IsSampled k s [] = ⊥
  IsSampled k s (r ∷ rs) = ((r.key ≡ k) × (r.sample ≡ some s)) ⊎ IsSampled k s rs

  get-keep_sample :
      (key k : Text) (o : Option CpuSample) (s : CpuSample) (m : Map CpuSample)
      → get k (keep_sample fl key o m) ≡ some s
      → (get k m ≡ some s) ⊎ ((key ≡ k) × (o ≡ some s))
  unfolding keep_sample
  get-keep_sample key k none s m h = inl h
  get-keep_sample key k (some t) s m h = ground (arith, get-insert key k t m, text_eq_iff key k)

  get-keep_samples :
      (rs : List (Reading F)) (m : Map CpuSample) (k : Text) (s : CpuSample)
      → get k (keep_samples fl m rs) ≡ some s
      → (get k m ≡ some s) ⊎ IsSampled k s rs
  unfolding keep_samples
  get-keep_samples [] m k s h = inl h
  get-keep_samples (r ∷ rs) m k s h =
      elim (get-keep_samples rs (keep_sample fl r.key r.sample m) k s h) [
        | inr later ↦ inr (inr later)
        | inl now ↦ elim (get-keep_sample r.key k r.sample s m now) [
          | inl before ↦ inl before
          | inr mine ↦ inr (inl mine)
        ]
      ]

  length-keep_sample-le :
      (key : Text) (o : Option CpuSample) (m : Map CpuSample)
      → length (keep_sample fl key o m) ≤ suc (length m)
  unfolding keep_sample insert
  length-keep_sample-le key none m = omega arith
  length-keep_sample-le key (some s) m = omega (arith, length-remove-le key m)

  length-keep_samples-le :
      (rs : List (Reading F)) (m : Map CpuSample)
      → length (keep_samples fl m rs) ≤ length m + length rs
  unfolding keep_samples
  length-keep_samples-le [] m = omega arith
  length-keep_samples-le (r ∷ rs) m = omega (
    arith,
    length-keep_samples-le rs (keep_sample fl r.key r.sample m),
    length-keep_sample-le r.key r.sample m,
  )

  -- Every listed container was read, in some order; what is kept for the next tick is the samples of
  -- these readings, no more than there are containers.
  pub record Collects (d : Daemon) (prev next : Map CpuSample) (out : List (Container F))
      : Type 0 where
    pub list : List Listed
    pub results : List (Reading F)
    pub listed : d.listed ≡ ok list
    pub order : Permᴰ results (map (read_container fl d prev) list)
    pub containers : out ≡ map (λ r. r.container) results
    pub kept : (k : Text) (s : CpuSample) → get k next ≡ some s → IsSampled k s results
    pub bounded : length next ≤ length list

  only_read :
      (rs : List (Reading F)) (k : Text) (s : CpuSample)
      → (get k [] ≡ some s) ⊎ IsSampled k s rs
      → IsSampled k s rs
  unfolding get
  only_read rs k s (inl h) = absurd (ground arith)
  only_read rs k s (inr h) = h

  -- A tick either reports every container of the list once, and keeps their samples only; or it is an
  -- error, and then the samples of the tick before stay.
  pub collect_containers_cases :
      (arrives : List (Reading F) → List (Reading F))
      → ((rs : List (Reading F)) → Permᴰ (arrives rs) rs)
      → (d : Daemon) (prev : Map CpuSample)
      → ((next : Map CpuSample) × (out : List (Container F)) × (collect_containers fl arrives d prev
            ≡ (next, ok out))
          × Collects d prev next out)
        ⊎ ((e : String) × (collect_containers fl arrives d prev ≡ (prev, err e)))
  unfolding collect_containers
  collect_containers_cases arrives perm d prev = elim (Result-cases d.listed) [
    | inr (e, h) ↦ inr (e, rw h)
    | inl (list, h) ↦ elim (Bool-cases d.in_time) [
      | inr late ↦ inr ("container collection exceeded its budget", rw (h, late))
      | inl good ↦
          let read = map (read_container fl d prev) list in
          inl (
            keep_samples fl [] (arrives read),
            map (λ r. r.container) (arrives read),
            rw (h, good),
            record {
              list = list;
              results = arrives read;
              listed = h;
              order = perm read;
              containers = refl;
              kept =
                  λ k s g. only_read (arrives read) k s (get-keep_samples (arrives read) [] k s g);
              bounded = omega (
                arith,
                length-keep_samples-le (arrives read) [],
                Permᴰ-length (perm read),
                length-map (read_container fl d prev) list,
              );
            },
          )
    ]
  ]

  sample_stats-cpu :
      (prev : Option CpuSample) (reply : Option Stats) (v : F)
      → (figures fl (sample_stats fl prev reply)).0 ≡ some v
      → (s : Stats) × (system : ℕ) × (reply ≡ some s)
        × (s.system_cpu_usage ≡ some system)
        × (cpu_share fl s.total_usage system (cpu_count s) prev ≡ some v)
  unfolding figures sample_stats
  sample_stats-cpu prev none v h = absurd (ground arith)
  sample_stats-cpu prev (some s) v h = elim (Option-cases s.system_cpu_usage) [
    | inl n ↦ let h' = rw n at h in absurd (ground arith)
    | inr (system, e) ↦ let h' = rw e at h in (s, system, refl, e, h')
  ]

  -- A container that is reported with a CPU share is running, the daemon answered with both its
  -- counters, and the tick before kept a sample under its address whose counters have not gone back
  -- and whose system counter has gone on.
  pub read_container-cpu :
      (d : Daemon) (prev : Map CpuSample) (c : Listed) (v : F)
      → (read_container fl d prev c).container.cpu_pct ≡ some v
      → (is_running c ≡ true)
        × (p : CpuSample) × (s : Stats) × (system : ℕ) × (get (container_address c) prev ≡ some p)
        × (d.stats (container_address c) ≡ some s)
        × (s.system_cpu_usage ≡ some system)
        × (p.total ≤ s.total_usage)
        × (p.system < system)
  unfolding read_container read_stats
  read_container-cpu d prev c v h = elim (Bool-cases (is_running c)) [
    | inr off ↦ let h' = rw off at h in absurd (ground arith)
    | inl on ↦
        let key = container_address c in
        let (s, system, r, e, share) =
          sample_stats-cpu (get key prev) (d.stats key) v (rw on at h) in
        let (p, kept, t, y, _) =
          cpu_share-some fl s.total_usage system (cpu_count s) (get key prev) v share in
        (on, p, s, system, kept, r, e, t, y)
  ]
