-- ===== src/Main/Points/Distinct.antt =====
-- main.rs, `sample_points`: no two points of a snapshot have one key.
use vm_vitals.Base.{
  ◌≡◌, refl, ◌≢◌, false, String, List, [], ◌∷◌, ◌++◌, Option, none, some, arith, All, All-append,
  Text, codes, text_eq, text_eq_iff,
}
use vm_vitals.Collect.Cpu.{Float}
use vm_vitals.Collect.Docker.{Container}
use vm_vitals.Collect.Snapshot.{Snapshot}
use vm_vitals.Main.Points.{
  HostFigures, IsName, container_key, container_key-injective, point, container_points,
  sample_points,
}
use vm_vitals.Store.Table.Content.Kept.{Misses, PointsDistinct, text_eq_sym}

module _ (fl : Float) where
  open fl use {F}

  -- The names of the containers are names, and no two are the same.
  abbrev pub NamesOk : List (Container F) → Type 0
  NamesOk [] = Unit
  NamesOk (c ∷ cs) = IsName c.name × All (λ d. text_eq c.name d.name ≡ false) cs × NamesOk cs

  differ : (s t : Text) → s ≢ t → text_eq s t ≡ false
  differ s t h = ground (arith, text_eq_iff s t)

  keys_differ :
      (m n : Text) (s t : String)
      → IsName m
      → IsName n
      → text_eq m n ≡ false
      → text_eq (container_key m s) (container_key n t) ≡ false
  keys_differ m n s t p q h =
      differ (container_key m s) (container_key n t) (λ e.
        let same = (container_key-injective m n s t p q e).0 in ground (arith, text_eq_iff m n))

  metrics_differ :
      (m : Text) → IsName m → text_eq (container_key m "mem") (container_key m "cpu") ≡ false
  metrics_differ m p =
      differ (container_key m "mem") (container_key m "cpu")
        (λ e. let same = (container_key-injective m m "mem" "cpu" p p e).1 in absurd (ground arith))

  point-Misses :
      (k : Text) (name : Text) (s : String) (v : Option F)
      → text_eq (container_key name s) k ≡ false
      → Misses k (point fl name s v)
  unfolding point
  point-Misses k name s none h = tt
  point-Misses k name s (some v) h = (h, tt)

  -- A key that is not the container's is not among its points.
  containers-Misses :
      (m : Text) (s : String) (cs : List (Container F))
      → IsName m
      → All (λ d. text_eq m d.name ≡ false) cs
      → NamesOk cs
      → Misses (container_key m s) (container_points fl cs)
  unfolding container_points
  containers-Misses m s [] p h names = tt
  containers-Misses m s (c ∷ cs) p h names =
      let other : (t : String) → text_eq (container_key c.name t) (container_key m s) ≡ false =
        λ t. keys_differ c.name m t s names.0 p (text_eq_sym m c.name h.0) in
      All-append (λ q. text_eq q.0 (container_key m s) ≡ false) (point fl c.name "cpu" c.cpu_pct) _
        (point-Misses (container_key m s) c.name "cpu" c.cpu_pct (other "cpu"))
        (All-append (λ q. text_eq q.0 (container_key m s) ≡ false) (point fl c.name "mem" _) _
          (point-Misses (container_key m s) c.name "mem" _ (other "mem"))
          (containers-Misses m s cs p h.1 names.2))

  point-Distinct :
      (name : Text) (s : String) (v : Option F) (rest : List (Text × F))
      → Misses (container_key name s) rest
      → PointsDistinct rest
      → PointsDistinct (point fl name s v ++ rest)
  unfolding point
  point-Distinct name s none rest h d = d
  point-Distinct name s (some v) rest h d = (h, d)

  containers-Distinct :
      (cs : List (Container F)) → NamesOk cs → PointsDistinct (container_points fl cs)
  unfolding container_points
  containers-Distinct [] names = tt
  containers-Distinct (c ∷ cs) names =
      point-Distinct c.name "cpu" c.cpu_pct _
        (All-append (λ q. text_eq q.0 (container_key c.name "cpu") ≡ false)
          (point fl c.name "mem" _) _
          (point-Misses (container_key c.name "cpu") c.name "mem" _ (metrics_differ c.name names.0))
          (containers-Misses c.name "cpu" cs names.0 names.1 names.2))
        (point-Distinct c.name "mem" _ _ (containers-Misses c.name "mem" cs names.0 names.1 names.2)
          (containers-Distinct cs names.2))

  -- No container's key is a key of the host.
  host_keys :
      (k : Text) (cs : List (Container F))
      → ((name : Text) (s : String) → text_eq (container_key name s) k ≡ false)
      → Misses k (container_points fl cs)
  unfolding container_points
  host_keys k [] h = tt
  host_keys k (c ∷ cs) h =
      All-append (λ q. text_eq q.0 k ≡ false) (point fl c.name "cpu" c.cpu_pct) _
        (point-Misses k c.name "cpu" c.cpu_pct (h c.name "cpu"))
        (All-append (λ q. text_eq q.0 k ≡ false) (point fl c.name "mem" _) _
          (point-Misses k c.name "mem" _ (h c.name "mem")) (host_keys k cs h))

  pub sample_points-Distinct :
      (s : Snapshot (HostFigures F) F) → NamesOk s.containers → PointsDistinct (sample_points fl s)
  unfolding sample_points container_key text_eq
  sample_points-Distinct s names = (
    (refl, (refl, (refl, (refl, host_keys (codes "host.cpu") s.containers (λ n m. refl))))),
    (
      (refl, (refl, (refl, host_keys (codes "host.mem") s.containers (λ n m. refl)))),
      (
        (refl, (refl, host_keys (codes "host.disk") s.containers (λ n m. refl))),
        (
          (refl, host_keys (codes "host.load") s.containers (λ n m. refl)),
          (
            host_keys (codes "host.swap") s.containers (λ n m. refl),
            containers-Distinct s.containers names,
          ),
        ),
      ),
    ),
  )
