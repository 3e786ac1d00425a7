-- ===== src/Plugin/Lifecycle/Volumes.antt =====
-- What injectSidecar makes of the volumes of a Pod.
use cnpg_pg_doorman.Base.{
  ◌≡◌, ◌≢◌, ◌⊎◌, inl, inr, refl, sym, ap, String, ◌==◌, Bool, true, false, Option, none, some, List,
  [], ◌∷◌, ◌++◌, arith, if◌then◌else◌, eq_iff, Bool-cases,
}
use cnpg_pg_doorman.Plugin.Config.{Cluster}
use cnpg_pg_doorman.Plugin.Lifecycle.Defs.{
  Volume, VolumeSource, has_volume, ensure_volume, inject_volumes, with_scratch, scratch, tls,
  pod_info, config, scratch_volume, tls_volume, config_volume, pod_info_volume, memory_dir,
}

-- The first volume of a name.
unfoldable pub volume_named : List Volume → String → Option VolumeSource
volume_named [] name = none
volume_named (v ∷ volumes) name =
    let rest = volume_named volumes name in if v.name == name then some v.source else rest

volume_named-ensure_volume :
    (volumes : List Volume) (volume : Volume) (name : String)
    → volume_named (ensure_volume volumes volume) name
      ≡ (if volume.name == name then some volume.source else volume_named volumes name)
unfolding volume_named ensure_volume
volume_named-ensure_volume [] volume name = refl
volume_named-ensure_volume (v ∷ volumes) volume name = ground (
  arith,
  volume_named-ensure_volume volumes volume name,
  eq_iff v.name volume.name,
  eq_iff v.name name,
  eq_iff volume.name name,
)

ensure_volume-there :
    (volumes : List Volume) (volume : Volume)
    → volume_named volumes volume.name ≡ some volume.source
    → ensure_volume volumes volume ≡ volumes
unfolding volume_named ensure_volume
ensure_volume-there [] volume h = cc h
ensure_volume-there (v ∷ volumes) volume h = elim (Bool-cases (v.name == volume.name)) [
  | inl e ↦
      let n : v.name ≡ volume.name = (eq_iff v.name volume.name).0 e in
      let s : v.source ≡ volume.source = cc (rw e at h) in rw e (cc (n, s))
  | inr e ↦ rw e (ap (λ vs. v ∷ vs) (ensure_volume-there volumes volume (rw e at h)))
]

-- has_volume is whether a volume of the name is found.
has_volume-named :
    (volumes : List Volume) (name : String)
    → ((has_volume volumes name ≡ true)
        × ((source : VolumeSource) × (volume_named volumes name ≡ some source)))
      ⊎ ((has_volume volumes name ≡ false) × (volume_named volumes name ≡ none))
unfolding volume_named has_volume
has_volume-named [] name = inr (refl, refl)
has_volume-named (v ∷ volumes) name = elim (Bool-cases (v.name == name)) [
  | inl e ↦ inl (rw e refl, (v.source, rw e refl))
  | inr e ↦ rw e (has_volume-named volumes name)
]

has_volume-there :
    (volumes : List Volume) (name : String) (source : VolumeSource)
    → volume_named volumes name ≡ some source
    → has_volume volumes name ≡ true
has_volume-there volumes name source h = elim (has_volume-named volumes name) [
  | inl (k, _) ↦ k
  | inr (_, k) ↦ cc (h, k)
]

volume_named-append :
    (volumes : List Volume) (volume : Volume) (name : String)
    → volume_named (volumes ++ (volume ∷ [])) name ≡ elim (volume_named volumes name) [
      | some source ↦ some source
      | none ↦ if volume.name == name then some volume.source else none
    ]
unfolding volume_named
volume_named-append [] volume name = refl
volume_named-append (v ∷ volumes) volume name = elim (Bool-cases (v.name == name)) [
  | inl e ↦ rw e refl
  | inr e ↦ rw e (volume_named-append volumes volume name)
]

-- What the volumes hold under a name after the injection: a scratch volume that is there stays.
abbrev pub kept_or_scratch : Option VolumeSource → VolumeSource
kept_or_scratch none = memory_dir
kept_or_scratch (some source) = source

abbrev pub wanted : List Volume → Cluster → String → Option VolumeSource
wanted volumes cluster name =
    if config_volume == name
    then some (config cluster).source
    else if pod_info_volume == name
    then some pod_info.source
    else if tls_volume == name
    then some (tls cluster).source
    else if scratch_volume == name
    then some (kept_or_scratch (volume_named volumes scratch_volume))
    else volume_named volumes name

volume_named-scratch :
    (volumes : List Volume)
    → volume_named (with_scratch volumes) scratch_volume
      ≡ some (kept_or_scratch (volume_named volumes scratch_volume))
unfolding with_scratch
volume_named-scratch volumes = elim (has_volume-named volumes scratch_volume) [
  | inl (k, (source, m)) ↦ rw (k, m) refl
  | inr (k, m) ↦ rw (k, volume_named-append volumes scratch scratch_volume, m) refl
]

unchanged_or :
    (o : Option VolumeSource) (b : Bool) (added : VolumeSource)
    → b ≡ false
    → elim o [ some s ↦ some s | none ↦ if b then some added else none ] ≡ o
unchanged_or none b added e = rw e refl
unchanged_or (some s) b added e = refl

pub differs : (name other : String) → name ≢ other → (other == name) ≡ false
differs name other h = ground (arith, eq_iff other name)

volume_named-with_scratch :
    (volumes : List Volume) (name : String)
    → volume_named (with_scratch volumes) name ≡ (
        if scratch_volume == name
        then some (kept_or_scratch (volume_named volumes scratch_volume))
        else volume_named volumes name)
unfolding with_scratch
volume_named-with_scratch volumes name = elim (Bool-cases (scratch_volume == name)) [
  | inl e ↦
      let n : scratch_volume ≡ name = (eq_iff scratch_volume name).0 e in
      rw (e, sym n) (volume_named-scratch volumes)
  | inr e ↦ elim (has_volume-named volumes scratch_volume) [
    | inl (k, (source, m)) ↦ rw (e, k) refl
    | inr (k, m) ↦
        rw (e, k, volume_named-append volumes scratch name)
          (unchanged_or (volume_named volumes name) (scratch_volume == name) memory_dir e)
  ]
]

pub volume_named-inject_volumes :
    (volumes : List Volume) (cluster : Cluster) (name : String)
    → volume_named (inject_volumes volumes cluster) name ≡ wanted volumes cluster name
unfolding inject_volumes
volume_named-inject_volumes volumes cluster name =
    rw
      (
        volume_named-ensure_volume, volume_named-ensure_volume, volume_named-ensure_volume,
        volume_named-with_scratch,
      )
      refl

with_scratch-there :
    (volumes : List Volume) (source : VolumeSource)
    → volume_named volumes scratch_volume ≡ some source
    → with_scratch volumes ≡ volumes
unfolding with_scratch
with_scratch-there volumes source h = rw (has_volume-there volumes scratch_volume source h) refl

pub inject_volumes_twice :
    (volumes : List Volume) (cluster : Cluster)
    → inject_volumes (inject_volumes volumes cluster) cluster ≡ inject_volumes volumes cluster
unfolding inject_volumes
inject_volumes_twice volumes cluster =
    let named = volume_named-inject_volumes volumes cluster in
    rw
      (
        with_scratch-there (inject_volumes volumes cluster) _ (named scratch_volume),
        ensure_volume-there (inject_volumes volumes cluster) (tls cluster) (named tls_volume),
        ensure_volume-there (inject_volumes volumes cluster) pod_info (named pod_info_volume),
        ensure_volume-there (inject_volumes volumes cluster) (config cluster) (named config_volume),
      )
      refl
