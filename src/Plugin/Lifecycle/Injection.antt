-- ===== src/Plugin/Lifecycle/Injection.antt =====
-- What injectSidecar makes of a Pod.
use cnpg_pg_doorman.Base.{
  ◌≡◌, ◌≢◌, inl, inr, refl, ap, ◌∙◌, String, ◌<>◌, ◌==◌, Option, none, some, List, [], ◌∷◌, arith,
  if◌then◌else◌, eq_iff, All, Bool-cases,
}
use cnpg_pg_doorman.Plugin.Config.{Cluster, PluginConfiguration}
use cnpg_pg_doorman.Plugin.Lifecycle.Defs.{
  VolumeSource, Mount, Container, PodSpec, put_container, sidecar_container, inject_sidecar,
  sidecar_name, scratch_volume, tls_volume, config_volume, pod_info_volume, sidecar_mounts,
  memory_dir, secret, server_tls_secret_name,
}
use cnpg_pg_doorman.Plugin.Lifecycle.Volumes.{
  volume_named, volume_named-inject_volumes, inject_volumes_twice, differs,
}

module _ {Q : Type 0} where
  -- The first container of a name.
  unfoldable pub container_named : List (Container Q) → String → Option (Container Q)
  container_named [] name = none
  container_named (c ∷ cs) name =
      let rest = container_named cs name in if c.name == name then some c else rest

  container_named-put_container :
      (cs : List (Container Q)) (sidecar : Container Q) (name : String)
      → sidecar.name ≡ sidecar_name
      → container_named (put_container cs sidecar) name
        ≡ (if sidecar_name == name then some sidecar else container_named cs name)
  unfolding container_named put_container
  container_named-put_container [] sidecar name h = rw h refl
  container_named-put_container (c ∷ cs) sidecar name h = ground (
    arith,
    container_named-put_container cs sidecar name h,
    eq_iff c.name sidecar_name,
    eq_iff c.name name,
    eq_iff sidecar_name name,
  )

  put_container_twice :
      (cs : List (Container Q)) (sidecar : Container Q)
      → sidecar.name ≡ sidecar_name
      → put_container (put_container cs sidecar) sidecar ≡ put_container cs sidecar
  unfolding put_container
  put_container_twice [] sidecar h = rw h refl
  put_container_twice (c ∷ cs) sidecar h = elim (Bool-cases (c.name == sidecar_name)) [
    | inl e ↦ rw (e, h) refl
    | inr e ↦ rw (e, e) (ap (λ ds. c ∷ ds) (put_container_twice cs sidecar h))
  ]

  -- A second injection with the same parameters changes nothing.
  pub inject_sidecar_twice :
      (spec : PodSpec Q) (cfg : PluginConfiguration Q) (cluster : Cluster)
      → inject_sidecar (inject_sidecar spec cfg cluster) cfg cluster
        ≡ inject_sidecar spec cfg cluster
  unfolding inject_sidecar sidecar_container
  inject_sidecar_twice spec cfg cluster =
      rw
        (
          inject_volumes_twice spec.volumes cluster,
          put_container_twice spec.init_containers (sidecar_container cfg) refl,
        )
        refl

  -- The Pod with the sidecar and the volumes that it mounts, and otherwise as it was.
  pub record IsInjected (spec : PodSpec Q) (cfg : PluginConfiguration Q) (cluster : Cluster)
      (made : PodSpec Q) : Type 0 where
    pub sidecar : container_named made.init_containers sidecar_name ≡ some (sidecar_container cfg)
    pub mounted :
        All
          (λ m. (source : VolumeSource) × (volume_named made.volumes m.name ≡ some source))
          (sidecar_container cfg).mounts
    pub config_mounted :
        volume_named made.volumes config_volume ≡ some (secret (cluster.name <> "-doorman-config"))
    pub tls_mounted :
        volume_named made.volumes tls_volume ≡ some (secret (server_tls_secret_name cluster))
    pub in_memory :
        volume_named spec.volumes scratch_volume ≡ none
        → volume_named made.volumes scratch_volume ≡ some memory_dir
    pub other_containers :
        (name : String)
        → name ≢ sidecar_name
        → container_named made.init_containers name ≡ container_named spec.init_containers name
    pub other_volumes :
        (name : String)
        → All (λ (m : Mount). name ≢ m.name) sidecar_mounts
        → volume_named made.volumes name ≡ volume_named spec.volumes name
    pub postgres : made.containers ≡ spec.containers

  -- After the injection the first init container named pg-doorman is the sidecar of the parameters,
  -- every volume that it mounts is there, the config and TLS volumes are the Secrets of the cluster,
  -- the scratch volume is in memory unless the Pod had one of that name, and each other init
  -- container and volume is found as before, and the containers are as before.
  pub inject_sidecar-IsInjected :
      (spec : PodSpec Q) (cfg : PluginConfiguration Q) (cluster : Cluster)
      → IsInjected spec cfg cluster (inject_sidecar spec cfg cluster)
  unfolding inject_sidecar sidecar_container
  inject_sidecar-IsInjected spec cfg cluster =
      let named = volume_named-inject_volumes spec.volumes cluster in
      let put = container_named-put_container spec.init_containers (sidecar_container cfg) in
      record {
        sidecar = put sidecar_name refl;
        mounted = (
          (_, named scratch_volume),
          ((_, named tls_volume), ((_, named config_volume), ((_, named pod_info_volume), tt))),
        );
        config_mounted = named config_volume;
        tls_mounted = named tls_volume;
        in_memory = λ h. rw h at named scratch_volume;
        other_containers = λ name h. put name refl ∙ rw (differs name sidecar_name h) refl;
        other_volumes = λ name (n, (t, (c, (i, _)))).
            named name
            ∙ rw (differs name _ n, differs name _ t, differs name _ c, differs name _ i) refl;
        postgres = refl;
      }
