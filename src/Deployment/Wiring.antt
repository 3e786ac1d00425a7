-- ===== src/Deployment/Wiring.antt =====
-- The environment that internal/lifecycle/reconcile_pod.go writes, as cmd/wrapper/main.go reads it.
use cnpg_pg_doorman.Base.{
  ℤ, pos, String, ◌<>◌, ◌==◌, ◌≡◌, refl, Option, none, some, List, [], ◌∷◌, if◌then◌else◌,
}
use cnpg_pg_doorman.Base.Maps.{lookup}
use cnpg_pg_doorman.Wrapper.Platform.{Platform}
use cnpg_pg_doorman.Wrapper.RoleWatcher.{new_role_watcher}
use cnpg_pg_doorman.Wrapper.FileWatcher.{new_file_watcher}
use cnpg_pg_doorman.Wrapper.BinaryWatcher.{new_binary_watcher}
use cnpg_pg_doorman.Wrapper.BinarySync.{new_binary_syncer}
use cnpg_pg_doorman.Wrapper.Main.{settings, env_or, env_int, parse_log_level, Settings}
use cnpg_pg_doorman.Plugin.Config.{PluginConfiguration, Cluster}
use cnpg_pg_doorman.Plugin.Controller.{
  config_key, rendered_secret_name, tls_files, Renderer, binary_spec_key,
}
use cnpg_pg_doorman.Plugin.Lifecycle.{
  Container, Mount, sidecar_container, secret, config, config_volume, tls_volume, pod_info_volume,
}

-- The directory at which a container mounts a volume.
abbrev pub mount_of : List Mount → String → Option String
mount_of [] volume = none
mount_of (m ∷ mounts) volume =
    if m.name == volume then some m.mount_path else mount_of mounts volume

-- A file of a mounted volume.
abbrev pub IsFileOf : {Q : Type 0} → Container Q → String → String → String → Type 0
IsFileOf c volume file path =
    (dir : String) × (mount_of c.mounts volume ≡ some dir) × (path ≡ (dir <> "/") <> file)

module _ {Q : Type 0} (R : Renderer Q) (P : Platform) (atoi : String → Option ℤ)
    (join : String → String → String) (env : String → String) (cfg : PluginConfiguration Q) where
  -- The kubelet sets the variables of the container; strconv.Atoi and path/filepath on the texts at
  -- hand.
  pub record IsRunIn : Type 0 where
    pub set :
        (key value : String) → lookup key (sidecar_container cfg).env ≡ some value → env key ≡ value
    pub number : atoi "8081" ≡ some (pos 8081)
    pub parent : P.dir "/etc/pg-doorman-config/pg_doorman.yaml" ≡ "/etc/pg-doorman-config"
    pub joined : join "/etc/pg-doorman-config" "binary.json" ≡ "/etc/pg-doorman-config/binary.json"

  -- What the two sides agree on.
  pub record IsWired (cluster : Cluster) (arch : String) (s : Settings) : Type 0 where
    pub health : s.health_port ≡ (sidecar_container cfg).liveness_port
    pub level : s.log_level ≡ parse_log_level cfg.log_level
    pub rendered : (config cluster).source ≡ secret (rendered_secret_name cluster.name)
    pub source : IsFileOf (sidecar_container cfg) config_volume config_key s.fw.source_path
    pub spec : IsFileOf (sidecar_container cfg) config_volume binary_spec_key s.syncer.spec_path
    pub same_spec : s.bw.spec_path ≡ s.syncer.spec_path
    pub raw_key : IsFileOf (sidecar_container cfg) tls_volume "tls.key" s.fw.raw_key_path
    pub certificate : String
    pub key : tls_files R ≡ some (record { certificate = certificate; private_key = s.fw.key_path })
    pub certified : IsFileOf (sidecar_container cfg) tls_volume "tls.crt" certificate
    pub role_file : String
    pub roles : s.roles ≡ some (new_role_watcher role_file)
    pub role : IsFileOf (sidecar_container cfg) pod_info_volume "role" role_file

  -- In the container that the plugin injects, where the kubelet sets its variables, the wrapper
  -- listens for health on the port that the kubelet probes, reads the config and the binary spec
  -- under the keys of the Secret that the controller renders for the cluster, where that is mounted,
  -- and the role file of the downward volume, logs at the level of the parameters, and converts the
  -- mounted TLS key to the path that the rendered config names, next to the mounted certificate.
  pub settings-IsWired :
      (arch : String) (cluster : Cluster)
      → IsRunIn
      → IsWired cluster arch (settings P atoi join arch env)
  unfolding settings new_binary_syncer env_or env_int sidecar_container lookup new_file_watcher
      new_binary_watcher
  settings-IsWired arch cluster run =
      let source = run.set "CONFIG_SOURCE" _ refl in
      let port = run.set "HEALTH_PORT" _ refl in
      let level = run.set "LOG_LEVEL" _ refl in
      let key = run.set "TLS_KEY_PATH" _ refl in
      let role = run.set "ROLE_FILE" _ refl in
      rw (source, port, level, key, role, run.number, run.parent, run.joined)
        (record {
          health = refl;
          level = refl;
          rendered = refl;
          source = ("/etc/pg-doorman-config", refl, refl);
          spec = ("/etc/pg-doorman-config", refl, refl);
          same_spec = refl;
          raw_key = ("/etc/pg-doorman-tls", refl, refl);
          certificate = "/etc/pg-doorman-tls/tls.crt";
          key = refl;
          certified = ("/etc/pg-doorman-tls", refl, refl);
          role_file = "/etc/pg-doorman-podinfo/role";
          roles = refl;
          role = ("/etc/pg-doorman-podinfo", refl, refl);
        })
