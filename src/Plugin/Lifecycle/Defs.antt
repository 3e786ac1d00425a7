-- ===== src/Plugin/Lifecycle/Defs.antt =====
-- injectSidecar of internal/lifecycle/reconcile_pod.go and lifecycleHook of lifecycle.go. A Pod is
-- what the code reads and writes of it; `rest` of a container stands for all other fields.
use Prim.Native.Nat.{◌%◌}
use cnpg_pg_doorman.Base.{
  ◌++◌, ℕ, ◌-◌, ltb, String, ◌<>◌, ◌==◌, Bool, true, false, not, Option, none, some, List, [], ◌∷◌,
  ℤ, pos, negsuc, if◌then◌else◌,
}
use cnpg_pg_doorman.Base.Maps.{Map}
use cnpg_pg_doorman.Plugin.Config.{
  Cluster, PluginConfiguration, Parsers, new_from_cluster, validate, wrapper_health_port,
}

abbrev pub sidecar_name : String
sidecar_name = "pg-doorman"

abbrev pub scratch_volume : String
scratch_volume = "pg-doorman-scratch"

abbrev pub tls_volume : String
tls_volume = "pg-doorman-server-tls"

abbrev pub config_volume : String
config_volume = "pg-doorman-config"

abbrev pub pod_info_volume : String
pod_info_volume = "pg-doorman-podinfo"

-- The sources of a volume that the code writes, and any other one by a text for it.
pub data VolumeSource : Type 0 where
  memory_dir : VolumeSource
  secret : String → VolumeSource
  downward_label : String → String → VolumeSource
  other : String → VolumeSource

pub record Volume : Type 0 where
  pub name : String
  pub source : VolumeSource

pub record Mount : Type 0 where
  pub name : String
  pub mount_path : String
  pub read_only : Bool

-- container_port is an int32.
pub record ContainerPort : Type 0 where
  pub name : String
  pub container_port : ℤ
  pub protocol : String

-- The fields of a container that the code sets; `rest` is "" for the sidecar, which sets no other.
pub record Container (Q : Type 0) : Type 0 where
  pub name : String
  pub image : String
  pub ports : List ContainerPort
  pub env : Map String
  pub mounts : List Mount
  pub requests : Map Q
  pub limits : Map Q
  pub liveness_path : String
  pub liveness_port : ℤ
  pub liveness_delay : ℕ
  pub liveness_period : ℕ
  pub restart_policy : String
  pub privileged : Bool
  pub allow_privilege_escalation : Bool
  pub seccomp : String
  pub dropped_capabilities : List String
  pub run_as_non_root : Bool
  pub read_only_root : Bool
  pub rest : String

pub record PodSpec (Q : Type 0) : Type 0 where
  pub volumes : List Volume
  pub init_containers : List (Container Q)
  pub containers : List (Container Q)

-- serverTLSSecretName
unfoldable pub server_tls_secret_name : Cluster → String
server_tls_secret_name cluster = elim cluster.server_tls_secret [
  | none ↦ cluster.name <> "-server"
  | some name ↦ if name == "" then cluster.name <> "-server" else name
]

unfoldable pub has_volume : List Volume → String → Bool
has_volume [] name = false
has_volume (v ∷ volumes) name =
    let rest = has_volume volumes name in if v.name == name then true else rest

-- ensureVolume, on spec.Volumes.
unfoldable pub ensure_volume : List Volume → Volume → List Volume
ensure_volume [] volume = volume ∷ []
ensure_volume (v ∷ volumes) volume =
    let rest = ensure_volume volumes volume in
    if v.name == volume.name then volume ∷ volumes else v ∷ rest

abbrev pub scratch : Volume
scratch = record { name = scratch_volume; source = memory_dir }

abbrev pub tls : Cluster → Volume
tls cluster = record { name = tls_volume; source = secret (server_tls_secret_name cluster) }

abbrev pub pod_info : Volume
pod_info = record {
  name = pod_info_volume;
  source = downward_label "role" "metadata.labels['cnpg.io/instanceRole']";
}

abbrev pub config : Cluster → Volume
config cluster = record {
  name = config_volume;
  source = secret (cluster.name <> "-doorman-config");
}

-- The scratch volume, only where there is none of that name.
unfoldable pub with_scratch : List Volume → List Volume
with_scratch volumes =
    if not (has_volume volumes scratch_volume) then volumes ++ (scratch ∷ []) else volumes

unfoldable pub inject_volumes : List Volume → Cluster → List Volume
inject_volumes volumes cluster =
    let with_tls = ensure_volume (with_scratch volumes) (tls cluster) in
    ensure_volume (ensure_volume with_tls pod_info) (config cluster)

abbrev signed : ℕ → ℤ
signed n = if ltb n 2147483648 then pos n else negsuc (4294967295 - n)

-- Go's conversion of an int to an int32.
abbrev pub to_int32 : ℤ → ℤ
to_int32 (pos n) = signed (n % 4294967296)
to_int32 (negsuc n) = signed (4294967295 - n % 4294967296)

abbrev pub sidecar_mounts : List Mount
sidecar_mounts =
    record { name = scratch_volume; mount_path = "/tmp"; read_only = false }
    ∷ record { name = tls_volume; mount_path = "/etc/pg-doorman-tls"; read_only = true }
    ∷ record { name = config_volume; mount_path = "/etc/pg-doorman-config"; read_only = true }
    ∷ record { name = pod_info_volume; mount_path = "/etc/pg-doorman-podinfo"; read_only = true }
    ∷ []

-- The answer to the operator: no change, the Pod as it should be, or an error.
pub data Response (Q : Type 0) : Type 0 where
  unchanged : Response Q
  changed : PodSpec Q → Response Q
  refused : String → Response Q

-- What a request decodes to, `none` where the decoder fails. The JSON patch that carries the
-- change is left out.
pub record Request (Q : Type 0) : Type 0 where
  pub kind : Option String
  pub cluster : Option Cluster
  pub pod : Option (PodSpec Q)

module _ {Q : Type 0} where
  -- strconv.Itoa of the health port is written out.
  unfoldable pub sidecar_container : PluginConfiguration Q → Container Q
  sidecar_container cfg = record {
    name = sidecar_name;
    image = cfg.sidecar_image;
    ports =
        record { name = "pooler"; container_port = to_int32 cfg.pooler_port; protocol = "TCP" }
        ∷ record {
          name = "pgd-metrics";
          container_port = to_int32 cfg.metrics_port;
          protocol = "TCP";
        }
        ∷ [];
    env =
        ("CONFIG_SOURCE", "/etc/pg-doorman-config/pg_doorman.yaml")
        ∷ ("HEALTH_PORT", "8081")
        ∷ ("LOG_LEVEL", cfg.log_level)
        ∷ ("TLS_CERT_PATH", "/etc/pg-doorman-tls/tls.crt")
        ∷ ("TLS_KEY_PATH", "/etc/pg-doorman-tls/tls.key")
        ∷ ("ROLE_FILE", "/etc/pg-doorman-podinfo/role")
        ∷ [];
    mounts = sidecar_mounts;
    requests = cfg.requests;
    limits = cfg.limits;
    liveness_path = "/healthz";
    liveness_port = wrapper_health_port;
    liveness_delay = 10;
    liveness_period = 30;
    restart_policy = "Always";
    privileged = false;
    allow_privilege_escalation = false;
    seccomp = "RuntimeDefault";
    dropped_capabilities = "ALL" ∷ [];
    run_as_non_root = true;
    read_only_root = true;
    rest = "";
  }

  -- The last loop of injectSidecar, on spec.InitContainers.
  unfoldable pub put_container : List (Container Q) → Container Q → List (Container Q)
  put_container [] sidecar = sidecar ∷ []
  put_container (c ∷ cs) sidecar =
      let rest = put_container cs sidecar in
      if c.name == sidecar_name then sidecar ∷ cs else c ∷ rest

  -- injectSidecar
  unfoldable pub inject_sidecar : PodSpec Q → PluginConfiguration Q → Cluster → PodSpec Q
  inject_sidecar spec cfg cluster = record spec {
    volumes = inject_volumes spec.volumes cluster;
    init_containers = put_container spec.init_containers (sidecar_container cfg);
  }

  unfoldable pub reconcile_pod : Option (PodSpec Q) → PluginConfiguration Q → Cluster → Response Q
  reconcile_pod none cfg cluster = refused "cannot decode pod"
  reconcile_pod (some pod) cfg cluster = changed (inject_sidecar pod cfg cluster)

  abbrev valid_hook :
      Option String → String → Option (PodSpec Q) → PluginConfiguration Q → Cluster → Response Q
  valid_hook (some e) kind pod cfg cluster = refused e
  valid_hook none kind pod cfg cluster =
      if kind == "Pod" then reconcile_pod pod cfg cluster else unchanged

  abbrev pub decoded_hook :
      Parsers Q → String → Option String → Option Cluster → Option (PodSpec Q) → Response Q
  decoded_hook p image none cluster pod = refused "cannot get object kind"
  decoded_hook p image (some kind) none pod = refused "cannot decode cluster"
  decoded_hook p image (some kind) (some cluster) pod =
      let cfg = new_from_cluster p image cluster in
      if not cfg.enabled then unchanged else valid_hook (validate p cfg) kind pod cfg cluster

  -- lifecycleHook, with the SIDECAR_IMAGE variable as an argument.
  unfoldable pub lifecycle_hook : Parsers Q → String → Request Q → Response Q
  lifecycle_hook p image request = decoded_hook p image request.kind request.cluster request.pod
