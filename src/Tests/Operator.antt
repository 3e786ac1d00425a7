-- ===== src/Tests/Operator.antt =====
-- The theorems on the plugin's controller and hooks at one small cluster.
use cnpg_pg_doorman.Plugin.Api.{◌>>=◌, delete_from}
use cnpg_pg_doorman.Plugin.Reconciler.{
  pre_cluster, cleanup, delete_role, ignore_not_found, delete_role_binding, delete_service,
  delete_rendered_secret,
}
use cnpg_pg_doorman.Plugin.Config.{read_plugins}
use cnpg_pg_doorman.Plugin.Lifecycle.{reconcile_pod}
use cnpg_pg_doorman.Base.Maps.{lookup, insert}
use cnpg_pg_doorman.Plugin.Config.{read_plugins, read_parameters, set_resource, validate}
use cnpg_pg_doorman.Base.Maps.{lookup}
use cnpg_pg_doorman.Plugin.Config.{read_plugins, read_parameters, set_resource}
use cnpg_pg_doorman.Base.{
  ◌≡◌, ◌≢◌, ◌↔◌, ◌⊎◌, inl, refl, ◌==◌, String, Bool, true, false, Option, none, some, [], ◌∷◌, pos,
  contains, if◌then◌else◌,
}
use cnpg_pg_doorman.Base.Maps.{Map}
use cnpg_pg_doorman.Wrapper.Validator.{validate_config}
use cnpg_pg_doorman.Plugin.Config.{Cluster, PluginConfiguration, initial, new_from_cluster}
use cnpg_pg_doorman.Plugin.Api.{Api, ok, Secret, PgDoorman}
use cnpg_pg_doorman.Plugin.Api.Frame.{NoSecretLost}
use cnpg_pg_doorman.Plugin.AuthSecrets.{collect_secret_names, default_auth_secret_refs}
use cnpg_pg_doorman.Plugin.AuthSecrets.Names.{collect_secret_names_iff, IsReferred}
use cnpg_pg_doorman.Plugin.ConfigGen.{doorman_config, password_of, password_key}
use cnpg_pg_doorman.Plugin.ConfigGen.Servable.{doorman_config-validate_config, IsAdmitted}
use cnpg_pg_doorman.Plugin.Controller.{
  Renderer, done, finalizer, reconcile, render_and_store, entry_of, config_key,
}
use cnpg_pg_doorman.Plugin.Controller.Whole.{reconcile-RendersOnly, Rendering}
use cnpg_pg_doorman.Plugin.Controller.Deletion.{
  reconcile-blocks_deletion, reconcile-releases_unused,
}
use cnpg_pg_doorman.Plugin.Lifecycle.{
  PodSpec, Request, Container, inject_sidecar, lifecycle_hook, other,
}
use cnpg_pg_doorman.Plugin.Lifecycle.Injection.{inject_sidecar-IsInjected, IsInjected}
use cnpg_pg_doorman.Plugin.Lifecycle.Ports.{lifecycle_hook-IsAnswered, IsAnswered}
use cnpg_pg_doorman.Plugin.Reconciler.{pre, requeue_in}
use cnpg_pg_doorman.Plugin.Reconciler.Outcomes.{pre-goes_on_running}
use cnpg_pg_doorman.Plugin.Reconciler.Cleanup.{pre-IsCleaned, IsCleaned}
use cnpg_pg_doorman.Plugin.Reconciler.Routed.{pre-IsRouted, IsRouted}
use cnpg_pg_doorman.Plugin.Reconciler.Cleanup.{NoRole, NoRoleBinding}
use cnpg_pg_doorman.Plugin.Api.{pure}
use cnpg_pg_doorman.Plugin.Api.{throw}
use cnpg_pg_doorman.Plugin.Api.{handle}
use cnpg_pg_doorman.Plugin.Api.{emit}
use cnpg_pg_doorman.Plugin.Api.{fetch}
use cnpg_pg_doorman.Plugin.Api.{visible}
use cnpg_pg_doorman.Plugin.Api.{get_secret}
use cnpg_pg_doorman.Plugin.Api.{create_secret}
use cnpg_pg_doorman.Plugin.Api.{patch_doorman}
use cnpg_pg_doorman.Plugin.Defaults.{default_general}
use cnpg_pg_doorman.Plugin.Defaults.{default_auth_query}
use cnpg_pg_doorman.Plugin.Defaults.{default_users}
use cnpg_pg_doorman.Plugin.Defaults.{default_pool}
use cnpg_pg_doorman.Plugin.Defaults.{default_pools}
use cnpg_pg_doorman.Plugin.Defaults.{apply_defaults}
use cnpg_pg_doorman.Plugin.AuthSecrets.{refer_pools}
use cnpg_pg_doorman.Plugin.AuthSecrets.{add}
use cnpg_pg_doorman.Plugin.AuthSecrets.{add_users}
use cnpg_pg_doorman.Plugin.AuthSecrets.{add_pools}
use cnpg_pg_doorman.Plugin.Credentials.{value_or_error}
use cnpg_pg_doorman.Plugin.Credentials.{extract_secret_value}
use cnpg_pg_doorman.Plugin.Credentials.{resolve_users}
use cnpg_pg_doorman.Plugin.Credentials.{resolve_auth_ref}
use cnpg_pg_doorman.Plugin.Credentials.{resolve_auth}
use cnpg_pg_doorman.Plugin.Credentials.{resolve_pools}
use cnpg_pg_doorman.Plugin.Credentials.{resolve_admin}
use cnpg_pg_doorman.Plugin.Credentials.{resolve_passwords}
use cnpg_pg_doorman.Plugin.ConfigGen.{user_configs}
use cnpg_pg_doorman.Plugin.ConfigGen.{pool_config}
use cnpg_pg_doorman.Plugin.ConfigGen.{pool_configs}
use cnpg_pg_doorman.Plugin.ConfigGen.{generate}
use cnpg_pg_doorman.Plugin.ConfigGen.{ensure_admin_password}
use cnpg_pg_doorman.Plugin.Controller.{set_rendered}
use cnpg_pg_doorman.Plugin.Controller.{reconcile_deletion}
use cnpg_pg_doorman.Plugin.Controller.{ensure_finalizer}
use cnpg_pg_doorman.Plugin.Controller.{check_secrets}
use cnpg_pg_doorman.Plugin.Controller.{validate_secret_ownership}
use cnpg_pg_doorman.Plugin.Controller.{random_password}
use cnpg_pg_doorman.Plugin.Controller.{exists_unlabeled}
use cnpg_pg_doorman.Plugin.Controller.{ensure_generated_auth_secret}
use cnpg_pg_doorman.Plugin.Controller.{reuse_password}
use cnpg_pg_doorman.Plugin.Controller.{admin_password_fallback}
use cnpg_pg_doorman.Plugin.Controller.{marshalled}
use cnpg_pg_doorman.Plugin.Controller.{checked}
use cnpg_pg_doorman.Plugin.Controller.{render}
use cnpg_pg_doorman.Plugin.Controller.{encoded}
use cnpg_pg_doorman.Plugin.Controller.{json_of}
use cnpg_pg_doorman.Plugin.Controller.{binary_spec_json}
use cnpg_pg_doorman.Plugin.Controller.{upsert_secret}
use cnpg_pg_doorman.Plugin.Controller.{store_config}
use cnpg_pg_doorman.Plugin.Controller.{auth_secret}
use cnpg_pg_doorman.Plugin.Controller.{referring}
use cnpg_pg_doorman.Plugin.Controller.{deployable}
use cnpg_pg_doorman.Plugin.Controller.{reconcile_config}
use cnpg_pg_doorman.Plugin.Controller.{reconcile_found}
use cnpg_pg_doorman.Plugin.Controller.{find_cluster}
use cnpg_pg_doorman.Wrapper.Validator.{validate_config_bytes}
use cnpg_pg_doorman.Wrapper.Validator.{validate_general}
use cnpg_pg_doorman.Wrapper.Validator.{validate_positive}
use cnpg_pg_doorman.Wrapper.Validator.{validate_duration}
use cnpg_pg_doorman.Wrapper.Validator.{validate_pools}
use cnpg_pg_doorman.Wrapper.Validator.{validate_pool}
use cnpg_pg_doorman.Wrapper.Validator.{validate_users}
use cnpg_pg_doorman.Wrapper.Validator.{validate_user}
use cnpg_pg_doorman.Wrapper.Validator.{duration_matches}
use cnpg_pg_doorman.Wrapper.Validator.{validate_auth_query}
use cnpg_pg_doorman.Plugin.Api.{patch_secret}
use cnpg_pg_doorman.Plugin.Api.{create_service}
use cnpg_pg_doorman.Plugin.Api.{patch_service}
use cnpg_pg_doorman.Plugin.Config.{set_defaults}
use cnpg_pg_doorman.Plugin.Config.{mutate_plugins}
use cnpg_pg_doorman.Plugin.Config.{mutate_cluster}
use cnpg_pg_doorman.Plugin.Reconciler.{build_doorman_service}
use cnpg_pg_doorman.Plugin.Reconciler.{cleanup_legacy_rbac}
use cnpg_pg_doorman.Plugin.Reconciler.{included}
use cnpg_pg_doorman.Plugin.Reconciler.{same_ports}
use cnpg_pg_doorman.Plugin.Reconciler.{is_current_service}
use cnpg_pg_doorman.Plugin.Reconciler.{update_service}
use cnpg_pg_doorman.Plugin.Reconciler.{ensure_service}
use cnpg_pg_doorman.Plugin.Reconciler.{pre_missing}
use cnpg_pg_doorman.Plugin.Reconciler.{pre_found}
use cnpg_pg_doorman.Plugin.Reconciler.{pre_valid}
use cnpg_pg_doorman.Wrapper.World
use cnpg_pg_doorman.Wrapper.BinarySpec.{BinarySpec, parse_binary_spec}
use cnpg_pg_doorman.Plugin.Binaries.{
  Directory, holding, digest, missing, Carries, load_binary_spec, load_manifest, collect_digests,
  load_binary_spec-parse_binary_spec,
}
use cnpg_pg_doorman.Plugin.Reconciler.{proceed}
use cnpg_pg_doorman.Plugin.Api.{called}
use cnpg_pg_doorman.Plugin.Reconciler.Settled.{pre_twice}
use cnpg_pg_doorman.Tests.Pod.{config}
use cnpg_pg_doorman.Tests.Configs.{parsers, cluster, pgdoorman}

abbrev pub renderer : Renderer String
renderer = record {
  parsers = parsers;
  sidecar_image = "image";
  binary = none;
  marshal_yaml = λ cfg. some "yaml";
  parse_yaml = λ text. if text == "yaml" then some (config (pos 4)) else none;
  marshal_json = λ spec. some "{}";
  random = λ n. some "generated";
}

abbrev doorman : PgDoorman
doorman = record {
  name = "main";
  namespace = "prod";
  generation = 1;
  deleting = false;
  finalizers = [];
  spec = pgdoorman;
  observed_generation = 0;
  rendered = none;
}

abbrev app_secret : Secret
app_secret = record {
  labels = ("cnpg.io/cluster", "db") ∷ [];
  entries = ("password", "s3cret") ∷ [];
  resource_version = "1";
  owner = "";
}

abbrev api_with : PgDoorman → Api
api_with d = record {
  doormans = λ ns n. if n == "main" then some d else none;
  clusters = λ ns n. if n == "db" then some cluster else none;
  secrets = λ ns n. if n == "app" then some app_secret else none;
  services = λ ns n. none;
  roles = λ ns n. if n == "db-pg-doorman" then some tt else none;
  role_bindings = λ ns n. none;
  fault = λ n. false;
  calls = 0;
  events = [];
}

abbrev api : Api
api = api_with doorman

abbrev text_stored : Option Secret → Bool
text_stored none = false
text_stored (some s) = entry_of s.entries config_key == "yaml"

reconcile_test :
    text_stored ((reconcile renderer "prod" "main" api).1.secrets "prod" "db-doorman-config") ≡ true
unfolding lookup insert pure throw handle ◌>>=◌ emit fetch visible get_secret create_secret
    patch_doorman set_resource read_parameters read_plugins new_from_cluster validate
    default_general default_auth_query default_users default_pool default_pools apply_defaults
    refer_pools default_auth_secret_refs add add_users add_pools collect_secret_names value_or_error
    extract_secret_value resolve_users resolve_auth_ref resolve_auth resolve_pools resolve_admin
    resolve_passwords password_key password_of user_configs pool_config pool_configs doorman_config
    generate ensure_admin_password entry_of set_rendered reconcile_deletion ensure_finalizer
    check_secrets validate_secret_ownership random_password exists_unlabeled
    ensure_generated_auth_secret reuse_password admin_password_fallback marshalled checked render
    encoded json_of binary_spec_json upsert_secret store_config render_and_store auth_secret
    referring deployable reconcile_config reconcile_found find_cluster reconcile
    validate_config_bytes validate_config validate_general validate_positive validate_duration
    validate_pools validate_pool validate_users validate_user duration_matches validate_auth_query
reconcile_test = refl

reconcile-RendersOnly_example :
    NoSecretLost api (reconcile renderer "prod" "main" api).1
    ⊎ ((d : PgDoorman) × (api.doormans "prod" "main" ≡ some d)
        × Rendering renderer d api (reconcile renderer "prod" "main" api).1)
reconcile-RendersOnly_example = reconcile-RendersOnly renderer "prod" "main" api

abbrev pub configuration : PluginConfiguration String
configuration = new_from_cluster parsers "image" cluster

abbrev leaving : PgDoorman
leaving = record doorman { deleting = true; finalizers = finalizer ∷ [] }

reconcile-blocks_deletion_example :
    (reconcile renderer "prod" "main" (api_with leaving)).1.doormans ≡ (api_with leaving).doormans
unfolding new_from_cluster read_plugins read_parameters set_resource lookup
reconcile-blocks_deletion_example =
    reconcile-blocks_deletion renderer "prod" "main" (api_with leaving) leaving cluster refl refl
      refl refl

-- The cluster names `main`, and this one has another name.
abbrev unused : PgDoorman
unused = record leaving { name = "old" }

abbrev api_unused : Api
api_unused = record api { doormans = λ ns n. if n == "old" then some unused else none }

reconcile-releases_unused_example :
    ((reconcile renderer "prod" "old" api_unused).0 ≡ ok done)
    × ((reconcile renderer "prod" "old" api_unused).1.doormans "prod" "old" ≡ none)
unfolding new_from_cluster read_plugins read_parameters set_resource lookup
reconcile-releases_unused_example =
    reconcile-releases_unused renderer api_unused unused cluster refl refl refl refl refl
      (λ n. refl)

abbrev postgres : Container String
postgres = record {
  name = "postgres";
  image = "postgres:17";
  ports = [];
  env = [];
  mounts = [];
  requests = [];
  limits = [];
  liveness_path = "";
  liveness_port = pos 0;
  liveness_delay = 0;
  liveness_period = 0;
  restart_policy = "";
  privileged = false;
  allow_privilege_escalation = false;
  seccomp = "";
  dropped_capabilities = [];
  run_as_non_root = true;
  read_only_root = true;
  rest = "";
}

abbrev pod : PodSpec String
pod = record {
  volumes = record { name = "pgdata"; source = other "pvc" } ∷ [];
  init_containers = [];
  containers = postgres ∷ [];
}

inject_sidecar-IsInjected_example :
    IsInjected pod
      (initial parsers "image")
      cluster
      (inject_sidecar pod (initial parsers "image") cluster)
inject_sidecar-IsInjected_example = inject_sidecar-IsInjected pod (initial parsers "image") cluster

abbrev request : Request String
request = record { kind = some "Pod"; cluster = some cluster; pod = some pod }

lifecycle_hook-IsAnswered_example :
    IsAnswered parsers "image" request
      (inject_sidecar pod (new_from_cluster parsers "image" cluster) cluster)
unfolding lifecycle_hook new_from_cluster read_plugins read_parameters set_resource lookup validate
    insert reconcile_pod
lifecycle_hook-IsAnswered_example =
    lifecycle_hook-IsAnswered parsers "image" request
      (inject_sidecar pod (new_from_cluster parsers "image" cluster) cluster) refl

pre-goes_on_running_example :
    (pre parsers "image" (some "Cluster") (some cluster) (record api { doormans = λ ns n. none })).0
    ≢ ok (requeue_in 10)
pre-goes_on_running_example =
    pre-goes_on_running parsers "image" "Cluster" cluster (record api { doormans = λ ns n. none })
      10 (λ e. cc e)

abbrev plain : Cluster
plain = record cluster { plugins = [] }

pre-IsCleaned_example : IsCleaned plain (pre parsers "image" (some "Cluster") (some plain) api).1
unfolding new_from_cluster read_plugins pre pre_cluster ◌>>=◌ cleanup delete_role ignore_not_found
    delete_from delete_role_binding delete_service delete_rendered_secret
pre-IsCleaned_example = pre-IsCleaned plain parsers "image" api refl refl

pre-IsRouted_example :
    (pgdoorman.cluster_ref ≡ "db")
    × NoRole cluster (pre parsers "image" (some "Cluster") (some cluster) api).1
    × NoRoleBinding cluster (pre parsers "image" (some "Cluster") (some cluster) api).1
    × IsRouted cluster
        (new_from_cluster parsers "image" cluster).pooler_port
        (pre parsers "image" (some "Cluster") (some cluster) api).1
unfolding lookup insert pure throw handle ◌>>=◌ emit fetch visible get_secret create_secret
    patch_secret patch_doorman delete_from create_service patch_service set_resource read_parameters
    read_plugins new_from_cluster validate set_defaults mutate_plugins mutate_cluster
    build_doorman_service ignore_not_found delete_role delete_role_binding delete_service
    delete_rendered_secret cleanup cleanup_legacy_rbac included same_ports is_current_service
    update_service ensure_service pre_missing pre_found pre_valid pre_cluster pre
pre-IsRouted_example = pre-IsRouted cluster parsers "image" api doorman refl refl refl

pre_twice_example :
    let a = (pre parsers "image" (some "Cluster") (some cluster) api).1 in
    pre parsers "image" (some "Cluster") (some cluster) a
    ≡ (ok proceed, called (called (called (called a))))
unfolding lookup insert pure throw handle ◌>>=◌ emit fetch visible get_secret create_secret
    patch_secret patch_doorman delete_from create_service patch_service set_resource read_parameters
    read_plugins new_from_cluster validate set_defaults mutate_plugins mutate_cluster
    build_doorman_service ignore_not_found delete_role delete_role_binding delete_service
    delete_rendered_secret cleanup cleanup_legacy_rbac included same_ports is_current_service
    update_service ensure_service pre_missing pre_found pre_valid pre_cluster pre
pre_twice_example =
    pre_twice cluster parsers "image" api doorman doorman refl refl refl (λ n. refl) refl refl

collect_secret_names_iff_example :
    (contains (collect_secret_names pgdoorman) "app" ≡ true) ↔ IsReferred "app" pgdoorman
collect_secret_names_iff_example = collect_secret_names_iff pgdoorman "app"

pgdoorman-IsAdmitted : IsAdmitted pgdoorman
pgdoorman-IsAdmitted = record {
  some_pool = λ e. cc e;
  general = tt;
  pools = (
    record {
      mode = inl refl;
      size = tt;
      auth = ((λ e. cc e), tt);
      users = (((λ e. cc e), tt), tt);
      someone = inl (λ e. cc e);
    },
    tt,
  );
}

abbrev passwords : Map String
passwords = ("app/user/app", "s3cret") ∷ []

doorman_config-validate_config_example :
    validate_config (doorman_config pgdoorman (pos 6432) (pos 9127) passwords none) ≡ none
unfolding password_of password_key lookup
doorman_config-validate_config_example =
    doorman_config-validate_config pgdoorman (pos 6432) (pos 9127) passwords none
      pgdoorman-IsAdmitted (((λ e. cc e), tt), tt)

-- Two architectures of which one has a binary.
abbrev image : Directory
image = holding (
    record { name = "amd64"; is_dir = true; hash = digest "aa" }
    ∷ record { name = "arm64"; is_dir = true; hash = missing }
    ∷ [])

abbrev published : BinarySpec
published = record { url = "https://plugin"; sha256 = ("amd64", "aa") ∷ []; ca_bundle = "" }

load_binary_spec-parse_binary_spec_example :
    (parse_binary_spec (λ text. some published) "{}" ≡ World.ok published)
    × ((arch sum : String) → lookup arch published.sha256 ≡ some sum → Carries arch sum image)
unfolding load_binary_spec load_manifest collect_digests insert
load_binary_spec-parse_binary_spec_example =
    load_binary_spec-parse_binary_spec image "https://plugin" "" (λ file. none)
      (λ text. some published) "{}" published refl refl
