-- ===== src/Tests/Configs.antt =====
-- The configuration theorems at concrete configurations.
use cnpg_pg_doorman.Base.Maps.{lookup}
use cnpg_pg_doorman.Plugin.Config.{read_plugins, read_parameters, set_resource}
use cnpg_pg_doorman.Base.{
  String, ◌==◌, ◌≡◌, ◌↔◌, refl, true, false, Option, none, some, [], ◌∷◌, ℤ, pos, if◌then◌else◌,
}
use cnpg_pg_doorman.Wrapper.Validator.{validate_config, duration_matches, codes}
use cnpg_pg_doorman.Wrapper.Validator.Exact.{validate_config_iff, IsServable}
use cnpg_pg_doorman.Wrapper.Restart.{needs_process_restart, needs_process_restart_iff}
use cnpg_pg_doorman.Plugin.Config.{
  PluginConfiguration, Cluster, Parsers, plugin_name, validate, initial, new_from_cluster,
  mutate_cluster,
}
use cnpg_pg_doorman.Plugin.Config.Checked.{validate_iff, IsDeployable}
use cnpg_pg_doorman.Plugin.Config.Mutation.{new_from_cluster-mutate_cluster}
use cnpg_pg_doorman.Plugin.Webhook.{
  Reading, found, not_found, validate_cluster_change, validate_cluster_change_iff,
}
use cnpg_pg_doorman.Plugin.Defaults.{PgDoormanSpec}
use cnpg_pg_doorman.Tests.Pod.{config, general}

validate_config_iff_example :
    (validate_config (config (pos 4)) ≡ none) ↔ IsServable (config (pos 4))
validate_config_iff_example = validate_config_iff (config (pos 4))

duration_test : duration_matches (codes "30s") ≡ true
unfolding duration_matches
duration_test = refl

needs_process_restart_iff_example :
    (needs_process_restart (config (pos 2)) (config (pos 4)) ≡ false) ↔ (
      ((general (pos 2)).worker_threads ≡ (general (pos 4)).worker_threads)
      × ((general (pos 2)).max_connections ≡ (general (pos 4)).max_connections)
      × ((general (pos 2)).host ≡ (general (pos 4)).host)
      × ((general (pos 2)).port ≡ (general (pos 4)).port))
needs_process_restart_iff_example = needs_process_restart_iff (config (pos 2)) (config (pos 4))

abbrev atoi : String → Option ℤ
atoi text =
    if text == "6432" then some (pos 6432) else if text == "9127" then some (pos 9127) else none

abbrev pub parsers : Parsers String
parsers = record {
  atoi = atoi;
  parse_bool = λ text. if text == "true" then some true else none;
  parse_quantity = λ text. some text;
  exceeds = λ req lim. false;
}

abbrev pub cluster : Cluster
cluster = record {
  name = "db";
  namespace = "prod";
  plugins =
      record { name = plugin_name; enabled = none; parameters = ("configName", "main") ∷ [] } ∷ [];
  server_tls_secret = none;
  current_primary = "db-1";
}

abbrev configuration : PluginConfiguration String
configuration = record (initial parsers "image") { config_name = "main" }

validate_iff_example : (validate parsers configuration ≡ none) ↔ IsDeployable parsers configuration
validate_iff_example = validate_iff parsers configuration

new_from_cluster-mutate_cluster_example :
    new_from_cluster parsers "image" (mutate_cluster cluster)
    ≡ new_from_cluster parsers "image" cluster
new_from_cluster-mutate_cluster_example =
    new_from_cluster-mutate_cluster parsers refl refl "image" cluster

-- One PgDoorman, which belongs to the cluster above.
abbrev get : String → String → Reading
get namespace name = if name == "main" then found "db" else not_found

validate_cluster_change_iff_example :
    (validate_cluster_change parsers "image" (some get) cluster ≡ []) ↔ (
      IsDeployable parsers (new_from_cluster parsers "image" cluster)
      × (get "prod" (new_from_cluster parsers "image" cluster).config_name ≡ found "db"))
unfolding new_from_cluster read_plugins read_parameters set_resource lookup
validate_cluster_change_iff_example =
    validate_cluster_change_iff parsers "image" get cluster refl (λ e. cc e)

-- A pool with an auth_query and one user, with nothing else set.
abbrev pub pgdoorman : PgDoormanSpec
pgdoorman = record {
  cluster_ref = "db";
  pools =
      (
        "app",
        record {
          pool_mode = "";
          default_pool_size = none;
          auth_query = some (record {
            user = "doorman";
            query = "";
            password_secret_ref = none;
            database = "";
            pool_size = none;
          });
          users =
              record {
                username = "app";
                password_secret_ref = record { name = "app"; key = "password" };
                pool_size = none;
              }
              ∷ [];
        },
      )
      ∷ [];
  general = none;
  prometheus = none;
}
