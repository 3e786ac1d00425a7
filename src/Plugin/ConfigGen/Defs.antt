-- ===== src/Plugin/ConfigGen/Defs.antt =====
-- Generate and EnsureAdminPassword of internal/configgen/configgen.go. yaml.Marshal is a parameter.
use cnpg_pg_doorman.Base.{
  String, ◌<>◌, Bool, true, false, Option, none, some, List, [], ◌∷◌, ℤ, pos,
}
use cnpg_pg_doorman.Base.Maps.{Map, lookup, insert}
use cnpg_pg_doorman.Wrapper.Validator.{
  DoormanConfig, GeneralConfig, PoolConfig, UserConfig, AuthQueryConfig, PrometheusConfig,
}
use cnpg_pg_doorman.Plugin.Defaults.{
  PgDoormanSpec, PoolSpec, UserSpec, AuthQuerySpec, GeneralSpec, PrometheusSpec, apply_defaults,
  general_or_new,
}

abbrev pub admin_password_key : String
admin_password_key = "_admin/password"

unfoldable pub password_key : String → String → String → String
password_key pool_name kind username = pool_name <> "/" <> kind <> "/" <> username

pub record TlsFiles : Type 0 where
  pub certificate : String
  pub private_key : String

-- passwords[key], which is "" on a missing key.
unfoldable pub password_of : Map String → String → String
unfolding lookup
password_of passwords key = elim (lookup key passwords) [ none ↦ "" | some v ↦ v ]

abbrev pub certificate_of : Option TlsFiles → String
certificate_of none = ""
certificate_of (some tls) = tls.certificate

abbrev pub private_key_of : Option TlsFiles → String
private_key_of none = ""
private_key_of (some tls) = tls.private_key

-- ApplyDefaults leaves neither `general` nor `prometheus.enabled` nil.
abbrev pub general_config : Option GeneralSpec → ℤ → Map String → Option TlsFiles → GeneralConfig
general_config o pooler_port passwords tls =
    let g = general_or_new o in
    record {
      host = "0.0.0.0";
      port = pooler_port;
      tls_certificate = certificate_of tls;
      tls_private_key = private_key_of tls;
      admin_username = g.admin_username;
      admin_password = password_of passwords admin_password_key;
      worker_threads = g.worker_threads;
      max_connections = g.max_connections;
      connect_timeout = g.connect_timeout;
      idle_timeout = g.idle_timeout;
      server_lifetime = g.server_lifetime;
      shutdown_timeout = g.shutdown_timeout;
    }

abbrev pub is_on : Option PrometheusSpec → Bool
is_on none = false
is_on (some m) = on m.enabled
  where
    on : Option Bool → Bool
    on none = false
    on (some b) = b

abbrev pub prometheus_config : Bool → ℤ → Option PrometheusConfig
prometheus_config true port = some (record { enabled = true; host = "0.0.0.0"; port = port })
prometheus_config false port = none

abbrev pub auth_query_config :
    Map String → String → Option ℤ → Option AuthQuerySpec → Option AuthQueryConfig
auth_query_config passwords pool_name default_pool_size none = none
auth_query_config passwords pool_name default_pool_size (some aq) = some (record {
  query = aq.query;
  user = aq.user;
  password = password_of passwords (password_key pool_name "auth_query" aq.user);
  database = aq.database;
  workers = aq.pool_size;
  pool_size = default_pool_size;
  cache_ttl = "";
  cache_failure_ttl = "";
  min_interval = "";
})

unfoldable pub user_configs : Map String → String → List UserSpec → List UserConfig
user_configs passwords pool_name [] = []
user_configs passwords pool_name (user ∷ users) =
    record {
      username = user.username;
      password = password_of passwords (password_key pool_name "user" user.username);
      pool_size = user.pool_size;
    }
    ∷ user_configs passwords pool_name users

unfoldable pub pool_config : Map String → String → PoolSpec → PoolConfig
unfolding user_configs password_of password_key
pool_config passwords pool_name pool = record {
  server_host = "localhost";
  server_port = pos 5432;
  pool_mode = pool.pool_mode;
  users = user_configs passwords pool_name pool.users;
  auth_query = auth_query_config passwords pool_name pool.default_pool_size pool.auth_query;
}

unfoldable pub pool_configs : Map String → Map PoolSpec → Map PoolConfig
pool_configs passwords [] = []
pool_configs passwords ((name, pool) ∷ pools) =
    (name, pool_config passwords name pool) ∷ pool_configs passwords pools

-- Generate, up to yaml.Marshal.
unfoldable pub doorman_config : PgDoormanSpec → ℤ → ℤ → Map String → Option TlsFiles → DoormanConfig
unfolding pool_configs password_of
doorman_config spec pooler_port metrics_port passwords tls =
    let applied = apply_defaults spec in
    record {
      general = general_config applied.general pooler_port passwords tls;
      pools = pool_configs passwords applied.pools;
      prometheus = prometheus_config (is_on applied.prometheus) metrics_port;
    }

unfoldable pub generate :
    (DoormanConfig → Option String)
    → PgDoormanSpec
    → ℤ
    → ℤ
    → Map String
    → Option TlsFiles
    → Option String
generate marshal spec pooler_port metrics_port passwords tls =
    marshal (doorman_config spec pooler_port metrics_port passwords tls)

-- EnsureAdminPassword. A nil map reads like an empty one.
unfoldable pub ensure_admin_password : Map String → String → Map String
unfolding lookup
ensure_admin_password passwords fallback = elim (lookup admin_password_key passwords) [
  | some _ ↦ passwords
  | none ↦ insert admin_password_key fallback passwords
]
