-- ===== src/Plugin/Defaults.antt =====
-- The PgDoorman spec of api/v1alpha1/types.go and ApplyDefaults of api/v1alpha1/defaults.go. The
-- pools are an association list, and a pointer that may be nil is an Option.
use cnpg_pg_doorman.Base.{
  String, ◌==◌, ◌≡◌, refl, Bool, true, Option, none, some, List, [], ◌∷◌, ℤ, pos, arith, eq_iff,
  if◌then◌else◌,
}
use cnpg_pg_doorman.Base.Maps.{Map}

pub record SecretKeySelector : Type 0 where
  pub name : String
  pub key : String

pub record AuthQuerySpec : Type 0 where
  pub user : String
  pub query : String
  pub password_secret_ref : Option SecretKeySelector
  pub database : String
  pub pool_size : Option ℤ

pub record UserSpec : Type 0 where
  pub username : String
  pub password_secret_ref : SecretKeySelector
  pub pool_size : Option ℤ

pub record PoolSpec : Type 0 where
  pub pool_mode : String
  pub default_pool_size : Option ℤ
  pub auth_query : Option AuthQuerySpec
  pub users : List UserSpec

pub record GeneralSpec : Type 0 where
  pub max_connections : Option ℤ
  pub worker_threads : Option ℤ
  pub connect_timeout : String
  pub idle_timeout : String
  pub server_lifetime : String
  pub shutdown_timeout : String
  pub admin_username : String
  pub admin_password_secret_ref : Option SecretKeySelector

pub record PrometheusSpec : Type 0 where
  pub enabled : Option Bool

pub record PgDoormanSpec : Type 0 where
  pub cluster_ref : String
  pub pools : Map PoolSpec
  pub general : Option GeneralSpec
  pub prometheus : Option PrometheusSpec

-- The zero values behind `&GeneralSpec{}` and `&PrometheusSpec{}`.
abbrev pub general_or_new : Option GeneralSpec → GeneralSpec
general_or_new (some g) = g
general_or_new none = record {
  max_connections = none;
  worker_threads = none;
  connect_timeout = "";
  idle_timeout = "";
  server_lifetime = "";
  shutdown_timeout = "";
  admin_username = "";
  admin_password_secret_ref = none;
}

abbrev prometheus_or_new : Option PrometheusSpec → PrometheusSpec
prometheus_or_new (some m) = m
prometheus_or_new none = record { enabled = none }

abbrev pub or_default {ℓ} : {A : Type ℓ} → Option A → A → Option A
or_default (some a) default = some a
or_default none default = some default

abbrev pub text_or : String → String → String
text_or text default = if text == "" then default else text

unfoldable pub default_general : Option GeneralSpec → GeneralSpec
default_general o =
    let g = general_or_new o in
    record g {
      max_connections = or_default g.max_connections (pos 8192);
      worker_threads = or_default g.worker_threads (pos 4);
      connect_timeout = text_or g.connect_timeout "3s";
      idle_timeout = text_or g.idle_timeout "5m";
      server_lifetime = text_or g.server_lifetime "5m";
      shutdown_timeout = text_or g.shutdown_timeout "10s";
      admin_username = text_or g.admin_username "admin";
    }

unfoldable pub default_auth_query : Option AuthQuerySpec → Option AuthQuerySpec
default_auth_query none = none
default_auth_query (some aq) = some (record aq {
  query = text_or aq.query "SELECT * FROM public.doorman_auth_query($1)";
  database = text_or aq.database "postgres";
  pool_size = or_default aq.pool_size (pos 2);
})

unfoldable pub default_users : List UserSpec → List UserSpec
default_users [] = []
default_users (user ∷ users) =
    record user { pool_size = or_default user.pool_size (pos 20) } ∷ default_users users

unfoldable pub default_pool : PoolSpec → PoolSpec
default_pool pool = record pool {
  pool_mode = text_or pool.pool_mode "transaction";
  default_pool_size = or_default pool.default_pool_size (pos 40);
  auth_query = default_auth_query pool.auth_query;
  users = default_users pool.users;
}

unfoldable pub default_pools : Map PoolSpec → Map PoolSpec
default_pools [] = []
default_pools ((name, pool) ∷ pools) = (name, default_pool pool) ∷ default_pools pools

unfoldable pub apply_defaults : PgDoormanSpec → PgDoormanSpec
apply_defaults spec =
    let m = prometheus_or_new spec.prometheus in
    record spec {
      general = some (default_general spec.general);
      prometheus = some (record m { enabled = or_default m.enabled true });
      pools = default_pools spec.pools;
    }

default_auth_query_twice :
    (o : Option AuthQuerySpec) → default_auth_query (default_auth_query o) ≡ default_auth_query o
unfolding default_auth_query
default_auth_query_twice none = refl
default_auth_query_twice (some aq) = ground (arith, eq_iff aq.query "", eq_iff aq.database "")

default_users_twice : (us : List UserSpec) → default_users (default_users us) ≡ default_users us
unfolding default_users
default_users_twice [] = refl
default_users_twice (user ∷ users) = ground (arith, default_users_twice users)

text_or_twice :
    (text default : String) → text_or (text_or text default) default ≡ text_or text default
text_or_twice text default = ground arith

or_default_twice {ℓ} :
    {A : Type ℓ} (o : Option A) (default : A)
    → or_default (or_default o default) default ≡ or_default o default
or_default_twice none default = refl
or_default_twice (some a) default = refl

default_pools_twice : (ps : Map PoolSpec) → default_pools (default_pools ps) ≡ default_pools ps
unfolding default_pools default_pool
default_pools_twice [] = refl
default_pools_twice ((name, pool) ∷ pools) =
    rw
      (
        default_pools_twice pools,
        text_or_twice pool.pool_mode "transaction",
        or_default_twice pool.default_pool_size (pos 40),
        default_auth_query_twice pool.auth_query,
        default_users_twice pool.users,
      )
      refl

default_general_twice :
    (o : Option GeneralSpec) → default_general (some (default_general o)) ≡ default_general o
unfolding default_general
default_general_twice none = refl
default_general_twice (some g) =
    rw
      (
        or_default_twice g.max_connections (pos 8192),
        or_default_twice g.worker_threads (pos 4),
        text_or_twice g.connect_timeout "3s",
        text_or_twice g.idle_timeout "5m",
        text_or_twice g.server_lifetime "5m",
        text_or_twice g.shutdown_timeout "10s",
        text_or_twice g.admin_username "admin",
      )
      refl

-- Defaults that were applied once are not changed by a second call.
pub apply_defaults_twice :
    (spec : PgDoormanSpec) → apply_defaults (apply_defaults spec) ≡ apply_defaults spec
unfolding apply_defaults
apply_defaults_twice spec =
    let m = prometheus_or_new spec.prometheus in
    rw
      (
        default_general_twice spec.general,
        default_pools_twice spec.pools,
        or_default_twice m.enabled true,
      )
      refl
