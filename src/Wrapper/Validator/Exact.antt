-- ===== src/Wrapper/Validator/Exact.antt =====
-- What the structural check of validator.go accepts, written without the order of its tests.
use cnpg_pg_doorman.Base.{
  ◌≤◌, String, ◌≡◌, ◌≢◌, ◌⊎◌, ◌↔◌, List, [], ◌∷◌, arith, All, Option, none, some, ◌<>◌, eq_iff, ℤ,
  pos, negsuc,
}
use cnpg_pg_doorman.Base.Maps.{Map}
use cnpg_pg_doorman.Wrapper.Validator.Defs.{
  GeneralConfig, UserConfig, AuthQueryConfig, PoolConfig, DoormanConfig, normal, validate_duration,
  validate_positive, validate_general, validate_auth_query, validate_user, validate_users,
  validate_pool, validate_pools, validate_config, check_auth_query,
}
use cnpg_pg_doorman.Wrapper.Validator.Duration.{IsDuration, duration_matches_iff}

abbrev pub IsPositive : Option ℤ → Type 0
IsPositive none = Unit
IsPositive (some (pos n)) = 1 ≤ n
IsPositive (some (negsuc n)) = ⊥

abbrev pub IsTimeout : String → Type 0
IsTimeout value = (value ≡ "") ⊎ IsDuration (normal value)

pub record IsGeneral (g : GeneralConfig) : Type 0 where
  pub workers : IsPositive g.worker_threads
  pub connections : IsPositive g.max_connections
  pub connect : IsTimeout g.connect_timeout
  pub idle : IsTimeout g.idle_timeout
  pub lifetime : IsTimeout g.server_lifetime
  pub shutdown : IsTimeout g.shutdown_timeout

pub record IsAuthQuery (aq : AuthQueryConfig) : Type 0 where
  pub has_query : aq.query ≢ ""
  pub has_user : aq.user ≢ ""
  pub some_workers : IsPositive aq.workers
  pub some_pool : IsPositive aq.pool_size
  pub ttl : IsTimeout aq.cache_ttl
  pub failure_ttl : IsTimeout aq.cache_failure_ttl
  pub interval : IsTimeout aq.min_interval

abbrev pub IsAuth : Option AuthQueryConfig → Type 0
IsAuth none = Unit
IsAuth (some aq) = IsAuthQuery aq

pub record IsUser (user : UserConfig) : Type 0 where
  pub named : user.username ≢ ""
  pub secret : user.password ≢ ""
  pub size : IsPositive user.pool_size

pub record IsPool (pool : PoolConfig) : Type 0 where
  pub mode : (pool.pool_mode ≡ "") ⊎ (pool.pool_mode ≡ "session") ⊎ (pool.pool_mode ≡ "transaction")
  pub someone : (pool.users ≢ []) ⊎ (pool.auth_query ≢ none)
  pub auth : IsAuth pool.auth_query
  pub all_users : All IsUser pool.users

pub record IsServable (cfg : DoormanConfig) : Type 0 where
  pub some_pool : cfg.pools ≢ []
  pub settings : IsGeneral cfg.general
  pub all_pools : All (λ ((_, pool) : String × PoolConfig). IsPool pool) cfg.pools

IsPositive-iff : (f : String) (o : Option ℤ) → (validate_positive f o ≡ none) ↔ IsPositive o
unfolding validate_positive
IsPositive-iff f none = ground arith
IsPositive-iff f (some (pos n)) = ground arith
IsPositive-iff f (some (negsuc n)) = ground arith

IsTimeout-iff : (f v : String) → (validate_duration f v ≡ none) ↔ IsTimeout v
unfolding validate_duration
IsTimeout-iff f v = ground (arith, eq_iff v "", duration_matches_iff (normal v))

IsGeneral-iff : (g : GeneralConfig) → (validate_general g ≡ none) ↔ IsGeneral g
unfolding validate_general
IsGeneral-iff g = ground (
  arith,
  IsPositive-iff "general.worker_threads" g.worker_threads,
  IsPositive-iff "general.max_connections" g.max_connections,
  IsTimeout-iff "general.connect_timeout" g.connect_timeout,
  IsTimeout-iff "general.idle_timeout" g.idle_timeout,
  IsTimeout-iff "general.server_lifetime" g.server_lifetime,
  IsTimeout-iff "general.shutdown_timeout" g.shutdown_timeout,
)

IsAuthQuery-iff :
    (name : String) (aq : AuthQueryConfig) → (validate_auth_query name aq ≡ none) ↔ IsAuthQuery aq
unfolding validate_auth_query
IsAuthQuery-iff name aq = ground (
  arith,
  eq_iff aq.query "",
  eq_iff aq.user "",
  IsPositive-iff (name <> ": auth_query.workers") aq.workers,
  IsPositive-iff (name <> ": auth_query.pool_size") aq.pool_size,
  IsTimeout-iff (name <> ": auth_query.cache_ttl") aq.cache_ttl,
  IsTimeout-iff (name <> ": auth_query.cache_failure_ttl") aq.cache_failure_ttl,
  IsTimeout-iff (name <> ": auth_query.min_interval") aq.min_interval,
)

IsAuth-iff :
    (name : String) (o : Option AuthQueryConfig) → (check_auth_query name o ≡ none) ↔ IsAuth o
IsAuth-iff name none = ground arith
IsAuth-iff name (some aq) = IsAuthQuery-iff name aq

IsUser-iff : (name : String) (user : UserConfig) → (validate_user name user ≡ none) ↔ IsUser user
unfolding validate_user
IsUser-iff name user = ground (
  arith,
  eq_iff user.username "",
  eq_iff user.password "",
  IsPositive-iff (name <> ": users.pool_size") user.pool_size,
)

users_iff :
    (name : String) (users : List UserConfig)
    → (validate_users name users ≡ none) ↔ All IsUser users
unfolding validate_users
users_iff name [] = ground arith
users_iff name (user ∷ users) = ground (arith, IsUser-iff name user, users_iff name users)

IsPool-iff : (name : String) (pool : PoolConfig) → (validate_pool name pool ≡ none) ↔ IsPool pool
unfolding validate_pool
IsPool-iff name pool = ground (
  arith,
  eq_iff pool.pool_mode "",
  eq_iff pool.pool_mode "session",
  eq_iff pool.pool_mode "transaction",
  IsAuth-iff name pool.auth_query,
  users_iff name pool.users,
)

pools_iff :
    (pools : Map PoolConfig)
    → (validate_pools pools ≡ none) ↔ All (λ ((_, pool) : String × PoolConfig). IsPool pool) pools
unfolding validate_pools
pools_iff [] = ground arith
pools_iff ((name, pool) ∷ pools) = ground (arith, IsPool-iff name pool, pools_iff pools)

-- A parsed config passes the structural check exactly if it has a pool, every number set is at least
-- 1, every timeout is empty or digits with an optional unit, and every pool has a known mode, users
-- or an auth_query, and no user or auth_query without its required fields.
pub validate_config_iff : (cfg : DoormanConfig) → (validate_config cfg ≡ none) ↔ IsServable cfg
unfolding validate_config
validate_config_iff cfg = ground (arith, IsGeneral-iff cfg.general, pools_iff cfg.pools)
