-- ===== src/Plugin/ConfigGen/Servable.antt =====
-- What ApplyDefaults and Generate make of a spec that the CRD admits.
use cnpg_pg_doorman.Base.{
  String, ◌≡◌, ◌≢◌, ◌⊎◌, inl, inr, refl, Option, none, some, List, [], ◌∷◌, ℤ, pos, All, arith,
  eq_iff, false, ◌==◌,
}
use cnpg_pg_doorman.Base.Maps.{Map}
use cnpg_pg_doorman.Wrapper.Validator.{PoolConfig, validate_config, duration_matches, normal}
use cnpg_pg_doorman.Wrapper.Validator.Duration.{duration_matches_iff}
use cnpg_pg_doorman.Wrapper.Validator.Exact.{
  IsPositive, IsTimeout, IsGeneral, IsAuth, IsUser, IsPool, validate_config_iff,
}
use cnpg_pg_doorman.Plugin.Defaults.{
  PgDoormanSpec, PoolSpec, UserSpec, AuthQuerySpec, GeneralSpec, apply_defaults, default_general,
  default_pool, default_pools, default_users, default_auth_query, text_or, or_default,
}
use cnpg_pg_doorman.Plugin.ConfigGen.Defs.{
  doorman_config, general_config, pool_config, pool_configs, user_configs, password_of,
  password_key, TlsFiles, auth_query_config,
}

-- The validation markers of api/v1alpha1/types.go.
pub record IsAdmittedGeneral (g : GeneralSpec) : Type 0 where
  pub workers : IsPositive g.worker_threads
  pub connections : IsPositive g.max_connections
  pub connect : IsTimeout g.connect_timeout
  pub idle : IsTimeout g.idle_timeout
  pub lifetime : IsTimeout g.server_lifetime
  pub shutdown : IsTimeout g.shutdown_timeout

abbrev pub IsAdmittedUser : UserSpec → Type 0
IsAdmittedUser user = (user.username ≢ "") × IsPositive user.pool_size

abbrev pub IsAdmittedAuth : Option AuthQuerySpec → Type 0
IsAdmittedAuth none = Unit
IsAdmittedAuth (some aq) = (aq.user ≢ "") × IsPositive aq.pool_size

pub record IsAdmittedPool (pool : PoolSpec) : Type 0 where
  pub mode : (pool.pool_mode ≡ "") ⊎ (pool.pool_mode ≡ "session") ⊎ (pool.pool_mode ≡ "transaction")
  pub size : IsPositive pool.default_pool_size
  pub auth : IsAdmittedAuth pool.auth_query
  pub users : All IsAdmittedUser pool.users
  pub someone : (pool.users ≢ []) ⊎ (pool.auth_query ≢ none)

abbrev pub IsAdmittedOption : Option GeneralSpec → Type 0
IsAdmittedOption none = Unit
IsAdmittedOption (some g) = IsAdmittedGeneral g

pub record IsAdmitted (spec : PgDoormanSpec) : Type 0 where
  pub some_pool : spec.pools ≢ []
  pub general : IsAdmittedOption spec.general
  pub pools : All (λ ((_, pool) : String × PoolSpec). IsAdmittedPool pool) spec.pools

-- Every user of the spec has a password that is not empty.
abbrev pub HasPasswords : Map String → Map PoolSpec → Type 0
HasPasswords passwords pools =
    All
      (λ ((name, pool) : String × PoolSpec).
        All
          (λ (user : UserSpec). password_of passwords (password_key name "user" user.username) ≢ "")
          pool.users)
      pools

IsPositive-or_default :
    (o : Option ℤ) (n : ℤ) → IsPositive o → IsPositive (some n) → IsPositive (or_default o n)
IsPositive-or_default none n h k = k
IsPositive-or_default (some m) n h k = h

IsTimeout-text_or :
    (value default : String)
    → IsTimeout value
    → IsTimeout default
    → IsTimeout (text_or value default)
IsTimeout-text_or value default h k = ground (arith)

IsTimeout-3s : IsTimeout "3s"
unfolding normal duration_matches
IsTimeout-3s = inr ((duration_matches_iff (normal "3s")).0 refl)

IsTimeout-5m : IsTimeout "5m"
unfolding normal duration_matches
IsTimeout-5m = inr ((duration_matches_iff (normal "5m")).0 refl)

IsTimeout-10s : IsTimeout "10s"
unfolding normal duration_matches
IsTimeout-10s = inr ((duration_matches_iff (normal "10s")).0 refl)

text_or-ne : (value default : String) → (default == "") ≡ false → text_or value default ≢ ""
text_or-ne value default h = ground (arith, eq_iff value "", eq_iff default "")

IsGeneral-servable :
    (o : Option GeneralSpec) (pooler_port : ℤ) (passwords : Map String) (tls : Option TlsFiles)
    → IsAdmittedOption o
    → IsGeneral (general_config (some (default_general o)) pooler_port passwords tls)
unfolding default_general
IsGeneral-servable none pooler_port passwords tls h = record {
  workers = omega arith;
  connections = omega arith;
  connect = IsTimeout-3s;
  idle = IsTimeout-5m;
  lifetime = IsTimeout-5m;
  shutdown = IsTimeout-10s;
}
IsGeneral-servable (some g) pooler_port passwords tls h = record {
  workers = IsPositive-or_default g.worker_threads (pos 4) h.workers (omega arith);
  connections = IsPositive-or_default g.max_connections (pos 8192) h.connections (omega arith);
  connect = IsTimeout-text_or g.connect_timeout "3s" h.connect IsTimeout-3s;
  idle = IsTimeout-text_or g.idle_timeout "5m" h.idle IsTimeout-5m;
  lifetime = IsTimeout-text_or g.server_lifetime "5m" h.lifetime IsTimeout-5m;
  shutdown = IsTimeout-text_or g.shutdown_timeout "10s" h.shutdown IsTimeout-10s;
}

IsAuth-servable :
    (passwords : Map String) (name : String) (size : Option ℤ) (o : Option AuthQuerySpec)
    → IsAdmittedAuth o
    → IsPositive size
    → IsAuth (auth_query_config passwords name size (default_auth_query o))
unfolding default_auth_query
IsAuth-servable passwords name size none h k = tt
IsAuth-servable passwords name size (some aq) (named, positive) k = record {
  has_query = text_or-ne aq.query "SELECT * FROM public.doorman_auth_query($1)" refl;
  has_user = named;
  some_workers = IsPositive-or_default aq.pool_size (pos 2) positive (omega arith);
  some_pool = k;
  ttl = inl refl;
  failure_ttl = inl refl;
  interval = inl refl;
}

users_servable :
    (passwords : Map String) (name : String) (users : List UserSpec)
    → All IsAdmittedUser users
    → All
        (λ (user : UserSpec). password_of passwords (password_key name "user" user.username) ≢ "")
        users
    → All IsUser (user_configs passwords name (default_users users))
unfolding default_users user_configs
users_servable passwords name [] h k = tt
users_servable passwords name (user ∷ users) ((named, positive), more) (set, later) = (
  record {
    named = named;
    secret = set;
    size = IsPositive-or_default user.pool_size (pos 20) positive (omega arith);
  },
  users_servable passwords name users more later,
)

-- Defaults keep users where there are some, and an auth_query where there is one.
someone_servable :
    (passwords : Map String) (name : String) (size : Option ℤ) (users : List UserSpec)
    (o : Option AuthQuerySpec)
    → (users ≢ []) ⊎ (o ≢ none)
    → (user_configs passwords name (default_users users) ≢ [])
      ⊎ (auth_query_config passwords name size (default_auth_query o) ≢ none)
unfolding default_users user_configs default_auth_query
someone_servable passwords name size [] none h = ground (arith, h)
someone_servable passwords name size [] (some aq) h = inr (λ e. cc e)
someone_servable passwords name size (user ∷ users) o h = inl (λ e. cc e)

mode_servable :
    (mode : String)
    → (mode ≡ "") ⊎ (mode ≡ "session") ⊎ (mode ≡ "transaction")
    → let m = text_or mode "transaction" in (m ≡ "") ⊎ (m ≡ "session") ⊎ (m ≡ "transaction")
mode_servable mode h = ground (arith, eq_iff mode "")

IsPool-servable :
    (passwords : Map String) (name : String) (pool : PoolSpec)
    → IsAdmittedPool pool
    → All
        (λ (user : UserSpec). password_of passwords (password_key name "user" user.username) ≢ "")
        pool.users
    → IsPool (pool_config passwords name (default_pool pool))
unfolding pool_config default_pool
IsPool-servable passwords name pool h k =
    let size = IsPositive-or_default pool.default_pool_size (pos 40) h.size (omega arith) in
    record {
      mode = mode_servable pool.pool_mode h.mode;
      someone = someone_servable passwords name _ pool.users pool.auth_query h.someone;
      auth = IsAuth-servable passwords name _ pool.auth_query h.auth size;
      all_users = users_servable passwords name pool.users h.users k;
    }

all_pools_servable :
    (passwords : Map String) (pools : Map PoolSpec)
    → All (λ ((_, pool) : String × PoolSpec). IsAdmittedPool pool) pools
    → HasPasswords passwords pools
    → All
        (λ ((_, pool) : String × PoolConfig). IsPool pool)
        (pool_configs passwords (default_pools pools))
unfolding pool_configs default_pools
all_pools_servable passwords [] h k = tt
all_pools_servable passwords ((name, pool) ∷ pools) (h, hs) (k, ks) =
    (IsPool-servable passwords name pool h k, all_pools_servable passwords pools hs ks)

some_pool_servable :
    (passwords : Map String) (pools : Map PoolSpec)
    → pools ≢ []
    → pool_configs passwords (default_pools pools) ≢ []
unfolding pool_configs default_pools
some_pool_servable passwords [] h = absurd (h refl)
some_pool_servable passwords ((name, pool) ∷ pools) h = λ e. cc e

-- The config that is generated from a spec which meets the validation markers of the CRD, with
-- passwords that are not empty for its users, passes the checks of the wrapper's validator.
pub doorman_config-validate_config :
    (spec : PgDoormanSpec) (pooler_port metrics_port : ℤ) (passwords : Map String)
    (tls : Option TlsFiles)
    → IsAdmitted spec
    → HasPasswords passwords spec.pools
    → validate_config (doorman_config spec pooler_port metrics_port passwords tls) ≡ none
unfolding doorman_config apply_defaults
doorman_config-validate_config spec pooler_port metrics_port passwords tls h k =
    (validate_config_iff (doorman_config spec pooler_port metrics_port passwords tls)).1 (record {
      some_pool = some_pool_servable passwords spec.pools h.some_pool;
      settings = IsGeneral-servable spec.general pooler_port passwords tls h.general;
      all_pools = all_pools_servable passwords spec.pools h.pools k;
    })
