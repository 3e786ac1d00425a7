-- ===== src/Wrapper/Validator/Defs.antt =====
-- The config structs and the checks of validator.go. yaml.Unmarshal is the parameter `parse_yaml`.
-- Go walks a map in any order: here it is the order of the association list. Error texts carry
-- the field and leave the rejected value out.
use Prim.Native.Char.{code}
use cnpg_pg_doorman.Base.{
  ℕ, ◌+◌, String, ◌<>◌, Bool, true, false, not, ◌&&◌, ◌||◌, Option, none, some, List, [], ◌∷◌, ◌==◌,
  nat_eq, leb, if◌then◌else◌, ℤ, pos, int_lt,
}
use cnpg_pg_doorman.Base.Maps.{Map}
use cnpg_pg_doorman.Wrapper.World.{Error, message, Result, ok, err}
use mathlib.Core.List.{reverse}

pub record GeneralConfig : Type 0 where
  pub host : String
  pub port : ℤ
  pub tls_certificate : String
  pub tls_private_key : String
  pub admin_username : String
  pub admin_password : String
  pub worker_threads : Option ℤ
  pub max_connections : Option ℤ
  pub connect_timeout : String
  pub idle_timeout : String
  pub server_lifetime : String
  pub shutdown_timeout : String

pub record UserConfig : Type 0 where
  pub username : String
  pub password : String
  pub pool_size : Option ℤ

pub record AuthQueryConfig : Type 0 where
  pub query : String
  pub user : String
  pub password : String
  pub database : String
  pub workers : Option ℤ
  pub pool_size : Option ℤ
  pub cache_ttl : String
  pub cache_failure_ttl : String
  pub min_interval : String

pub record PoolConfig : Type 0 where
  pub server_host : String
  pub server_port : ℤ
  pub pool_mode : String
  pub users : List UserConfig
  pub auth_query : Option AuthQueryConfig

pub record PrometheusConfig : Type 0 where
  pub enabled : Bool
  pub host : String
  pub port : ℤ

pub record DoormanConfig : Type 0 where
  pub general : GeneralConfig
  pub pools : Map PoolConfig
  pub prometheus : Option PrometheusConfig

-- A check returns its error, or `none` for nil. The rest runs only after nil.
infixr 5 ◌then◌
abbrev pub ◌then◌ : Option Error → Option Error → Option Error
none then rest = rest
some e then rest = some e

abbrev pub reject : Bool → String → Option Error
reject true text = some (message text)
reject false text = none

-- The code points of a text.
abbrev pub codes : String → List ℕ
codes (String.◌∷◌ first rest) = code first ∷ codes rest
codes String.[] = []

-- The code points of unicode.IsSpace: those below 256 and the others of White_Space.
abbrev latin_spaces : List ℕ
latin_spaces = b' ' ∷ 0x85 ∷ 0xa0 ∷ 9 ∷ 10 ∷ 11 ∷ 12 ∷ 13 ∷ []

abbrev other_spaces : List ℕ
other_spaces = 0x3000 ∷ 0x205f ∷ 0x202f ∷ 0x2029 ∷ 0x2028 ∷ 0x1680 ∷ []

abbrev occurs : ℕ → List ℕ → Bool
occurs c [] = false
occurs c (d ∷ ds) = nat_eq d c || occurs c ds

abbrev is_space : ℕ → Bool
is_space c = occurs c latin_spaces || occurs c other_spaces || (leb 0x2000 c && not (leb 0x200b c))

abbrev drop_spaces : List ℕ → List ℕ
drop_spaces [] = []
drop_spaces (c ∷ cs) = let rest = drop_spaces cs in if is_space c then rest else c ∷ cs

-- strings.TrimSpace
unfoldable pub trim_space : List ℕ → List ℕ
trim_space cs = reverse (drop_spaces (reverse (drop_spaces cs)))

-- strings.ToLower, on the letters that `durationPattern` names.
abbrev to_lower : List ℕ → List ℕ
to_lower [] = []
to_lower (c ∷ cs) = (if leb b'A' c && leb c b'Z' then c + 32 else c) ∷ to_lower cs

abbrev pub is_digit : ℕ → Bool
is_digit c = leb b'0' c && leb c b'9'

unfoldable pub is_unit : List ℕ → Bool
is_unit [] = true
is_unit (c ∷ []) = nat_eq c b's' || nat_eq c b'm' || nat_eq c b'h' || nat_eq c b'd'
is_unit (c ∷ d ∷ []) = nat_eq c b'm' && nat_eq d b's'
is_unit (c ∷ d ∷ e ∷ cs) = false

unfoldable pub digits_unit : List ℕ → Bool
digits_unit [] = true
digits_unit (c ∷ cs) = let rest = digits_unit cs in if is_digit c then rest else is_unit (c ∷ cs)

-- durationPattern.MatchString: ^[0-9]+(ms|s|m|h|d)?$
unfoldable pub duration_matches : List ℕ → Bool
unfolding digits_unit is_unit
duration_matches [] = false
duration_matches (c ∷ cs) = is_digit c && digits_unit cs

unfoldable pub normal : String → List ℕ
unfolding trim_space
normal value = to_lower (trim_space (codes value))

unfoldable pub validate_duration : String → String → Option Error
unfolding duration_matches normal
validate_duration field value =
    if value == ""
    then none
    else reject (not (duration_matches (normal value))) (field <> ": invalid duration")

unfoldable pub validate_positive : String → Option ℤ → Option Error
validate_positive field none = none
validate_positive field (some n) = reject (int_lt n (pos 1)) (field <> ": must be >= 1")

unfoldable pub validate_general : GeneralConfig → Option Error
validate_general g =
    validate_positive "general.worker_threads" g.worker_threads
    then validate_positive "general.max_connections" g.max_connections
    then validate_duration "general.connect_timeout" g.connect_timeout
    then validate_duration "general.idle_timeout" g.idle_timeout
    then validate_duration "general.server_lifetime" g.server_lifetime
    then validate_duration "general.shutdown_timeout" g.shutdown_timeout

unfoldable pub validate_auth_query : String → AuthQueryConfig → Option Error
validate_auth_query name aq =
    reject (aq.query == "") (name <> ": auth_query.query is required")
    then reject (aq.user == "") (name <> ": auth_query.user is required")
    then validate_positive (name <> ": auth_query.workers") aq.workers
    then validate_positive (name <> ": auth_query.pool_size") aq.pool_size
    then validate_duration (name <> ": auth_query.cache_ttl") aq.cache_ttl
    then validate_duration (name <> ": auth_query.cache_failure_ttl") aq.cache_failure_ttl
    then validate_duration (name <> ": auth_query.min_interval") aq.min_interval

unfoldable pub validate_user : String → UserConfig → Option Error
validate_user name user =
    reject (user.username == "") (name <> ": users.username is required")
    then reject (user.password == "") (name <> ": users.password is required")
    then validate_positive (name <> ": users.pool_size") user.pool_size

unfoldable pub validate_users : String → List UserConfig → Option Error
validate_users name [] = none
validate_users name (user ∷ users) = validate_user name user then validate_users name users

abbrev no_users : List UserConfig → Bool
no_users [] = true
no_users (_ ∷ _) = false

abbrev no_auth_query : Option AuthQueryConfig → Bool
no_auth_query none = true
no_auth_query (some _) = false

abbrev pub check_auth_query : String → Option AuthQueryConfig → Option Error
check_auth_query name none = none
check_auth_query name (some aq) = validate_auth_query name aq

unfoldable pub validate_pool : String → PoolConfig → Option Error
validate_pool name pool =
    reject
      (not (pool.pool_mode == "")
        && not (pool.pool_mode == "session")
        && not (pool.pool_mode == "transaction"))
      (name <> ": pool_mode must be \"session\" or \"transaction\"")
    then reject (no_users pool.users && no_auth_query pool.auth_query)
        (name <> ": must have users or auth_query")
    then check_auth_query name pool.auth_query
    then validate_users name pool.users

unfoldable pub validate_pools : Map PoolConfig → Option Error
validate_pools [] = none
validate_pools ((name, pool) ∷ pools) = validate_pool name pool then validate_pools pools

abbrev no_pools : Map PoolConfig → Bool
no_pools [] = true
no_pools (_ ∷ _) = false

-- ValidateConfigBytes after its yaml.Unmarshal.
unfoldable pub validate_config : DoormanConfig → Option Error
validate_config cfg =
    reject (no_pools cfg.pools) "at least one pool must be defined"
    then validate_general cfg.general
    then validate_pools cfg.pools

abbrev verdict : DoormanConfig → Option Error → Result DoormanConfig
verdict cfg none = ok cfg
verdict cfg (some e) = err e

abbrev parsed : Option DoormanConfig → Result DoormanConfig
parsed none = err (message "YAML parse error")
parsed (some cfg) = verdict cfg (validate_config cfg)

module _ (parse_yaml : String → Option DoormanConfig) where
  unfoldable pub validate_config_bytes : String → Result DoormanConfig
  validate_config_bytes text = parsed (parse_yaml text)
