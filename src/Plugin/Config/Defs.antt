-- ===== src/Plugin/Config/Defs.antt =====
-- NewFromCluster, Validate and SetDefaults of config.go, and MutateCluster of
-- internal/operator/mutations.go. Error texts leave the rejected value out, and Go's maps of two
-- ports are walked in the order of the source.
use cnpg_pg_doorman.Base.{
  String, ◌<>◌, ◌==◌, Bool, true, false, not, ◌&&◌, ◌||◌, Option, none, some, List, [], ◌∷◌, ◌++◌,
  ℤ, pos, int_lt, int_eq, contains, if◌then◌else◌,
}
use cnpg_pg_doorman.Base.Maps.{Map, lookup, insert}

abbrev pub plugin_name : String
plugin_name = "pg-doorman.cnpg.io"

abbrev pub default_pooler_port : ℤ
default_pooler_port = pos 6432

abbrev pub default_metrics_port : ℤ
default_metrics_port = pos 9127

abbrev pub wrapper_health_port : ℤ
wrapper_health_port = pos 8081

-- The parts of a CNPG Cluster that the plugin reads. `server_tls_secret` is that of
-- spec.certificates, and `none` where spec.certificates is nil.
pub record PluginEntry : Type 0 where
  pub name : String
  pub enabled : Option Bool
  pub parameters : Map String

pub record Cluster : Type 0 where
  pub name : String
  pub namespace : String
  pub plugins : List PluginEntry
  pub server_tls_secret : Option String
  pub current_primary : String

-- strconv.Atoi, strconv.ParseBool, resource.ParseQuantity and `req.Cmp(limit) > 0`.
pub record Parsers (Q : Type 0) : Type 0 where
  pub atoi : String → Option ℤ
  pub parse_bool : String → Option Bool
  pub parse_quantity : String → Option Q
  pub exceeds : Q → Q → Bool

pub record PluginConfiguration (Q : Type 0) : Type 0 where
  pub enabled : Bool
  pub pooler_port : ℤ
  pub metrics_port : ℤ
  pub config_name : String
  pub sidecar_image : String
  pub log_level : String
  pub in_place_upgrades : Bool
  pub requests : Map Q
  pub limits : Map Q
  pub parse_errors : List String

infixr 5 ◌then◌
abbrev pub ◌then◌ : Option String → Option String → Option String
none then rest = rest
some e then rest = some e

abbrev pub reject : Bool → String → Option String
reject true text = some text
reject false text = none

abbrev pub any_error : List String → Bool
any_error [] = false
any_error (_ ∷ _) = true

abbrev pub out_of_range : ℤ → Bool
out_of_range port = int_lt port (pos 1) || int_lt (pos 65535) port

abbrev pub is_reserved : ℤ → Bool
is_reserved port =
    int_eq port (pos 5432)
    || int_eq port (pos 8000)
    || int_eq port (pos 9187)
    || int_eq port wrapper_health_port

abbrev pub value_or : Option String → String → String
value_or none default = default
value_or (some v) default = v

module _ {Q : Type 0} (p : Parsers Q) where
  abbrev Config : Type 0
  Config = PluginConfiguration Q

  abbrev parse_error : String → Config → Config
  parse_error text c = record c { parse_errors = c.parse_errors ++ (text ∷ []) }

  abbrev pooler_port_parsed : Option ℤ → Config → Config
  pooler_port_parsed (some port) c = record c { pooler_port = port }
  pooler_port_parsed none c = parse_error "poolerPort: invalid integer" c

  abbrev pub set_pooler_port : Option String → Config → Config
  set_pooler_port none c = c
  set_pooler_port (some v) c = pooler_port_parsed (p.atoi v) c

  abbrev metrics_port_parsed : Option ℤ → Config → Config
  metrics_port_parsed (some port) c = record c { metrics_port = port }
  metrics_port_parsed none c = parse_error "metricsPort: invalid integer" c

  abbrev pub set_metrics_port : Option String → Config → Config
  set_metrics_port none c = c
  set_metrics_port (some v) c = metrics_port_parsed (p.atoi v) c

  abbrev set_config_name : Option String → Config → Config
  set_config_name none c = c
  set_config_name (some v) c = record c { config_name = v }

  abbrev set_log_level : Option String → Config → Config
  set_log_level none c = c
  set_log_level (some v) c = record c { log_level = v }

  abbrev upgrades_parsed : Option Bool → Config → Config
  upgrades_parsed (some on) c = record c { in_place_upgrades = on }
  upgrades_parsed none c = parse_error "inPlaceUpgrades: invalid boolean" c

  abbrev set_upgrades : Option String → Config → Config
  set_upgrades none c = c
  set_upgrades (some v) c = upgrades_parsed (p.parse_bool v) c

  -- Whether a quantity goes to the requests or to the limits.
  pub data Side : Type 0 where
    request limit : Side

  abbrev put_quantity : Side → String → Q → Config → Config
  put_quantity request name q c = record c { requests = insert name q c.requests }
  put_quantity limit name q c = record c { limits = insert name q c.limits }

  abbrev quantity_parsed : String → Side → String → Option Q → Config → Config
  quantity_parsed param side name none c = parse_error (param <> ": invalid quantity") c
  quantity_parsed param side name (some q) c = put_quantity side name q c

  unfoldable pub set_resource : Map String → String → Side → String → String → Config → Config
  set_resource params param side name default c =
      let val = value_or (lookup param params) default in
      if val == "" || val == "none"
      then c
      else quantity_parsed param side name (p.parse_quantity val) c

  -- The body of the loop for the entry that is taken.
  unfoldable pub read_parameters : Map String → Config → Config
  read_parameters params c0 =
      let c1 = set_pooler_port (lookup "poolerPort" params) (record c0 { enabled = true }) in
      let c2 = set_metrics_port (lookup "metricsPort" params) c1 in
      let c3 = set_config_name (lookup "configName" params) c2 in
      let c4 = set_log_level (lookup "logLevel" params) c3 in
      let c5 = set_upgrades (lookup "inPlaceUpgrades" params) c4 in
      let c6 = record c5 { requests = []; limits = [] } in
      let c7 = set_resource params "sidecarCpuRequest" request "cpu" "100m" c6 in
      let c8 = set_resource params "sidecarMemoryRequest" request "memory" "128Mi" c7 in
      let c9 = set_resource params "sidecarCpuLimit" limit "cpu" "" c8 in
      set_resource params "sidecarMemoryLimit" limit "memory" "512Mi" c9

  -- plugin.Enabled != nil && !*plugin.Enabled
  abbrev switched_off : Option Bool → Bool
  switched_off none = false
  switched_off (some on) = not on

  abbrev pub is_ours : PluginEntry → Bool
  is_ours plugin = plugin.name == plugin_name && not (switched_off plugin.enabled)

  unfoldable pub read_plugins : List PluginEntry → Config → Config
  read_plugins [] c = c
  read_plugins (plugin ∷ plugins) c =
      let rest = read_plugins plugins c in
      if is_ours plugin then read_parameters plugin.parameters c else rest

  abbrev pub initial : String → Config
  initial sidecar_image = record {
    enabled = false;
    pooler_port = default_pooler_port;
    metrics_port = default_metrics_port;
    config_name = "";
    sidecar_image = sidecar_image;
    log_level = "info";
    in_place_upgrades = false;
    requests = [];
    limits = [];
    parse_errors = [];
  }

  -- NewFromCluster, with the SIDECAR_IMAGE variable as an argument.
  unfoldable pub new_from_cluster : String → Cluster → Config
  new_from_cluster sidecar_image cluster = read_plugins cluster.plugins (initial sidecar_image)

  abbrev pub over_limit : Option Q → Option Q → Bool
  over_limit (some req) (some lim) = p.exceeds req lim
  over_limit (some req) none = false
  over_limit none lim = false

  unfoldable pub validate : Config → Option String
  validate c =
      reject (any_error c.parse_errors) "invalid plugin parameters"
      then reject (c.config_name == "") "configName is required"
      then reject (out_of_range c.pooler_port) "poolerPort must be between 1 and 65535"
      then reject (out_of_range c.metrics_port) "metricsPort must be between 1 and 65535"
      then reject (c.sidecar_image == "") "SIDECAR_IMAGE environment variable is required"
      then reject (int_eq c.pooler_port c.metrics_port)
          "poolerPort and metricsPort must be different"
      then reject
          (not (contains ("" ∷ "error" ∷ "warn" ∷ "info" ∷ "debug" ∷ "trace" ∷ []) c.log_level))
          "logLevel must be one of error|warn|info|debug|trace"
      then reject (is_reserved c.pooler_port) "poolerPort conflicts"
      then reject (is_reserved c.metrics_port) "metricsPort conflicts"
      then reject (over_limit (lookup "cpu" c.requests) (lookup "cpu" c.limits))
          "sidecar cpu request exceeds limit"
      then reject (over_limit (lookup "memory" c.requests) (lookup "memory" c.limits))
          "sidecar memory request exceeds limit"

abbrev pub defaulted : Option String → String → String → Map String → Map String
defaulted (some v) param value params = params
defaulted none param value params = insert param value params

-- SetDefaults: strconv.Itoa of the default ports is written out.
unfoldable pub set_defaults : Map String → Map String
set_defaults params =
    let params' = defaulted (lookup "poolerPort" params) "poolerPort" "6432" params in
    defaulted (lookup "metricsPort" params') "metricsPort" "9127" params'

unfoldable pub mutate_plugins : List PluginEntry → List PluginEntry
mutate_plugins [] = []
mutate_plugins (plugin ∷ plugins) =
    (if plugin.name == plugin_name
      then record plugin { parameters = set_defaults plugin.parameters }
      else plugin)
    ∷ mutate_plugins plugins

-- MutateCluster, without the JSON patch that carries the change.
unfoldable pub mutate_cluster : Cluster → Cluster
mutate_cluster cluster = record cluster { plugins = mutate_plugins cluster.plugins }
