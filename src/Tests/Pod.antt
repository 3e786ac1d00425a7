-- ===== src/Tests/Pod.antt =====
-- A pod at the paths of internal/wrapper/paths.go, with stand-ins for what the wrapper calls.
use cnpg_pg_doorman.Base.{
  String, ◌<>◌, ◌==◌, true, false, not, Option, none, some, [], ◌∷◌, if◌then◌else◌, pos, ℤ, ◌≡◌,
  ◌≢◌, arith, eq_iff,
}
use cnpg_pg_doorman.Wrapper.World.{File, World, Process, Metrics, response}
use cnpg_pg_doorman.Wrapper.Platform.{Platform}
use cnpg_pg_doorman.Wrapper.Validator.{DoormanConfig, GeneralConfig, PoolConfig}
use cnpg_pg_doorman.Wrapper.BinarySpec.{BinarySpec}
use cnpg_pg_doorman.Wrapper.BinarySync.{BinarySyncer}
use cnpg_pg_doorman.Wrapper.FileWatcher.{FileWatcher}
use cnpg_pg_doorman.Wrapper.BinaryWatcher.{BinaryWatcher}
use cnpg_pg_doorman.Wrapper.RoleWatcher.{RoleWatcher}

pub differ : (a b : String) → (a == b) ≡ false → a ≢ b
differ a b h = ground (arith, eq_iff a b)

abbrev pub config_source : String
config_source = "/etc/pg-doorman-config/pg_doorman.yaml"

abbrev pub spec_source : String
spec_source = "/etc/pg-doorman-config/binary.json"

abbrev pub runtime_config : String
runtime_config = "/tmp/pg_doorman.yaml"

abbrev pub runtime_binary : String
runtime_binary = "/tmp/bin/pg_doorman"

abbrev pub image_binary : String
image_binary = "/usr/bin/pg_doorman"

abbrev pub general : ℤ → GeneralConfig
general workers = record {
  host = "0.0.0.0";
  port = pos 6432;
  tls_certificate = "";
  tls_private_key = "";
  admin_username = "admin";
  admin_password = "secret";
  worker_threads = some workers;
  max_connections = none;
  connect_timeout = "5s";
  idle_timeout = "";
  server_lifetime = "";
  shutdown_timeout = "";
}

abbrev pub pool : PoolConfig
pool = record {
  server_host = "/controller/run";
  server_port = pos 5432;
  pool_mode = "transaction";
  users = record { username = "app"; password = "md5"; pool_size = some (pos 40) } ∷ [];
  auth_query = none;
}

abbrev pub config : ℤ → DoormanConfig
config workers = record { general = general workers; pools = ("app", pool) ∷ []; prometheus = none }

abbrev pub spec : BinarySpec
spec = record {
  url = "https://plugin";
  sha256 = ("amd64", "digest of pg_doorman 2") ∷ [];
  ca_bundle = "";
}

abbrev parse_yaml : String → Option DoormanConfig
parse_yaml text =
    if text == "2 workers"
    then some (config (pos 2))
    else if text == "4 workers"
    then some (config (pos 4))
    else none

abbrev parse_json : String → Option BinarySpec
parse_json text = if text == "version 2" then some spec else none

abbrev pub platform : Platform
platform = record {
  parse_yaml = parse_yaml;
  parse_json = parse_json;
  parse_duration = λ text. none;
  sha256 = λ text. "digest of " <> text;
  dir = λ path. if path == config_source then "/etc/pg-doorman-config" else "/tmp/bin";
  temp_name = λ d n. "/tmp/bin/.pg_doorman-1";
  accepts = λ binary text. not (text == "");
  ca_parses = λ text. true;
  pem_decode = λ text. none;
  parse_pkcs8 = λ text. none;
  parse_ec = λ text. none;
  parse_pkcs1 = λ text. none;
  marshal_pkcs8 = λ text. none;
  pem_encode = λ kind bytes. bytes;
}

abbrev pub syncer : BinarySyncer
syncer = record {
  spec_path = spec_source;
  image_path = image_binary;
  runtime_path = runtime_binary;
  arch = "amd64";
}

abbrev pub config_watcher : FileWatcher
config_watcher = record {
  source_path = config_source;
  runtime_path = runtime_config;
  raw_key_path = "";
  key_path = "/tmp/pg_doorman-tls.key";
  test_config = some runtime_binary;
  last_applied = "2 workers";
}

abbrev pub binary_watcher : BinaryWatcher
binary_watcher = record {
  spec_path = spec_source;
  runtime_path = runtime_binary;
  config_path = runtime_config;
  arch = "amd64";
  syncer = syncer;
  last_spec = "";
}

abbrev pub role_watcher : RoleWatcher
role_watcher = record { role_file = "/etc/podinfo/role"; last_role = "primary" }

abbrev file : String → Option File
file text = some (record { content = text; mode = 0o644 })

-- A remount has brought four workers, a new binary and a demotion.
abbrev files : String → Option File
files p =
    if p == config_source
    then file "4 workers"
    else if p == spec_source
    then file "version 2"
    else if p == runtime_config
    then file "2 workers"
    else if p == runtime_binary
    then file "pg_doorman 1"
    else if p == image_binary
    then file "pg_doorman 1"
    else if p == "/etc/podinfo/role"
    then file "replica"
    else none

abbrev pub process : Process
process = record {
  config_path = runtime_config;
  binary = runtime_binary;
  wait_margin = 5000;
  cmd_pid = some 42;
  adopted_pid = 0;
  upgrade_requested = false;
  upgrade_requested_at = 0;
  successor_timeout = 5000;
}

abbrev metrics : Metrics
metrics = record {
  reloads_success = 0;
  reloads_failure = 0;
  process_restarts = 0;
  upgrades_success = 0;
  upgrades_failure = 0;
  config_stale = 0;
  binary_stale = 0;
}

abbrev pub world : World
world = record {
  files = files;
  dirs = λ d. d == "/tmp/bin";
  fault = λ n. false;
  calls = 0;
  torn = "";
  serve = λ url n. response 200 (pos 12) "pg_doorman 2" false;
  now = 100000;
  process = process;
  metrics = metrics;
  sent = [];
}
