-- ===== src/Wrapper/Main.antt =====
-- `main` of cmd/wrapper/main.go up to the start of the goroutines, with paths.go and loglevel.go.
-- The environment is a function: os.Getenv gives "" for a variable that is not set.
pub mod Booting
use cnpg_pg_doorman.Base.{ℤ, pos, String, ◌<>◌, ◌==◌, not, ◌||◌, Option, none, some, if◌then◌else◌}
use cnpg_pg_doorman.Wrapper.World.{World, Result, ok, err}
use cnpg_pg_doorman.Wrapper.Platform.{Platform}
use cnpg_pg_doorman.Wrapper.Process.{new_process}
use cnpg_pg_doorman.Wrapper.FileWatcher.{FileWatcher, new_file_watcher}
use cnpg_pg_doorman.Wrapper.BinarySync.{BinarySyncer, new_binary_syncer}
use cnpg_pg_doorman.Wrapper.BinaryWatcher.{BinaryWatcher, new_binary_watcher, seed}
use cnpg_pg_doorman.Wrapper.RoleWatcher.{RoleWatcher, new_role_watcher}
use cnpg_pg_doorman.Wrapper.Startup.{start_up}

abbrev pub config_source_path : String
config_source_path = "/etc/pg-doorman-config/pg_doorman.yaml"

abbrev pub runtime_config_path : String
runtime_config_path = "/tmp/pg_doorman.yaml"

abbrev pub converted_tls_key_path : String
converted_tls_key_path = "/tmp/pg_doorman-tls.key"

abbrev pub runtime_binary_path : String
runtime_binary_path = "/tmp/bin/pg_doorman"

abbrev pub image_binary_path : String
image_binary_path = "/usr/bin/pg_doorman"

abbrev pub binary_spec_key : String
binary_spec_key = "binary.json"

-- The levels of log/slog.
pub data Level : Type 0 where
  level_error level_warn level_info level_debug : Level

-- ParseLogLevel
unfoldable pub parse_log_level : String → Level
parse_log_level s =
    if s == "error"
    then level_error
    else if s == "warn"
    then level_warn
    else if s == "debug" || s == "trace"
    then level_debug
    else level_info

-- envOr
unfoldable pub env_or : (String → String) → String → String → String
env_or env key default_val = if not (env key == "") then env key else default_val

abbrev int_or : Option ℤ → ℤ → ℤ
int_or none default_val = default_val
int_or (some i) default_val = i

-- envInt, where `atoi` is strconv.Atoi.
unfoldable pub env_int : (String → Option ℤ) → (String → String) → String → ℤ → ℤ
env_int atoi env key default_val =
    if env key == "" then default_val else int_or (atoi (env key)) default_val

-- What `main` makes of the environment before it starts to work.
pub record Settings : Type 0 where
  pub log_level : Level
  pub health_port : ℤ
  pub fw : FileWatcher
  pub syncer : BinarySyncer
  pub bw : BinaryWatcher
  pub roles : Option RoleWatcher

-- The watchers that `main` runs, and the result of the start.
pub record Watchers : Type 0 where
  pub fw : FileWatcher
  pub bw : BinaryWatcher
  pub roles : Option RoleWatcher

-- `join` is filepath.Join on two elements, and `arch` is runtime.GOARCH.
module _ (P : Platform) (atoi : String → Option ℤ) (join : String → String → String) (arch : String)
    (env : String → String) where
  abbrev role_watcher_for : String → Option RoleWatcher
  role_watcher_for role_file =
      if not (role_file == "") then some (new_role_watcher role_file) else none

  unfoldable pub settings : Settings
  unfolding env_or env_int parse_log_level
  settings =
      let source_path = env_or env "CONFIG_SOURCE" config_source_path in
      let spec_source = join (P.dir source_path) binary_spec_key in
      let syncer = new_binary_syncer spec_source image_binary_path runtime_binary_path arch in
      record {
        log_level = parse_log_level (env "LOG_LEVEL");
        health_port = env_int atoi env "HEALTH_PORT" (pos 8081);
        fw =
            new_file_watcher source_path runtime_config_path (env "TLS_KEY_PATH")
              converted_tls_key_path runtime_binary_path;
        syncer = syncer;
        bw = new_binary_watcher spec_source runtime_binary_path runtime_config_path arch syncer;
        roles = role_watcher_for (env "ROLE_FILE");
      }

  abbrev booted : Settings → Result String × FileWatcher × World → Result Watchers × World
  booted s (err e, fw, w) = (err e, w)
  booted s (ok applied_spec, fw, w) =
      (ok (record { fw = fw; bw = seed applied_spec s.bw; roles = s.roles }), w)

  -- Up to the start of pg_doorman and the watchers: an error is os.Exit(1).
  unfoldable pub boot : World → Result Watchers × World
  unfolding settings seed
  boot w = booted settings (
      start_up P settings.syncer settings.fw
        (record w { process = new_process runtime_config_path runtime_binary_path }))
