-- ===== src/Tests/Deployment.antt =====
-- The theorems on the start of the sidecar and on its meeting with the plugin at a pod.
use Prim.Native.String.{len}
use cnpg_pg_doorman.Base.{
  ℕ, leb, ◌≤◌, Bool-cases, ℤ, pos, String, ◌<>◌, ◌==◌, ◌≡◌, refl, arith, true, false, Option, none,
  some, inl, inr, [], ◌∷◌, if◌then◌else◌,
}
use cnpg_pg_doorman.Base.Maps.{Map, lookup, insert}
use cnpg_pg_doorman.Wrapper.World
use cnpg_pg_doorman.Wrapper.World.{World, deferred, ignore, or_clean, ◌>>=◌}
use cnpg_pg_doorman.Wrapper.Calls.{
  read_file, open_trunc, write, touch, chmod, remove, rename, mkdir_all, create_temp,
}
use cnpg_pg_doorman.Wrapper.AtomicWrite.{atomic_write}
use cnpg_pg_doorman.Wrapper.FileWatcher.{
  apply_initial, materialize, prepare, run_test_config, new_file_watcher,
}
use cnpg_pg_doorman.Wrapper.BinaryWatcher.{new_binary_watcher, seed}
use cnpg_pg_doorman.Wrapper.Process.{new_process}
use cnpg_pg_doorman.Wrapper.Startup.{start_up, apply_initial_config}
use cnpg_pg_doorman.Wrapper.BinarySpec.{BinarySpec, parse_binary_spec}
use cnpg_pg_doorman.Wrapper.BinarySync.{
  new_binary_syncer, download, ensure_at_startup, desired_digest, ensure_desired, obtain,
  file_sha256, request, answered, create_download, receive, limited, max_binary_bytes, discard,
  install_temp, set_binary_stale,
}
use cnpg_pg_doorman.Wrapper.BinarySync.Started.{IsStarted, ensure_at_startup-IsStarted}
use cnpg_pg_doorman.Wrapper.FileWatcher.Materialize.{IsCompatible}
use cnpg_pg_doorman.Wrapper.Sidecar.{
  here, next, config_polled, binary_polled, poll_config, poll_binary,
}
use cnpg_pg_doorman.Wrapper.Main.{
  settings, env_or, env_int, boot, Watchers, config_source_path, converted_tls_key_path,
  runtime_binary_path, runtime_config_path,
}
use cnpg_pg_doorman.Wrapper.Main.Booting.{IsTidy, sidecar_of, boot-serves}
use cnpg_pg_doorman.Wrapper.Process.{pid_locked}
use cnpg_pg_doorman.Wrapper.BinaryWatcher
use cnpg_pg_doorman.Wrapper.BinaryWatcher.Progress.{IsUpgraded}
use cnpg_pg_doorman.Plugin.Controller.{entry_of}
use cnpg_pg_doorman.Plugin.Lifecycle.{sidecar_container}
use cnpg_pg_doorman.Plugin.Binaries.{
  Directory, holding, digest, load_binary_spec, load_manifest, collect_digests,
}
use cnpg_pg_doorman.Plugin.Binaries.Endpoint.{Server, serve_binary}
use cnpg_pg_doorman.Deployment.Wiring.{IsRunIn, IsWired, settings-IsWired}
use cnpg_pg_doorman.Deployment.Delivery.{IsImage, load_binary_spec-check}
use cnpg_pg_doorman.Tests.Pod.{platform, world, role_watcher, binary_watcher, syncer, differ}
use cnpg_pg_doorman.Tests.Binary.{laid}
use cnpg_pg_doorman.Tests.Operator.{renderer, configuration}
use cnpg_pg_doorman.Tests.Configs.{cluster}

abbrev atoi : String → Option ℤ
atoi text = if text == "8081" then some (pos 8081) else none

abbrev joined : String → String → String
joined a b = (a <> "/") <> b

abbrev trimmed : String → String
trimmed text = text

-- Nothing is set: the defaults of paths.go hold.
abbrev bare : String → String
bare key = ""

abbrev tidy : IsTidy platform
tidy = record { binary = λ d n. refl; config = λ d n. refl; candidate = λ d n. refl }

ensure_at_startup-IsStarted_example :
    IsStarted platform syncer world (ensure_at_startup platform syncer world).1 "version 2"
unfolding ensure_at_startup read_file parse_binary_spec ensure_desired desired_digest obtain
    file_sha256 download request answered create_download create_temp receive write limited lookup
    discard install_temp set_binary_stale chmod mkdir_all remove rename touch deferred ◌>>=◌ ignore
ensure_at_startup-IsStarted_example =
    ensure_at_startup-IsStarted platform syncer (λ d n. refl) (λ d n. refl) refl world refl

-- The variables of the container, as the kubelet sets them.
abbrev env : String → String
env key = entry_of (sidecar_container configuration).env key

entry_of-value :
    (entries : Map String) (key : String) {value : String}
    → lookup key entries ≡ some value
    → entry_of entries key ≡ value
unfolding entry_of
entry_of-value entries key h = rw (entry_of, h) refl

abbrev run_in : IsRunIn renderer platform atoi joined env configuration
run_in = record {
  set = λ key value h. entry_of-value (sidecar_container configuration).env key h;
  number = refl;
  parent = refl;
  joined = refl;
}

settings-IsWired_example :
    IsWired renderer platform atoi joined env configuration cluster "amd64"
      (settings platform atoi joined "amd64" env)
settings-IsWired_example =
    settings-IsWired renderer platform atoi joined env configuration "amd64" cluster run_in

abbrev watching : Watchers
watching = record {
  fw = record {
    source_path = config_source_path;
    runtime_path = runtime_config_path;
    raw_key_path = "";
    key_path = converted_tls_key_path;
    test_config = some runtime_binary_path;
    last_applied = "4 workers";
  };
  bw = record {
    spec_path = "/etc/pg-doorman-config/binary.json";
    runtime_path = runtime_binary_path;
    config_path = runtime_config_path;
    arch = "amd64";
    syncer = syncer;
    last_spec = "version 2";
  };
  roles = none;
}

boot-serves_example :
    let (_, w) = boot platform atoi joined "amd64" bare world in
    let first = sidecar_of platform trimmed atoi joined "amd64" bare watching role_watcher w in
    IsCompatible platform runtime_binary_path runtime_config_path
      (poll_binary platform trimmed (poll_config platform trimmed first)).world
unfolding boot start_up ensure_at_startup read_file parse_binary_spec ensure_desired desired_digest
    obtain file_sha256 download request answered create_download create_temp receive write limited
    lookup atomic_write discard install_temp set_binary_stale chmod mkdir_all open_trunc remove
    rename touch apply_initial materialize prepare run_test_config apply_initial_config deferred
    or_clean ◌>>=◌ settings new_file_watcher new_binary_watcher seed env_or env_int new_process
    new_binary_syncer
boot-serves_example =
    boot-serves platform trimmed atoi joined "amd64" bare world role_watcher tidy refl
      (next (next here (config_polled _)) (binary_polled _))

abbrev image : Directory
image =
    holding (record { name = "amd64"; is_dir = true; hash = digest "digest of pg_doorman 2" } ∷ [])

abbrev files : String → Option String
files path = if path == "/binaries/amd64/pg_doorman" then some "pg_doorman 2" else none

abbrev answer_of : Option String → World.Response
answer_of none = World.response 404 (pos 9) "not found" false
answer_of (some body) = World.response 200 (pos (len body)) body false

abbrev server : Server
server = record {
  contains_any = λ text chars. false;
  join = λ a b c. (((a <> "/") <> b) <> "/") <> c;
  serve_file = λ path. answer_of (files path);
  not_found = answer_of none;
}

abbrev published : BinarySpec
published = record {
  url = "https://plugin";
  sha256 = ("amd64", "digest of pg_doorman 2") ∷ [];
  ca_bundle = "";
}

leb-le : (a b : ℕ) → leb a b ≡ true → a ≤ b
leb-le a b h = grind arith

files-short : (path body : String) → files path ≡ some body → len body ≤ max_binary_bytes
files-short path body h = elim (Bool-cases (path == "/binaries/amd64/pg_doorman")) [
  | inl there ↦
      (let same : "pg_doorman 2" ≡ body = cc (rw there at h) in
        rw (← same) (leb-le (len "pg_doorman 2") max_binary_bytes refl))
  | inr other ↦ cc (rw other at h)
]

in_image : IsImage platform server image files
in_image = record {
  hashed = λ arch sum held. elim held [
    | inl (name, dir, same) ↦ ("pg_doorman 2", rw (← name) refl, cc same)
    | inr none_else ↦ absurd none_else
  ];
  served = λ path body h. rw h refl;
  short = files-short;
}

load_binary_spec-check_example :
    IsUpgraded platform binary_watcher "version 2" "pg_doorman 2" world
      (BinaryWatcher.check platform binary_watcher world)
unfolding load_binary_spec load_manifest collect_digests insert serve_binary lookup pid_locked
load_binary_spec-check_example =
    load_binary_spec-check platform server image files "https://plugin" "" (λ file. none) published
      binary_watcher "digest of pg_doorman 2" "version 2" "pg_doorman 2" world in_image refl refl
      refl
      (record {
        up = λ n. refl;
        laid = laid;
        runs = λ e. cc e;
        quiet = refl;
        same_arch = refl;
        plain = refl;
        routed = λ n. refl;
        trusted = refl;
        free = λ n. refl;
        accepted = refl;
        mounted = refl;
        changed = differ "version 2" "" refl;
        decoded = refl;
        known = differ "digest of pg_doorman 2" "" refl;
        outdated = λ e. differ "digest of pg_doorman 1" "digest of pg_doorman 2" refl (cc e);
      })
