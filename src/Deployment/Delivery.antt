-- ===== src/Deployment/Delivery.antt =====
-- The digests that the plugin publishes, the endpoint that it serves, and the wrapper's download:
-- internal/binaries, cmd/plugin/plugin.go and internal/wrapper/binarysync.go together.
use Prim.Native.String.{len}
use cnpg_pg_doorman.Base.{
  ℕ, ◌≤◌, pos, String, ◌<>◌, ◌==◌, ◌||◌, ◌≡◌, refl, true, false, Option, some, none, ◌≢◌,
}
use cnpg_pg_doorman.Base.Maps.{lookup}
use cnpg_pg_doorman.Wrapper.World.{World, response}
use cnpg_pg_doorman.Wrapper.World
use cnpg_pg_doorman.Wrapper.Platform.{Platform}
use cnpg_pg_doorman.Wrapper.BinarySpec.{BinarySpec}
use cnpg_pg_doorman.Wrapper.BinarySync.{BinarySyncer, max_binary_bytes, download}
use cnpg_pg_doorman.Wrapper.BinarySync.Download.{IsFresh}
use cnpg_pg_doorman.Wrapper.BinarySync.Progress.{download-succeeds}
use cnpg_pg_doorman.Wrapper.FileWatcher.Materialize.{text_at}
use cnpg_pg_doorman.Wrapper.FileWatcher.Progress.{IsUp}
use cnpg_pg_doorman.Wrapper.FileWatcher.Materialize.{agrees}
use cnpg_pg_doorman.Wrapper.Process.{pid_locked}
use cnpg_pg_doorman.Wrapper.BinarySync.{desired_digest}
use cnpg_pg_doorman.Wrapper.BinarySync.Sources.{digest_at}
use cnpg_pg_doorman.Wrapper.BinaryWatcher
use cnpg_pg_doorman.Wrapper.BinaryWatcher.{BinaryWatcher, candidate_of}
use cnpg_pg_doorman.Wrapper.BinaryWatcher.Upgrade.{IsLaidOut}
use cnpg_pg_doorman.Wrapper.BinaryWatcher.Progress.{IsUpgraded, check-upgrades}
use cnpg_pg_doorman.Plugin.Api.{ok}
use cnpg_pg_doorman.Plugin.Binaries.{
  load_binary_spec-parse_binary_spec, Directory, load_manifest, load_binary_spec, Carries,
  load_manifest-Carries, spec_of-some,
}
use cnpg_pg_doorman.Plugin.Binaries.Endpoint.{Server, serve_binary, default_dir}

-- The plugin image: the files behind the endpoint are those that LoadManifest has hashed, none is
-- over the size cap, and ServeFile answers with the whole file.
pub record IsImage (P : Platform) (server : Server) (dir : Directory)
    (files : String → Option String) : Type 0 where
  pub hashed :
      (arch sum : String)
      → Carries arch sum dir
      → (body : String) × (files (server.join default_dir arch "pg_doorman") ≡ some body)
        × (P.sha256 body ≡ sum)
  pub served :
      (path body : String)
      → files path ≡ some body
      → server.serve_file path ≡ response 200 (pos (len body)) body false
  pub short : (path body : String) → files path ≡ some body → len body ≤ max_binary_bytes

-- The pod: requests reach the endpoint, the CA bundle parses, no call fails, and the names of
-- temporary files are free and differ from the destination.
pub record IsReached (P : Platform) (server : Server) (spec : BinarySpec) (arch dest_path : String)
    (w : World) : Type 0 where
  pub up : IsUp w
  pub plain : server.contains_any arch "/\\." ≡ false
  pub routed :
      w.serve (spec.url <> "/binaries/" <> arch) w.calls ≡ serve_binary server default_dir arch
  pub trusted : ((spec.ca_bundle == "") || P.ca_parses spec.ca_bundle) ≡ true
  pub fresh : IsFresh P dest_path
  pub free : (n : ℕ) → w.files (P.temp_name (P.dir dest_path) n) ≡ none

-- If the plugin publishes a digest for an architecture, its files are those that were hashed, and
-- the pod reaches its endpoint with no call failing, a CA bundle that parses and free names for
-- temporary files, then the download of a wrapper of that architecture succeeds and leaves a file
-- with the published digest at the destination.
pub load_binary_spec-download :
    (P : Platform) (server : Server) (dir : Directory) (files : String → Option String)
    (base_url ca_file : String) (read_file : String → Option String) (spec : BinarySpec)
    (s : BinarySyncer) (sum dest_path : String) (w : World)
    → IsImage P server dir files
    → load_binary_spec dir base_url ca_file read_file ≡ ok (some spec)
    → lookup s.arch spec.sha256 ≡ some sum
    → IsReached P server spec s.arch dest_path w
    → ((download P s spec sum dest_path w).0 ≡ World.ok tt)
      × (body : String) × (text_at dest_path (download P s spec sum dest_path w).1 ≡ some body)
      × (P.sha256 body ≡ sum)
unfolding load_binary_spec serve_binary
load_binary_spec-download P server dir files base_url ca_file read_file spec s sum dest_path w image
      h k pod =
    let (made, _) = spec_of-some (load_manifest dir) base_url ca_file read_file spec h in
    let (_, carried) = load_manifest-Carries dir spec.sha256 made in
    let (body, there, same) = image.hashed s.arch sum (carried s.arch sum k) in
    let path = server.join default_dir s.arch "pg_doorman" in
    let (done, text) = download-succeeds P s spec sum dest_path body w (record {
      up = pod.up;
      trusted = pod.trusted;
      answer = rw (pod.routed, pod.plain) (image.served path body there);
      wanted = same;
      short = image.short path body there;
      fresh = pod.fresh;
      free = pod.free;
    }) in
    (done, body, text, same)

-- A pod whose binary watcher can take the binary that the plugin serves for its architecture: the
-- spec is mounted and not applied, it names another binary than the runtime one, and the body behind
-- the endpoint is accepted with the live config.
pub record IsWaiting (P : Platform) (server : Server) (bw : BinaryWatcher) (spec : BinarySpec)
    (sum text body : String) (w : World) : Type 0 where
  pub up : IsUp w
  pub laid : IsLaidOut P bw
  pub runs : pid_locked w.process ≢ 0
  pub quiet : w.process.upgrade_requested ≡ false
  pub same_arch : bw.syncer.arch ≡ bw.arch
  pub plain : server.contains_any bw.arch "/\\." ≡ false
  pub routed :
      (n : ℕ)
      → w.serve (spec.url <> "/binaries/" <> bw.arch) n ≡ serve_binary server default_dir bw.arch
  pub trusted : ((spec.ca_bundle == "") || P.ca_parses spec.ca_bundle) ≡ true
  pub free : (n : ℕ) → w.files (P.temp_name (P.dir (candidate_of bw)) n) ≡ none
  pub accepted : agrees P (some body) (text_at bw.config_path w) ≡ true
  pub mounted : text_at bw.spec_path w ≡ some text
  pub changed : text ≢ bw.last_spec
  pub decoded : P.parse_json text ≡ some spec
  pub known : sum ≢ ""
  pub outdated : digest_at P bw.runtime_path w ≢ some sum

-- If the plugin publishes a spec with a digest for an architecture, its files are those that were
-- hashed, and the spec has reached the mount of a pod of that architecture where no call fails, no
-- upgrade is pending, the pooler runs on another binary, the endpoint is reached and the new binary
-- accepts the live config, then one poll of the binary watcher installs the plugin's binary, sends
-- SIGUSR2 to the process and nothing else, and remembers the spec as applied.
pub load_binary_spec-check :
    (P : Platform) (server : Server) (dir : Directory) (files : String → Option String)
    (base_url ca_file : String) (read_file : String → Option String) (spec : BinarySpec)
    (bw : BinaryWatcher) (sum text body : String) (w : World)
    → IsImage P server dir files
    → load_binary_spec dir base_url ca_file read_file ≡ ok (some spec)
    → lookup bw.arch spec.sha256 ≡ some sum
    → files (server.join default_dir bw.arch "pg_doorman") ≡ some body
    → IsWaiting P server bw spec sum text body w
    → IsUpgraded P bw text body w (BinaryWatcher.check P bw w)
unfolding load_binary_spec serve_binary desired_digest
load_binary_spec-check P server dir files base_url ca_file read_file spec bw sum text body w image h
      k there pod =
    let (made, _) = spec_of-some (load_manifest dir) base_url ca_file read_file spec h in
    let (_, carried) = load_manifest-Carries dir spec.sha256 made in
    let (hashed, there', sum') = image.hashed bw.arch sum (carried bw.arch sum k) in
    let same : hashed ≡ body = cc (there, there') in
    let digest : P.sha256 body ≡ sum = rw same at sum' in
    let path = server.join default_dir bw.arch "pg_doorman" in
    let served = image.served path body there in
    let (parsed, _) =
      load_binary_spec-parse_binary_spec dir base_url ca_file read_file P.parse_json text spec h
        pod.decoded in
    let wanted : desired_digest spec bw.arch ≡ sum = rw k refl in
    check-upgrades P bw w text body spec pod.mounted pod.changed parsed (rw wanted pod.known)
      (rw wanted pod.outdated)
      (record {
        up = pod.up;
        laid = pod.laid;
        runs = pod.runs;
        quiet = pod.quiet;
        trusted = pod.trusted;
        answer = λ n. rw (pod.same_arch, pod.routed n, pod.plain) served;
        wanted = rw wanted digest;
        short = image.short path body there;
        free = pod.free;
        accepted = pod.accepted;
      })
