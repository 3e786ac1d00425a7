-- ===== src/Wrapper/BinaryWatcher/Progress.antt =====
-- A wanted binary that the endpoint serves gets installed (`check` of binarywatcher.go).
use Prim.Native.String.{len}
use cnpg_pg_doorman.Base.{
  ℕ, ◌+◌, ◌≤◌, pos, String, ◌<>◌, ◌==◌, ◌||◌, ◌≡◌, ◌≢◌, refl, ap, inl, inr, Bool-cases, true, false,
  none, some, ◌∷◌, arith, eq_iff, eq_refl,
}
use cnpg_pg_doorman.Wrapper.World.{World, ok, response, called, sigusr2}
use cnpg_pg_doorman.Wrapper.Calls.{read_file, rename, kill}
use cnpg_pg_doorman.Wrapper.Platform.{Platform}
use cnpg_pg_doorman.Wrapper.BinarySpec.{BinarySpec, parse_binary_spec}
use cnpg_pg_doorman.Wrapper.Process.{upgrade, upgrade_in_flight, upgrade_request_fresh, pid_locked}
use cnpg_pg_doorman.Wrapper.FileWatcher.{run_test_config}
use cnpg_pg_doorman.Wrapper.FileWatcher.Materialize.{text_of, text_at, agrees}
use cnpg_pg_doorman.Wrapper.FileWatcher.Progress.{IsUp}
use cnpg_pg_doorman.Wrapper.BinarySync.{
  desired_digest, file_sha256, download, set_binary_stale, max_binary_bytes, is_digest,
}
use cnpg_pg_doorman.Wrapper.BinarySync.Download.{Keeps-download}
use cnpg_pg_doorman.Wrapper.BinarySync.Progress.{IsServed, download-succeeds}
use cnpg_pg_doorman.Wrapper.BinarySync.Steady.{steady-download}
use cnpg_pg_doorman.Wrapper.BinarySync.Sources.{
  digest_at, is_digest-ok, file_sha256-digest, file_sha256-world,
}
use cnpg_pg_doorman.Wrapper.BinaryWatcher.Defs.{
  BinaryWatcher, candidate_of, swap_binary, test_candidate, fetch_and_swap, reconcile_binary, check,
}
use cnpg_pg_doorman.Wrapper.BinaryWatcher.Upgrade.{IsLaidOut}

module _ (P : Platform) (bw : BinaryWatcher) where
  -- What the poll has done when it installed `body` for the spec `text`.
  pub record IsUpgraded (text body : String) (w : World) (out : BinaryWatcher × World)
      : Type 0 where
    pub remembered : out.0 ≡ record bw { last_spec = text }
    pub installed : text_at bw.runtime_path out.1 ≡ some body
    pub requested : out.1.process.upgrade_requested ≡ true
    pub signal : out.1.sent ≡ (pid_locked w.process, sigusr2) ∷ w.sent
    pub fresh : out.1.metrics.binary_stale ≡ 0

  test_candidate-IsUpgraded :
      (text body : String) (w : World)
      → IsUp w
      → pid_locked w.process ≢ 0
      → text_at (candidate_of bw) w ≡ some body
      → agrees P (some body) (text_at bw.config_path w) ≡ true
      → IsUpgraded text body w (test_candidate P bw text w)
  unfolding test_candidate swap_binary run_test_config rename upgrade kill set_binary_stale
  test_candidate-IsUpgraded text body w up runs there good =
      let n = w.calls in
      record {
        remembered = ground (arith, up n, up (n + 1), up (n + 1 + 1));
        installed = ground (arith, up n, up (n + 1), up (n + 1 + 1), eq_refl bw.runtime_path);
        requested = ground (arith, up n, up (n + 1), up (n + 1 + 1));
        signal = ground (arith, up n, up (n + 1), up (n + 1 + 1));
        fresh = ground (arith, up n, up (n + 1), up (n + 1 + 1));
      }

  -- What an upgrade to `body` needs of the pod: no call fails, the pooler runs and no upgrade is
  -- pending, the endpoint serves `body`, which is no longer than the cap and accepted with the live
  -- config, and the names of temporary files are free.
  pub record IsReady (spec : BinarySpec) (body : String) (w : World) : Type 0 where
    pub up : IsUp w
    pub laid : IsLaidOut P bw
    pub runs : pid_locked w.process ≢ 0
    pub quiet : w.process.upgrade_requested ≡ false
    pub trusted : ((spec.ca_bundle == "") || P.ca_parses spec.ca_bundle) ≡ true
    pub answer :
        (n : ℕ)
        → w.serve (spec.url <> "/binaries/" <> bw.syncer.arch) n
          ≡ response 200 (pos (len body)) body false
    pub wanted : P.sha256 body ≡ desired_digest spec bw.arch
    pub short : len body ≤ max_binary_bytes
    pub free : (n : ℕ) → w.files (P.temp_name (P.dir (candidate_of bw)) n) ≡ none
    pub accepted : agrees P (some body) (text_at bw.config_path w) ≡ true

  fetch_and_swap-IsUpgraded :
      (spec : BinarySpec) (text body : String) (w : World)
      → IsReady spec body w
      → IsUpgraded text body w (fetch_and_swap P bw spec text (desired_digest spec bw.arch) w)
  unfolding fetch_and_swap
  fetch_and_swap-IsUpgraded spec text body w r =
      let desired = desired_digest spec bw.arch in
      let get = download P bw.syncer spec desired (candidate_of bw) in
      let served : IsServed P spec bw.syncer.arch desired (candidate_of bw) body w = record {
        up = r.up;
        trusted = r.trusted;
        answer = r.answer w.calls;
        wanted = r.wanted;
        short = r.short;
        fresh = r.laid.fresh_candidate;
        free = r.free;
      } in
      let (done, there) =
        download-succeeds P bw.syncer spec desired (candidate_of bw) body w served in
      let same = (steady-download P bw.syncer spec desired (candidate_of bw)).at w in
      let config =
        (Keeps-download P bw.config_path r.laid.fresh_config bw.syncer spec desired
            (candidate_of bw) r.laid.candidate_config).at
          w in
      let w1 = (get w).1 in
      let faults : w1.fault ≡ w.fault = ap (λ s. s.fault) same in
      let process : w1.process ≡ w.process = ap (λ s. s.process) same in
      let sent : w1.sent ≡ w.sent = ap (λ s. s.sent) same in
      let up1 : IsUp w1 = λ n. rw faults (r.up n) in
      let made =
        test_candidate-IsUpgraded text body w1 up1 (rw process r.runs) there
          (rw (ap text_of config) r.accepted) in
      rw done (record {
        remembered = made.remembered;
        installed = made.installed;
        requested = made.requested;
        signal = rw (process, sent) at made.signal;
        fresh = made.fresh;
      })

  read_file-ok :
      (path : String) (w : World) {text : String}
      → IsUp w
      → text_at path w ≡ some text
      → ((read_file path w).0 ≡ ok text) × ((read_file path w).1 ≡ called w)
  unfolding read_file
  read_file-ok path w up there = (ground (arith, up w.calls), refl)

  not_in_flight :
      (w : World)
      → w.process.upgrade_requested ≡ false
      → ((upgrade_in_flight P w).0 ≡ false) × ((upgrade_in_flight P w).1 ≡ w)
  unfolding upgrade_in_flight upgrade_request_fresh
  not_in_flight w quiet = (ground arith, ground arith)

  outdated-is_digest :
      (w : World) (desired : String)
      → digest_at P bw.runtime_path w ≢ some desired
      → is_digest (file_sha256 P bw.runtime_path w).0 desired ≡ false
  outdated-is_digest w desired outdated =
      let cur = (file_sha256 P bw.runtime_path w).0 in
      elim (Bool-cases (is_digest cur desired)) [
        | inr differs ↦ differs
        | inl same ↦
            absurd
              (outdated (file_sha256-digest P bw.runtime_path w (is_digest-ok P cur desired same)))
      ]

  -- If a spec is mounted that was not applied and names a digest for this architecture which the
  -- runtime binary does not have, and the pod is ready for a binary of that digest, then one poll
  -- installs it, sends SIGUSR2 to the process and nothing else, and remembers the spec as applied.
  pub check-upgrades :
      (w : World) (text body : String) (spec : BinarySpec)
      → text_at bw.spec_path w ≡ some text
      → text ≢ bw.last_spec
      → parse_binary_spec P.parse_json text ≡ ok spec
      → desired_digest spec bw.arch ≢ ""
      → digest_at P bw.runtime_path w ≢ some (desired_digest spec bw.arch)
      → IsReady spec body w
      → IsUpgraded text body w (check P bw w)
  unfolding check reconcile_binary set_binary_stale
  check-upgrades w text body spec there changed parsed known outdated r =
      let desired = desired_digest spec bw.arch in
      let (read, once) = read_file-ok bw.spec_path w r.up there in
      let differs : (text == bw.last_spec) ≡ false =
        ground (arith, eq_iff text bw.last_spec, changed) in
      let named : (desired == "") ≡ false = ground (arith, eq_iff desired "", known) in
      let other = outdated-is_digest (called w) desired outdated in
      let hashed = file_sha256-world P bw.runtime_path (called w) in
      let w2 = set_binary_stale 1 (called (called w)) in
      let (flying, still) = not_in_flight w2 r.quiet in
      let ready : IsReady spec body w2 = record {
        up = r.up;
        laid = r.laid;
        runs = r.runs;
        quiet = r.quiet;
        trusted = r.trusted;
        answer = r.answer;
        wanted = r.wanted;
        short = r.short;
        free = r.free;
        accepted = r.accepted;
      } in
      let made = fetch_and_swap-IsUpgraded spec text body w2 ready in
      rw (read, once, differs, parsed, named, other, hashed, flying, still)
        (record {
          remembered = made.remembered;
          installed = made.installed;
          requested = made.requested;
          signal = made.signal;
          fresh = made.fresh;
        })
