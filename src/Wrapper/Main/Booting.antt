-- ===== src/Wrapper/Main/Booting.antt =====
-- The watchers of a sidecar that has booted (cmd/wrapper/main.go).
use mathlib.Core.Path.{subst}
use cnpg_pg_doorman.Base.{ℤ, String, ◌==◌, ◌≡◌, refl, sym, false, Option, some, arith, inl, inr}
use cnpg_pg_doorman.Wrapper.World.{World, Result-cases, ok}
use cnpg_pg_doorman.Wrapper.Platform.{Platform}
use cnpg_pg_doorman.Wrapper.Process.{new_process}
use cnpg_pg_doorman.Wrapper.RoleWatcher.{RoleWatcher}
use cnpg_pg_doorman.Wrapper.FileWatcher.{FileWatcher, new_file_watcher, apply_initial}
use cnpg_pg_doorman.Wrapper.FileWatcher.Materialize.{IsAside, IsCompatible}
use cnpg_pg_doorman.Wrapper.FileWatcher.Gauge.{aside_after}
use cnpg_pg_doorman.Wrapper.BinarySync.{BinarySyncer}
use cnpg_pg_doorman.Wrapper.BinarySync.Download.{IsFresh}
use cnpg_pg_doorman.Wrapper.BinaryWatcher.{new_binary_watcher, seed}
use cnpg_pg_doorman.Wrapper.BinaryWatcher.Upgrade.{IsLaidOut}
use cnpg_pg_doorman.Wrapper.Startup.{start_up, apply_initial_config}
use cnpg_pg_doorman.Wrapper.Startup.Serving.{start_up-IsServing}
use cnpg_pg_doorman.Wrapper.Sidecar.{Sidecar, Reach, IsSound, Reach-IsSound, Reach-paths}
use cnpg_pg_doorman.Wrapper.Main.{
  settings, boot, Settings, Watchers, runtime_config_path, runtime_binary_path,
}

module _ (P : Platform) (s : BinarySyncer) where
  start_up-fw :
      (fw : FileWatcher) (w : World)
      → let fw' = (start_up P s fw w).1 in fw' ≡ record fw { last_applied = fw'.last_applied }
  unfolding start_up apply_initial_config apply_initial
  start_up-fw fw w = ground arith

-- No name that os.CreateTemp makes up is one of the three fixed paths.
pub record IsTidy (P : Platform) : Type 0 where
  pub binary : IsFresh P runtime_binary_path
  pub config : IsFresh P runtime_config_path
  pub candidate : IsFresh P "/tmp/bin/pg_doorman.next"

module _ (P : Platform) (trim_space : String → String) (atoi : String → Option ℤ)
    (join : String → String → String) (arch : String) (env : String → String) where
  abbrev set_up : Settings
  set_up = settings P atoi join arch env

  set_up-IsAside : IsAside set_up.fw runtime_binary_path × IsAside set_up.fw runtime_config_path
  unfolding settings new_file_watcher
  set_up-IsAside = (
    record { key = refl; key_tmp = refl; candidate = refl; candidate_tmp = refl },
    record { key = refl; key_tmp = refl; candidate = refl; candidate_tmp = refl },
  )

  set_up-IsLaidOut : IsTidy P → IsLaidOut P set_up.bw
  unfolding settings new_binary_watcher
  set_up-IsLaidOut tidy = record {
    runtime_config = refl;
    candidate_runtime = refl;
    candidate_config = refl;
    fresh_runtime = tidy.binary;
    fresh_config = tidy.config;
    fresh_candidate = tidy.candidate;
  }

  -- The sidecar that `main` goes on to run.
  abbrev pub sidecar_of : Watchers → RoleWatcher → World → Sidecar
  sidecar_of ws roles w = record { fw = ws.fw; bw = ws.bw; roles = roles; world = w }

  started-IsSound :
      (last spec : String) (roles : RoleWatcher) (w : World)
      → IsTidy P
      → IsCompatible P runtime_binary_path set_up.fw.runtime_path w
      → IsSound P trim_space (record {
        fw = record set_up.fw { last_applied = last };
        bw = seed spec set_up.bw;
        roles = roles;
        world = w;
      })
  unfolding seed settings new_file_watcher new_binary_watcher
  started-IsSound last spec roles w tidy good =
      let (aside, own) = set_up-IsAside in
      let laid = set_up-IsLaidOut tidy in
      record {
        tester = refl;
        same_config = refl;
        aside = aside_after last aside;
        own = aside_after last own;
        laid = record {
          runtime_config = laid.runtime_config;
          candidate_runtime = laid.candidate_runtime;
          candidate_config = laid.candidate_config;
          fresh_runtime = laid.fresh_runtime;
          fresh_config = laid.fresh_config;
          fresh_candidate = laid.fresh_candidate;
        };
        apart = refl;
        compatible = good;
      }

  abbrev process_made : World → World
  process_made w = record w { process = new_process runtime_config_path runtime_binary_path }

  set_up-tests : set_up.fw.test_config ≡ some runtime_binary_path
  unfolding settings new_file_watcher
  set_up-tests = refl

  set_up-apart : (set_up.fw.runtime_path == runtime_binary_path) ≡ false
  unfolding settings new_file_watcher
  set_up-apart = refl

  boot-IsSound :
      (w : World) {ws : Watchers} (roles : RoleWatcher)
      → IsTidy P
      → (boot P atoi join arch env w).0 ≡ ok ws
      → IsSound P trim_space (sidecar_of ws roles (boot P atoi join arch env w).1)
  unfolding boot
  boot-IsSound w {ws} roles tidy h =
      let start = start_up P set_up.syncer set_up.fw (process_made w) in
      elim (Result-cases start.0) [
        | inr (e, failed) ↦ cc (rw failed at h)
        | inl (spec, done) ↦
            (let made : Watchers = record {
              fw = start.1;
              bw = seed spec set_up.bw;
              roles = set_up.roles;
            } in
              let same : made ≡ ws = cc (rw done at h) in
              let serving =
                start_up-IsServing P set_up.syncer runtime_binary_path set_up.fw set_up-tests
                  set_up-IsAside.0 set_up-apart (process_made w) done in
              let last = start.1.last_applied in
              let kept = start_up-fw P set_up.syncer set_up.fw (process_made w) in
              let good : IsCompatible P runtime_binary_path set_up.fw.runtime_path start.2 =
                subst (λ fw. IsCompatible P runtime_binary_path fw.runtime_path start.2) kept
                  serving.compatible in
              let sound =
                subst
                  (λ fw.
                    IsSound P trim_space (record {
                      fw = fw;
                      bw = seed spec set_up.bw;
                      roles = roles;
                      world = start.2;
                    }))
                  (sym kept) (started-IsSound last spec roles start.2 tidy good) in
              subst (λ m. IsSound P trim_space (sidecar_of m roles (boot P atoi join arch env w).1))
                same (rw done sound))
      ]

  paths_of_set_up :
      (set_up.fw.runtime_path ≡ runtime_config_path)
      × (set_up.bw.runtime_path ≡ runtime_binary_path)
  unfolding settings new_file_watcher new_binary_watcher
  paths_of_set_up = (refl, refl)

  boot-paths :
      (w : World) {ws : Watchers}
      → (boot P atoi join arch env w).0 ≡ ok ws
      → (ws.fw.runtime_path ≡ runtime_config_path) × (ws.bw.runtime_path ≡ runtime_binary_path)
  unfolding boot seed
  boot-paths w {ws} h =
      let start = start_up P set_up.syncer set_up.fw (process_made w) in
      let kept = start_up-fw P set_up.syncer set_up.fw (process_made w) in
      ground (arith, kept, paths_of_set_up)

  -- If the names of temporary files differ from the three fixed paths of the runtime files, then
  -- after a start that succeeds, whatever the environment is, and after any run of config, binary
  -- and role polls, one at a time, with any system call failing at any point, and of changes by
  -- others that leave the two installed files alone, the pg_doorman at the runtime path accepts the
  -- config at the runtime path.
  pub boot-serves :
      (w : World) {ws : Watchers} (roles : RoleWatcher) {t : Sidecar}
      → IsTidy P
      → (boot P atoi join arch env w).0 ≡ ok ws
      → Reach P trim_space (sidecar_of ws roles (boot P atoi join arch env w).1) t
      → IsCompatible P runtime_binary_path runtime_config_path t.world
  boot-serves w roles {t} tidy h run =
      let (f, b) = boot-paths w h in
      let (f', b') = Reach-paths P trim_space run in
      let sound = Reach-IsSound P trim_space (boot-IsSound w roles tidy h) run in
      rw (b', b, f', f) at sound.compatible
