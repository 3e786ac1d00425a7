-- ===== src/Tests/Binary.antt =====
-- The theorems on the binary, the start and the whole sidecar at the pod of Tests/Pod.
use cnpg_pg_doorman.Wrapper.Process.{pid_locked}
use cnpg_pg_doorman.Wrapper.BinarySync.{
  request, answered, create_download, receive, limited, install_temp, discard,
}
use cnpg_pg_doorman.Base.{String, ◌≡◌, ◌≢◌, refl, sym, ◌∙◌, arith, Option, some}
use cnpg_pg_doorman.Base.Maps.{lookup}
use cnpg_pg_doorman.Wrapper.Calls.{
  read_file, write, touch, chmod, remove, rename, mkdir_all, create_temp, kill,
}
use cnpg_pg_doorman.Wrapper.BinarySpec.{parse_binary_spec}
use cnpg_pg_doorman.Wrapper.BinarySync.{desired_digest, file_sha256, set_binary_stale}
use cnpg_pg_doorman.Wrapper.BinaryWatcher.{
  reconcile_binary, fetch_and_swap, swap_binary, test_candidate,
}
use cnpg_pg_doorman.Wrapper.Process.{upgrade, upgrade_in_flight}
use cnpg_pg_doorman.Wrapper.FileWatcher.{run_test_config}
use cnpg_pg_doorman.Wrapper.World.{deferred}
use cnpg_pg_doorman.Wrapper.World.{◌>>=◌}
use cnpg_pg_doorman.Wrapper.BinarySync.{download}
use cnpg_pg_doorman.Wrapper.BinarySync.Download.{IsVerified, download-IsVerified}
use cnpg_pg_doorman.Wrapper.FileWatcher.Materialize.{text_at}
use cnpg_pg_doorman.Wrapper.BinaryWatcher.{check, candidate_of}
use cnpg_pg_doorman.Wrapper.BinaryWatcher.Upgrade.{IsLaidOut}
use cnpg_pg_doorman.Wrapper.BinaryWatcher.Swap.{IsSwapped, check_replaced}
use cnpg_pg_doorman.Wrapper.Sidecar.{
  Sidecar, IsSound, here, next, config_polled, binary_polled, role_polled, poll_config, poll_binary,
  poll_role, Reach-IsSound,
}
use cnpg_pg_doorman.Tests.Pod.{
  differ, platform, world, config_watcher, binary_watcher, role_watcher, syncer, spec,
  runtime_binary,
}
use cnpg_pg_doorman.Tests.Watchers.{aside_binary, aside_config}

abbrev pub laid : IsLaidOut platform binary_watcher
laid = record {
  runtime_config = refl;
  candidate_runtime = refl;
  candidate_config = refl;
  fresh_runtime = λ d n. refl;
  fresh_config = λ d n. refl;
  fresh_candidate = λ d n. refl;
}

download-IsVerified_example : IsVerified platform "digest of pg_doorman 2" (
    text_at
      (candidate_of binary_watcher)
      (download platform syncer spec "digest of pg_doorman 2"
        (candidate_of binary_watcher)
        world).1)
unfolding download ◌>>=◌ request answered create_download create_temp receive write limited
    install_temp chmod touch rename
download-IsVerified_example =
    download-IsVerified platform syncer spec "digest of pg_doorman 2" (candidate_of binary_watcher)
      world (λ d n. refl) refl

upgraded_test : text_at runtime_binary (check platform binary_watcher world).1 ≡ some "pg_doorman 2"
unfolding check read_file parse_binary_spec desired_digest reconcile_binary file_sha256
    upgrade_in_flight set_binary_stale fetch_and_swap download request answered create_download
    create_temp receive write lookup discard install_temp limited swap_binary test_candidate chmod
    kill mkdir_all remove rename touch run_test_config upgrade deferred ◌>>=◌ pid_locked
upgraded_test = refl

upgraded : ◌≢◌ {A = Option String} (some "pg_doorman 2") (some "pg_doorman 1")
upgraded same = ground (arith, differ "pg_doorman 2" "pg_doorman 1" refl)

check_replaced_example :
    IsSwapped platform binary_watcher laid world (check platform binary_watcher world).1
check_replaced_example =
    check_replaced platform binary_watcher laid world (λ same. upgraded (sym upgraded_test ∙ same))

abbrev sidecar : Sidecar
sidecar = record { fw = config_watcher; bw = binary_watcher; roles = role_watcher; world = world }

abbrev trimmed : String → String
trimmed text = text

abbrev sound : IsSound platform trimmed sidecar
sound = record {
  tester = refl;
  same_config = refl;
  aside = aside_binary;
  own = aside_config;
  laid = laid;
  apart = refl;
  compatible = refl;
}

abbrev polled : Sidecar
polled =
    poll_role platform trimmed (poll_config platform trimmed (poll_binary platform trimmed sidecar))

Reach-IsSound_example : IsSound platform trimmed polled
Reach-IsSound_example =
    Reach-IsSound platform trimmed sound
      (next (next (next here (binary_polled _)) (config_polled _)) (role_polled _))
