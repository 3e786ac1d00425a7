-- ===== src/Tests/Supervision.antt =====
-- The theorems on the supervisor and the scan of /proc at concrete runs.
use cnpg_pg_doorman.Wrapper.Calls.{read_file}
use cnpg_pg_doorman.Wrapper.Process.{consume_upgrade_request}
use cnpg_pg_doorman.Wrapper.Successor.{runs_binary}
use cnpg_pg_doorman.Base.{
  ℕ, zero, suc, leb, inr, ◌+◌, ◌*◌, String, ◌==◌, ◌≡◌, ◌⊎◌, refl, true, false, none, some, List, [],
  ◌∷◌, if◌then◌else◌, arith, ◌↔◌,
}
use cnpg_pg_doorman.Wrapper.World.{World, Signal, Result, ok, sigkill}
use cnpg_pg_doorman.Wrapper.Process.{kill_adopted}
use cnpg_pg_doorman.Wrapper.Process.{wait_delay, timeout_of}
use cnpg_pg_doorman.Wrapper.Process.Waiting.{Waited, interrupted, not_child, Look, wait_ctx}
use cnpg_pg_doorman.Wrapper.Process.Ends
use cnpg_pg_doorman.Wrapper.Supervisor.CrashLoop.{Crash}
use cnpg_pg_doorman.Wrapper.Successor.{
  Entry, find_successor_pid, find_successor_pid_iff, FirstPooler,
}
use cnpg_pg_doorman.Wrapper.Supervisor.{
  Supervisor, supervising, Event, launch, exit, elapse, Scan, step, run, reaped, adopt_successor,
  sweep_strays,
}
use cnpg_pg_doorman.Wrapper.Supervisor.Backoff.{IsPaced, run-IsPaced}
use cnpg_pg_doorman.Wrapper.Supervisor.Sweep.{WasSent, HasPooler, sweep_strays_iff}
use cnpg_pg_doorman.Wrapper.Supervisor.Handover.{exit_counted, exit_adopts, exits_counted}
use cnpg_pg_doorman.Tests.Pod.{platform, world, process, runtime_binary}

-- strings.TrimSuffix on the one name that ends in the suffix here.
abbrev trimmed : String → String → String
trimmed text suffix = if text == "/tmp/bin/pg_doorman (deleted)" then runtime_binary else text

-- The old process, the validator and the re-exec'd pooler.
abbrev procs : List Entry
procs =
    record {
      pid = some 42;
      args = some (runtime_binary ∷ []);
      exe = some "/tmp/bin/pg_doorman (deleted)";
    }
    ∷ record {
      pid = some 50;
      args = some (runtime_binary ∷ "--test-config" ∷ []);
      exe = some runtime_binary;
    }
    ∷ record { pid = none; args = none; exe = none }
    ∷ record { pid = some 57; args = some (runtime_binary ∷ []); exe = some runtime_binary }
    ∷ []

find_successor_pid_iff_example :
    (find_successor_pid trimmed procs runtime_binary 1 42 ≡ some 57)
    ↔ FirstPooler trimmed procs runtime_binary 1 42 57
find_successor_pid_iff_example = find_successor_pid_iff trimmed procs runtime_binary 1 42 57

successor_test : find_successor_pid trimmed procs runtime_binary 1 42 ≡ some 57
unfolding find_successor_pid runs_binary
successor_test = refl

abbrev supervisor : Supervisor
supervisor = record {
  phase = supervising;
  backoff = 4000;
  started_at = 90000;
  pid = 42;
  world = world;
}

-- The same after an upgrade was asked for at 99 s.
abbrev upgrading : Supervisor
upgrading = record supervisor {
  world = record world {
    process = record process { upgrade_requested = true; upgrade_requested_at = 99000 };
  };
}

abbrev scans : List Scan
scans =
    record { found = none; at = 100100; cancelled = false }
    ∷ record { found = some 57; at = 100200; cancelled = false }
    ∷ []

exit_counted_example :
    let t = step platform trimmed 1 upgrading supervising (exit scans procs 100050 false) in
    (exits_counted platform trimmed 1 t.world
      ≡ exits_counted platform trimmed 1 upgrading.world + 1)
    × (t.world.process.upgrade_requested ≡ false)
exit_counted_example = exit_counted platform trimmed 1 upgrading scans procs 100050

-- The pooler dies after 50 ms, and the next one after 20 ms.
abbrev dying : Crash
dying = record { lived = 50; pause = 8000; pid = 60; up_at = 98060; scans = scans; procs = procs }

exit_adopts_example :
    let t = step platform trimmed 1 upgrading supervising (exit scans procs 100050 false) in
    (t.phase ≡ supervising)
    × (t.backoff ≡ 4000)
    × (some t.world.process.adopted_pid ≡ some 57)
    × (t.world.process.cmd_pid ≡ none)
    × (t.world.metrics ≡ record world.metrics { upgrades_success = 1 })
unfolding consume_upgrade_request reaped read_file adopt_successor
exit_adopts_example = exit_adopts platform trimmed 1 upgrading scans procs 100050 refl refl

abbrev adopted : World
adopted = record world { process = record process { cmd_pid = none; adopted_pid = 57 } }

abbrev events : List Event
events = exit [] procs 100050 false ∷ elapse 108050 false ∷ launch none 108060 false ∷ []

run-IsPaced_example : IsPaced (run platform trimmed 1 events supervisor)
run-IsPaced_example =
    run-IsPaced platform trimmed 1 events supervisor
      (record { backoff = (omega arith, omega arith); wait = tt })

-- The first Wait4 is interrupted, the second says that the process is no child of the wrapper.
abbrev wait4 : ℕ → Waited
wait4 zero = interrupted
wait4 (suc i) = not_child

-- The context is done from the third round on, and the process never goes.
abbrev stuck : ℕ → Look
stuck i = record { gone = false; cancelled = leb 2 i; armed = 200 * i; tested = 200 * i }

stuck-IsPaced : Ends.IsPaced stuck
stuck-IsPaced = record { armed = λ i. omega arith; pause = λ i. omega arith }

wait_ctx-returns_example :
    (r : Result (Unit {0})) × (w' : World) × (wait_ctx platform 2 79 wait4 stuck
        (ok tt)
        (λ w. w)
        adopted
      ≡ some (r, w'))
    × ((sig : Signal) → kill_adopted 57 sig w' ≡ w')
unfolding wait_delay read_file timeout_of
wait_ctx-returns_example =
    Ends.wait_ctx-returns platform 2 79 wait4 stuck (ok tt) (λ w. w) adopted 1 2 stuck-IsPaced
      (λ e. cc e) (λ e. cc e) (omega arith) (inr refl) (omega arith)

sweep_strays_iff_example : WasSent 57 sigkill (sweep_strays trimmed 1 procs world).sent ↔ (
    ((sigkill ≡ sigkill) × HasPooler trimmed 1 57 procs runtime_binary 0) ⊎ WasSent 57 sigkill [])
sweep_strays_iff_example = sweep_strays_iff trimmed 1 procs 57 sigkill world (λ n. refl)
