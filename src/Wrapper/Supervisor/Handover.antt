-- ===== src/Wrapper/Supervisor/Handover.antt =====
-- Exits and handovers: what the supervisor does when the process it waited for is gone.
use cnpg_pg_doorman.Base.{
  ℕ, ◌+◌, ◌≡◌, ◌≢◌, refl, ◌∙◌, Bool, true, false, Option, none, some, List, [], ◌∷◌, arith, String,
}
use cnpg_pg_doorman.Wrapper.World.{World, Signal, sigkill}
use cnpg_pg_doorman.Wrapper.Calls.{kill, read_file}
use cnpg_pg_doorman.Wrapper.Platform.{Platform}
use cnpg_pg_doorman.Wrapper.Process.{consume_upgrade_request, reload, wait_delay, kill_adopted}
use cnpg_pg_doorman.Wrapper.Successor.{Entry, kill_strays, kill_next, candidate}
use cnpg_pg_doorman.Wrapper.Supervisor.Defs.{
  Supervisor, supervising, exit, Scan, adopt_rounds, adopt_successor, adopt, at_time, reaped,
  crashed, handed_over, exited, step, count_restart, count_success, count_failure,
}

-- The pid of the first round that found one.
abbrev pub found_in : List Scan → Option ℕ
found_in [] = none
found_in (s ∷ scans) = elim s.found [ some pid ↦ some pid | none ↦ found_in scans ]

-- The process and the metrics are those of `w`.
record IsKept (w w' : World) : Type 0 where
  metrics : w'.metrics ≡ w.metrics
  process : w'.process ≡ w.process

kill-IsKept : (pid : ℕ) (sig : Signal) (w : World) → IsKept w (kill pid sig w).1
unfolding kill
kill-IsKept pid sig w = ground arith

module _ (P : Platform) (trim_suffix : String → String → String) (self : ℕ) where
  kill_next-IsKept :
      (o : Option ℕ) (w : World) (rest : World → List ℕ × World)
      → ((v : World) → IsKept v (rest v).1)
      → IsKept w (kill_next trim_suffix o w rest).1
  kill_next-IsKept none w rest k = k w
  kill_next-IsKept (some pid) w rest k =
      let here = kill-IsKept pid sigkill w in
      let after = k (kill pid sigkill w).1 in
      record { metrics = after.metrics ∙ here.metrics; process = after.process ∙ here.process }

  kill_strays-IsKept :
      (es : List Entry) (binary : String) (exclude : ℕ) (w : World)
      → IsKept w (kill_strays trim_suffix es binary self exclude w).1
  unfolding kill_strays
  kill_strays-IsKept [] binary exclude w = record { metrics = refl; process = refl }
  kill_strays-IsKept (e ∷ es) binary exclude w =
      kill_next-IsKept (candidate trim_suffix e binary self exclude e.pid) w
        (kill_strays trim_suffix es binary self exclude) (kill_strays-IsKept es binary exclude)

  adopt_rounds-kept :
      (deadline : ℕ) (scans : List Scan) (w : World)
      → let w' = (adopt_rounds deadline scans w).1 in
        (w'.metrics ≡ w.metrics) × (w'.process.upgrade_requested ≡ w.process.upgrade_requested)
  unfolding adopt_rounds adopt
  adopt_rounds-kept deadline [] w = (refl, refl)
  adopt_rounds-kept deadline (s ∷ scans) w =
      ground (arith, adopt_rounds-kept deadline scans (at_time s.at w))

  -- What was adopted is what a round found; the old cmd is forgotten.
  adopt_rounds-adopted :
      (deadline : ℕ) (scans : List Scan) (w : World)
      → (adopt_rounds deadline scans w).0 ≡ true
      → let w' = (adopt_rounds deadline scans w).1 in
        (w'.process.cmd_pid ≡ none) × (some w'.process.adopted_pid ≡ found_in scans)
  unfolding adopt_rounds adopt
  adopt_rounds-adopted deadline [] w h = cc
  adopt_rounds-adopted deadline (s ∷ scans) w h =
      ground (arith, adopt_rounds-adopted deadline scans (at_time s.at w))

  consume-kept :
      (w : World)
      → let w' = (consume_upgrade_request P w).1 in
        (w'.metrics ≡ w.metrics) × (w'.process.upgrade_requested ≡ false)
  unfolding consume_upgrade_request read_file
  consume-kept w = ground arith

  reload-kept :
      (w : World) → let w' = (reload w).1 in (w'.metrics ≡ w.metrics) × (w'.process ≡ w.process)
  unfolding reload kill
  reload-kept w = ground arith

  -- Restarts and successful upgrades together count the exits.
  abbrev pub exits_counted : World → ℕ
  exits_counted w = w.metrics.process_restarts + w.metrics.upgrades_success

  exited-counted :
      (s : Supervisor) (scans : List Scan) (procs : List Entry) (w : World)
      → let t = exited P trim_suffix self s scans procs w in
        (exits_counted t.world ≡ exits_counted w + 1) × (t.world.process.upgrade_requested ≡ false)
  unfolding exited crashed handed_over count_restart count_success count_failure adopt_successor
  exited-counted s scans procs w =
      let w1 = (consume_upgrade_request P w).1 in
      let deadline = w1.now + w1.process.successor_timeout in
      let w2 = (adopt_rounds deadline scans w1).1 in
      let swept = kill_strays-IsKept procs w2.process.binary 0 (count_failure w2) in
      ground (
        arith,
        consume-kept w,
        adopt_rounds-kept deadline scans w1,
        swept,
        reload-kept (count_success w2),
      )

  reaped-metrics : (w : World) → (reaped P w).metrics ≡ w.metrics
  unfolding reaped wait_delay read_file
  reaped-metrics w = ground arith

  -- Every exit seen before the context ends counts once, as a restart or as a successful upgrade,
  -- and leaves no upgrade request pending, whether or not a successor is found.
  pub exit_counted :
      (s : Supervisor) (scans : List Scan) (procs : List Entry) (at : ℕ)
      → let t = step P trim_suffix self s supervising (exit scans procs at false) in
        (exits_counted t.world ≡ exits_counted s.world + 1)
        × (t.world.process.upgrade_requested ≡ false)
  unfolding step
  exit_counted s scans procs at =
      let w = at_time at s.world in
      ground (arith, exited-counted s scans procs (reaped P w), reaped-metrics w)

  -- Whether the exit that is seen at a time can be a handover, and the world after the question.
  abbrev pub question : Supervisor → ℕ → Bool × World
  question s at = consume_upgrade_request P (reaped P (at_time at s.world))

  -- If the upgrade request is fresh when the exit is seen and the search ends with a successor, then
  -- the supervisor goes on with the process that the scans found first, the old command is
  -- forgotten, the backoff and the restart count stay, and the metrics count one more successful
  -- upgrade and nothing else.
  pub exit_adopts :
      (s : Supervisor) (scans : List Scan) (procs : List Entry) (at : ℕ)
      → (question s at).0 ≡ true
      → (adopt_successor scans (question s at).1).0 ≡ true
      → let t = step P trim_suffix self s supervising (exit scans procs at false) in
        (t.phase ≡ supervising)
        × (t.backoff ≡ s.backoff)
        × (some t.world.process.adopted_pid ≡ found_in scans)
        × (t.world.process.cmd_pid ≡ none)
        × (t.world.metrics
            ≡ record s.world.metrics { upgrades_success = s.world.metrics.upgrades_success + 1 })
  unfolding step exited handed_over count_success adopt_successor
  exit_adopts s scans procs at h k =
      let w = at_time at s.world in
      let w1 = (consume_upgrade_request P (reaped P w)).1 in
      let deadline = w1.now + w1.process.successor_timeout in
      let w2 = (adopt_rounds deadline scans w1).1 in
      ground (
        arith,
        consume-kept (reaped P w),
        reaped-metrics w,
        adopt_rounds-kept deadline scans w1,
        adopt_rounds-adopted deadline scans w1,
        reload-kept (count_success w2),
      )

  -- Once an adopted process was reaped, a late signal for its pid is not sent and changes nothing:
  -- the pid may be another process by then.
  pub reaped_unsignalled :
      (w : World) (sig : Signal)
      → w.process.adopted_pid ≢ 0
      → kill_adopted w.process.adopted_pid sig (reaped P w) ≡ reaped P w
  unfolding kill_adopted reaped
  reaped_unsignalled w sig h = ground arith
