-- ===== src/Wrapper/Supervisor/Defs.antt =====
-- RunWithRestart as a machine: it stops at the points where the code blocks (a start, a wait for
-- the process, a wait for the backoff), and an event says how the wait ended.
use cnpg_pg_doorman.Base.{
  ℕ, ◌+◌, ◌*◌, ◌-◌, min, String, Bool, true, false, Option, none, some, List, [], ◌∷◌, nat_eq, leb,
  ltb, if◌then◌else◌,
}
use cnpg_pg_doorman.Wrapper.World.{World, Process}
use cnpg_pg_doorman.Wrapper.Platform.{Platform}
use cnpg_pg_doorman.Wrapper.Process.{
  wait_delay, pid_locked, reload, consume_upgrade_request, terminate_if_adopted,
}
use cnpg_pg_doorman.Wrapper.Successor.{Entry, kill_strays}

abbrev pub initial_backoff : ℕ
initial_backoff = 1000

abbrev pub max_backoff : ℕ
max_backoff = 30000

abbrev pub backoff_multiplier : ℕ
backoff_multiplier = 2

abbrev pub backoff_reset_uptime : ℕ
backoff_reset_uptime = 60000

unfoldable pub backoff_after_exit : ℕ → ℕ → ℕ
backoff_after_exit current uptime =
    if leb backoff_reset_uptime uptime
    then initial_backoff
    else min (current * backoff_multiplier) max_backoff

-- `waiting d b` waits `d` before a start, with `b` the backoff from then on.
pub data Phase : Type 0 where
  starting supervising stopped : Phase
  waiting : ℕ → ℕ → Phase

pub record Supervisor : Type 0 where
  pub phase : Phase
  pub backoff : ℕ
  pub started_at : ℕ
  pub pid : ℕ
  pub world : World

-- One round of the search: what the scan found, when it ended, and whether the context ended
-- during the pause.
pub record Scan : Type 0 where
  pub found : Option ℕ
  pub at : ℕ
  pub cancelled : Bool

-- `launch` gives the pid of the new process or a failed start. `exit` comes when the wait for the
-- process returns, with the rounds of the search and the /proc of a sweep, should they be needed.
-- Each event says at which time it comes and whether the context is done.
pub data Event : Type 0 where
  launch : (pid : Option ℕ) (at : ℕ) (cancelled : Bool) → Event
  exit : (scans : List Scan) (procs : List Entry) (at : ℕ) (cancelled : Bool) → Event
  elapse : (at : ℕ) (cancelled : Bool) → Event

abbrev pub set_process : Process → World → World
set_process p w = record w { process = p }

abbrev pub at_time : ℕ → World → World
at_time t w = record w { now = t }

-- The pid that waitCtx has reaped is no longer supervised.
unfoldable pub forget_adopted : World → World
forget_adopted w = set_process (record w.process { adopted_pid = 0 }) w

unfoldable pub adopt : ℕ → World → World
adopt pid w = set_process (record w.process { cmd_pid = none; adopted_pid = pid }) w

-- The rounds of adoptSuccessor's loop. A list that ends goes no further: the context ended.
unfoldable pub adopt_rounds : ℕ → List Scan → World → Bool × World
adopt_rounds deadline [] w = (false, w)
adopt_rounds deadline (s ∷ scans) w =
    let rest = adopt_rounds deadline scans (at_time s.at w) in
    elim s.found [
      | some pid ↦ (true, adopt pid (at_time s.at w))
      | none ↦
          if ltb deadline s.at
          then (false, at_time s.at w)
          else if s.cancelled
          then (false, at_time s.at w)
          else rest
    ]

unfoldable pub adopt_successor : List Scan → World → Bool × World
unfolding adopt_rounds adopt
adopt_successor scans w = adopt_rounds (w.now + w.process.successor_timeout) scans w

unfoldable pub count_restart : World → World
count_restart w = record w {
  metrics = record w.metrics { process_restarts = w.metrics.process_restarts + 1 };
}

unfoldable pub count_success : World → World
count_success w = record w {
  metrics = record w.metrics { upgrades_success = w.metrics.upgrades_success + 1 };
}

unfoldable pub count_failure : World → World
count_failure w = record w {
  metrics = record w.metrics { upgrades_failure = w.metrics.upgrades_failure + 1 };
}

module _ (P : Platform) where
  -- Start: the delay before SIGKILL is read from the config, and the new cmd replaces the old.
  unfoldable pub start : Option ℕ → World → World
  start pid w =
      let w' = (wait_delay P w).1 in
      set_process (record w'.process { cmd_pid = pid; adopted_pid = 0 }) w'

  -- waitCtx: the wait for an adopted process reads the drain time, and forgets the pid at the end.
  unfoldable pub reaped : World → World
  unfolding forget_adopted
  reaped w = if nat_eq w.process.adopted_pid 0 then w else forget_adopted (wait_delay P w).1

module _ (trim_suffix : String → String → String) (self : ℕ) where
  -- sweepStrays: no process is exempt but the wrapper.
  abbrev pub sweep_strays : List Entry → World → World
  sweep_strays procs w = (kill_strays trim_suffix procs w.process.binary self 0 w).1

module _ (P : Platform) (trim_suffix : String → String → String) (self : ℕ) where
  -- An exit that is no handover: the restart is counted and the backoff grows or resets.
  unfoldable pub crashed : Supervisor → World → Supervisor
  crashed s w =
      let next = backoff_after_exit s.backoff (w.now - s.started_at) in
      record s { phase = waiting next next; backoff = next; world = count_restart w }

  -- A handover: the successor gets a reload, and uptime starts over.
  unfoldable pub handed_over : Supervisor → World → Supervisor
  handed_over s w =
      let w' = (reload (count_success w)).1 in
      record s { phase = supervising; started_at = w'.now; pid = pid_locked w'.process; world = w' }

  abbrev searched : Supervisor → List Entry → Bool × World → Supervisor
  searched s procs (true, w) = handed_over s w
  searched s procs (false, w) = crashed s (sweep_strays trim_suffix self procs (count_failure w))

  abbrev pub requested : Supervisor → List Scan → List Entry → Bool × World → Supervisor
  requested s scans procs (true, w) = searched s procs (adopt_successor scans w)
  requested s scans procs (false, w) = crashed s w

  -- After waitCtx returned and the context is alive.
  unfoldable pub exited : Supervisor → List Scan → List Entry → World → Supervisor
  exited s scans procs w = requested s scans procs (consume_upgrade_request P w)

  abbrev started : Supervisor → Option ℕ → Bool → World → Supervisor
  started s (some pid) cancelled w = record s {
    phase = supervising;
    started_at = s.world.now;
    pid = pid_locked w.process;
    world = w;
  }
  started s none cancelled w =
      if cancelled then record s { phase = stopped; world = w } else record s {
        phase = waiting s.backoff (min (s.backoff * backoff_multiplier) max_backoff);
        world = w;
      }

  -- An event that does not fit the phase changes nothing.
  unfoldable pub step : Supervisor → Phase → Event → Supervisor
  step s starting (launch pid at cancelled) =
      started s pid cancelled (start P pid (at_time at s.world))
  step s supervising (exit scans procs at cancelled) =
      if cancelled
      then record s {
        phase = stopped;
        world = reaped P (terminate_if_adopted (at_time at s.world));
      }
      else exited s scans procs (reaped P (at_time at s.world))
  step s (waiting delay next) (elapse at cancelled) =
      if cancelled
      then record s { phase = stopped; world = at_time at s.world }
      else record s { phase = starting; backoff = next; world = at_time at s.world }
  step s _ _ = s

  unfoldable pub run : List Event → Supervisor → Supervisor
  run [] s = s
  run (e ∷ es) s = run es (step s s.phase e)
