-- ===== src/Wrapper/Process/Defs.antt =====
-- The methods of Process that signal the supervised pid, and the upgrade request.
use cnpg_pg_doorman.Base.{
  ℕ, ◌+◌, ◌-◌, String, Bool, true, false, not, Option, none, some, nat_eq, leb, if◌then◌else◌,
}
use cnpg_pg_doorman.Wrapper.World.{
  Signal, sigterm, sighup, sigusr2, message, Result, ok, err, Process, World, Io,
}
use cnpg_pg_doorman.Wrapper.Calls.{read_file, kill}
use cnpg_pg_doorman.Wrapper.Platform.{Platform}

abbrev pub default_shutdown_timeout : ℕ
default_shutdown_timeout = 10000

abbrev pub shutdown_wait_margin : ℕ
shutdown_wait_margin = 5000

abbrev pub successor_search_timeout : ℕ
successor_search_timeout = 5000

-- NewProcess
unfoldable pub new_process : String → String → Process
new_process config_path binary = record {
  config_path = config_path;
  binary = binary;
  wait_margin = shutdown_wait_margin;
  cmd_pid = none;
  adopted_pid = 0;
  upgrade_requested = false;
  upgrade_requested_at = 0;
  successor_timeout = successor_search_timeout;
}

abbrev cmd_or_zero : Option ℕ → ℕ
cmd_or_zero none = 0
cmd_or_zero (some pid) = pid

unfoldable pub pid_locked : Process → ℕ
pid_locked p = if not (nat_eq p.adopted_pid 0) then p.adopted_pid else cmd_or_zero p.cmd_pid

unfoldable pub signal_locked : Signal → Io (Unit {0})
signal_locked sig w =
    let pid = pid_locked w.process in
    if nat_eq pid 0 then (err (message "process not running"), w) else kill pid sig w

unfoldable pub restart : Io (Unit {0})
unfolding signal_locked
restart w =
    let pid = pid_locked w.process in
    if nat_eq pid 0 then (err (message "process not running"), w) else signal_locked sigterm w

unfoldable pub reload : Io (Unit {0})
unfolding signal_locked
reload w =
    let pid = pid_locked w.process in
    if nat_eq pid 0 then (err (message "process not running"), w) else signal_locked sighup w

abbrev requested : Result (Unit {0}) → World → Result (Unit {0}) × World
requested (err e) w = (err e, w)
requested (ok _) w = (
  ok tt,
  record w {
    process = record w.process { upgrade_requested = true; upgrade_requested_at = w.now };
  },
)

unfoldable pub upgrade : Io (Unit {0})
unfolding signal_locked
upgrade w = let (r, w') = signal_locked sigusr2 w in requested r w'

module _ (P : Platform) where
  abbrev duration_of : Option ℕ → ℕ
  duration_of none = default_shutdown_timeout
  duration_of (some d) = d

  -- The shutdown_timeout of a config text, as the wrapper reads it.
  unfoldable pub timeout_of : Result String → ℕ
  timeout_of (err e) = default_shutdown_timeout
  timeout_of (ok text) = elim (P.parse_yaml text) [
    | none ↦ default_shutdown_timeout
    | some cfg ↦ duration_of (P.parse_duration cfg.general.shutdown_timeout)
  ]

  unfoldable pub wait_delay : World → ℕ × World
  unfolding timeout_of
  wait_delay w =
      let (r, w') = read_file w.process.config_path w in (timeout_of r + w.process.wait_margin, w')

  -- upgradeRequestFreshLocked: whether a pending request can still explain an exit.
  unfoldable pub upgrade_request_fresh : World → Bool × World
  unfolding wait_delay
  upgrade_request_fresh w =
      if not w.process.upgrade_requested
      then (false, w)
      else (let (delay, w') = wait_delay w in
          (leb (w.now - w.process.upgrade_requested_at) (delay + w.process.successor_timeout), w'))

  unfoldable pub consume_upgrade_request : World → Bool × World
  unfolding upgrade_request_fresh
  consume_upgrade_request w =
      let (fresh, w') = upgrade_request_fresh w in
      (fresh, record w' { process = record w'.process { upgrade_requested = false } })

  unfoldable pub upgrade_in_flight : World → Bool × World
  unfolding upgrade_request_fresh
  upgrade_in_flight w = upgrade_request_fresh w

-- killAdopted: a pid that is no longer the supervised one is left alone.
unfoldable pub kill_adopted : ℕ → Signal → World → World
kill_adopted pid sig w = if nat_eq w.process.adopted_pid pid then (kill pid sig w).1 else w

-- terminateIfAdopted at the end of the context. Its SIGKILL comes later, by `kill_adopted`.
unfoldable pub terminate_if_adopted : World → World
unfolding kill_adopted
terminate_if_adopted w =
    let pid = w.process.adopted_pid in if nat_eq pid 0 then w else kill_adopted pid sigterm w
