-- ===== src/Wrapper/FileWatcher/Defs.antt =====
-- FileWatcher of filewatcher.go: `materialize`, `ApplyInitial` and `check`.
use cnpg_pg_doorman.Base.{
  ℕ, ◌+◌, String, ◌<>◌, ◌==◌, Bool, false, not, Option, none, some, if◌then◌else◌,
}
use cnpg_pg_doorman.Wrapper.World.{
  World, File, message, Result, ok, err, World, Io, fails, called, pure, ◌>>◌, ignore, or_clean,
}
use cnpg_pg_doorman.Wrapper.Calls.{remove, rename, read_file}
use cnpg_pg_doorman.Wrapper.Platform.{Platform}
use cnpg_pg_doorman.Wrapper.Validator.{DoormanConfig, validate_config_bytes}
use cnpg_pg_doorman.Wrapper.Restart.{needs_process_restart}
use cnpg_pg_doorman.Wrapper.AtomicWrite.{atomic_write}
use cnpg_pg_doorman.Wrapper.TlsKey.{ensure_pkcs8_key}
use cnpg_pg_doorman.Wrapper.Process.{restart, reload}

abbrev pub candidate_suffix : String
candidate_suffix = ".next.yaml"

-- `test_config` is the binary that the tester runs, and `none` for a nil tester; `last_applied` is
-- empty for nil, as bytes.Equal has it.
pub record FileWatcher : Type 0 where
  pub source_path : String
  pub runtime_path : String
  pub raw_key_path : String
  pub key_path : String
  pub test_config : Option String
  pub last_applied : String

-- NewFileWatcher, with the process's binary for PgDoormanBinary.
unfoldable pub new_file_watcher : String → String → String → String → String → FileWatcher
new_file_watcher source_path runtime_path raw_key_path key_path binary = record {
  source_path = source_path;
  runtime_path = runtime_path;
  raw_key_path = raw_key_path;
  key_path = key_path;
  test_config = some binary;
  last_applied = "";
}

unfoldable pub set_config_stale : ℕ → World → World
set_config_stale n w = record w { metrics = record w.metrics { config_stale = n } }

unfoldable pub reload_failed : World → World
reload_failed w = record w {
  metrics = record w.metrics { reloads_failure = w.metrics.reloads_failure + 1 };
}

unfoldable pub reload_succeeded : World → World
reload_succeeded w = record w {
  metrics = record w.metrics { config_stale = 0; reloads_success = w.metrics.reloads_success + 1 };
}

module _ (P : Platform) where
  abbrev accepted : Option File → Option File → Result (Unit {0})
  accepted (some b) (some c) =
      if P.accepts b.content c.content
      then ok tt
      else err (message "pg_doorman --test-config failed")
  accepted none c = err (message "pg_doorman --test-config failed")
  accepted (some b) none = err (message "pg_doorman --test-config failed")

  -- NewBinaryConfigTester: run the binary at the first path on the config at the second.
  unfoldable pub run_test_config : String → String → Io (Unit {0})
  run_test_config binary path w = (
    if fails w
        then err (message "pg_doorman --test-config failed")
        else accepted (w.files binary) (w.files path),
    called w,
  )

  abbrev pub ensure_key : FileWatcher → Io (Unit {0})
  ensure_key fw =
      if not (fw.raw_key_path == "")
      then ensure_pkcs8_key P fw.raw_key_path fw.key_path
      else pure tt

  abbrev pub tested : Option String → String → Io (Unit {0})
  tested none candidate = pure tt
  tested (some binary) candidate =
      or_clean (run_test_config binary candidate) (ignore (remove candidate))

  -- `materialize` up to its last call.
  unfoldable pub prepare : FileWatcher → String → Io (Unit {0})
  prepare fw text = do
    ensure_key fw
    let candidate = fw.runtime_path <> candidate_suffix
    atomic_write candidate text
    tested fw.test_config candidate

  unfoldable pub materialize : FileWatcher → String → Io (Unit {0})
  materialize fw text = do
    prepare fw text
    rename (fw.runtime_path <> candidate_suffix) fw.runtime_path

  -- ApplyInitial: the watcher comes back too, since `lastApplied` may be set.
  abbrev applied : FileWatcher → String → Result (Unit {0}) → Result (Unit {0}) × FileWatcher
  applied fw text (ok _) = (ok tt, record fw { last_applied = text })
  applied fw text (err e) = (err e, fw)

  abbrev apply_read : FileWatcher → Result String → World → Result (Unit {0}) × FileWatcher × World
  apply_read fw (err e) w = (err e, fw, w)
  apply_read fw (ok text) w =
      let (r, w') = materialize fw text w in let (r', fw') = applied fw text r in (r', fw', w')

  unfoldable pub apply_initial : FileWatcher → World → Result (Unit {0}) × FileWatcher × World
  apply_initial fw w = let (r, w') = read_file fw.source_path w in apply_read fw r w'

  abbrev pub restart_for : Result DoormanConfig → DoormanConfig → Bool
  restart_for (ok old) new = needs_process_restart old new
  restart_for (err e) new = false

  abbrev signalled : FileWatcher → String → Result (Unit {0}) → World → FileWatcher × World
  signalled fw text (err e) w = (fw, reload_failed w)
  signalled fw text (ok _) w = (record fw { last_applied = text }, reload_succeeded w)

  -- The signal after the config was replaced.
  unfoldable pub signal_process : FileWatcher → String → Bool → World → FileWatcher × World
  signal_process fw text needs w =
      let (r, w') = (if needs then restart w else reload w) in signalled fw text r w'

  abbrev materialized :
      FileWatcher → String → Bool → Result (Unit {0}) → World → FileWatcher × World
  materialized fw text needs (err e) w = (fw, reload_failed w)
  materialized fw text needs (ok _) w = signal_process fw text needs w

  abbrev validated : FileWatcher → String → Result DoormanConfig → World → FileWatcher × World
  validated fw text (err e) w = (fw, reload_failed w)
  validated fw text (ok new) w =
      let needs = restart_for (validate_config_bytes P.parse_yaml fw.last_applied) new in
      let (r, w') = materialize fw text w in materialized fw text needs r w'

  abbrev pub change_read : FileWatcher → Result String → World → FileWatcher × World
  change_read fw (err e) w = (fw, w)
  change_read fw (ok text) w =
      if text == fw.last_applied
      then (fw, w)
      else validated fw text (validate_config_bytes P.parse_yaml text) (set_config_stale 1 w)

  -- check: one poll.
  unfoldable pub check : FileWatcher → World → FileWatcher × World
  check fw w = let (r, w') = read_file fw.source_path w in change_read fw r w'
