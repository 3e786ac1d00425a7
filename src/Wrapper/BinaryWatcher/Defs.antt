-- ===== src/Wrapper/BinaryWatcher/Defs.antt =====
-- BinaryWatcher of binarywatcher.go: `Seed` and `check`.
use cnpg_pg_doorman.Base.{String, ◌<>◌, ◌==◌, Bool, if◌then◌else◌}
use cnpg_pg_doorman.Wrapper.World.{Result, ok, err, World, ignore}
use cnpg_pg_doorman.Wrapper.Calls.{read_file, remove, rename}
use cnpg_pg_doorman.Wrapper.Platform.{Platform}
use cnpg_pg_doorman.Wrapper.BinarySpec.{BinarySpec, parse_binary_spec}
use cnpg_pg_doorman.Wrapper.BinarySync.{
  BinarySyncer, desired_digest, is_digest, file_sha256, download, set_binary_stale,
}
use cnpg_pg_doorman.Wrapper.FileWatcher.{run_test_config}
use cnpg_pg_doorman.Wrapper.Process.{upgrade, upgrade_in_flight}

abbrev pub binary_candidate_suffix : String
binary_candidate_suffix = ".next"

-- `last_spec` is "" for nil. The tester is nil outside tests, so the candidate itself is run.
pub record BinaryWatcher : Type 0 where
  pub spec_path : String
  pub runtime_path : String
  pub config_path : String
  pub arch : String
  pub syncer : BinarySyncer
  pub last_spec : String

-- NewBinaryWatcher, with RuntimeBinaryPath, RuntimeConfigPath and GOARCH as arguments.
unfoldable pub new_binary_watcher : String → String → String → String → BinarySyncer → BinaryWatcher
new_binary_watcher spec_path runtime_path config_path arch syncer = record {
  spec_path = spec_path;
  runtime_path = runtime_path;
  config_path = config_path;
  arch = arch;
  syncer = syncer;
  last_spec = "";
}

unfoldable pub seed : String → BinaryWatcher → BinaryWatcher
seed last_spec bw = record bw { last_spec = last_spec }

abbrev pub candidate_of : BinaryWatcher → String
candidate_of bw = bw.runtime_path <> binary_candidate_suffix

module _ (P : Platform) (bw : BinaryWatcher) where
  abbrev triggered : String → Result (Unit {0}) → World → BinaryWatcher × World
  triggered text (err e) w = (bw, w)
  triggered text (ok _) w = (record bw { last_spec = text }, set_binary_stale 0 w)

  abbrev swapped : String → Result (Unit {0}) → World → BinaryWatcher × World
  swapped text (err e) w = (bw, w)
  swapped text (ok _) w = let (r, w') = upgrade w in triggered text r w'

  -- The swap comes before the handover signal.
  unfoldable pub swap_binary : String → World → BinaryWatcher × World
  swap_binary text w = let (r, w') = rename (candidate_of bw) bw.runtime_path w in swapped text r w'

  abbrev accepted : String → Result (Unit {0}) → World → BinaryWatcher × World
  accepted text (err e) w = (bw, (ignore (remove (candidate_of bw)) w).1)
  accepted text (ok _) w = swap_binary text w

  -- The new binary runs on the config that is live.
  unfoldable pub test_candidate : String → World → BinaryWatcher × World
  test_candidate text w =
      let (r, w') = run_test_config P (candidate_of bw) bw.config_path w in accepted text r w'

  abbrev downloaded : String → Result (Unit {0}) → World → BinaryWatcher × World
  downloaded text (err e) w = (bw, w)
  downloaded text (ok _) w = test_candidate text w

  -- The part of `check` from the download on.
  unfoldable pub fetch_and_swap : BinarySpec → String → String → World → BinaryWatcher × World
  fetch_and_swap spec text desired w =
      let (r, w') = download P bw.syncer spec desired (candidate_of bw) w in downloaded text r w'

  abbrev not_in_flight : BinarySpec → String → String → Bool → World → BinaryWatcher × World
  not_in_flight spec text desired flying w =
      if flying then (bw, w) else fetch_and_swap spec text desired w

  -- The part of `check` for a digest that the runtime binary may or may not have.
  unfoldable pub reconcile_binary : BinarySpec → String → String → World → BinaryWatcher × World
  reconcile_binary spec text desired w =
      let (cur, w1) = file_sha256 P bw.runtime_path w in
      if is_digest cur desired
      then (record bw { last_spec = text }, set_binary_stale 0 w1)
      else (let (flying, w2) = upgrade_in_flight P (set_binary_stale 1 w1) in
          not_in_flight spec text desired flying w2)

  abbrev pub spec_parsed : String → Result BinarySpec → World → BinaryWatcher × World
  spec_parsed text (err e) w = (bw, w)
  spec_parsed text (ok spec) w =
      let desired = desired_digest spec bw.arch in
      if desired == ""
      then (record bw { last_spec = text }, w)
      else reconcile_binary spec text desired w

  abbrev pub spec_read : Result String → World → BinaryWatcher × World
  spec_read (err e) w = (bw, w)
  spec_read (ok text) w =
      if text == bw.last_spec
      then (bw, w)
      else spec_parsed text (parse_binary_spec P.parse_json text) w

  -- check: one poll.
  unfoldable pub check : World → BinaryWatcher × World
  check w = let (r, w') = read_file bw.spec_path w in spec_read r w'
