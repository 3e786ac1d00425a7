-- ===== src/Wrapper/BinaryWatcher/Upgrade.antt =====
-- What one poll of the binary spec does (`check` of binarywatcher.go).
use cnpg_pg_doorman.Base.{Bool-cases, String, ◌≡◌, inl, inr, true, false, ◌==◌, arith, eq_refl}
use cnpg_pg_doorman.Wrapper.World.{Result, ok, err, World, ignore, called, ◌>>=◌}
use cnpg_pg_doorman.Wrapper.Calls.{read_file, remove, rename, kill}
use cnpg_pg_doorman.Wrapper.Frame.{file_at}
use cnpg_pg_doorman.Wrapper.Platform.{Platform}
use cnpg_pg_doorman.Wrapper.BinarySpec.{BinarySpec, parse_binary_spec}
use cnpg_pg_doorman.Wrapper.Process.{upgrade, upgrade_in_flight}
use cnpg_pg_doorman.Wrapper.FileWatcher.{run_test_config}
use cnpg_pg_doorman.Wrapper.FileWatcher.Materialize.{text_at, agrees, IsCompatible}
use cnpg_pg_doorman.Wrapper.BinarySync.{desired_digest, file_sha256, download, set_binary_stale}
use cnpg_pg_doorman.Wrapper.BinarySync.Download.{IsFresh, Keeps-download}
use cnpg_pg_doorman.Wrapper.BinaryWatcher.Defs.{
  BinaryWatcher, candidate_of, swap_binary, test_candidate, fetch_and_swap, reconcile_binary,
  spec_parsed, spec_read, check,
}

-- The paths of the watcher differ from one another and from temporary names.
pub record IsLaidOut (P : Platform) (bw : BinaryWatcher) : Type 0 where
  pub runtime_config : (bw.runtime_path == bw.config_path) ≡ false
  pub candidate_runtime : (candidate_of bw == bw.runtime_path) ≡ false
  pub candidate_config : (candidate_of bw == bw.config_path) ≡ false
  pub fresh_runtime : IsFresh P bw.runtime_path
  pub fresh_config : IsFresh P bw.config_path
  pub fresh_candidate : IsFresh P (candidate_of bw)

module _ (P : Platform) where
  pub upgrade-file : (q : String) (w : World) → file_at q (upgrade w).1 ≡ file_at q w
  unfolding upgrade kill
  upgrade-file q w = ground arith

  pub upgrade_in_flight-file :
      (q : String) (w : World) → file_at q (upgrade_in_flight P w).1 ≡ file_at q w
  unfolding upgrade_in_flight read_file
  upgrade_in_flight-file q w = ground arith

module _ (P : Platform) (bw : BinaryWatcher) (laid : IsLaidOut P bw) where
  rename-IsCompatible :
      (w : World)
      → agrees P (text_at (candidate_of bw) w) (text_at bw.config_path w) ≡ true
      → IsCompatible P bw.runtime_path bw.config_path w
      → IsCompatible P bw.runtime_path bw.config_path (rename (candidate_of bw) bw.runtime_path w).1
  unfolding rename
  rename-IsCompatible w good h = ground (
    arith,
    laid.runtime_config,
    laid.candidate_config,
    eq_refl bw.runtime_path,
    laid.candidate_runtime,
  )

  swap_binary-IsCompatible :
      (text : String) (w : World)
      → agrees P (text_at (candidate_of bw) w) (text_at bw.config_path w) ≡ true
      → IsCompatible P bw.runtime_path bw.config_path w
      → IsCompatible P bw.runtime_path bw.config_path (swap_binary P bw text w).1
  unfolding swap_binary set_binary_stale
  swap_binary-IsCompatible text w good h =
      let w2 = (rename (candidate_of bw) bw.runtime_path w).1 in
      ground (
        arith,
        rename-IsCompatible w good h,
        upgrade-file P bw.runtime_path w2,
        upgrade-file P bw.config_path w2,
      )

  -- The swap is made only after the candidate has accepted the live config.
  test_candidate-IsCompatible :
      (text : String) (w : World)
      → IsCompatible P bw.runtime_path bw.config_path w
      → IsCompatible P bw.runtime_path bw.config_path (test_candidate P bw text w).1
  unfolding test_candidate run_test_config remove ignore
  test_candidate-IsCompatible text w h = ground (
    arith,
    laid.candidate_runtime,
    laid.candidate_config,
    swap_binary-IsCompatible text (called w),
  )

  fetch_and_swap-IsCompatible :
      (spec : BinarySpec) (text desired : String) (w : World)
      → IsCompatible P bw.runtime_path bw.config_path w
      → IsCompatible P bw.runtime_path bw.config_path (fetch_and_swap P bw spec text desired w).1
  unfolding fetch_and_swap
  fetch_and_swap-IsCompatible spec text desired w h =
      let get = download P bw.syncer spec desired (candidate_of bw) in
      let kept_binary =
        (Keeps-download P bw.runtime_path laid.fresh_runtime bw.syncer spec desired
            (candidate_of bw) laid.candidate_runtime).at
          w in
      let kept_config =
        (Keeps-download P bw.config_path laid.fresh_config bw.syncer spec desired (candidate_of bw)
            laid.candidate_config).at
          w in
      ground (arith, kept_binary, kept_config, test_candidate-IsCompatible text (get w).1)

  reconcile_binary-IsCompatible :
      (spec : BinarySpec) (text desired : String) (w : World)
      → IsCompatible P bw.runtime_path bw.config_path w
      → IsCompatible P bw.runtime_path bw.config_path (reconcile_binary P bw spec text desired w).1
  unfolding reconcile_binary file_sha256 read_file set_binary_stale ◌>>=◌
  reconcile_binary-IsCompatible spec text desired w h =
      let w1 = set_binary_stale 1 (file_sha256 P bw.runtime_path w).1 in
      let w2 = (upgrade_in_flight P w1).1 in
      ground (
        arith,
        upgrade_in_flight-file P bw.runtime_path w1,
        upgrade_in_flight-file P bw.config_path w1,
        fetch_and_swap-IsCompatible spec text desired w2,
      )

  spec_read-IsCompatible :
      (r : Result String) (w : World)
      → IsCompatible P bw.runtime_path bw.config_path w
      → IsCompatible P bw.runtime_path bw.config_path (spec_read P bw r w).1
  spec_read-IsCompatible (err e) w h = h
  spec_read-IsCompatible (ok text) w h = elim (Bool-cases (text == bw.last_spec)) [
    | inl same ↦ rw same h
    | inr differs ↦ rw differs (parsed (parse_binary_spec P.parse_json text))
  ]
    where
      parsed :
          (r : Result BinarySpec)
          → IsCompatible P bw.runtime_path bw.config_path (spec_parsed P bw text r w).1
      parsed (err e) = h
      parsed (ok spec) =
          ground (arith, reconcile_binary-IsCompatible spec text (desired_digest spec bw.arch) w)

  -- Whatever happens in a poll, the binary at the runtime path stays one that accepts the config.
  pub check-IsCompatible :
      (w : World)
      → IsCompatible P bw.runtime_path bw.config_path w
      → IsCompatible P bw.runtime_path bw.config_path (check P bw w).1
  unfolding check read_file
  check-IsCompatible w h = spec_read-IsCompatible (read_file bw.spec_path w).0 _ h
