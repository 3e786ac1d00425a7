-- ===== src/Wrapper/BinaryWatcher/Swap.antt =====
-- When a poll of the binary spec replaces the runtime binary (`check` of binarywatcher.go).
use cnpg_pg_doorman.Base.{
  Bool-cases, String, ◌≡◌, ◌≢◌, inl, inr, refl, ◌∙◌, true, some, ◌==◌, arith, eq_refl, ap,
}
use cnpg_pg_doorman.Wrapper.World.{Result-cases, ok, World, Io, ignore, called, ◌>>=◌}
use cnpg_pg_doorman.Wrapper.Calls.{read_file, remove, rename}
use cnpg_pg_doorman.Wrapper.Frame.{file_at}
use cnpg_pg_doorman.Wrapper.Platform.{Platform}
use cnpg_pg_doorman.Wrapper.BinarySpec.{BinarySpec, parse_binary_spec}
use cnpg_pg_doorman.Wrapper.Process.{upgrade_in_flight}
use cnpg_pg_doorman.Wrapper.FileWatcher.{run_test_config}
use cnpg_pg_doorman.Wrapper.FileWatcher.Materialize.{read_file_text, text_of, text_at, agrees}
use cnpg_pg_doorman.Wrapper.BinarySync.{desired_digest, file_sha256, download, set_binary_stale}
use cnpg_pg_doorman.Wrapper.BinarySync.Download.{IsVerified, Keeps-download, download-IsVerified}
use cnpg_pg_doorman.Wrapper.BinaryWatcher.Defs.{
  BinaryWatcher, candidate_of, swap_binary, test_candidate, fetch_and_swap, reconcile_binary,
  spec_parsed, spec_read, check,
}
use cnpg_pg_doorman.Wrapper.BinaryWatcher.Upgrade.{IsLaidOut, upgrade-file, upgrade_in_flight-file}

module _ (P : Platform) (bw : BinaryWatcher) (laid : IsLaidOut P bw) where
  abbrev IsReplaced : World → World → Type 0
  IsReplaced w w' = text_at bw.runtime_path w' ≢ text_at bw.runtime_path w

  test_candidate_replaced :
      (text : String) (w : World)
      → IsReplaced w (test_candidate P bw text w).1
      → (agrees P (text_at (candidate_of bw) w) (text_at bw.config_path w) ≡ true)
        × (text_at bw.runtime_path (test_candidate P bw text w).1 ≡ text_at (candidate_of bw) w)
  unfolding test_candidate swap_binary run_test_config remove ignore rename set_binary_stale
  test_candidate_replaced text w h =
      let w2 = (rename (candidate_of bw) bw.runtime_path (called w)).1 in
      ground
        (arith, laid.candidate_runtime, eq_refl bw.runtime_path, upgrade-file P bw.runtime_path w2)

  -- What a poll that replaces the binary has established.
  pub record IsSwapped (w w' : World) : Type 0 where
    pub text : String
    pub spec : BinarySpec
    pub mounted : text_at bw.spec_path w ≡ some text
    pub parsed : parse_binary_spec P.parse_json text ≡ ok spec
    pub verified : IsVerified P (desired_digest spec bw.arch) (text_at bw.runtime_path w')
    pub accepted : agrees P (text_at bw.runtime_path w') (text_at bw.config_path w) ≡ true

  fetch_and_swap_replaced :
      (spec : BinarySpec) (text desired : String) (w : World)
      → IsReplaced w (fetch_and_swap P bw spec text desired w).1
      → let w' = (fetch_and_swap P bw spec text desired w).1 in
        IsVerified P desired (text_at bw.runtime_path w')
        × (agrees P (text_at bw.runtime_path w') (text_at bw.config_path w) ≡ true)
  unfolding fetch_and_swap
  fetch_and_swap_replaced spec text desired w h = elim (Result-cases (get w).0) [
    | inr (e, failed) ↦ absurd (h (rw failed (ap text_of kept_binary)))
    | inl (_, done) ↦
        (let w1 = (get w).1 in
          let changed : IsReplaced w1 (test_candidate P bw text w1).1 =
            λ e. (rw done at h) (e ∙ ap text_of kept_binary) in
          let (good, same) = test_candidate_replaced text w1 changed in
          rw (done, same)
            (
              download-IsVerified P bw.syncer spec desired (candidate_of bw) w laid.fresh_candidate
                  done,
              rw (ap text_of kept_config) at good,
            ))
  ]
    where
      get : Io (Unit {0})
      get = download P bw.syncer spec desired (candidate_of bw)

      kept_binary : file_at bw.runtime_path (get w).1 ≡ file_at bw.runtime_path w
      kept_binary =
          (Keeps-download P bw.runtime_path laid.fresh_runtime bw.syncer spec desired
              (candidate_of bw) laid.candidate_runtime).at
            w

      kept_config : file_at bw.config_path (get w).1 ≡ file_at bw.config_path w
      kept_config =
          (Keeps-download P bw.config_path laid.fresh_config bw.syncer spec desired
              (candidate_of bw) laid.candidate_config).at
            w

  reconcile_binary_replaced :
      (spec : BinarySpec) (text desired : String) (w : World)
      → IsReplaced w (reconcile_binary P bw spec text desired w).1
      → let w' = (reconcile_binary P bw spec text desired w).1 in
        IsVerified P desired (text_at bw.runtime_path w')
        × (agrees P (text_at bw.runtime_path w') (text_at bw.config_path w) ≡ true)
  unfolding reconcile_binary file_sha256 read_file set_binary_stale ◌>>=◌
  reconcile_binary_replaced spec text desired w h =
      let w1 = set_binary_stale 1 (file_sha256 P bw.runtime_path w).1 in
      let w2 = (upgrade_in_flight P w1).1 in
      ground (
        arith,
        upgrade_in_flight-file P bw.runtime_path w1,
        upgrade_in_flight-file P bw.config_path w1,
        fetch_and_swap_replaced spec text desired w2,
      )

  spec_parsed_replaced :
      (text : String) (spec : BinarySpec) (w : World)
      → IsReplaced w (spec_parsed P bw text (ok spec) w).1
      → let w' = (spec_parsed P bw text (ok spec) w).1 in
        IsVerified P (desired_digest spec bw.arch) (text_at bw.runtime_path w')
        × (agrees P (text_at bw.runtime_path w') (text_at bw.config_path w) ≡ true)
  spec_parsed_replaced text spec w h =
      let desired = desired_digest spec bw.arch in
      elim (Bool-cases (desired == "")) [
        | inl missing ↦ absurd (h (rw missing))
        | inr known ↦ rw known (reconcile_binary_replaced spec text desired w (rw known at h))
      ]

  spec_read_replaced :
      (text : String) (w : World)
      → text_at bw.spec_path w ≡ some text
      → IsReplaced w (spec_read P bw (ok text) (called w)).1
      → IsSwapped w (spec_read P bw (ok text) (called w)).1
  spec_read_replaced text w there h = elim (Bool-cases (text == bw.last_spec)) [
    | inl same ↦ absurd (h (rw same))
    | inr differs ↦ elim (Result-cases (parse_binary_spec P.parse_json text)) [
      | inr (e, bad) ↦ absurd (h (rw (differs, bad)))
      | inl (spec, good) ↦
          (let (verified, accepted) =
              spec_parsed_replaced text spec (called w) (rw (differs, good) at h) in
            rw (differs, good)
              (record {
                text = text;
                spec = spec;
                mounted = there;
                parsed = good;
                verified = verified;
                accepted = accepted;
              }))
    ]
  ]

  -- For paths apart from one another and from temporary names: if a poll changes the text of the
  -- runtime binary, then the mounted spec parses, the new binary has the digest that the spec gives
  -- for this architecture and is within the size cap, and it accepts the config that was live before
  -- the poll.
  pub check_replaced :
      (w : World)
      → text_at bw.runtime_path (check P bw w).1 ≢ text_at bw.runtime_path w
      → IsSwapped w (check P bw w).1
  unfolding check
  check_replaced w h = elim (Result-cases (read_file bw.spec_path w).0) [
    | inr (e, failed) ↦ absurd (h (rw failed (unfold read_file in refl)))
    | inl (text, there) ↦
        (let called_once : (read_file bw.spec_path w).1 ≡ called w = unfold read_file in refl in
          rw (there, called_once)
            (spec_read_replaced text w (read_file_text bw.spec_path w there)
              (rw (there, called_once) at h)))
  ]
