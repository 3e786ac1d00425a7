-- ===== src/Wrapper/FileWatcher/Check.antt =====
-- What one poll of the rendered config does (`check` of filewatcher.go).
use cnpg_pg_doorman.Base.{
  Bool-cases, ◌+◌, String, ◌≡◌, ◌≢◌, inl, inr, refl, ◌∙◌, Bool, true, false, some, ◌∷◌, ◌==◌, arith,
  if◌then◌else◌, eq_iff, ap,
}
use cnpg_pg_doorman.Wrapper.World.{Result-cases, sigterm, sighup, Result, ok, err, World, called}
use cnpg_pg_doorman.Wrapper.Calls.{read_file, kill}
use cnpg_pg_doorman.Wrapper.Frame.{file_at}
use cnpg_pg_doorman.Wrapper.Platform.{Platform}
use cnpg_pg_doorman.Wrapper.Validator.{validate_config_bytes, DoormanConfig}
use cnpg_pg_doorman.Wrapper.Process.{restart, reload, pid_locked}
use cnpg_pg_doorman.Wrapper.FileWatcher.Defs.{
  FileWatcher, materialize, set_config_stale, reload_failed, reload_succeeded, restart_for,
  change_read, signal_process, check,
}
use cnpg_pg_doorman.Wrapper.FileWatcher.Materialize.{
  read_file_text, IsAside, text_of, text_at, IsAccepted, IsCompatible, Keeps-materialize,
  outside-materialize, materialize_text, materialize_failed,
}

module _ (P : Platform) where
  pub signal_process-file :
      (fw : FileWatcher) (q text : String) (needs : Bool) (w : World)
      → file_at q (signal_process P fw text needs w).1 ≡ file_at q w
  unfolding signal_process restart reload kill reload_failed reload_succeeded
  signal_process-file fw q text true w = ground arith
  signal_process-file fw q text false w = ground arith

  module _ (fw : FileWatcher) (b : String) (tests : fw.test_config ≡ some b) (aside : IsAside fw b)
      (own : IsAside fw fw.runtime_path) (apart : (fw.runtime_path == b) ≡ false) where
    materialize-IsCompatible :
        (text : String) (w : World)
        → IsCompatible P b fw.runtime_path w
        → IsCompatible P b fw.runtime_path (materialize P fw text w).1
    materialize-IsCompatible text w h = elim (Result-cases (materialize P fw text w).0) [
      | inl (_, done) ↦
          (let (yes', there) = materialize_text P fw b text w tests aside done in
            rw (ap text_of kept, there) yes')
      | inr (e, failed) ↦
          rw (ap text_of kept, ap text_of (materialize_failed P fw text w own failed)) h
    ]
      where
        kept : file_at b (materialize P fw text w).1 ≡ file_at b w
        kept = (Keeps-materialize P fw text aside apart).at w

    change_read-IsCompatible :
        (r : Result String) (w : World)
        → IsCompatible P b fw.runtime_path w
        → IsCompatible P b fw.runtime_path (change_read P fw r w).1
    unfolding reload_failed set_config_stale
    change_read-IsCompatible (err e) w h = h
    change_read-IsCompatible (ok text) w h =
        let w' = set_config_stale 1 w in
        let replaced = (materialize P fw text w').1 in
        ground (
          arith,
          materialize-IsCompatible text w' h,
          signal_process-file fw b text true replaced,
          signal_process-file fw b text false replaced,
          signal_process-file fw fw.runtime_path text true replaced,
          signal_process-file fw fw.runtime_path text false replaced,
        )

    -- Whatever happens in a poll, the config at the runtime path stays one that the binary accepts.
    pub check-IsCompatible :
        (w : World)
        → IsCompatible P b fw.runtime_path w
        → IsCompatible P b fw.runtime_path (check P fw w).1
    unfolding check read_file
    check-IsCompatible w h = change_read-IsCompatible (read_file fw.source_path w).0 _ h

    pub signal_process_applied :
        (text : String) (needs : Bool) (w : World)
        → (signal_process P fw text needs w).0.last_applied ≢ fw.last_applied
        → let w' = (signal_process P fw text needs w).1 in
          ((signal_process P fw text needs w).0.last_applied ≡ text)
          × (w'.metrics ≡ record w.metrics {
            config_stale = 0;
            reloads_success = w.metrics.reloads_success + 1;
          })
          × (w'.sent ≡ (pid_locked w.process, (if needs then sigterm else sighup)) ∷ w.sent)
    unfolding signal_process restart reload kill reload_failed reload_succeeded
    signal_process_applied text needs w h = ground arith

    abbrev needs : DoormanConfig → Bool
    needs new = restart_for P (validate_config_bytes P.parse_yaml fw.last_applied) new

    -- A poll that changes `lastApplied` went all the way through.
    change_read_through :
        (text : String) (w : World)
        → (change_read P fw (ok text) w).0.last_applied ≢ fw.last_applied
        → (text ≢ fw.last_applied)
          × (new : DoormanConfig) × (validate_config_bytes P.parse_yaml text ≡ ok new)
          × ((materialize P fw text (set_config_stale 1 w)).0 ≡ ok tt)
          × (change_read P fw (ok text) w
              ≡ signal_process P fw text
                  (needs new)
                  (materialize P fw text (set_config_stale 1 w)).1)
    change_read_through text w h = elim (Bool-cases (text == fw.last_applied)) [
      | inl same ↦ absurd (h (rw same))
      | inr differs ↦ elim (Result-cases (validate_config_bytes P.parse_yaml text)) [
        | inr (e, bad) ↦ absurd (h (rw (differs, bad)))
        | inl (new, good) ↦ elim (Result-cases (materialize P fw text (set_config_stale 1 w)).0) [
          | inr (e, failed) ↦ absurd (h (rw (differs, good, failed)))
          | inl (_, done) ↦ (
            ground (arith, eq_iff text fw.last_applied),
            new,
            good,
            done,
            rw (differs, good, done),
          )
        ]
      ]
    ]

    -- What a poll that applies `text` has done between `w` and `w'`.
    pub record IsApplied (text : String) (w w' : World) : Type 0 where
      pub mounted : text_at fw.source_path w ≡ some text
      pub changed : text ≢ fw.last_applied
      pub config : DoormanConfig
      pub valid : validate_config_bytes P.parse_yaml text ≡ ok config
      pub tested : IsAccepted P b text w
      pub installed : text_at fw.runtime_path w' ≡ some text
      pub signal :
          w'.sent ≡ (pid_locked w.process, (if needs config then sigterm else sighup)) ∷ w.sent
      pub counted :
          w'.metrics
          ≡ record w.metrics { config_stale = 0; reloads_success = w.metrics.reloads_success + 1 }

    change_read-IsApplied :
        (text : String) (w : World)
        → text_at fw.source_path w ≡ some text
        → (change_read P fw (ok text) (called w)).0.last_applied ≢ fw.last_applied
        → IsApplied
            (change_read P fw (ok text) (called w)).0.last_applied
            w
            (change_read P fw (ok text) (called w)).1
    unfolding set_config_stale
    change_read-IsApplied text w there h =
        let w' = set_config_stale 1 (called w) in
        let (changed, new, valid, done, whole) = change_read_through text (called w) h in
        let replaced = (materialize P fw text w').1 in
        let (last, metrics, sent) =
          signal_process_applied text (needs new) replaced (rw (← whole) h) in
        let (tested, installed) = materialize_text P fw b text w' tests aside done in
        let kept = (outside-materialize P fw text).at w' in
        rw (whole, last)
          (record {
            mounted = there;
            changed = changed;
            config = new;
            valid = valid;
            tested = tested;
            installed =
                ap text_of (signal_process-file fw fw.runtime_path text (needs new) replaced)
                ∙ installed;
            signal = ground (arith, sent, kept);
            counted = ground (arith, metrics, kept);
          })

    -- For a watcher whose tester runs the binary at a path apart from the files it writes: a poll
    -- that changes `lastApplied` has read the new value from the mount, it differs from the old one,
    -- is valid and accepted by the binary, it is at the runtime path, the process got SIGTERM if the
    -- changed fields need a restart and SIGHUP if not and nothing else, and the metrics count one
    -- success and nothing stale.
    pub check-IsApplied :
        (w : World)
        → (check P fw w).0.last_applied ≢ fw.last_applied
        → IsApplied (check P fw w).0.last_applied w (check P fw w).1
    unfolding check
    check-IsApplied w h = elim (Result-cases (read_file fw.source_path w).0) [
      | inr (e, failed) ↦ absurd (h (rw failed))
      | inl (text, there) ↦
          (let called_once : (read_file fw.source_path w).1 ≡ called w = unfold read_file in refl in
            rw (there, called_once)
              (change_read-IsApplied text w (read_file_text fw.source_path w there)
                (rw (there, called_once) at h)))
    ]
