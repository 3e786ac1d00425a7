-- ===== src/Wrapper/FileWatcher/Contract.antt =====
-- What the config watcher promises, without files, calls and system errors (`check` of
-- filewatcher.go), and that its polls keep to it.
use cnpg_pg_doorman.Base.{
  ℕ, ◌+◌, String, ◌≡◌, ◌≢◌, inl, inr, refl, Bool, Bool-cases, false, Option, none, some, List, ◌∷◌,
  ◌==◌, arith, if◌then◌else◌, eq_iff, ap,
}
use cnpg_pg_doorman.Wrapper.World.{
  Result-cases, Result, ok, err, World, Signal, sigterm, sighup, called,
}
use cnpg_pg_doorman.Wrapper.Calls.{read_file}
use cnpg_pg_doorman.Wrapper.Platform.{Platform}
use cnpg_pg_doorman.Wrapper.Validator.{validate_config_bytes, DoormanConfig}
use cnpg_pg_doorman.Wrapper.Process.{pid_locked}
use cnpg_pg_doorman.Wrapper.FileWatcher.Defs.{
  FileWatcher, materialize, set_config_stale, reload_failed, change_read, signal_process, check,
}
use cnpg_pg_doorman.Wrapper.FileWatcher.Materialize.{
  IsAside, text_of, text_at, IsAccepted, outside-materialize, materialize_text, materialize_failed,
}
use cnpg_pg_doorman.Wrapper.FileWatcher.Check.{signal_process-file, signal_process_applied}
use cnpg_pg_doorman.Wrapper.FileWatcher.Stale.{signal_process_refused}

-- The config that the pooler would load, the text that it was last told of, the gauge and the
-- counters, and the signals that were sent, the latest first.
pub record Status : Type 0 where
  pub serving : Option String
  pub applied : String
  pub stale : ℕ
  pub successes : ℕ
  pub failures : ℕ
  pub sent : List (ℕ × Signal)

-- A text that was not applied: the gauge is up, and one failure is counted.
abbrev pub failing : Status → Status
failing s = record s { stale = 1; failures = s.failures + 1 }

-- `mount` is the text that the poll reads from the mount, if it can, and `IsGood` says which texts may be served.
pub data Step (mount : Option String) (IsGood : String → Type 0) (s t : Status) : Type 0 where
  unread : mount ≡ none → t ≡ s → Step mount IsGood s t
  unchanged : mount ≡ some s.applied → t ≡ s → Step mount IsGood s t
  -- Nothing is replaced and nobody is told.
  refused :
      (text : String) → mount ≡ some text → text ≢ s.applied → t ≡ failing s → Step mount IsGood s t
  -- The config is replaced, but the process could not be told.
  untold :
      (text : String)
      → mount ≡ some text
      → text ≢ s.applied
      → IsGood text
      → t ≡ record (failing s) { serving = some text }
      → Step mount IsGood s t
  -- The config is replaced and the process was told once, by a SIGHUP or a SIGTERM.
  applied :
      (text : String) (pid : ℕ) (sig : Signal)
      → mount ≡ some text
      → text ≢ s.applied
      → IsGood text
      → t ≡ record s {
        serving = some text;
        applied = text;
        stale = 0;
        successes = s.successes + 1;
        sent = (pid, sig) ∷ s.sent;
      }
      → Step mount IsGood s t

abbrev pub mount_of : Result String → Option String
mount_of (err e) = none
mount_of (ok text) = some text

abbrev pub view : String → String → World → Status
view runtime_path last_applied w = record {
  serving = text_at runtime_path w;
  applied = last_applied;
  stale = w.metrics.config_stale;
  successes = w.metrics.reloads_success;
  failures = w.metrics.reloads_failure;
  sent = w.sent;
}

module _ (P : Platform) (fw : FileWatcher) (b : String) where
  -- A text that passes both checks: the wrapper's, and the binary's own.
  abbrev pub IsGood : World → String → Type 0
  IsGood w text =
      ((config : DoormanConfig) × (validate_config_bytes P.parse_yaml text ≡ ok config))
      × IsAccepted P b text w

  module _ (tests : fw.test_config ≡ some b) (aside : IsAside fw b)
      (own : IsAside fw fw.runtime_path) (apart : (fw.runtime_path == b) ≡ false) where
    signal_process-Step :
        (text : String) (needs : Bool) (w v : World) {mount : Option String}
        {Good : String → Type 0}
        → mount ≡ some text
        → text ≢ fw.last_applied
        → Good text
        → text_at fw.runtime_path w ≡ some text
        → w.metrics ≡ record v.metrics { config_stale = 1 }
        → w.sent ≡ v.sent
        → let (fw', w') = signal_process P fw text needs w in
          Step mount Good
            (view fw.runtime_path fw.last_applied v)
            (view fw.runtime_path fw'.last_applied w')
    signal_process-Step text needs w v there changed good installed metrics sent =
        let fw' = (signal_process P fw text needs w).0 in
        let there' = ap text_of (signal_process-file P fw fw.runtime_path text needs w) in
        elim (Bool-cases (fw'.last_applied == fw.last_applied)) [
          | inl kept ↦
              (let last : fw'.last_applied ≡ fw.last_applied =
                  ground (arith, eq_iff fw'.last_applied fw.last_applied) in
                let (unsent, counted) = signal_process_refused P fw text needs w changed last in
                untold text there changed good
                  (ground (arith, last, unsent, counted, there', installed, metrics, sent)))
          | inr told ↦
              (let (last, counted, told') =
                  signal_process_applied P fw b tests aside own apart text needs w
                    (ground (arith, eq_iff fw'.last_applied fw.last_applied)) in
                applied text (pid_locked w.process) (if needs then sigterm else sighup) there
                  changed good
                  (ground (arith, last, counted, told', there', installed, metrics, sent)))
        ]

    -- The mounted text was read, and `v` is the world before the poll.
    change_read-Step :
        (text : String) (v : World)
        → let (fw', w') = change_read P fw (ok text) (called v) in
          Step
            (some text)
            (IsGood v)
            (view fw.runtime_path fw.last_applied v)
            (view fw.runtime_path fw'.last_applied w')
    unfolding set_config_stale reload_failed
    change_read-Step text v =
        let w = set_config_stale 1 (called v) in
        let w' = (materialize P fw text w).1 in
        let kept = (outside-materialize P fw text).at w in
        elim (Bool-cases (text == fw.last_applied)) [
          | inl same ↦ rw same (unchanged (ground (arith, eq_iff text fw.last_applied)) refl)
          | inr differs ↦
              (let changed : text ≢ fw.last_applied = ground (arith, eq_iff text fw.last_applied) in
                elim (Result-cases (validate_config_bytes P.parse_yaml text)) [
                  | inr (e, bad) ↦ rw (differs, bad) (refused text refl changed refl)
                  | inl (new, valid) ↦ elim (Result-cases (materialize P fw text w).0) [
                    | inr (e, failed) ↦
                        (let same_file = ap text_of (materialize_failed P fw text w own failed) in
                          rw (differs, valid, failed)
                            (refused text refl changed (ground (arith, kept, same_file))))
                    | inl (_, done) ↦
                        (let (tested, installed) =
                            materialize_text P fw b text w tests aside done in
                          rw (differs, valid, done)
                            (signal_process-Step text _ w' v refl changed ((new, valid), tested)
                              installed (ground (arith, kept)) (ground (arith, kept))))
                  ]
                ])
        ]

    pub check-refines :
        (w : World)
        → let (fw', w') = check P fw w in
          Step
            (mount_of (read_file fw.source_path w).0)
            (IsGood w)
            (view fw.runtime_path fw.last_applied w)
            (view fw.runtime_path fw'.last_applied w')
    unfolding check
    check-refines w =
        let called_once : (read_file fw.source_path w).1 ≡ called w = unfold read_file in refl in
        elim (Result-cases (read_file fw.source_path w).0) [
          | inr (e, failed) ↦ rw (failed, called_once) (unread refl refl)
          | inl (text, there) ↦ rw (there, called_once) (change_read-Step text w)
        ]
