-- ===== src/Wrapper/FileWatcher/Stale.antt =====
-- Failed polls of the rendered config, and the gauge that reports them (`check` of filewatcher.go).
use cnpg_pg_doorman.Base.{ℕ, ◌+◌, String, ◌≡◌, ◌≢◌, Bool, true, false, some, arith, eq_iff, eq_refl}
use cnpg_pg_doorman.Wrapper.World.{Error, ok, err, World, put_file, called}
use cnpg_pg_doorman.Wrapper.Calls.{read_file, kill}
use cnpg_pg_doorman.Wrapper.Platform.{Platform}
use cnpg_pg_doorman.Wrapper.Validator.{validate_config_bytes}
use cnpg_pg_doorman.Wrapper.Process.{restart, reload}
use cnpg_pg_doorman.Wrapper.FileWatcher.Defs.{
  FileWatcher, materialize, set_config_stale, reload_failed, reload_succeeded, change_read,
  signal_process, check,
}
use cnpg_pg_doorman.Wrapper.FileWatcher.Materialize.{text_at, outside-materialize}

module _ (P : Platform) (fw : FileWatcher) where
  -- What a poll that fails on a changed text has done between `w` and `w'`.
  pub record IsRefused (w w' : World) : Type 0 where
    pub unsent : w'.sent ≡ w.sent
    pub counted :
        w'.metrics
        ≡ record w.metrics { config_stale = 1; reloads_failure = w.metrics.reloads_failure + 1 }

  pub signal_process_refused :
      (text : String) (needs : Bool) (w : World)
      → text ≢ fw.last_applied
      → (signal_process P fw text needs w).0.last_applied ≡ fw.last_applied
      → let w' = (signal_process P fw text needs w).1 in
        (w'.sent ≡ w.sent)
        × (w'.metrics ≡ record w.metrics { reloads_failure = w.metrics.reloads_failure + 1 })
  unfolding signal_process restart reload kill reload_failed reload_succeeded
  signal_process_refused text needs w d h = ground arith

  change_read-IsRefused :
      (text : String) (w : World)
      → text ≢ fw.last_applied
      → (change_read P fw (ok text) w).0.last_applied ≡ fw.last_applied
      → IsRefused w (change_read P fw (ok text) w).1
  unfolding reload_failed set_config_stale
  change_read-IsRefused text w d h =
      let w' = set_config_stale 1 w in
      let kept = (outside-materialize P fw text).at w' in
      let replaced = (materialize P fw text w').1 in
      ground (
        arith,
        eq_iff text fw.last_applied,
        kept,
        signal_process_refused text true replaced,
        signal_process_refused text false replaced,
      )

  -- If the mount can be read, its text differs from the one last applied and the poll does not apply
  -- it, then no signal is sent, and the metrics change in that the stale gauge is 1 and one more
  -- failed reload is counted.
  pub check-IsRefused :
      (w : World) (text : String)
      → w.fault w.calls ≡ false
      → text_at fw.source_path w ≡ some text
      → text ≢ fw.last_applied
      → (check P fw w).0.last_applied ≡ fw.last_applied
      → IsRefused w (check P fw w).1
  unfolding check read_file
  check-IsRefused w text up there d h =
      let read : (read_file fw.source_path w).0 ≡ ok text = ground arith in
      let r = change_read-IsRefused text (called w) d (rw read at h) in
      rw read (record { unsent = r.unsent; counted = r.counted })

  -- The kubelet replaces the mounted file.
  abbrev pub mounted : String → World → World
  mounted text w = put_file fw.source_path (some (record { content = text; mode = 0o644 })) w

  -- If no call fails and an invalid text was polled, then after the mount goes back to the text last
  -- applied the next poll leaves the watcher as it was and the stale gauge at 1, although the
  -- mounted config is the applied one.
  pub stale_after_revert :
      (w : World) (bad : String) {e : Error}
      → ((n : ℕ) → w.fault n ≡ false)
      → bad ≢ fw.last_applied
      → validate_config_bytes P.parse_yaml bad ≡ err e
      → let (fw', w') = check P fw (mounted bad w) in
        let (fw'', w'') = check P fw' (mounted fw.last_applied w') in
        (fw'' ≡ fw)
        × (text_at fw.source_path w'' ≡ some fw''.last_applied)
        × (w''.metrics.config_stale ≡ 1)
  unfolding check read_file reload_failed set_config_stale
  stale_after_revert w bad up d h = ground (
    arith,
    eq_iff bad fw.last_applied,
    eq_refl fw.source_path,
    eq_refl fw.last_applied,
    up w.calls,
    up (w.calls + 1),
  )
