-- ===== src/Wrapper/Startup/Serving.antt =====
-- What a start that succeeds has established, and the polls that follow it.
use cnpg_pg_doorman.Base.{String, ◌≡◌, ◌⊎◌, inl, inr, true, false, some, ◌==◌, arith, ap}
use cnpg_pg_doorman.Wrapper.World.{Result-cases, Error, ok, err, World}
use cnpg_pg_doorman.Wrapper.Calls.{read_file}
use cnpg_pg_doorman.Wrapper.Platform.{Platform}
use cnpg_pg_doorman.Wrapper.BinarySync.{
  BinarySyncer, ensure_at_startup, revert_to_image, set_binary_stale,
}
use cnpg_pg_doorman.Wrapper.FileWatcher.{FileWatcher, apply_initial, materialize}
use cnpg_pg_doorman.Wrapper.FileWatcher.Materialize.{
  text_of, text_at, IsCompatible, IsAside, Keeps-materialize, materialize_text,
}
use cnpg_pg_doorman.Wrapper.Startup.Defs.{apply_initial_config, start_up, applied_again}

-- The config at the runtime path is the one last applied, and the binary accepts it.
pub record IsServing (P : Platform) (b : String) (fw : FileWatcher) (w : World) : Type 0 where
  pub compatible : IsCompatible P b fw.runtime_path w
  pub installed : text_at fw.runtime_path w ≡ some fw.last_applied

module _ (P : Platform) (s : BinarySyncer) (b : String) (fw : FileWatcher)
    (tests : fw.test_config ≡ some b) (aside : IsAside fw b)
    (apart : (fw.runtime_path == b) ≡ false) where
  materialize-IsServing :
      (text : String) (w : World)
      → (materialize P fw text w).0 ≡ ok tt
      → IsServing P b (record fw { last_applied = text }) (materialize P fw text w).1
  materialize-IsServing text w done =
      let (good, there) = materialize_text P fw b text w tests aside done in
      let kept = ap text_of ((Keeps-materialize P fw text aside apart).at w) in
      record { compatible = rw (kept, there) good; installed = there }

  apply_initial-IsServing :
      (w : World)
      → (apply_initial P fw w).0 ≡ ok tt
      → IsServing P b (apply_initial P fw w).1 (apply_initial P fw w).2
  unfolding apply_initial
  apply_initial-IsServing w h = elim (Result-cases (read_file fw.source_path w).0) [
    | inr (e, failed) ↦ cc (rw failed at h)
    | inl (text, there) ↦
        (let w' = (read_file fw.source_path w).1 in
          elim (Result-cases (materialize P fw text w').0) [
            | inr (e, failed) ↦ cc (rw (there, failed) at h)
            | inl (_, done) ↦ rw (there, done) (materialize-IsServing text w' done)
          ])
  ]

  apply_initial_failed :
      (w : World) {e : Error} → (apply_initial P fw w).0 ≡ err e → (apply_initial P fw w).1 ≡ fw
  unfolding apply_initial
  apply_initial_failed w h = ground arith

  applied_again-IsServing :
      (w : World) {seed : String}
      → (applied_again P s (apply_initial P fw w)).0 ≡ ok seed
      → let out = applied_again P s (apply_initial P fw w) in
        IsServing P b out.1 out.2 × (seed ≡ "")
  applied_again-IsServing w h = elim (Result-cases (apply_initial P fw w).0) [
    | inr (e, failed) ↦ cc (rw failed at h)
    | inl (_, done) ↦ rw done (apply_initial-IsServing w done, cc (rw done at h))
  ]

  -- A start that goes on leaves a config that the installed binary accepts, and the seed is the
  -- one given or, after a fallback to the image binary, empty.
  pub apply_initial_config-IsServing :
      (given : String) (w : World) {seed : String}
      → (apply_initial_config P s fw given w).0 ≡ ok seed
      → let out = apply_initial_config P s fw given w in
        IsServing P b out.1 out.2 × ((seed ≡ given) ⊎ (seed ≡ ""))
  unfolding apply_initial_config
  apply_initial_config-IsServing given w h = elim (Result-cases (apply_initial P fw w).0) [
    | inl (_, done) ↦ rw done (apply_initial-IsServing w done, inl (cc (rw done at h)))
    | inr (e, failed) ↦
        (let w' = (apply_initial P fw w).2 in
          let same = apply_initial_failed w failed in
          elim (Result-cases (revert_to_image P s w').0) [
            | inr (e', stuck) ↦ cc (rw (failed, stuck) at h)
            | inl (false, same_binary) ↦ cc (rw (failed, same_binary) at h)
            | inl (true, back) ↦
                (let (serving, empty) =
                    applied_again-IsServing (set_binary_stale 1 (revert_to_image P s w').1)
                      (rw (failed, back, same) at h) in
                  rw (failed, back, same) (serving, inr empty))
          ])
  ]

  -- If the tester runs the binary at a path that is apart from the files a materialization writes,
  -- then whenever the start gets through the binary sync and the initial config, its fallback to the
  -- image binary included, the runtime config is the text recorded as applied and the installed
  -- binary accepts it.
  pub start_up-IsServing :
      (w : World) {seed : String}
      → (start_up P s fw w).0 ≡ ok seed
      → IsServing P b (start_up P s fw w).1 (start_up P s fw w).2
  unfolding start_up
  start_up-IsServing w h = elim (Result-cases (ensure_at_startup P s w).0) [
    | inr (e, failed) ↦ cc (rw failed at h)
    | inl (given, synced) ↦
        rw synced
          ((apply_initial_config-IsServing given (ensure_at_startup P s w).1 (rw synced at h)).0)
  ]
