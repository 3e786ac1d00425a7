-- ===== src/Wrapper/Startup/Defs.antt =====
-- ApplyInitialConfig, and its place in `main`.
use cnpg_pg_doorman.Base.{String, Bool, true, false}
use cnpg_pg_doorman.Wrapper.World.{Error, wrap, join, Result, ok, err, World}
use cnpg_pg_doorman.Wrapper.Platform.{Platform}
use cnpg_pg_doorman.Wrapper.BinarySync.{
  BinarySyncer, revert_to_image, ensure_at_startup, set_binary_stale,
}
use cnpg_pg_doorman.Wrapper.FileWatcher.{FileWatcher, apply_initial}

module _ (P : Platform) (s : BinarySyncer) where
  abbrev pub applied_again :
      Result (Unit {0}) × FileWatcher × World → Result String × FileWatcher × World
  applied_again (ok _, fw, w) = (ok "", fw, w)
  applied_again (err e, fw, w) = (err e, fw, w)

  abbrev pub reverted :
      Error → Result Bool → FileWatcher → World → Result String × FileWatcher × World
  reverted e (err revert_err) fw w =
      (err (join e (wrap "reverting to the image binary" revert_err)), fw, w)
  reverted e (ok false) fw w = (err e, fw, w)
  reverted e (ok true) fw w = applied_again (apply_initial P fw (set_binary_stale 1 w))

  abbrev pub applied_once :
      String → Result (Unit {0}) × FileWatcher × World → Result String × FileWatcher × World
  applied_once seed (ok _, fw, w) = (ok seed, fw, w)
  applied_once seed (err e, fw, w) = let (r, w') = revert_to_image P s w in reverted e r fw w'

  -- ApplyInitialConfig: the result is the BinaryWatcher's seed.
  unfoldable pub apply_initial_config :
      FileWatcher → String → World → Result String × FileWatcher × World
  apply_initial_config fw seed w = applied_once seed (apply_initial P fw w)

  abbrev synced : FileWatcher → Result String × World → Result String × FileWatcher × World
  synced fw (err e, w) = (err e, fw, w)
  synced fw (ok seed, w) = apply_initial_config fw seed w

  -- `main` up to the start of pg_doorman: an error is os.Exit(1).
  unfoldable pub start_up : FileWatcher → World → Result String × FileWatcher × World
  start_up fw w = synced fw (ensure_at_startup P s w)
