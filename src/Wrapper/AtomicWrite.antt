-- ===== src/Wrapper/AtomicWrite.antt =====
-- AtomicWrite of internal/wrapper/validator.go, and what a failure leaves.
use cnpg_pg_doorman.Base.{String, ◌<>◌}
use cnpg_pg_doorman.Wrapper.World.{Io, ◌>>◌, ignore, or_clean}
use cnpg_pg_doorman.Wrapper.Calls.{open_trunc, write, touch, remove, rename}

-- `_ = f.Close(); _ = os.Remove(tmp)`
abbrev close_and_remove : String → Io (Unit {0})
close_and_remove tmp = ignore touch >> ignore (remove tmp)

unfoldable pub atomic_write : String → String → Io (Unit {0})
atomic_write path text = do
  let tmp = path <> ".tmp"
  open_trunc tmp 0o600
  or_clean (write tmp text) (close_and_remove tmp)
  or_clean touch (close_and_remove tmp)
  or_clean touch (ignore (remove tmp))
  rename tmp path
