-- ===== src/Wrapper/Supervisor/Waits.antt =====
-- The supervisor's machine takes a wait as one event; here is that waitCtx does what it assumes.
use cnpg_pg_doorman.Base.{ℕ, ◌≡◌, some, arith}
use cnpg_pg_doorman.Wrapper.World.{Result, World}
use cnpg_pg_doorman.Wrapper.Calls.{read_file}
use cnpg_pg_doorman.Wrapper.Platform.{Platform}
use cnpg_pg_doorman.Wrapper.Process.{wait_delay}
use cnpg_pg_doorman.Wrapper.Process.Waiting.{Waited, Look, wait_ctx, forget_pid}
use cnpg_pg_doorman.Wrapper.Supervisor.Defs.{reaped, forget_adopted}

module _ (P : Platform) where
  wait_delay-process : (w : World) → (wait_delay P w).1.process ≡ w.process
  unfolding wait_delay read_file
  wait_delay-process w = ground arith

module _ (P : Platform) (fuel rounds : ℕ) (waits : ℕ → Waited) (looks : ℕ → Look)
    (child : Result (Unit {0})) where
  -- Where nothing else runs during the wait, a waitCtx that returns leaves the world that the
  -- supervisor's machine goes on with, whatever the process was, started or adopted or none.
  wait_ctx-reaped :
      (w : World) {r : Result (Unit {0})} {w' : World}
      → wait_ctx P fuel rounds waits looks child (λ v. v) w ≡ some (r, w')
      → w' ≡ reaped P w
  unfolding wait_ctx reaped forget_adopted forget_pid
  wait_ctx-reaped w h = ground (arith, wait_delay-process P w)
