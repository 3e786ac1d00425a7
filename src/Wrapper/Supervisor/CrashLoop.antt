-- ===== src/Wrapper/Supervisor/CrashLoop.antt =====
-- A pooler that dies again and again (RunWithRestart of process.go).
use cnpg_pg_doorman.Base.{
  ℕ, ◌+◌, ◌*◌, ◌^◌, min, ◌≡◌, false, some, List, [], ◌∷◌, ltb, if◌then◌else◌, String,
}
use cnpg_pg_doorman.Wrapper.World.{World}
use cnpg_pg_doorman.Wrapper.Platform.{Platform}
use cnpg_pg_doorman.Wrapper.Successor.{Entry}
use cnpg_pg_doorman.Wrapper.Supervisor.Defs.{
  Supervisor, supervising, waiting, Event, launch, exit, elapse, Scan, step, run,
}

-- A process that dies `lived` after its start, and what comes up `pause` later in its place; the
-- scans are those that a search would make.
pub record Crash : Type 0 where
  pub lived : ℕ
  pub pause : ℕ
  pub pid : ℕ
  pub up_at : ℕ
  pub scans : List Scan
  pub procs : List Entry

-- The events of crashes with a new process after each, and of one more exit.
abbrev pub crashes : ℕ → List Crash → ℕ → List Event
crashes started [] lived = exit [] [] (started + lived) false ∷ []
crashes started (c ∷ cs) lived =
    exit c.scans c.procs (started + c.lived) false
    ∷ elapse (started + c.lived + c.pause) false
    ∷ launch (some c.pid) c.up_at false
    ∷ crashes (started + c.lived + c.pause) cs lived

-- The process is supervised and nobody asked for an upgrade.
pub record IsCalm (s : Supervisor) : Type 0 where
  pub phase : s.phase ≡ supervising
  pub no_request : s.world.process.upgrade_requested ≡ false

abbrev Counted : ℕ → World → World → Type 0
Counted n w w' = w'.metrics ≡ record w.metrics { process_restarts = w.metrics.process_restarts + n }

-- The delay after the last of `n` exits in a row, from the backoff before them and the time that
-- the last process lived.
abbrev pub delay_after : ℕ → ℕ → ℕ → ℕ
delay_after backoff n lived = if ltb lived 60000 then min (backoff * 2 ^ n) 30000 else 1000

-- From `s`, `n` exits have led to a wait of `d`: each counts as a restart, nothing else is counted.
pub record IsDelayed (d n : ℕ) (s t : Supervisor) : Type 0 where
  pub phase : t.phase ≡ waiting d d
  pub backoff : t.backoff ≡ d
  pub counted : Counted n s.world t.world

module _ (P : Platform) (trim_suffix : String → String → String) (self : ℕ) where
  -- A crash and the start after it.
  abbrev again : Supervisor → Crash → Supervisor
  again s c =
      run P trim_suffix self
        (elapse (s.started_at + c.lived + c.pause) false ∷ launch (some c.pid) c.up_at false ∷ [])
        (step P trim_suffix self s supervising
          (exit c.scans c.procs (s.started_at + c.lived) false))
