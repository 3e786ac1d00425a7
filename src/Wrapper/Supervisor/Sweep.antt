-- ===== src/Wrapper/Supervisor/Sweep.antt =====
-- Which processes the sweep after a failed handover kills (killStrays of
-- internal/wrapper/successor_linux.go and sweepStrays of process.go).
use cnpg_pg_doorman.Base.{
  ℕ, String, ◌≡◌, ◌↔◌, ◌⊎◌, inl, inr, false, some, List, [], ◌∷◌, arith, ◌∙◌, Option-cases, ap,
}
use cnpg_pg_doorman.Wrapper.World.{World, Signal, sigkill, called}
use cnpg_pg_doorman.Wrapper.Calls.{kill}
use cnpg_pg_doorman.Wrapper.Successor.{Entry, IsPooler, candidate, candidate_iff, kill_strays}
use cnpg_pg_doorman.Wrapper.Supervisor.Defs.{sweep_strays}

-- The signal was sent to the pid.
abbrev pub WasSent : ℕ → Signal → List (ℕ × Signal) → Type 0
WasSent pid sig [] = ⊥
WasSent pid sig ((p, s) ∷ sent) = ((p ≡ pid) × (s ≡ sig)) ⊎ WasSent pid sig sent

module _ (trim_suffix : String → String → String) (self : ℕ) where
  abbrev pub HasPooler : ℕ → List Entry → String → ℕ → Type 0
  HasPooler pid [] binary exclude = ⊥
  HasPooler pid (e ∷ es) binary exclude =
      IsPooler trim_suffix binary self exclude e pid ⊎ HasPooler pid es binary exclude

  kill_strays_iff :
      (es : List Entry) (binary : String) (exclude pid : ℕ) (sig : Signal) (w : World)
      → ((n : ℕ) → w.fault n ≡ false)
      → WasSent pid sig (kill_strays trim_suffix es binary self exclude w).1.sent
        ↔ (((sig ≡ sigkill) × HasPooler pid es binary exclude) ⊎ WasSent pid sig w.sent)
  unfolding kill_strays kill
  kill_strays_iff [] binary exclude pid sig w up = ground arith
  kill_strays_iff (e ∷ es) binary exclude pid sig w up =
      let here = candidate_iff trim_suffix e binary self exclude in
      elim (Option-cases (candidate trim_suffix e binary self exclude e.pid)) [
        | inl off ↦
            (let next = kill_strays_iff es binary exclude pid sig w up in
              rw off (ground (arith, off, here pid, next)))
        | inr (p, on) ↦
            (let same : IsPooler trim_suffix binary self exclude e pid ↔ (p ≡ pid) =
                (λ q. ground (arith, on, (here pid).1 q), λ h. (here pid).0 (on ∙ ap some h)) in
              let w' = called (record w { sent = (p, sigkill) ∷ w.sent }) in
              let next = kill_strays_iff es binary exclude pid sig w' up in
              rw (on, up w.calls) (ground (arith, same, next)))
      ]

  -- If no call fails, a signal has been sent when the sweep after a failed handover is over exactly
  -- if it was sent before, or it is a SIGKILL to an entry of /proc that has readable arguments and
  -- none that asks for a check of a config, runs the binary by its link or one of its first two
  -- arguments, and whose pid is neither 0 nor the wrapper's.
  pub sweep_strays_iff :
      (procs : List Entry) (pid : ℕ) (sig : Signal) (w : World)
      → ((n : ℕ) → w.fault n ≡ false)
      → WasSent pid sig (sweep_strays trim_suffix self procs w).sent
        ↔ (((sig ≡ sigkill) × HasPooler pid procs w.process.binary 0) ⊎ WasSent pid sig w.sent)
  sweep_strays_iff procs pid sig w up = kill_strays_iff procs w.process.binary 0 pid sig w up
