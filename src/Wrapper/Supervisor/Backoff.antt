-- ===== src/Wrapper/Supervisor/Backoff.antt =====
-- The delay between starts.
use cnpg_pg_doorman.Base.{
  ℕ, zero, suc, ◌*◌, ◌^◌, ◌≤◌, ◌<◌, min, ◌≡◌, ◌∙◌, true, false, List, [], ◌∷◌, All, length, arith,
  String,
}
use native.Mathlib.Nat.{pow-suc, mul-le-mul_right}
use native.Mathlib.Decide.{dec_le}
use cnpg_pg_doorman.Wrapper.World.{World}
use cnpg_pg_doorman.Wrapper.Platform.{Platform}
use cnpg_pg_doorman.Wrapper.Successor.{Entry}
use cnpg_pg_doorman.Wrapper.Supervisor.Defs.{
  Supervisor, Phase, starting, supervising, stopped, waiting, Event, launch, exit, elapse, Scan,
  initial_backoff, max_backoff, backoff_reset_uptime, backoff_after_exit, crashed, handed_over,
  exited, step, run,
}

-- Quick exits in a row: the uptimes are all short.
abbrev pub after_quick_exits : List ℕ → ℕ → ℕ
after_quick_exits [] backoff = backoff
after_quick_exits (uptime ∷ uptimes) backoff =
    after_quick_exits uptimes (backoff_after_exit backoff uptime)

pub pow_pos : (n : ℕ) → 1 ≤ 2 ^ n
pow_pos zero = omega arith
pow_pos (suc n) = rw pow-suc (omega (arith, pow_pos n))

-- Doubling under the cap and then further up is the same as doubling all the way.
pub doubled_min :
    (b x : ℕ) → 1 ≤ x → min (min (b * 2) max_backoff * x) max_backoff ≡ min (b * 2 * x) max_backoff
doubled_min b x h = elim (dec_le (b * 2) max_backoff) [
  | yes small ↦ (let e : min (b * 2) max_backoff ≡ b * 2 = omega arith in rw e)
  | no large ↦
      (let e : min (b * 2) max_backoff ≡ max_backoff = omega arith in
        let big : max_backoff * x ≤ b * 2 * x = mul-le-mul_right x (omega arith) in
        rw e (omega (arith, big)))
]

after_quick_exits_from :
    (uptimes : List ℕ) (backoff : ℕ)
    → backoff ≤ max_backoff
    → All (λ uptime. uptime < backoff_reset_uptime) uptimes
    → after_quick_exits uptimes backoff ≡ min (backoff * 2 ^ length uptimes) max_backoff
unfolding backoff_after_exit
after_quick_exits_from [] backoff h quick = omega arith
after_quick_exits_from (uptime ∷ uptimes) backoff h (now, later) =
    let short : backoff_after_exit backoff uptime ≡ min (backoff * 2) max_backoff = ground arith in
    rw
      (
        short,
        after_quick_exits_from uptimes (min (backoff * 2) max_backoff) (omega arith) later,
        pow-suc,
      )
      (doubled_min backoff (2 ^ length uptimes) (pow_pos (length uptimes)) ∙ omega arith)

-- After exits that each come within 60 s of their start, the delay before the next start is 1 s
-- doubled once for each exit, and 30 s at most.
pub quick_exits_delay :
    (uptimes : List ℕ)
    → All (λ uptime. uptime < backoff_reset_uptime) uptimes
    → after_quick_exits uptimes initial_backoff
      ≡ min (initial_backoff * 2 ^ length uptimes) max_backoff
quick_exits_delay uptimes quick = after_quick_exits_from uptimes initial_backoff (omega arith) quick

abbrev InRange : ℕ → Type 0
InRange b = (initial_backoff ≤ b) × (b ≤ max_backoff)

abbrev WaitInRange : Phase → Type 0
WaitInRange (waiting delay next) = InRange delay × InRange next
WaitInRange starting = Unit
WaitInRange supervising = Unit
WaitInRange stopped = Unit

-- The backoff, and the delay of a wait under way, lie between 1 s and 30 s.
pub record IsPaced (s : Supervisor) : Type 0 where
  pub backoff : InRange s.backoff
  pub wait : WaitInRange s.phase

module _ (P : Platform) (trim_suffix : String → String → String) (self : ℕ) where
  exited-IsPaced :
      (s : Supervisor) (scans : List Scan) (procs : List Entry) (w : World)
      → IsPaced s
      → IsPaced (exited P trim_suffix self s scans procs w)
  unfolding exited crashed handed_over backoff_after_exit
  exited-IsPaced s scans procs w h = ground arith

  step-IsPaced :
      (p : Phase) (s : Supervisor) (e : Event)
      → WaitInRange p
      → IsPaced s
      → IsPaced (step P trim_suffix self s p e)
  unfolding step
  step-IsPaced starting s (launch pid at cancelled) k h = ground arith
  step-IsPaced starting s _ k h = h
  step-IsPaced supervising s (exit scans procs at true) k h = ground arith
  step-IsPaced supervising s (exit scans procs at false) k h = exited-IsPaced s scans procs _ h
  step-IsPaced supervising s _ k h = h
  step-IsPaced (waiting delay next) s (elapse at cancelled) k h = ground arith
  step-IsPaced (waiting delay next) s _ k h = h
  step-IsPaced stopped s (launch pid at cancelled) k h = h
  step-IsPaced stopped s _ k h = h

  -- If the backoff and the delay under way lie between 1 s and 30 s, they still do after any run of
  -- the supervisor.
  pub run-IsPaced :
      (es : List Event) (s : Supervisor) → IsPaced s → IsPaced (run P trim_suffix self es s)
  unfolding run
  run-IsPaced [] s h = h
  run-IsPaced (e ∷ es) s h = run-IsPaced es _ (step-IsPaced s.phase s e h.wait h)
