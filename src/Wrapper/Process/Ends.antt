-- ===== src/Wrapper/Process/Ends.antt =====
-- The waits of internal/wrapper/process.go end, and what their end says.
use cnpg_pg_doorman.Base.{
  ℕ, zero, suc, ◌+◌, ◌*◌, ◌≤◌, ◌<◌, ◌≡◌, ◌≢◌, refl, ap, ◌⊎◌, inl, inr, Bool, true, false, Option,
  none, some, Option-cases, Bool-cases, if◌then◌else◌, arith,
}
use Prim.Native.Nat.{◌/◌}
use cnpg_pg_doorman.Wrapper.World.{Result, Error, World, Signal}
use cnpg_pg_doorman.Wrapper.Platform.{Platform}
use cnpg_pg_doorman.Wrapper.Process.Defs.{wait_delay, kill_adopted}
use cnpg_pg_doorman.Wrapper.Process.Waiting.{
  Look, Waited, interrupted, adopted_liveness_interval, disappeared, still_alive, poll, is_past,
  wait_until_gone, give_up_after, wait_pid, forget_pid, wait_ctx,
}

-- time.Sleep pauses for the interval at least, and the clock does not go back.
pub record IsPaced (looks : ℕ → Look) : Type 0 where
  pub armed : (i : ℕ) → (looks i).armed ≤ (looks i).tested
  pub pause : (i : ℕ) → (looks i).tested + adopted_liveness_interval ≤ (looks (i + 1)).armed

-- The rounds that a drain takes, the first and the last included.
abbrev pub drain_rounds : ℕ → ℕ
drain_rounds drain = drain / adopted_liveness_interval + 2

abbrev pub Returned {ℓ} : {A : Type ℓ} → Option A → Type ℓ
Returned o = o ≢ none

module _ (looks : ℕ → Look) (paced : IsPaced looks) (drain : ℕ) where
  -- Once the time to give up is set, `n` rounds that sleep past it are enough.
  poll-armed :
      (n fuel t i : ℕ)
      → t < (looks i).tested + n * adopted_liveness_interval
      → n < fuel
      → Returned (poll fuel drain looks (some t) i)
  unfolding poll give_up_after
  poll-armed n zero t i h k = absurd (omega arith)
  poll-armed zero (suc fuel) t i h k = ground arith
  poll-armed (suc n) (suc fuel) t i h k =
      ground (arith, paced.armed (i + 1), paced.pause i, poll-armed n fuel t (i + 1))

  poll-returns :
      (k fuel i j : ℕ)
      → i + k ≡ j
      → ((looks j).gone ≡ true) ⊎ ((looks j).cancelled ≡ true)
      → k + drain_rounds drain ≤ fuel
      → Returned (poll fuel drain looks none i)
  unfolding poll give_up_after
  poll-returns k zero i j e end h = absurd (omega arith)
  poll-returns zero (suc fuel) i j e end h =
      let e' : i ≡ j = omega arith in
      let later =
        poll-armed (drain / adopted_liveness_interval) fuel ((looks i).armed + drain) (i + 1) in
      ground (arith, paced.armed i, paced.armed (i + 1), paced.pause i, ap looks e', later)
  poll-returns (suc k) (suc fuel) i j e end h =
      let later =
        poll-armed (drain / adopted_liveness_interval) fuel ((looks i).armed + drain) (i + 1) in
      ground (
        arith,
        paced.armed i,
        paced.armed (i + 1),
        paced.pause i,
        later,
        poll-returns k fuel (i + 1) j,
      )

  -- What an end of the poll says: the process was seen gone, or it was there more than the drain
  -- after a round that saw the context done.
  pub data IsEnd : Error → Type 0 where
    seen_gone : (i : ℕ) → (looks i).gone ≡ true → IsEnd disappeared
    drained :
        (i j : ℕ)
        → j ≤ i
        → (looks j).cancelled ≡ true
        → (looks j).armed + drain < (looks i).tested
        → (looks i).gone ≡ false
        → IsEnd still_alive

  -- The time to give up was set in round `i` or before.
  IsArmed : Option ℕ → ℕ → Type 0
  IsArmed none i = Unit
  IsArmed (some t) i =
      (j : ℕ) × (j ≤ i) × ((looks j).cancelled ≡ true) × ((looks j).armed + drain ≡ t)

  IsArmed-give_up_after :
      (give_up : Option ℕ) (i : ℕ)
      → IsArmed give_up i
      → IsArmed (give_up_after drain (looks i) give_up) i
  unfolding give_up_after IsArmed
  IsArmed-give_up_after (some t) i h = h
  IsArmed-give_up_after none i h = elim (Bool-cases (looks i).cancelled) [
    | inl done ↦ rw done (i, omega arith, done, refl)
    | inr alive ↦ rw alive tt
  ]

  IsArmed-next : (give_up : Option ℕ) (i : ℕ) → IsArmed give_up i → IsArmed give_up (i + 1)
  unfolding IsArmed
  IsArmed-next none i h = tt
  IsArmed-next (some t) i (j, before, done, same) = (j, omega arith, done, same)

  past-IsEnd :
      (give_up : Option ℕ) (i : ℕ)
      → IsArmed give_up i
      → (looks i).gone ≡ false
      → is_past give_up (looks i).tested ≡ true
      → IsEnd still_alive
  unfolding IsArmed
  past-IsEnd none i h there past = cc
  past-IsEnd (some t) i (j, before, done, same) there past =
      drained i j before done (ground arith) there

  round-IsEnd :
      (gone past : Bool) (rest : Option Error) {e : Error}
      → (gone ≡ true → IsEnd disappeared)
      → (gone ≡ false → past ≡ true → IsEnd still_alive)
      → (rest ≡ some e → IsEnd e)
      → (if gone then some disappeared else if past then some still_alive else rest) ≡ some e
      → IsEnd e
  round-IsEnd true past rest {e} h k m r = let same : disappeared ≡ e = cc in rw (← same) (h refl)
  round-IsEnd false true rest {e} h k m r =
      let same : still_alive ≡ e = cc in rw (← same) (k refl refl)
  round-IsEnd false false rest h k m r = m r

  poll-IsEnd :
      (fuel : ℕ) (give_up : Option ℕ) (i : ℕ) {e : Error}
      → IsArmed give_up i
      → poll fuel drain looks give_up i ≡ some e
      → IsEnd e
  unfolding poll
  poll-IsEnd zero give_up i h r = cc
  poll-IsEnd (suc fuel) give_up i h r =
      let t = give_up_after drain (looks i) give_up in
      let armed = IsArmed-give_up_after give_up i h in
      round-IsEnd (looks i).gone (is_past t (looks i).tested) _ (seen_gone i) (past-IsEnd t i armed)
        (poll-IsEnd fuel t (i + 1) (IsArmed-next t i armed)) r

  -- If the process is seen gone or the context done in some round, then the poll ends within the
  -- rounds of one drain after it, and its error says which of the two it was.
  pub wait_until_gone-ends :
      (k fuel : ℕ)
      → ((looks k).gone ≡ true) ⊎ ((looks k).cancelled ≡ true)
      → k + drain_rounds drain ≤ fuel
      → (e : Error) × (wait_until_gone fuel drain looks ≡ some e) × IsEnd e
  unfolding wait_until_gone IsArmed
  wait_until_gone-ends k fuel end enough = elim (Option-cases (poll fuel drain looks none 0)) [
    | inl out ↦ absurd (poll-returns k fuel 0 k (omega arith) end enough out)
    | inr (e, ends) ↦ (e, ends, poll-IsEnd fuel none 0 tt ends)
  ]

module _ (waits : ℕ → Waited) (looks : ℕ → Look) (rounds drain : ℕ) where
  -- One Wait4 that is not interrupted is enough, where a poll that it may start ends.
  wait_pid-returns :
      (k fuel i j : ℕ)
      → i + k ≡ j
      → waits j ≢ interrupted
      → Returned (wait_until_gone rounds drain looks)
      → k < fuel
      → Returned (wait_pid fuel rounds drain waits looks i)
  unfolding wait_pid
  wait_pid-returns k zero i j e once polled h = absurd (omega arith)
  wait_pid-returns zero (suc fuel) i j e once polled h =
      let e' : i ≡ j = omega arith in ground (arith, ap waits e')
  wait_pid-returns (suc k) (suc fuel) i j e once polled h =
      ground (arith, wait_pid-returns k fuel (i + 1) j)

-- A pid that was forgotten gets no late signal.
forget_pid-unsignalled :
    (pid : ℕ) (sig : Signal) (w : World)
    → pid ≢ 0
    → kill_adopted pid sig (forget_pid pid w) ≡ forget_pid pid w
unfolding kill_adopted forget_pid
forget_pid-unsignalled pid sig w h = ground arith

module _ (P : Platform) (fuel rounds : ℕ) (waits : ℕ → Waited) (looks : ℕ → Look)
    (child : Result (Unit {0})) (meanwhile : World → World) where
  wait_ctx-adopted :
      (w : World) {r : Result (Unit {0})}
      → w.process.adopted_pid ≢ 0
      → wait_pid fuel rounds (wait_delay P w).0 waits looks 0 ≡ some r
      → wait_ctx P fuel rounds waits looks child meanwhile w
        ≡ some (r, forget_pid w.process.adopted_pid (meanwhile (wait_delay P w).1))
  unfolding wait_ctx
  wait_ctx-adopted w h e = ground arith

  -- Where a process was adopted, Wait4 is not interrupted for ever, the clock goes on by the pause
  -- between two rounds at least, and the process is seen gone or the context done in some round of
  -- the polling, waitCtx returns, with fuel for one Wait4 more and for the rounds of one drain more.
  -- From then on no late signal goes to the pid, whatever was done during the wait.
  pub wait_ctx-returns :
      (w : World) (k j : ℕ)
      → IsPaced looks
      → w.process.adopted_pid ≢ 0
      → waits k ≢ interrupted
      → k < fuel
      → ((looks j).gone ≡ true) ⊎ ((looks j).cancelled ≡ true)
      → j + drain_rounds (wait_delay P w).0 ≤ rounds
      → (r : Result (Unit {0})) × (w' : World) × (wait_ctx P fuel rounds waits looks child meanwhile
            w
          ≡ some (r, w'))
        × ((sig : Signal) → kill_adopted w.process.adopted_pid sig w' ≡ w')
  wait_ctx-returns w k j paced adopted once call end enough =
      let drain = (wait_delay P w).0 in
      let (e, ends, _) = wait_until_gone-ends looks paced drain j rounds end enough in
      let polled : Returned (wait_until_gone rounds drain looks) = λ out. cc in
      elim (Option-cases (wait_pid fuel rounds drain waits looks 0)) [
        | inl out ↦ absurd (
            wait_pid-returns waits looks rounds drain k fuel 0 k (omega arith) once polled call out)
        | inr (r, returned) ↦ (
          r,
          forget_pid w.process.adopted_pid (meanwhile (wait_delay P w).1),
          wait_ctx-adopted w adopted returned,
          λ sig.
              forget_pid-unsignalled w.process.adopted_pid sig (meanwhile (wait_delay P w).1)
                adopted,
        )
      ]
