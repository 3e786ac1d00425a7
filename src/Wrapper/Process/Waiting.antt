-- ===== src/Wrapper/Process/Waiting.antt =====
-- The wait for the supervised process: waitCtx, waitPid and waitUntilGone of
-- internal/wrapper/process.go, with what the kernel answers in each round as an input.
use cnpg_pg_doorman.Base.{
  ℕ, zero, suc, ◌+◌, Bool, false, not, ◌||◌, Option, none, some, nat_eq, ltb, if◌then◌else◌, ℤ, pos,
  int_eq,
}
use cnpg_pg_doorman.Wrapper.World.{Result, ok, err, Error, os_error, message, wrap, World}
use cnpg_pg_doorman.Wrapper.Platform.{Platform}
use cnpg_pg_doorman.Wrapper.Process.Defs.{wait_delay}

abbrev pub adopted_liveness_interval : ℕ
adopted_liveness_interval = 200

abbrev pub err_adopted_not_child : Error
err_adopted_not_child = message "adopted pg_doorman is not our child"

-- syscall.WaitStatus, of which the exit status is -1 after a signal.
pub record WaitStatus : Type 0 where
  pub exit_status : ℤ
  pub signaled : Bool

-- What one call of Wait4 gives: EINTR, ECHILD, another error, or the status of the process.
pub data Waited : Type 0 where
  interrupted not_child failed : Waited
  ended : WaitStatus → Waited

-- One round of waitUntilGone: whether kill(pid, 0) gives ESRCH, whether the context is done, and
-- the two readings of the clock.
pub record Look : Type 0 where
  pub gone : Bool
  pub cancelled : Bool
  pub armed : ℕ
  pub tested : ℕ

unfoldable pub give_up_after : ℕ → Look → Option ℕ → Option ℕ
give_up_after drain look (some t) = some t
give_up_after drain look none = if look.cancelled then some (look.armed + drain) else none

abbrev pub is_past : Option ℕ → ℕ → Bool
is_past none now = false
is_past (some t) now = ltb t now

abbrev pub disappeared : Error
disappeared = wrap "adopted pg_doorman disappeared" err_adopted_not_child

abbrev pub still_alive : Error
still_alive = wrap "adopted pg_doorman still alive after the drain" (message "context canceled")

-- The loop of waitUntilGone from round `i` on, for at most `fuel` rounds.
unfoldable pub poll : ℕ → ℕ → (ℕ → Look) → Option ℕ → ℕ → Option Error
unfolding give_up_after
poll zero drain looks give_up i = none
poll (suc fuel) drain looks give_up i =
    let give_up' = give_up_after drain (looks i) give_up in
    let rest = poll fuel drain looks give_up' (i + 1) in
    if (looks i).gone
    then some disappeared
    else if is_past give_up' (looks i).tested
    then some still_alive
    else rest

unfoldable pub wait_until_gone : ℕ → ℕ → (ℕ → Look) → Option Error
unfolding poll
wait_until_gone fuel drain looks = poll fuel drain looks none 0

abbrev exit_error : WaitStatus → Result (Unit {0})
exit_error ws =
    if not (int_eq ws.exit_status (pos 0)) || ws.signaled
    then err (message "adopted pg_doorman exited")
    else ok tt

abbrev failing : Option Error → Option (Result (Unit {0}))
failing none = none
failing (some e) = some (err e)

abbrev waited : Waited → Option (Result (Unit {0})) → Option Error → Option (Result (Unit {0}))
waited interrupted again polled = again
waited not_child again polled = failing polled
waited failed again polled = some (err (wrap "wait4" os_error))
waited (ended ws) again polled = some (exit_error ws)

-- waitPid from its `i`-th call of Wait4 on, for at most `fuel` calls and `rounds` rounds of polling.
unfoldable pub wait_pid : ℕ → ℕ → ℕ → (ℕ → Waited) → (ℕ → Look) → ℕ → Option (Result (Unit {0}))
unfolding wait_until_gone
wait_pid zero rounds drain waits looks i = none
wait_pid (suc fuel) rounds drain waits looks i =
    let again = wait_pid fuel rounds drain waits looks (i + 1) in
    waited (waits i) again (wait_until_gone rounds drain looks)

-- The pid that was waited for is forgotten, unless another one was adopted meanwhile.
unfoldable pub forget_pid : ℕ → World → World
forget_pid pid w =
    if nat_eq w.process.adopted_pid pid
    then record w { process = record w.process { adopted_pid = 0 } }
    else w

abbrev forgetting : Option (Result (Unit {0})) → World → Option (Result (Unit {0}) × World)
forgetting none w = none
forgetting (some r) w = some (r, w)

abbrev child_waited :
    Option ℕ → Result (Unit {0}) → World → World → Option (Result (Unit {0}) × World)
child_waited none child w w' = some (err (message "process not started"), w)
child_waited (some _) child w w' = some (child, w')

-- `child` is what cmd.Wait gives, and `meanwhile` what others do while the wait blocks.
module _ (P : Platform) (fuel rounds : ℕ) (waits : ℕ → Waited) (looks : ℕ → Look)
    (child : Result (Unit {0})) (meanwhile : World → World) where
  unfoldable pub wait_ctx : World → Option (Result (Unit {0}) × World)
  unfolding wait_pid forget_pid
  wait_ctx w =
      let adopted = w.process.adopted_pid in
      let (drain, w') = wait_delay P w in
      if not (nat_eq adopted 0)
      then forgetting (wait_pid fuel rounds drain waits looks 0) (forget_pid adopted (meanwhile w'))
      else child_waited w.process.cmd_pid child w (meanwhile w)
