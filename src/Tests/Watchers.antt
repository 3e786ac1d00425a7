-- ===== src/Tests/Watchers.antt =====
-- The theorems on the config and role watchers at the pod of Tests/Pod.
use cnpg_pg_doorman.Wrapper.Process.{pid_locked}
use cnpg_pg_doorman.Wrapper.Restart.{needs_process_restart, int_ptr_equal}
use cnpg_pg_doorman.Wrapper.Validator.{
  validate_config, validate_general, validate_positive, validate_duration, validate_pools,
  validate_pool, validate_users, validate_user,
}
use cnpg_pg_doorman.Base.{String, ◌≡◌, ◌⊎◌, inl, refl, sym, ◌∙◌, some, [], ◌∷◌, nat_eq}
use cnpg_pg_doorman.Wrapper.World.{World, sigterm, ◌>>=◌}
use cnpg_pg_doorman.Wrapper.Calls.{read_file, open_trunc, write, touch, remove, rename, kill}
use cnpg_pg_doorman.Wrapper.AtomicWrite.{atomic_write}
use cnpg_pg_doorman.Wrapper.Validator.{validate_config_bytes}
use cnpg_pg_doorman.Wrapper.Process.{restart}
use cnpg_pg_doorman.Wrapper.FileWatcher.{
  materialize, check, signal_process, reload_succeeded, set_config_stale, prepare, run_test_config,
}
use cnpg_pg_doorman.Wrapper.FileWatcher.Materialize.{IsAside, text_at}
use cnpg_pg_doorman.Wrapper.FileWatcher.Check.{check-IsApplied, IsApplied}
use cnpg_pg_doorman.Wrapper.FileWatcher.Stale.{stale_after_revert, mounted}
use cnpg_pg_doorman.Wrapper.FileWatcher.Contract.{view}
use cnpg_pg_doorman.Wrapper.FileWatcher.Gauge.{IsHonest, here, polled, Polls-IsHonest}
use cnpg_pg_doorman.Wrapper.FileWatcher.Atomic.{IsAtomic, atomic_write-IsAtomic}
use cnpg_pg_doorman.Wrapper.FileWatcher.Progress.{HasKey, check-applies}
use cnpg_pg_doorman.Wrapper.RoleWatcher
use cnpg_pg_doorman.Wrapper.RoleWatcher.{check_demoted, check_not_demoted}
use cnpg_pg_doorman.Tests.Pod.{
  differ, platform, world, config_watcher, role_watcher, config_source, runtime_config,
  runtime_binary,
}

abbrev pub aside_binary : IsAside config_watcher runtime_binary
aside_binary = record { key = refl; key_tmp = refl; candidate = refl; candidate_tmp = refl }

abbrev pub aside_config : IsAside config_watcher runtime_config
aside_config = record { key = refl; key_tmp = refl; candidate = refl; candidate_tmp = refl }

polled_test : (check platform config_watcher world).0.last_applied ≡ "4 workers"
unfolding check materialize prepare run_test_config signal_process reload_succeeded set_config_stale
    read_file open_trunc write touch remove rename kill atomic_write validate_config_bytes restart
    ◌>>=◌ validate_config validate_general validate_positive validate_duration validate_pools
    validate_pool validate_users validate_user needs_process_restart int_ptr_equal pid_locked
polled_test = refl

check-IsApplied_example :
    IsApplied platform config_watcher runtime_binary refl aside_binary aside_config refl
      (check platform config_watcher world).0.last_applied
      world
      (check platform config_watcher world).1
check-IsApplied_example =
    check-IsApplied platform config_watcher runtime_binary refl aside_binary aside_config refl world
      (λ same. differ "4 workers" "2 workers" refl (sym polled_test ∙ same))

-- A kubelet that stopped in the middle: the mounted text is no config.
abbrev broken : World
broken = mounted platform config_watcher "workers: two" world

stale_after_revert_example :
    let (fw', w') =
      check platform config_watcher (mounted platform config_watcher "workers: two" world) in
    let (fw'', w'') = check platform fw' (mounted platform config_watcher "2 workers" w') in
    (fw'' ≡ config_watcher)
    × (text_at config_source w'' ≡ some fw''.last_applied)
    × (w''.metrics.config_stale ≡ 1)
unfolding validate_config_bytes
stale_after_revert_example =
    stale_after_revert platform config_watcher world "workers: two" (λ n. refl)
      (differ "workers: two" "2 workers" refl) refl

abbrev trimmed : String → String
trimmed text = text

check_demoted_example :
    let (next, w') = RoleWatcher.check trimmed role_watcher world in
    ((w'.sent ≡ (42, sigterm) ∷ []) × (next.last_role ≡ "replica"))
    ⊎ ((w'.sent ≡ []) × (next.last_role ≡ "primary"))
unfolding read_file pid_locked
check_demoted_example =
    check_demoted trimmed role_watcher world "replica" refl refl (differ "replica" "" refl)
      (differ "replica" "primary" refl)

Polls-IsHonest_example :
    let (fw', w') = check platform config_watcher world in
    IsHonest (view runtime_config fw'.last_applied w')
Polls-IsHonest_example =
    Polls-IsHonest platform config_watcher runtime_binary refl aside_binary aside_config refl
      (record { fresh = λ z. refl }) (polled here)

check-applies_example :
    let (fw', w') = check platform config_watcher world in
    (fw' ≡ record config_watcher { last_applied = "4 workers" })
    × IsApplied platform config_watcher runtime_binary refl aside_binary aside_config refl
        "4 workers" world w'
unfolding HasKey validate_config_bytes validate_config validate_general validate_positive
    validate_duration validate_pools validate_pool validate_users validate_user pid_locked
check-applies_example =
    check-applies platform config_watcher runtime_binary "4 workers" world
      (record {
        up = λ n. refl;
        key = inl refl;
        tests = refl;
        aside = aside_binary;
        accepted = refl;
      })
      aside_config refl (λ e. cc e) refl (differ "4 workers" "2 workers" refl) refl

-- The sync of the temporary file fails.
abbrev unsynced : World
unsynced = record world { fault = λ n. nat_eq n 2 }

atomic_write-IsAtomic_example :
    IsAtomic runtime_config "4 workers"
      (atomic_write runtime_config "4 workers" unsynced).0
      unsynced
      (atomic_write runtime_config "4 workers" unsynced).1
atomic_write-IsAtomic_example = atomic_write-IsAtomic runtime_config "4 workers" unsynced refl

unsynced_test :
    text_at runtime_config (atomic_write runtime_config "4 workers" unsynced).1 ≡ some "2 workers"
unfolding atomic_write open_trunc write touch remove rename ◌>>=◌
unsynced_test = refl
