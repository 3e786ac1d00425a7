-- ===== src/Wrapper/Restart.antt =====
-- Which config changes SIGHUP cannot apply (internal/wrapper/restart.go).
use cnpg_pg_doorman.Base.{
  ◌≡◌, ◌↔◌, Bool, true, false, not, ◌||◌, Option, none, some, ◌==◌, eq_iff, ℤ, int_eq, int_eq_iff,
  arith,
}
use cnpg_pg_doorman.Wrapper.Validator.{DoormanConfig}

unfoldable pub int_ptr_equal : Option ℤ → Option ℤ → Bool
int_ptr_equal none none = true
int_ptr_equal none (some b) = false
int_ptr_equal (some a) none = false
int_ptr_equal (some a) (some b) = int_eq a b

unfoldable pub needs_process_restart : DoormanConfig → DoormanConfig → Bool
needs_process_restart old new =
    not (int_ptr_equal old.general.worker_threads new.general.worker_threads)
    || not (int_ptr_equal old.general.max_connections new.general.max_connections)
    || not (old.general.host == new.general.host)
    || not (int_eq old.general.port new.general.port)

int_ptr_equal_iff : (a b : Option ℤ) → (int_ptr_equal a b ≡ true) ↔ (a ≡ b)
unfolding int_ptr_equal
int_ptr_equal_iff none none = ground arith
int_ptr_equal_iff none (some b) = ground arith
int_ptr_equal_iff (some a) none = ground arith
int_ptr_equal_iff (some a) (some b) = ground (arith, int_eq_iff a b)

-- A config change needs no restart exactly if the worker threads, the connection limit, the host and
-- the port are all unchanged.
pub needs_process_restart_iff :
    (old new : DoormanConfig)
    → (needs_process_restart old new ≡ false) ↔ (
        (old.general.worker_threads ≡ new.general.worker_threads)
        × (old.general.max_connections ≡ new.general.max_connections)
        × (old.general.host ≡ new.general.host)
        × (old.general.port ≡ new.general.port))
unfolding needs_process_restart
needs_process_restart_iff old new = ground (
  arith,
  int_ptr_equal_iff old.general.worker_threads new.general.worker_threads,
  int_ptr_equal_iff old.general.max_connections new.general.max_connections,
  eq_iff old.general.host new.general.host,
  int_eq_iff old.general.port new.general.port,
)
