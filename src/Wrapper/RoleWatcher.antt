-- ===== src/Wrapper/RoleWatcher.antt =====
-- The watcher over the instance role (internal/wrapper/rolewatcher.go).
use cnpg_pg_doorman.Base.{
  String, ◌==◌, not, ◌&&◌, ◌||◌, if◌then◌else◌, ◌≡◌, ◌≢◌, refl, arith, eq_iff, ◌∷◌, ◌⊎◌,
}
use cnpg_pg_doorman.Wrapper.World.{Result, ok, err, World, sigterm}
use cnpg_pg_doorman.Wrapper.Calls.{read_file, kill}
use cnpg_pg_doorman.Wrapper.Process.{restart, pid_locked}

pub record RoleWatcher : Type 0 where
  pub role_file : String
  pub last_role : String

-- NewRoleWatcher
unfoldable pub new_role_watcher : String → RoleWatcher
new_role_watcher role_file = record { role_file = role_file; last_role = "" }

outside_read :
    (p : String) (w : World)
    → let w' = (read_file p w).1 in (w'.sent ≡ w.sent) × (w'.process ≡ w.process)
unfolding read_file
outside_read p w = (refl, refl)

module _ (trim_space : String → String) where
  abbrev restarted : RoleWatcher → Result (Unit {0}) → RoleWatcher
  restarted rw' (ok _) = rw'
  restarted rw' (err e) = record rw' { last_role = "primary" }

  -- The poll's work on a role that is set and new.
  unfoldable pub role_changed : RoleWatcher → String → World → RoleWatcher × World
  role_changed rw' role w =
      let demoted = rw'.last_role == "primary" && not (role == "primary") in
      let next = record rw' { last_role = role } in
      if not demoted then (next, w) else (let (r, w') = restart w in (restarted next r, w'))

  abbrev role_read : RoleWatcher → Result String → World → RoleWatcher × World
  role_read rw' (err e) w = (rw', w)
  role_read rw' (ok text) w =
      let role = trim_space text in
      if role == "" || role == rw'.last_role then (rw', w) else role_changed rw' role w

  -- check: one poll. `trim_space` is strings.TrimSpace.
  unfoldable pub check : RoleWatcher → World → RoleWatcher × World
  check rw' w = let (r, w') = read_file rw'.role_file w in role_read rw' r w'

  -- If the role file can be read, the last role is primary and the new one is set and not primary,
  -- then the poll either sends SIGTERM to the process and remembers the new role, or sends nothing
  -- and stays with primary, so that the next poll tries again.
  pub check_demoted :
      (rw' : RoleWatcher) (w : World) (text : String)
      → (read_file rw'.role_file w).0 ≡ ok text
      → rw'.last_role ≡ "primary"
      → trim_space text ≢ ""
      → trim_space text ≢ "primary"
      → let (next, w') = check rw' w in
        ((w'.sent ≡ (pid_locked w.process, sigterm) ∷ w.sent) × (next.last_role ≡ trim_space text))
        ⊎ ((w'.sent ≡ w.sent) × (next.last_role ≡ "primary"))
  unfolding check role_changed restart kill
  check_demoted rw' w text there was set lost = ground (
    arith,
    eq_iff (trim_space text) "",
    eq_iff (trim_space text) "primary",
    eq_iff (trim_space text) rw'.last_role,
    eq_iff rw'.last_role "primary",
    outside_read rw'.role_file w,
  )

  -- If the role file can be read, a poll signals nobody when the last role is not primary, or the
  -- new one is empty or primary.
  pub check_not_demoted :
      (rw' : RoleWatcher) (w : World) (text : String)
      → (read_file rw'.role_file w).0 ≡ ok text
      → (rw'.last_role ≢ "primary") ⊎ (trim_space text ≡ "") ⊎ (trim_space text ≡ "primary")
      → (check rw' w).1.sent ≡ w.sent
  unfolding check role_changed
  check_not_demoted rw' w text there still = ground (
    arith,
    eq_iff (trim_space text) "",
    eq_iff (trim_space text) "primary",
    eq_iff (trim_space text) rw'.last_role,
    eq_iff rw'.last_role "primary",
    outside_read rw'.role_file w,
  )
