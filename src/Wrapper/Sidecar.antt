-- ===== src/Wrapper/Sidecar.antt =====
-- The watchers of cmd/wrapper/main.go running one poll at a time over one world, with anything else
-- that leaves the installed config and binary alone in between: remounts, time, the process.
use mathlib.Core.Path.{subst}
use cnpg_pg_doorman.Base.{sym, ap, refl, ◌∙◌, ◌≡◌, String, false, some, ◌==◌, arith}
use cnpg_pg_doorman.Wrapper.World.{World}
use cnpg_pg_doorman.Wrapper.Calls.{kill, read_file}
use cnpg_pg_doorman.Wrapper.Frame.{file_at}
use cnpg_pg_doorman.Wrapper.Platform.{Platform}
use cnpg_pg_doorman.Wrapper.Process.{restart}
use cnpg_pg_doorman.Wrapper.FileWatcher
use cnpg_pg_doorman.Wrapper.FileWatcher.{FileWatcher, signal_process}
use cnpg_pg_doorman.Wrapper.FileWatcher.Check
use cnpg_pg_doorman.Wrapper.FileWatcher.Materialize.{IsCompatible, IsAside}
use cnpg_pg_doorman.Wrapper.FileWatcher.Gauge.{aside_after}
use cnpg_pg_doorman.Wrapper.BinaryWatcher
use cnpg_pg_doorman.Wrapper.BinaryWatcher.{BinaryWatcher}
use cnpg_pg_doorman.Wrapper.BinaryWatcher.Upgrade
use cnpg_pg_doorman.Wrapper.BinaryWatcher.Upgrade.{IsLaidOut}
use cnpg_pg_doorman.Wrapper.RoleWatcher
use cnpg_pg_doorman.Wrapper.RoleWatcher.{RoleWatcher}

pub record Sidecar : Type 0 where
  pub fw : FileWatcher
  pub bw : BinaryWatcher
  pub roles : RoleWatcher
  pub world : World

module _ (P : Platform) (trim_space : String → String) where
  abbrev pub poll_config : Sidecar → Sidecar
  poll_config s = let (fw, w) = FileWatcher.check P s.fw s.world in record s { fw = fw; world = w }

  abbrev pub poll_binary : Sidecar → Sidecar
  poll_binary s =
      let (bw, w) = BinaryWatcher.check P s.bw s.world in record s { bw = bw; world = w }

  abbrev pub poll_role : Sidecar → Sidecar
  poll_role s =
      let (roles, w) = RoleWatcher.check trim_space s.roles s.world in
      record s { roles = roles; world = w }

  -- `drift` is any change of the world that leaves the installed binary and config alone.
  pub data Step : Sidecar → Sidecar → Type 0 where
    config_polled : (s : Sidecar) → Step s (poll_config s)
    binary_polled : (s : Sidecar) → Step s (poll_binary s)
    role_polled : (s : Sidecar) → Step s (poll_role s)
    drift :
        (s : Sidecar) (w : World)
        → w.files s.bw.runtime_path ≡ s.world.files s.bw.runtime_path
        → w.files s.fw.runtime_path ≡ s.world.files s.fw.runtime_path
        → Step s (record s { world = w })

  pub data Reach (s : Sidecar) : Sidecar → Type 0 where
    here : Reach s s
    next : {t u : Sidecar} → Reach s t → Step t u → Reach s u

  -- The watchers share the paths of one pod, and the installed binary accepts the installed config.
  pub record IsSound (s : Sidecar) : Type 0 where
    pub tester : s.fw.test_config ≡ some s.bw.runtime_path
    pub same_config : s.bw.config_path ≡ s.fw.runtime_path
    pub aside : IsAside s.fw s.bw.runtime_path
    pub own : IsAside s.fw s.fw.runtime_path
    pub laid : IsLaidOut P s.bw
    pub apart : (s.fw.runtime_path == s.bw.runtime_path) ≡ false
    pub compatible : IsCompatible P s.bw.runtime_path s.fw.runtime_path s.world

  check-fw :
      (fw : FileWatcher) (w : World)
      → let fw' = (FileWatcher.check P fw w).0 in
        fw' ≡ record fw { last_applied = fw'.last_applied }
  unfolding FileWatcher.check signal_process
  check-fw fw w = ground arith

  check-bw :
      (bw : BinaryWatcher) (w : World)
      → let bw' = (BinaryWatcher.check P bw w).0 in bw' ≡ record bw { last_spec = bw'.last_spec }
  unfolding BinaryWatcher.check BinaryWatcher.reconcile_binary BinaryWatcher.fetch_and_swap
      BinaryWatcher.test_candidate BinaryWatcher.swap_binary
  check-bw bw w = ground arith

  role_check-file :
      (roles : RoleWatcher) (q : String) (w : World)
      → file_at q (RoleWatcher.check trim_space roles w).1 ≡ file_at q w
  unfolding RoleWatcher.check RoleWatcher.role_changed restart kill read_file
  role_check-file roles q w = ground arith

  laid_after :
      {bw : BinaryWatcher} (t : String) → IsLaidOut P bw → IsLaidOut P (record bw { last_spec = t })
  laid_after t l = record {
    runtime_config = l.runtime_config;
    candidate_runtime = l.candidate_runtime;
    candidate_config = l.candidate_config;
    fresh_runtime = l.fresh_runtime;
    fresh_config = l.fresh_config;
    fresh_candidate = l.fresh_candidate;
  }

  with_fw :
      (s : Sidecar) (t : String) (w : World)
      → IsSound s
      → IsCompatible P s.bw.runtime_path s.fw.runtime_path w
      → IsSound (record s { fw = record s.fw { last_applied = t }; world = w })
  with_fw s t w h c = record {
    tester = h.tester;
    same_config = h.same_config;
    aside = aside_after t h.aside;
    own = aside_after t h.own;
    laid = h.laid;
    apart = h.apart;
    compatible = c;
  }

  with_bw :
      (s : Sidecar) (t : String) (w : World)
      → IsSound s
      → IsCompatible P s.bw.runtime_path s.fw.runtime_path w
      → IsSound (record s { bw = record s.bw { last_spec = t }; world = w })
  with_bw s t w h c = record {
    tester = h.tester;
    same_config = h.same_config;
    aside = h.aside;
    own = h.own;
    laid = laid_after t h.laid;
    apart = h.apart;
    compatible = c;
  }

  with_world :
      (s : Sidecar) (roles : RoleWatcher) (w : World)
      → IsSound s
      → IsCompatible P s.bw.runtime_path s.fw.runtime_path w
      → IsSound (record s { roles = roles; world = w })
  with_world s roles w h c = record {
    tester = h.tester;
    same_config = h.same_config;
    aside = h.aside;
    own = h.own;
    laid = h.laid;
    apart = h.apart;
    compatible = c;
  }

  pub Step-IsSound : {s t : Sidecar} → Step s t → IsSound s → IsSound t
  Step-IsSound (config_polled s) h = rw (check-fw s.fw s.world) (
      with_fw s _ _ h (
        FileWatcher.Check.check-IsCompatible P s.fw s.bw.runtime_path h.tester h.aside h.own h.apart
          s.world h.compatible))
  Step-IsSound (binary_polled s) h = rw (check-bw s.bw s.world) (
      with_bw s _ _ h (
        subst (λ c. IsCompatible P s.bw.runtime_path c (BinaryWatcher.check P s.bw s.world).1)
          h.same_config
          (BinaryWatcher.Upgrade.check-IsCompatible P s.bw h.laid s.world (
            subst (λ c. IsCompatible P s.bw.runtime_path c s.world) (sym h.same_config)
              h.compatible))))
  Step-IsSound (role_polled s) h = with_world s _ _ h (
      rw
        (
          role_check-file s.roles s.bw.runtime_path s.world,
          role_check-file s.roles s.fw.runtime_path s.world,
        )
        h.compatible)
  Step-IsSound (drift s w same_binary same_config) h =
      with_world s s.roles w h (rw (same_binary, same_config) h.compatible)

  -- If the watchers of a sidecar share the paths of one pod, these paths are apart from one another
  -- and from temporary names, and the installed binary accepts the installed config, then all this
  -- still holds after any run of config, binary and role polls, one at a time, with any system call
  -- failing at any point, and of changes by others that leave the two installed files alone.
  pub Reach-IsSound : {s t : Sidecar} → IsSound s → Reach s t → IsSound t
  Reach-IsSound h here = h
  Reach-IsSound h (next r st) = Step-IsSound st (Reach-IsSound h r)

  Step-paths :
      {s t : Sidecar}
      → Step s t
      → (t.fw.runtime_path ≡ s.fw.runtime_path) × (t.bw.runtime_path ≡ s.bw.runtime_path)
  Step-paths (config_polled s) = (ap (λ fw. fw.runtime_path) (check-fw s.fw s.world), refl)
  Step-paths (binary_polled s) = (refl, ap (λ bw. bw.runtime_path) (check-bw s.bw s.world))
  Step-paths (role_polled s) = (refl, refl)
  Step-paths (drift s w same_binary same_config) = (refl, refl)

  -- The installed files stay where they are.
  pub Reach-paths :
      {s t : Sidecar}
      → Reach s t
      → (t.fw.runtime_path ≡ s.fw.runtime_path) × (t.bw.runtime_path ≡ s.bw.runtime_path)
  Reach-paths here = (refl, refl)
  Reach-paths (next r st) =
      let (f, b) = Reach-paths r in let (f', b') = Step-paths st in (f' ∙ f, b' ∙ b)
