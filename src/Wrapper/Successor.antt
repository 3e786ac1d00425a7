-- ===== src/Wrapper/Successor.antt =====
-- The scan of /proc for the re-exec'd pg_doorman (internal/wrapper/successor_linux.go).
use cnpg_pg_doorman.Base.{
  ℕ, String, ◌==◌, Bool, true, false, ◌||◌, Option, none, some, List, [], ◌∷◌, nat_eq,
  if◌then◌else◌, contains, ◌≡◌, ◌≢◌, arith, ◌⊎◌, inl, inr, Option-cases, ◌∙◌, All, eq_iff, sym, ◌↔◌,
}
use cnpg_pg_doorman.Wrapper.World.{sigkill, Result, ok, err, World}
use cnpg_pg_doorman.Wrapper.Calls.{kill}

-- An entry of /proc: the pid if its name is a number, its arguments (`none` for a cmdline that is
-- empty or cannot be read), and the target of its exe link.
pub record Entry : Type 0 where
  pub pid : Option ℕ
  pub args : Option (List String)
  pub exe : Option String

abbrev pub validate_config_flag : String
validate_config_flag = "--test-config"

abbrev pub validate_config_short_flag : String
validate_config_short_flag = "-t"

abbrev take_two : List String → List String
take_two (a ∷ b ∷ rest) = a ∷ b ∷ []
take_two args = args

-- The text is one of the first two arguments.
abbrev Leads : List String → String → Type 0
Leads [] text = ⊥
Leads (a ∷ []) text = a ≡ text
Leads (a ∷ b ∷ rest) text = (a ≡ text) ⊎ (b ≡ text)

Leads-iff :
    (args : List String) (text : String) → (contains (take_two args) text ≡ true) ↔ Leads args text
Leads-iff [] text = ground arith
Leads-iff (a ∷ []) text = ground (arith, eq_iff a text)
Leads-iff (a ∷ b ∷ rest) text = ground (arith, eq_iff a text, eq_iff b text)

flagless_iff :
    (args : List String)
    → ((contains args validate_config_flag || contains args validate_config_short_flag) ≡ false)
      ↔ All (λ a. (a ≢ "--test-config") × (a ≢ "-t")) args
flagless_iff [] = ground arith
flagless_iff (a ∷ args) = ground (arith, flagless_iff args, eq_iff a "--test-config", eq_iff a "-t")

-- `trim_suffix` is strings.TrimSuffix.
module _ (trim_suffix : String → String → String) where
  abbrev links_to : Option String → String → Bool
  links_to none binary = false
  links_to (some exe) binary = trim_suffix exe " (deleted)" == binary

  abbrev runs_args : Option (List String) → Option String → String → Bool
  runs_args none exe binary = false
  runs_args (some args) exe binary =
      if contains args validate_config_flag || contains args validate_config_short_flag
      then false
      else links_to exe binary || contains (take_two args) binary

  unfoldable pub runs_binary : Entry → String → Bool
  runs_binary e binary = runs_args e.args e.exe binary

  -- The pid of an entry that the two scans consider.
  abbrev pub candidate : Entry → String → ℕ → ℕ → Option ℕ → Option ℕ
  candidate e binary self exclude none = none
  candidate e binary self exclude (some pid) =
      if nat_eq pid exclude || nat_eq pid self
      then none
      else if runs_binary e binary
      then some pid
      else none

  abbrev first : Option ℕ → Option ℕ → Option ℕ
  first (some pid) rest = some pid
  first none rest = rest

  unfoldable pub find_successor_pid : List Entry → String → ℕ → ℕ → Option ℕ
  find_successor_pid [] binary self exclude = none
  find_successor_pid (e ∷ es) binary self exclude =
      first (candidate e binary self exclude e.pid) (find_successor_pid es binary self exclude)

  abbrev killed : Result (Unit {0}) → ℕ → List ℕ → List ℕ
  killed (ok _) pid pids = pid ∷ pids
  killed (err e) pid pids = pids

  -- Kills one entry if it is a candidate, and goes on.
  abbrev pub kill_next : Option ℕ → World → (World → List ℕ × World) → List ℕ × World
  kill_next none w rest = rest w
  kill_next (some pid) w rest =
      let (r, w') = kill pid sigkill w in let (pids, w'') = rest w' in (killed r pid pids, w'')

  unfoldable pub kill_strays : List Entry → String → ℕ → ℕ → World → List ℕ × World
  kill_strays [] binary self exclude w = ([], w)
  kill_strays (e ∷ es) binary self exclude w =
      kill_next (candidate e binary self exclude e.pid) w (kill_strays es binary self exclude)

  -- The link to the program names the binary, be it replaced on disk or not.
  abbrev Links : Option String → String → Type 0
  Links none binary = ⊥
  Links (some exe) binary = trim_suffix exe " (deleted)" ≡ binary

  -- The process serves: its arguments can be read and none asks for a check of a config, and the
  -- binary is what its link, or one of its first two arguments, names.
  abbrev Serves : Option (List String) → Option String → String → Type 0
  Serves none exe binary = ⊥
  Serves (some args) exe binary =
      All (λ a. (a ≢ "--test-config") × (a ≢ "-t")) args × (Links exe binary ⊎ Leads args binary)

  Links-iff :
      (exe : Option String) (binary : String) → (links_to exe binary ≡ true) ↔ Links exe binary
  Links-iff none binary = ground arith
  Links-iff (some exe) binary = eq_iff (trim_suffix exe " (deleted)") binary

  runs_args_iff :
      (args : Option (List String)) (exe : Option String) (binary : String)
      → (runs_args args exe binary ≡ true) ↔ Serves args exe binary
  runs_args_iff none exe binary = ground arith
  runs_args_iff (some args) exe binary =
      ground (arith, flagless_iff args, Leads-iff args binary, Links-iff exe binary)

  runs_binary_iff :
      (e : Entry) (binary : String) → (runs_binary e binary ≡ true) ↔ Serves e.args e.exe binary
  unfolding runs_binary
  runs_binary_iff e binary = runs_args_iff e.args e.exe binary

  -- A pooler that may be adopted: it serves, and it is neither the excluded process nor the wrapper.
  pub record IsPooler (binary : String) (self exclude : ℕ) (e : Entry) (pid : ℕ) : Type 0 where
    pub has_pid : e.pid ≡ some pid
    pub other : pid ≢ exclude
    pub not_self : pid ≢ self
    pub serves : Serves e.args e.exe binary

  pub candidate_iff :
      (e : Entry) (binary : String) (self exclude pid : ℕ)
      → (candidate e binary self exclude e.pid ≡ some pid) ↔ IsPooler binary self exclude e pid
  candidate_iff e binary self exclude pid = (
    λ h. record {
      has_pid = ground arith;
      other = ground arith;
      not_self = ground arith;
      serves = (runs_binary_iff e binary).0 (ground arith);
    },
    λ p. ground (arith, p.has_pid, p.other, p.not_self, (runs_binary_iff e binary).1 p.serves),
  )

  -- The first pooler of the scan has the pid.
  abbrev pub FirstPooler : List Entry → String → ℕ → ℕ → ℕ → Type 0
  FirstPooler [] binary self exclude pid = ⊥
  FirstPooler (e ∷ es) binary self exclude pid =
      IsPooler binary self exclude e pid
      ⊎ (((p : ℕ) → ¬ IsPooler binary self exclude e p) × FirstPooler es binary self exclude pid)

  -- The scan returns a pid exactly if it is that of the first entry of /proc that has readable
  -- arguments and none that asks for a check of a config, runs the binary by its link or one of its
  -- first two arguments, and is neither the excluded process nor the wrapper.
  pub find_successor_pid_iff :
      (es : List Entry) (binary : String) (self exclude pid : ℕ)
      → (find_successor_pid es binary self exclude ≡ some pid)
        ↔ FirstPooler es binary self exclude pid
  unfolding find_successor_pid
  find_successor_pid_iff [] binary self exclude pid = (λ h. cc h, λ f. absurd f)
  find_successor_pid_iff (e ∷ es) binary self exclude pid =
      elim (Option-cases (candidate e binary self exclude e.pid)) [
        | inl no_pid ↦ (
          λ h. inr (
            λ p q. cc (no_pid, (candidate_iff e binary self exclude p).1 q),
            (find_successor_pid_iff es binary self exclude pid).0 (rw no_pid at h),
          ),
          λ f. elim f [
            | inl q ↦ cc (no_pid, (candidate_iff e binary self exclude pid).1 q)
            | inr (_, q) ↦ rw no_pid ((find_successor_pid_iff es binary self exclude pid).1 q)
          ],
        )
        | inr (p, there) ↦ (
          λ h. inl ((candidate_iff e binary self exclude pid).0 (there ∙ rw there at h)),
          λ f. elim f [
            | inl q ↦ rw there (sym there ∙ (candidate_iff e binary self exclude pid).1 q)
            | inr (none_here, _) ↦
                absurd (none_here p ((candidate_iff e binary self exclude p).0 there))
          ],
        )
      ]
