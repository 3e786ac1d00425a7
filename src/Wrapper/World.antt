-- ===== src/Wrapper/World.antt =====
-- What the wrapper acts on: files, the clock, the supervised process, its metrics, and the
-- system calls, each of which may fail. `fault n` says whether the n-th call fails.
use cnpg_pg_doorman.Base.{
  ◌≡◌, refl, ◌⊎◌, inl, inr, ℕ, ◌+◌, String, Bool, Option, List, ◌==◌, if◌then◌else◌,
}
use cnpg_pg_doorman.Base.{ℤ}

pub record File : Type 0 where
  pub content : String
  pub mode : ℕ

pub data Signal : Type 0 where
  sigterm sigkill sighup sigusr2 : Signal

-- `os_error` is any failed call but the missing file; `message` is an error that the code makes.
pub data Error : Type 0 where
  os_error not_exist : Error
  message : String → Error
  wrap : String → Error → Error
  join : Error → Error → Error

pub data Result {ℓ} (A : Type ℓ) : Type ℓ where
  ok : A → Result A
  err : Error → Result A

-- The `Process` struct. `cmd_pid` is the pid of a started exec.Cmd, and `none` where the code has
-- no cmd or a cmd with no Process; `adopted_pid` is 0 where nothing was adopted. Times are in ms.
pub record Process : Type 0 where
  pub config_path : String
  pub binary : String
  pub wait_margin : ℕ
  pub cmd_pid : Option ℕ
  pub adopted_pid : ℕ
  pub upgrade_requested : Bool
  pub upgrade_requested_at : ℕ
  pub successor_timeout : ℕ

-- The gauges and counters of metrics.go.
pub record Metrics : Type 0 where
  pub reloads_success : ℕ
  pub reloads_failure : ℕ
  pub process_restarts : ℕ
  pub upgrades_success : ℕ
  pub upgrades_failure : ℕ
  pub config_stale : ℕ
  pub binary_stale : ℕ

-- The answer to an HTTP request: `content_length` is -1 where the header is absent, and `broken`
-- says that the body ends in a read error.
pub data Response : Type 0 where
  no_response : Response
  response : (status : ℕ) (content_length : ℤ) (body : String) (broken : Bool) → Response

-- `torn` is what a failed write leaves in a file, and `serve url n` the answer that the n-th call gets.
pub record World : Type 0 where
  pub files : String → Option File
  pub dirs : String → Bool
  pub fault : ℕ → Bool
  pub calls : ℕ
  pub torn : String
  pub serve : String → ℕ → Response
  pub now : ℕ
  pub process : Process
  pub metrics : Metrics
  pub sent : List (ℕ × Signal)

-- An operation of the wrapper: it returns a value or an error, and the world that it leaves.
abbrev pub Io {ℓ} : Type ℓ → Type ℓ
Io A = World → Result A × World

abbrev pub continue {ℓ κ} :
    {A : Type ℓ} {B : Type κ} → Result A → (A → World → Result B × World) → World → Result B × World
continue (ok a) f w = f a w
continue (err e) f w = (err e, w)

unfoldable pub pure : {A : Type 0} → A → Io A
pure a w = (ok a, w)

-- A value or an error that was computed without effect.
unfoldable pub lift : {A : Type 0} → Result A → Io A
lift r w = (r, w)

-- `_ = f()`: the result is dropped, what was done stays.
unfoldable pub ignore : {A : Type 0} → Io A → Io (Unit {0})
ignore m w = (ok tt, (m w).1)

abbrev pub cleaned : Result (Unit {0}) → Io (Unit {0}) → World → Result (Unit {0}) × World
cleaned (ok _) c w = (ok tt, w)
cleaned (err e) c w = (err e, (c w).1)

-- `if err := m; err != nil { cleanup; return err }`
unfoldable pub or_clean : Io (Unit {0}) → Io (Unit {0}) → Io (Unit {0})
or_clean m c w = cleaned (m w).0 c (m w).1

-- `defer cleanup` around the rest of a function.
unfoldable pub deferred : {A : Type 0} → Io A → Io (Unit {0}) → Io A
deferred m c w = ((m w).0, (c (m w).1).1)

infixl 5 ◌>>=◌ ◌>>◌
-- Opening this opens the operations above.
unfoldable pub ◌>>=◌ : {A B : Type 0} → Io A → (A → Io B) → Io B
unfolding pure lift ignore or_clean deferred
◌>>=◌ m f w = continue (m w).0 f (m w).1

abbrev pub ◌>>◌ : {A B : Type 0} → Io A → Io B → Io B
m >> n = m >>= λ _. n

abbrev pub fails : World → Bool
fails w = w.fault w.calls

abbrev pub called : World → World
called w = record w { calls = w.calls + 1 }

abbrev pub update : (String → Option File) → String → Option File → String → Option File
update f p o q = if p == q then o else f q

abbrev pub put_file : String → Option File → World → World
put_file p o w = record w { files = update w.files p o }

pub Result-cases {ℓ} :
    {A : Type ℓ} (r : Result A) → ((a : A) × (r ≡ ok a)) ⊎ ((e : Error) × (r ≡ err e))
Result-cases (ok a) = inl (a, refl)
Result-cases (err e) = inr (e, refl)
