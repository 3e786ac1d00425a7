-- ===== src/Wrapper/Calls.antt =====
-- The system calls that the wrapper makes, of Go's os and syscall packages.
use cnpg_pg_doorman.Base.{ℕ, String, true, Option, none, some, ◌∷◌, ◌==◌, if◌then◌else◌, not, ◌||◌}
use cnpg_pg_doorman.Wrapper.World.{
  File, Signal, os_error, not_exist, Result, ok, err, Io, fails, called, update, put_file,
}

abbrev content_or : Option File → Result String
content_or none = err not_exist
content_or (some f) = ok f.content

-- os.ReadFile
unfoldable pub read_file : String → Io String
read_file p w = (if fails w then err os_error else content_or (w.files p), called w)

abbrev opened : ℕ → Option File → File
opened mode none = record { content = ""; mode = mode }
opened mode (some f) = record { content = ""; mode = f.mode }

-- os.OpenFile with O_CREATE and O_TRUNC: a file that is there keeps its mode.
unfoldable pub open_trunc : String → ℕ → Io (Unit {0})
open_trunc p mode w =
    if fails w
    then (err os_error, called w)
    else (ok tt, called (put_file p (some (opened mode (w.files p))) w))

abbrev with_content : String → Option File → Option File
with_content data' none = none
with_content data' (some f) = some (record f { content = data' })

-- Write on a file opened by the two above, which is empty: a failed write leaves `torn`.
unfoldable pub write : String → String → Io (Unit {0})
write p text w =
    if fails w
    then (err os_error, called (put_file p (with_content w.torn (w.files p)) w))
    else (ok tt, called (put_file p (with_content text (w.files p)) w))

-- A call that changes no content that can be read back: Sync, Close.
unfoldable pub touch : Io (Unit {0})
touch w = (if fails w then err os_error else ok tt, called w)

abbrev with_mode : ℕ → Option File → Option File
with_mode m none = none
with_mode m (some f) = some (record f { mode = m })

unfoldable pub chmod : String → ℕ → Io (Unit {0})
chmod p m w =
    if fails w
    then (err os_error, called w)
    else (ok tt, called (put_file p (with_mode m (w.files p)) w))

-- os.Remove
unfoldable pub remove : String → Io (Unit {0})
remove p w = if fails w then (err os_error, called w) else elim (w.files p) [
  | none ↦ (err not_exist, called w)
  | some _ ↦ (ok tt, called (put_file p none w))
]

-- os.Rename: atomic, it replaces the target or changes nothing.
unfoldable pub rename : String → String → Io (Unit {0})
rename a b w = if fails w then (err os_error, called w) else elim (w.files a) [
  | none ↦ (err not_exist, called w)
  | some f ↦ (ok tt, called (record w { files = update (update w.files a none) b (some f) }))
]

-- os.MkdirAll
unfoldable pub mkdir_all : String → Io (Unit {0})
mkdir_all d w =
    if fails w
    then (err os_error, called w)
    else (ok tt, called (record w { dirs = λ e. if d == e then true else w.dirs e }))

-- os.CreateTemp, which never gives the name of a file that is there. `temp d n` is the name that
-- the n-th call makes up in directory `d`.
unfoldable pub create_temp : (String → ℕ → String) → String → Io String
create_temp temp d w =
    let name = temp d w.calls in
    if fails w || not (w.dirs d) then (err os_error, called w) else elim (w.files name) [
      | some _ ↦ (err os_error, called w)
      | none ↦ (ok name, called (put_file name (some (record { content = ""; mode = 0o600 })) w))
    ]

-- syscall.Kill: the signals that were delivered, the latest first.
unfoldable pub kill : ℕ → Signal → Io (Unit {0})
kill pid sig w =
    if fails w
    then (err os_error, called w)
    else (ok tt, called (record w { sent = (pid, sig) ∷ w.sent }))
