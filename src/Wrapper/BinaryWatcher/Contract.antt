-- ===== src/Wrapper/BinaryWatcher/Contract.antt =====
-- What the binary watcher promises, without files, calls and system errors (`check` of
-- binarywatcher.go).
use cnpg_pg_doorman.Base.{ℕ, String, ◌≡◌, ◌≢◌, Bool, true, Option, none, some, List, ◌∷◌}
use cnpg_pg_doorman.Wrapper.World.{Result, ok, err, World, Signal, sigusr2}
use cnpg_pg_doorman.Wrapper.BinarySpec.{BinarySpec}
use cnpg_pg_doorman.Wrapper.FileWatcher.Materialize.{text_at}
use cnpg_pg_doorman.Wrapper.BinarySync.{desired_digest}

-- The binary that a start would run, the spec that was applied, the gauge, whether an upgrade was
-- asked for, and the signals that were sent, the latest first.
pub record Status : Type 0 where
  pub installed : Option String
  pub spec : String
  pub stale : ℕ
  pub requested : Bool
  pub sent : List (ℕ × Signal)

-- A text that was read from the mount and is not the one applied.
abbrev pub IsNews : Option String → Status → String → Type 0
IsNews mount s text = (mount ≡ some text) × (text ≢ s.spec)

-- `directive` is none for an invalid spec, and else the digest for this architecture or "".
pub data Step (mount : Option String) (directive : String → Option String)
    (sha256 : String → String) (IsGood : String → Type 0) (s t : Status) : Type 0 where
  unread : mount ≡ none → t ≡ s → Step mount directive sha256 IsGood s t
  unchanged : mount ≡ some s.spec → t ≡ s → Step mount directive sha256 IsGood s t
  invalid :
      (text : String)
      → IsNews mount s text
      → directive text ≡ none
      → t ≡ s
      → Step mount directive sha256 IsGood s t
  undirected :
      (text : String)
      → IsNews mount s text
      → directive text ≡ some ""
      → t ≡ record s { spec = text }
      → Step mount directive sha256 IsGood s t
  current :
      (text body : String)
      → IsNews mount s text
      → s.installed ≡ some body
      → directive text ≡ some (sha256 body)
      → t ≡ record s { spec = text; stale = 0 }
      → Step mount directive sha256 IsGood s t
  -- A handover is under way, or a step before the swap has failed.
  kept :
      (text want : String)
      → IsNews mount s text
      → directive text ≡ some want
      → want ≢ ""
      → t ≡ record s { stale = 1 }
      → Step mount directive sha256 IsGood s t
  -- The binary is replaced, but the process could not be told.
  untold :
      (text body : String)
      → IsNews mount s text
      → directive text ≡ some (sha256 body)
      → IsGood body
      → t ≡ record s { installed = some body; stale = 1 }
      → Step mount directive sha256 IsGood s t
  upgraded :
      (text body : String) (pid : ℕ)
      → IsNews mount s text
      → directive text ≡ some (sha256 body)
      → IsGood body
      → t ≡ record s {
        installed = some body;
        spec = text;
        stale = 0;
        requested = true;
        sent = (pid, sigusr2) ∷ s.sent;
      }
      → Step mount directive sha256 IsGood s t

abbrev pub view : String → String → World → Status
view runtime_path last_spec w = record {
  installed = text_at runtime_path w;
  spec = last_spec;
  stale = w.metrics.binary_stale;
  requested = w.process.upgrade_requested;
  sent = w.sent;
}

abbrev pub mount_of : Result String → Option String
mount_of (err e) = none
mount_of (ok text) = some text

abbrev pub directive_of : Result BinarySpec → String → Option String
directive_of (err e) arch = none
directive_of (ok spec) arch = some (desired_digest spec arch)
