-- ===== src/Wrapper/BinaryWatcher/Refines.antt =====
-- The polls of the binary spec keep to the contract (`check` of binarywatcher.go).
use cnpg_pg_doorman.Base.{String, ◌≡◌, true, Option, some}
use cnpg_pg_doorman.Wrapper.World.{World}
use cnpg_pg_doorman.Wrapper.Platform.{Platform}
use cnpg_pg_doorman.Wrapper.BinarySpec.{BinarySpec, parse_binary_spec}
use cnpg_pg_doorman.Wrapper.FileWatcher.Materialize.{text_at, agrees}
use cnpg_pg_doorman.Wrapper.BinaryWatcher.Defs.{BinaryWatcher}
use cnpg_pg_doorman.Wrapper.BinaryWatcher.Upgrade.{IsLaidOut}
use cnpg_pg_doorman.Wrapper.BinaryWatcher.Contract.{Step, view, directive_of}

module _ (P : Platform) (bw : BinaryWatcher) (laid : IsLaidOut P bw) where
  -- The binary accepts the config that is live.
  abbrev pub IsAcceptable : World → String → Type 0
  IsAcceptable w body = agrees P (some body) (text_at bw.config_path w) ≡ true

  abbrev directive : String → Option String
  directive text = directive_of (parse_binary_spec P.parse_json text) bw.arch

  abbrev Polled : String → World → BinaryWatcher × World → Type 0
  Polled text v out =
      Step (some text) directive P.sha256 (IsAcceptable v) (view bw.runtime_path bw.last_spec v)
        (view bw.runtime_path out.0.last_spec out.1)

  -- What stays up to the swap: the gauge was set, and nothing else that can be seen.
  record IsBefore (v w : World) : Type 0 where
    metrics : w.metrics ≡ record v.metrics { binary_stale = 1 }
    process : w.process ≡ v.process
    sent : w.sent ≡ v.sent
    runtime : text_at bw.runtime_path w ≡ text_at bw.runtime_path v
    config : text_at bw.config_path w ≡ text_at bw.config_path v
