-- ===== src/Wrapper/Platform.antt =====
-- What the wrapper calls and does not implement: the parsers, the digest, the x509 and PEM
-- functions, time.ParseDuration, filepath.Dir and the pg_doorman binary itself.
use cnpg_pg_doorman.Base.{ℕ, String, Bool, Option}
use cnpg_pg_doorman.Wrapper.Validator.{DoormanConfig}
use cnpg_pg_doorman.Wrapper.BinarySpec.{BinarySpec}

-- `accepts b c`: the binary with content `b`, run with --test-config on a file with content `c`,
-- exits with 0. `temp_name d n` is the name that os.CreateTemp makes up for the n-th call. `parse_duration` gives milliseconds. `pem_decode` gives the block's type and bytes,
-- and the private keys that the parsers give are opaque.
pub record Platform : Type 0 where
  pub parse_yaml : String → Option DoormanConfig
  pub parse_json : String → Option BinarySpec
  pub parse_duration : String → Option ℕ
  pub sha256 : String → String
  pub dir : String → String
  pub temp_name : String → ℕ → String
  pub accepts : String → String → Bool
  pub ca_parses : String → Bool
  pub pem_decode : String → Option (String × String)
  pub parse_pkcs8 : String → Option String
  pub parse_ec : String → Option String
  pub parse_pkcs1 : String → Option String
  pub marshal_pkcs8 : String → Option String
  pub pem_encode : String → String → String
