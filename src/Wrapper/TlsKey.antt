-- ===== src/Wrapper/TlsKey.antt =====
-- The conversion of the TLS key (internal/wrapper/tlskey.go).
use cnpg_pg_doorman.Base.{String, ◌<>◌, ◌==◌, Option, none, some, if◌then◌else◌}
use cnpg_pg_doorman.Wrapper.World.{message, Result, ok, err, Io, lift, ◌>>=◌, ◌>>◌}
use cnpg_pg_doorman.Wrapper.Calls.{read_file, open_trunc, write, rename}
use cnpg_pg_doorman.Wrapper.Platform.{Platform}

abbrev or_message : {A : Type 0} → String → Option A → Result A
or_message text none = err (message text)
or_message text (some a) = ok a

module _ (P : Platform) where
  -- The switch over the PEM type.
  abbrev pub parse_key : String × String → Result String
  parse_key (kind, bytes) =
      if kind == "PRIVATE KEY"
      then or_message "cannot parse TLS key" (P.parse_pkcs8 bytes)
      else if kind == "EC PRIVATE KEY"
      then or_message "cannot parse TLS key" (P.parse_ec bytes)
      else if kind == "RSA PRIVATE KEY"
      then or_message "cannot parse TLS key" (P.parse_pkcs1 bytes)
      else err (message "unsupported TLS key PEM type")

  -- os.WriteFile is an open and a write.
  unfoldable pub ensure_pkcs8_key : String → String → Io (Unit {0})
  ensure_pkcs8_key src dst = do
    text ← read_file src
    block ← lift (or_message "no PEM block in TLS key" (P.pem_decode text))
    key ← lift (parse_key block)
    der ← lift (or_message "cannot convert TLS key to PKCS#8" (P.marshal_pkcs8 key))
    let tmp = dst <> ".tmp"
    open_trunc tmp 0o600
    write tmp (P.pem_encode "PRIVATE KEY" der)
    rename tmp dst
