-- ===== src/Plugin/Binaries/Endpoint.antt =====
-- The handler of GET /binaries/{arch} (Server.Start of internal/binaries/binaries.go).
use cnpg_pg_doorman.Base.{String, Bool, if◌then◌else◌}
use cnpg_pg_doorman.Wrapper.World.{Response}

abbrev pub default_dir : String
default_dir = "/binaries"

-- strings.ContainsAny, filepath.Join on three elements, and net/http: what ServeFile answers for a
-- path, and NotFound.
pub record Server : Type 0 where
  pub contains_any : String → String → Bool
  pub join : String → String → String → String
  pub serve_file : String → Response
  pub not_found : Response

unfoldable pub serve_binary : Server → String → String → Response
serve_binary s dir arch =
    if s.contains_any arch "/\\." then s.not_found else s.serve_file (s.join dir arch "pg_doorman")
