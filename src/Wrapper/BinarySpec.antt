-- ===== src/Wrapper/BinarySpec.antt =====
-- The contract between the controller and the wrapper (internal/wrapper/binaryspec.go).
use cnpg_pg_doorman.Base.{String, ◌==◌, Option, none, some, if◌then◌else◌, [], ◌∷◌}
use cnpg_pg_doorman.Base.Maps.{Map}
use cnpg_pg_doorman.Wrapper.World.{message, Result, ok, err}

pub record BinarySpec : Type 0 where
  pub url : String
  pub sha256 : Map String
  pub ca_bundle : String

abbrev no_digests : BinarySpec → Map String → Result BinarySpec
no_digests spec [] = err (message "binary spec: sha256 map is required")
no_digests spec (_ ∷ _) = ok spec

abbrev checked : Option BinarySpec → Result BinarySpec
checked none = err (message "invalid binary spec")
checked (some spec) =
    if spec.url == ""
    then err (message "binary spec: url is required")
    else no_digests spec spec.sha256

-- ParseBinarySpec, where `parse_json` is json.Unmarshal.
unfoldable pub parse_binary_spec : (String → Option BinarySpec) → String → Result BinarySpec
parse_binary_spec parse_json text = checked (parse_json text)
