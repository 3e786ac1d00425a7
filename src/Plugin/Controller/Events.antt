-- ===== src/Plugin/Controller/Events.antt =====
-- Which PgDoormans an event makes the controller reconcile (mapCluster and mapSecret of
-- SetupWithManager in internal/controller/renderedconfig.go).
use cnpg_pg_doorman.Base.{
  ◌≡◌, ◌⊎◌, String, ◌==◌, not, ◌||◌, contains, Option, none, some, List, [], ◌∷◌, if◌then◌else◌,
}
use cnpg_pg_doorman.Plugin.Config.{Cluster, new_from_cluster}
use cnpg_pg_doorman.Plugin.Defaults.{PgDoormanSpec}
use cnpg_pg_doorman.Plugin.Api.{Result, ok, err, PgDoorman}
use cnpg_pg_doorman.Plugin.AuthSecrets.{default_auth_secret_refs, collect_secret_names}
use cnpg_pg_doorman.Plugin.AuthSecrets.Names.{IsReferred}
use cnpg_pg_doorman.Plugin.Controller.Defs.{Renderer}

-- A request is a namespace and a name.
unfoldable pub map_cluster : {Q : Type 0} → Renderer Q → Cluster → List (String × String)
map_cluster R c =
    let cfg = new_from_cluster R.parsers R.sidecar_image c in
    if not cfg.enabled || cfg.config_name == "" then [] else (c.namespace, cfg.config_name) ∷ []

-- A conflicting spec falls back to the raw references.
abbrev pub normalized_or_raw : PgDoormanSpec → Result (PgDoormanSpec × String) → PgDoormanSpec
normalized_or_raw raw (ok (spec, user)) = spec
normalized_or_raw raw (err e) = raw

abbrev pub read_spec : PgDoorman → PgDoormanSpec
read_spec d = normalized_or_raw d.spec (default_auth_secret_refs d.spec)

unfoldable pub requests_for : String → List PgDoorman → List (String × String)
requests_for secret [] = []
requests_for secret (d ∷ ds) =
    let rest = requests_for secret ds in
    if contains (collect_secret_names (read_spec d)) secret
    then (d.namespace, d.name) ∷ rest
    else rest

-- `list` is client.List of the PgDoormans of a namespace.
unfoldable pub map_secret :
    (String → Option (List PgDoorman)) → String → String → List (String × String)
map_secret list namespace secret = elim (list namespace) [
  | none ↦ []
  | some ds ↦ requests_for secret ds
]

abbrev pub Requested : String → String → List (String × String) → Type 0
Requested ns n [] = ⊥
Requested ns n ((ns', n') ∷ rs) = ((ns' ≡ ns) × (n' ≡ n)) ⊎ Requested ns n rs

-- A PgDoorman of this namespace and name that refers to the Secret.
abbrev pub Reads : String → String → String → List PgDoorman → Type 0
Reads secret ns n [] = ⊥
Reads secret ns n (d ∷ ds) =
    ((d.namespace ≡ ns) × (d.name ≡ n) × IsReferred secret (read_spec d)) ⊎ Reads secret ns n ds
