-- ===== src/Plugin/AuthSecrets/Defs.antt =====
-- The Secrets that a PgDoorman refers to (internal/specs/authsecrets.go and secrets.go). Go walks a
-- map of pools in any order: here it is the order of the association list.
use cnpg_pg_doorman.Base.{
  String, ◌<>◌, ◌==◌, not, ◌&&◌, Option, none, some, List, [], ◌∷◌, ◌++◌, contains, if◌then◌else◌,
}
use cnpg_pg_doorman.Base.Maps.{Map}
use cnpg_pg_doorman.Plugin.Api.{Result, ok, err, message}
use cnpg_pg_doorman.Plugin.Defaults.{
  PgDoormanSpec, PoolSpec, AuthQuerySpec, UserSpec, GeneralSpec, SecretKeySelector,
}

abbrev pub generated_auth_secret_name : String → String
generated_auth_secret_name cluster_name = cluster_name <> "-doorman-auth"

-- The auth_query of a pool that omits its passwordSecretRef.
abbrev pub omitting : Option AuthQuerySpec → Option AuthQuerySpec
omitting none = none
omitting (some aq) = omitted aq.password_secret_ref aq
  where
    omitted : Option SecretKeySelector → AuthQuerySpec → Option AuthQuerySpec
    omitted none x = some x
    omitted (some _) x = none

abbrev pub refer_to : String → PoolSpec → AuthQuerySpec → PoolSpec
refer_to name pool aq = record pool {
  auth_query =
      some (record aq { password_secret_ref = some (record { name = name; key = "password" }) });
}

abbrev pub prepend :
    String × PoolSpec → Result (Map PoolSpec × String) → Result (Map PoolSpec × String)
prepend pool (ok (pools, user)) = ok (pool ∷ pools, user)
prepend pool (err e) = err e

-- One round of the loop, with the rest of it as a function of the user.
abbrev pub refer_pool :
    String
    → String
    → PoolSpec
    → Option AuthQuerySpec
    → String
    → (String → Result (Map PoolSpec × String))
    → Result (Map PoolSpec × String)
refer_pool secret name pool none user rest = prepend (name, pool) (rest user)
refer_pool secret name pool (some aq) user rest =
    if not (user == "") && not (aq.user == user)
    then err (message "pools omitting authQuery.passwordSecretRef must use the same user")
    else prepend (name, refer_to secret pool aq) (rest aq.user)

unfoldable pub refer_pools : String → Map PoolSpec → String → Result (Map PoolSpec × String)
refer_pools secret [] user = ok ([], user)
refer_pools secret ((name, pool) ∷ pools) user =
    refer_pool secret name pool (omitting pool.auth_query) user (refer_pools secret pools)

abbrev pub normalized :
    PgDoormanSpec → Result (Map PoolSpec × String) → Result (PgDoormanSpec × String)
normalized spec (ok (pools, user)) = ok (record spec { pools = pools }, user)
normalized spec (err e) = err e

-- DefaultAuthSecretRefs
unfoldable pub default_auth_secret_refs : PgDoormanSpec → Result (PgDoormanSpec × String)
default_auth_secret_refs spec =
    normalized spec (refer_pools (generated_auth_secret_name spec.cluster_ref) spec.pools "")

-- CollectSecretNames: `add` appends a name that was not seen.
unfoldable pub add : List String → String → List String
add names name = if contains names name then names else names ++ (name ∷ [])

abbrev pub add_ref : List String → Option SecretKeySelector → List String
add_ref names none = names
add_ref names (some ref) = add names ref.name

abbrev pub auth_ref : Option AuthQuerySpec → Option SecretKeySelector
auth_ref none = none
auth_ref (some aq) = aq.password_secret_ref

unfoldable pub add_users : List UserSpec → List String → List String
add_users [] names = names
add_users (user ∷ users) names = add_users users (add names user.password_secret_ref.name)

unfoldable pub add_pools : Map PoolSpec → List String → List String
add_pools [] names = names
add_pools ((_, pool) ∷ pools) names =
    add_pools pools (add_users pool.users (add_ref names (auth_ref pool.auth_query)))

abbrev pub admin_ref : Option GeneralSpec → Option SecretKeySelector
admin_ref none = none
admin_ref (some g) = g.admin_password_secret_ref

unfoldable pub collect_secret_names : PgDoormanSpec → List String
collect_secret_names spec = add_ref (add_pools spec.pools []) (admin_ref spec.general)
