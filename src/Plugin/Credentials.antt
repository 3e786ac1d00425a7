-- ===== src/Plugin/Credentials.antt =====
-- The passwords that a PgDoorman refers to (internal/credentials/credentials.go). Go walks a map in
-- any order: here it is the order of the association list.
use cnpg_pg_doorman.Base.{String, ◌<>◌, Option, none, some, List, [], ◌∷◌}
use cnpg_pg_doorman.Base.Maps.{Map, lookup, insert}
use cnpg_pg_doorman.Plugin.Api.{Io, message, wrap, pure, throw, handle, ◌>>=◌, get_secret}
use cnpg_pg_doorman.Plugin.Defaults.{
  PgDoormanSpec, PoolSpec, UserSpec, AuthQuerySpec, SecretKeySelector,
}
use cnpg_pg_doorman.Plugin.AuthSecrets.{auth_ref, admin_ref}
use cnpg_pg_doorman.Plugin.ConfigGen.{password_key, admin_password_key}

unfoldable pub value_or_error : Option String → Io String
value_or_error none = throw (message "missing key in secret")
value_or_error (some v) = pure v

-- ExtractSecretValue
unfoldable pub extract_secret_value : String → SecretKeySelector → Io String
unfolding lookup
extract_secret_value ns ref =
    handle (get_secret ns ref.name) (λ e. throw (wrap "getting secret" e))
      λ secret. value_or_error (lookup ref.key secret.entries)

unfoldable pub resolve_users : String → String → List UserSpec → Map String → Io (Map String)
resolve_users ns pool_name [] passwords = pure passwords
resolve_users ns pool_name (user ∷ users) passwords =
    handle (extract_secret_value ns user.password_secret_ref) (λ e. throw (wrap "user password" e))
      λ v.
        resolve_users ns pool_name users
          (insert (password_key pool_name "user" user.username) v passwords)

unfoldable pub resolve_auth_ref :
    String → String → AuthQuerySpec → Option SecretKeySelector → Map String → Io (Map String)
resolve_auth_ref ns pool_name aq none passwords = pure passwords
resolve_auth_ref ns pool_name aq (some ref) passwords =
    handle (extract_secret_value ns ref) (λ e. throw (wrap "auth_query password" e))
      λ v. pure (insert (password_key pool_name "auth_query" aq.user) v passwords)

unfoldable pub resolve_auth : String → String → Option AuthQuerySpec → Map String → Io (Map String)
resolve_auth ns pool_name none passwords = pure passwords
resolve_auth ns pool_name (some aq) passwords =
    resolve_auth_ref ns pool_name aq aq.password_secret_ref passwords

unfoldable pub resolve_pools : String → Map PoolSpec → Map String → Io (Map String)
resolve_pools ns [] passwords = pure passwords
resolve_pools ns ((name, pool) ∷ pools) passwords =
    resolve_auth ns name pool.auth_query passwords >>= λ with_auth.
    resolve_users ns name pool.users with_auth >>= λ with_users. resolve_pools ns pools with_users

unfoldable pub resolve_admin : String → Option SecretKeySelector → Map String → Io (Map String)
resolve_admin ns none passwords = pure passwords
resolve_admin ns (some ref) passwords =
    handle (extract_secret_value ns ref) (λ e. throw (wrap "admin password" e))
      λ v. pure (insert admin_password_key v passwords)

-- ResolvePasswords
unfoldable pub resolve_passwords : String → PgDoormanSpec → Io (Map String)
resolve_passwords ns spec =
    resolve_pools ns spec.pools [] >>= resolve_admin ns (admin_ref spec.general)

abbrev collect_new : String → String → Option String → Map String → Io (Map String)
collect_new ns name (some _) seen = pure seen
collect_new ns name none seen =
    handle (get_secret ns name) (λ e. throw (wrap "getting secret" e))
      λ secret. pure (insert name secret.resource_version seen)

-- The closure collectRef, which reads a Secret once.
unfoldable pub collect_ref : String → Option SecretKeySelector → Map String → Io (Map String)
unfolding lookup
collect_ref ns none seen = pure seen
collect_ref ns (some ref) seen = collect_new ns ref.name (lookup ref.name seen) seen

unfoldable pub collect_users : String → List UserSpec → Map String → Io (Map String)
collect_users ns [] seen = pure seen
collect_users ns (user ∷ users) seen =
    collect_ref ns (some user.password_secret_ref) seen >>= collect_users ns users

unfoldable pub collect_pools : String → Map PoolSpec → Map String → Io (Map String)
collect_pools ns [] seen = pure seen
collect_pools ns ((_, pool) ∷ pools) seen = collect_ref ns (auth_ref pool.auth_query) seen >>= λ s1.
    collect_users ns pool.users s1 >>= λ s2. collect_pools ns pools s2

abbrev pairs : Map String → List String
pairs [] = []
pairs ((name, version) ∷ seen) = (name <> ":" <> version) ∷ pairs seen

abbrev joined : List String → String
joined [] = ""
joined (p ∷ ps) = p <> joined ps

abbrev digest : (List String → List String) → (String → String) → List String → String
digest sort sha256 [] = ""
digest sort sha256 (p ∷ ps) = sha256 (joined (sort (p ∷ ps)))

-- CollectSecretVersions: `sort` is sort.Strings, and `sha256` the hash of all that was written.
unfoldable pub collect_secret_versions :
    (List String → List String) → (String → String) → String → PgDoormanSpec → Io String
collect_secret_versions sort sha256 ns spec = collect_pools ns spec.pools [] >>= λ s1.
    collect_ref ns (admin_ref spec.general) s1 >>= λ seen. pure (digest sort sha256 (pairs seen))
