-- ===== src/Plugin/Controller/Rendering.antt =====
-- The rendering of a config (render of internal/controller/renderedconfig.go): what it leaves alone
-- and what it returns.
use cnpg_pg_doorman.Base.{
  ◌≡◌, refl, sym, ap, ◌∙◌, String, ◌==◌, false, Option, none, some, List, [], ◌∷◌,
}
use cnpg_pg_doorman.Base.Maps.{Map, lookup}
use cnpg_pg_doorman.Wrapper.World
use cnpg_pg_doorman.Wrapper.Validator.{DoormanConfig, validate_config_bytes}
use cnpg_pg_doorman.Plugin.Config.{Cluster, PluginConfiguration}
use cnpg_pg_doorman.Plugin.Defaults.{
  PgDoormanSpec, PoolSpec, UserSpec, AuthQuerySpec, SecretKeySelector,
}
use cnpg_pg_doorman.Plugin.Api.{Api, ok, Secret, pure, throw, get_secret, visible_secrets}
use cnpg_pg_doorman.Plugin.Api.Frame.{
  Along, SameSecrets, along_rules, bind-ok, handle_by, get_secret-visible, get_secret-failed,
}
use cnpg_pg_doorman.Plugin.Credentials.{
  value_or_error, extract_secret_value, resolve_users, resolve_auth_ref, resolve_auth,
  resolve_pools, resolve_admin, resolve_passwords,
}
use cnpg_pg_doorman.Plugin.ConfigGen.{generate, ensure_admin_password}
use cnpg_pg_doorman.Plugin.Controller.Defs.{
  tls_files, Renderer, admin_password_fallback, reuse_password, render, marshalled, checked,
  rendered_secret_name, generated_admin_password_key,
}
use cnpg_pg_doorman.Plugin.Controller.Reads.{SameSecrets-admin_password_fallback}

SameSecrets-value_or_error : (o : Option String) → Along SameSecrets (value_or_error o)
unfolding value_or_error
SameSecrets-value_or_error none = search along_rules
SameSecrets-value_or_error (some v) = search along_rules

SameSecrets-extract_secret_value :
    (ns : String) (ref : SecretKeySelector) → Along SameSecrets (extract_secret_value ns ref)
unfolding extract_secret_value
SameSecrets-extract_secret_value ns ref = search (along_rules, SameSecrets-value_or_error) depth 12

SameSecrets-resolve_users :
    (ns pool : String) (users : List UserSpec) (m : Map String)
    → Along SameSecrets (resolve_users ns pool users m)
unfolding resolve_users
SameSecrets-resolve_users ns pool [] m = search along_rules
SameSecrets-resolve_users ns pool (u ∷ us) m =
    search (along_rules, SameSecrets-extract_secret_value, SameSecrets-resolve_users ns pool us)
      depth 12

SameSecrets-resolve_auth_ref :
    (ns pool : String) (aq : AuthQuerySpec) (o : Option SecretKeySelector) (m : Map String)
    → Along SameSecrets (resolve_auth_ref ns pool aq o m)
unfolding resolve_auth_ref
SameSecrets-resolve_auth_ref ns pool aq none m = search along_rules
SameSecrets-resolve_auth_ref ns pool aq (some r) m =
    search (along_rules, SameSecrets-extract_secret_value) depth 12

SameSecrets-resolve_auth :
    (ns pool : String) (o : Option AuthQuerySpec) (m : Map String)
    → Along SameSecrets (resolve_auth ns pool o m)
unfolding resolve_auth
SameSecrets-resolve_auth ns pool none m = search along_rules
SameSecrets-resolve_auth ns pool (some aq) m = SameSecrets-resolve_auth_ref ns pool aq _ m

SameSecrets-resolve_pools :
    (ns : String) (pools : Map PoolSpec) (m : Map String)
    → Along SameSecrets (resolve_pools ns pools m)
unfolding resolve_pools
SameSecrets-resolve_pools ns [] m = search along_rules
SameSecrets-resolve_pools ns ((n, p) ∷ ps) m =
    search
      (
        along_rules,
        SameSecrets-resolve_auth,
        SameSecrets-resolve_users,
        SameSecrets-resolve_pools ns ps,
      )
      depth 12

SameSecrets-resolve_admin :
    (ns : String) (o : Option SecretKeySelector) (m : Map String)
    → Along SameSecrets (resolve_admin ns o m)
unfolding resolve_admin
SameSecrets-resolve_admin ns none m = search along_rules
SameSecrets-resolve_admin ns (some r) m =
    search (along_rules, SameSecrets-extract_secret_value) depth 12

pub SameSecrets-resolve_passwords :
    (ns : String) (spec : PgDoormanSpec) → Along SameSecrets (resolve_passwords ns spec)
unfolding resolve_passwords
SameSecrets-resolve_passwords ns spec =
    search (along_rules, SameSecrets-resolve_pools, SameSecrets-resolve_admin) depth 12

module _ {Q : Type 0} (R : Renderer Q) where
  SameSecrets-marshalled : (o : Option String) → Along SameSecrets (marshalled R o)
  unfolding marshalled
  SameSecrets-marshalled none = search along_rules
  SameSecrets-marshalled (some t) = search along_rules

  SameSecrets-checked :
      (text admin : String) (r : World.Result DoormanConfig)
      → Along SameSecrets (checked R text admin r)
  unfolding checked
  SameSecrets-checked text admin (World.err e) = search along_rules
  SameSecrets-checked text admin (World.ok x) = search along_rules

  pub SameSecrets-render :
      (spec : PgDoormanSpec) (ns : String) (c : Cluster) (cfg : PluginConfiguration Q)
      → Along SameSecrets (render R spec ns c cfg)
  unfolding render
  SameSecrets-render spec ns c cfg =
      search
        (
          along_rules, SameSecrets-resolve_passwords, SameSecrets-admin_password_fallback,
          SameSecrets-marshalled, SameSecrets-checked,
        )
        depth 16

  fallback-kept :
      (c : Cluster) (a : Api) {admin : String} (s : Secret) (p : String)
      → (admin_password_fallback R c a).0 ≡ ok admin
      → visible_secrets a c.namespace (rendered_secret_name c.name) ≡ some s
      → lookup generated_admin_password_key s.entries ≡ some p
      → (p == "") ≡ false
      → admin ≡ p
  unfolding admin_password_fallback reuse_password pure throw
  fallback-kept c a {admin} s p h k l m =
      handle_by (λ r. r.0 ≡ ok admin → admin ≡ p)
        (get_secret c.namespace (rendered_secret_name c.name)) _ _ a
        (λ x e q.
          let same : x ≡ s = cc (sym (get_secret-visible _ _ a x e) ∙ k) in
          cc (rw (same, l, m) at q))
        (λ e g q. cc (rw (get_secret-failed _ _ a s e g k) at q)) h

  checked-ok :
      (t pw : String) (r : World.Result DoormanConfig) (a : Api) {text admin : String}
      → (checked R t pw r a).0 ≡ ok (text, admin)
      → ((x : DoormanConfig) × (r ≡ World.ok x)) × (t ≡ text) × (pw ≡ admin)
  unfolding checked pure throw
  checked-ok t pw (World.err e) a h = cc h
  checked-ok t pw (World.ok x) a h = ((x, refl), cc h, cc h)

  -- The generated admin password that the stored Secret shows is reused.
  abbrev pub KeepsAdmin : Cluster → Api → String → Type 0
  KeepsAdmin c a admin =
      (s : Secret) (p : String)
      → visible_secrets a c.namespace (rendered_secret_name c.name) ≡ some s
      → lookup generated_admin_password_key s.entries ≡ some p
      → (p == "") ≡ false
      → admin ≡ p

  -- The text is that of the generated config, with some resolved passwords, and passes the checks.
  abbrev pub IsMade : PgDoormanSpec → PluginConfiguration Q → String → String → Type 0
  IsMade spec cfg text admin =
      ((x : DoormanConfig) × (validate_config_bytes R.parse_yaml text ≡ World.ok x))
      × ((resolved : Map String) × (generate R.marshal_yaml spec cfg.pooler_port cfg.metrics_port
              (ensure_admin_password resolved admin) (tls_files R)
            ≡ some text))

  marshalled-ok :
      (o : Option String) (a : Api) {text : String} → (marshalled R o a).0 ≡ ok text → o ≡ some text
  unfolding marshalled pure throw
  marshalled-ok none a h = cc h
  marshalled-ok (some t) a h = cc h

  pub render-ok :
      (spec : PgDoormanSpec) (ns : String) (c : Cluster) (cfg : PluginConfiguration Q) (a : Api)
      {text admin : String}
      → (render R spec ns c cfg a).0 ≡ ok (text, admin)
      → IsMade spec cfg text admin × KeepsAdmin c a admin
  unfolding render
  render-ok spec ns c cfg a h =
      let (resolved, r, h1) = bind-ok _ _ a h in
      let (pw, p, h2) = bind-ok _ _ _ h1 in
      let (t, q, h3) = bind-ok _ _ _ h2 in
      let (v, e, e') = checked-ok t pw _ _ h3 in
      (
        (rw e at v, (resolved, rw (sym e') (marshalled-ok _ _ q ∙ ap some e))),
        λ s q k l m.
            fallback-kept c _ s q (p ∙ ap ok e')
              (rw ((SameSecrets-resolve_passwords ns spec).at a) k) l m,
      )
