-- ===== src/Plugin/Controller/Defs.antt =====
-- RenderedConfigReconciler of internal/controller/renderedconfig.go. Owner references are the name
-- of the owning Cluster; log lines are left out, and a message is a short text.
use cnpg_pg_doorman.Base.{
  ℕ, String, ◌<>◌, ◌==◌, Bool, false, not, ◌&&◌, Option, none, some, List, [], ◌∷◌, ◌++◌, nat_eq,
  contains, if◌then◌else◌,
}
use cnpg_pg_doorman.Base.Maps.{Map, lookup, insert}
use cnpg_pg_doorman.Wrapper.World
use cnpg_pg_doorman.Wrapper.Validator.{DoormanConfig, validate_config_bytes}
use cnpg_pg_doorman.Wrapper.BinarySpec.{BinarySpec}
use cnpg_pg_doorman.Plugin.Config.{Cluster, Parsers, PluginConfiguration}
use cnpg_pg_doorman.Plugin.Defaults.{PgDoormanSpec}
use cnpg_pg_doorman.Plugin.Api.{
  Io, Error, is_not_found, already_exists, failed, message, wrap, Result, ok, err, Secret,
  PgDoorman, Condition, pure, throw, handle, ◌>>=◌, ◌>>◌, emit, called, get_secret, create_secret,
  patch_secret, patch_doorman, cluster_label,
}
use cnpg_pg_doorman.Plugin.AuthSecrets.{collect_secret_names, generated_auth_secret_name}
use cnpg_pg_doorman.Plugin.Credentials.{resolve_passwords}
use cnpg_pg_doorman.Plugin.ConfigGen.{generate, ensure_admin_password, TlsFiles}

abbrev pub config_key : String
config_key = "pg_doorman.yaml"

abbrev pub binary_spec_key : String
binary_spec_key = "binary.json"

abbrev pub generated_admin_password_key : String
generated_admin_password_key = "admin-password"

abbrev pub finalizer : String
finalizer = "pg-doorman.cnpg.io/in-use"

abbrev pub rendered_secret_name : String → String
rendered_secret_name cluster_name = cluster_name <> "-doorman-config"

-- What Reconcile asks of its queue; times are in ms.
pub data Outcome : Type 0 where
  done : Outcome
  requeue_after : ℕ → Outcome

abbrev pub requeue_delay : ℕ
requeue_delay = 30000

-- The reconciler's fields, and what it calls: the YAML and JSON codecs and crypto/rand, whose n-th
-- password is `random n`.
pub record Renderer (Q : Type 0) : Type 0 where
  pub parsers : Parsers Q
  pub sidecar_image : String
  pub binary : Option BinarySpec
  pub marshal_yaml : DoormanConfig → Option String
  pub parse_yaml : String → Option DoormanConfig
  pub marshal_json : BinarySpec → Option String
  pub random : ℕ → Option String

-- A key of Secret.Data or Labels, "" where it is missing.
unfoldable pub entry_of : Map String → String → String
unfolding lookup
entry_of m key = elim (lookup key m) [ none ↦ "" | some v ↦ v ]

-- meta.SetStatusCondition and the update of the status.
abbrev same_condition : Option Condition → Condition → Bool
same_condition none c = false
same_condition (some b) c =
    not (not b.status && c.status)
    && not (b.status && not c.status)
    && b.reason == c.reason
    && b.text == c.text
    && nat_eq b.observed_generation c.observed_generation

abbrev was_false : Option Condition → Bool
was_false none = false
was_false (some c) = not c.status

unfoldable pub set_rendered : PgDoorman → Bool → String → String → Io (Unit {0})
set_rendered d is_ok reason text =
    let c : Condition = record {
      status = is_ok;
      reason = reason;
      text = text;
      observed_generation = d.generation;
    } in
    let seen = if is_ok then d.generation else d.observed_generation in
    if same_condition d.rendered c && nat_eq seen d.generation
    then pure tt
    else ((if is_ok && was_false d.rendered then emit "Rendered" else pure tt)
        >> patch_doorman (record d { observed_generation = seen; rendered = some c }))

abbrev without : String → List String → List String
without f [] = []
without f (g ∷ gs) = if g == f then without f gs else g ∷ without f gs

-- controllerutil.RemoveFinalizer and AddFinalizer.
abbrev pub remove_finalizer : PgDoorman → PgDoorman
remove_finalizer d = record d { finalizers = without finalizer d.finalizers }

abbrev pub add_finalizer : PgDoorman → PgDoorman
add_finalizer d = record d { finalizers = d.finalizers ++ (finalizer ∷ []) }

unfoldable pub reconcile_deletion : PgDoorman → Bool → Io Outcome
reconcile_deletion d in_use =
    if not (contains d.finalizers finalizer)
    then pure done
    else if in_use
    then emit "DeletionBlocked" >> pure (requeue_after requeue_delay)
    else patch_doorman (remove_finalizer d) >> pure done

-- The object that was read comes back as it is after the patch.
unfoldable pub ensure_finalizer : PgDoorman → Bool → Io PgDoorman
ensure_finalizer d in_use =
    let has = contains d.finalizers finalizer in
    if in_use
    then if has then pure d else patch_doorman (add_finalizer d) >> pure (add_finalizer d)
    else if has
    then patch_doorman (remove_finalizer d) >> pure (remove_finalizer d)
    else pure d

unfoldable pub check_secrets : String → String → List String → Io (Unit {0})
check_secrets ns cluster_name [] = pure tt
check_secrets ns cluster_name (name ∷ names) =
    let rest = check_secrets ns cluster_name names in
    handle (get_secret ns name)
      (λ e. throw (
        if is_not_found e
        then message "referenced secret not found or not labeled for the cluster"
        else wrap "referenced secret" e))
      λ secret.
        if entry_of secret.labels cluster_label == cluster_name
        then rest
        else throw (message "referenced secret is not labeled for the cluster")

unfoldable pub validate_secret_ownership : String → PgDoormanSpec → String → Io (Unit {0})
validate_secret_ownership ns spec cluster_name =
    check_secrets ns cluster_name (collect_secret_names spec)

module _ {Q : Type 0} (R : Renderer Q) where
  abbrev or_failed : {A : Type 0} → Option A → Result A
  or_failed none = err failed
  or_failed (some x) = ok x

  unfoldable pub random_password : Io String
  random_password a = (or_failed (R.random a.calls), called a)

  -- A new Secret that the Cluster controls.
  abbrev pub owned_secret : Cluster → Map String → Secret
  owned_secret c entries = record {
    labels = (cluster_label, c.name) ∷ [];
    entries = entries;
    resource_version = "";
    owner = c.name;
  }

  unfoldable pub exists_unlabeled : Error → Io (Unit {0})
  exists_unlabeled already_exists = throw (message "secret already exists but is not labeled")
  exists_unlabeled e = throw e

  abbrev create_auth_secret : Cluster → String → Io (Unit {0})
  create_auth_secret c user = random_password >>= λ password.
      handle
        (create_secret c.namespace (generated_auth_secret_name c.name)
          (owned_secret c (("username", user) ∷ ("password", password) ∷ [])))
        exists_unlabeled pure

  unfoldable pub ensure_generated_auth_secret : Cluster → String → Io (Unit {0})
  ensure_generated_auth_secret c user =
      handle (get_secret c.namespace (generated_auth_secret_name c.name))
        (λ e. if is_not_found e then create_auth_secret c user else throw e) (λ _. pure tt)

  unfoldable pub reuse_password : Option String → Io String
  reuse_password none = random_password
  reuse_password (some previous) = if previous == "" then random_password else pure previous

  unfoldable pub admin_password_fallback : Cluster → Io String
  unfolding lookup
  admin_password_fallback c =
      handle (get_secret c.namespace (rendered_secret_name c.name))
        (λ e. if is_not_found e then random_password else throw e)
        λ existing. reuse_password (lookup generated_admin_password_key existing.entries)

  unfoldable pub marshalled : Option String → Io String
  marshalled none = throw (message "cannot marshal the config")
  marshalled (some text) = pure text

  unfoldable pub checked : String → String → World.Result DoormanConfig → Io (String × String)
  checked text admin (World.err e) = throw (message "the rendered config is invalid")
  checked text admin (World.ok cfg) = pure (text, admin)

  abbrev pub tls_files : Option TlsFiles
  tls_files = some (record {
    certificate = "/etc/pg-doorman-tls/tls.crt";
    private_key = "/tmp/pg_doorman-tls.key";
  })

  unfoldable pub render :
      PgDoormanSpec → String → Cluster → PluginConfiguration Q → Io (String × String)
  render spec ns c cfg = resolve_passwords ns spec >>= λ resolved.
      admin_password_fallback c >>= λ admin.
      marshalled (
        generate R.marshal_yaml spec cfg.pooler_port cfg.metrics_port
          (ensure_admin_password resolved admin) tls_files)
      >>= λ text. checked text admin (validate_config_bytes R.parse_yaml text)

  unfoldable pub encoded : Option String → Io (Option String)
  encoded none = throw (message "cannot marshal the binary spec")
  encoded (some text) = pure (some text)

  unfoldable pub json_of : Option BinarySpec → Bool → Io (Option String)
  json_of none in_place_upgrades = pure none
  json_of (some spec) in_place_upgrades =
      if not in_place_upgrades then pure none else encoded (R.marshal_json spec)

  -- nil where there is no binary or the cluster has not opted in.
  unfoldable pub binary_spec_json : Bool → Io (Option String)
  binary_spec_json in_place_upgrades = json_of R.binary in_place_upgrades

  abbrev with_binary : Option String → Map String → Map String
  with_binary none entries = entries
  with_binary (some json) entries = insert binary_spec_key json entries

  abbrev pub text_or_empty : Option String → String
  text_or_empty none = ""
  text_or_empty (some text) = text

  -- desired.Data
  abbrev pub desired_entries : String → String → Option String → Map String
  unfolding insert
  desired_entries text admin json =
      with_binary json ((config_key, text) ∷ (generated_admin_password_key, admin) ∷ [])

  unfoldable pub is_current : String → String → Option String → Secret → Bool
  is_current text admin json existing =
      entry_of existing.entries config_key == text
      && entry_of existing.entries generated_admin_password_key == admin
      && entry_of existing.entries binary_spec_key == text_or_empty json

  abbrev pub updated : Cluster → String → String → Option String → Secret → Secret
  updated c text admin json existing = record existing {
    entries = desired_entries text admin json;
    labels = insert cluster_label c.name existing.labels;
  }

  unfoldable pub update_secret : Cluster → String → String → Option String → Secret → Io (Unit {0})
  update_secret c text admin json existing =
      if is_current text admin json existing
      then pure tt
      else patch_secret c.namespace (rendered_secret_name c.name)
          (updated c text admin json existing)

  unfoldable pub upsert_secret : Cluster → String → String → Bool → Io (Unit {0})
  upsert_secret c text admin in_place_upgrades = binary_spec_json in_place_upgrades >>= λ json.
      handle (get_secret c.namespace (rendered_secret_name c.name))
        (λ e.
          if is_not_found e
          then create_secret c.namespace (rendered_secret_name c.name)
              (owned_secret c (desired_entries text admin json))
          else throw e)
        (update_secret c text admin json)
