-- ===== src/Plugin/Controller/Loop.antt =====
-- Reconcile of internal/controller/renderedconfig.go, from its parts.
use cnpg_pg_doorman.Base.{
  String, ◌<>◌, ◌==◌, Bool, true, false, not, ◌||◌, Option, none, some, if◌then◌else◌,
}
use cnpg_pg_doorman.Plugin.Config.{Cluster, PluginConfiguration, new_from_cluster, validate}
use cnpg_pg_doorman.Plugin.Defaults.{PgDoormanSpec}
use cnpg_pg_doorman.Plugin.Api.{
  is_not_found, Io, Error, not_found, already_exists, failed, message, wrap, Result, ok, err,
  PgDoorman, pure, throw, handle, ◌>>=◌, ◌>>◌, emit, fetch,
}
use cnpg_pg_doorman.Plugin.AuthSecrets.{default_auth_secret_refs}
use cnpg_pg_doorman.Plugin.Controller.Defs.{
  Renderer, Outcome, done, requeue_after, requeue_delay, set_rendered, reconcile_deletion,
  ensure_finalizer, validate_secret_ownership, ensure_generated_auth_secret, render, upsert_secret,
}

abbrev pub text_of : Error → String
text_of not_found = "not found"
text_of already_exists = "already exists"
text_of failed = "request failed"
text_of (message text) = text
text_of (wrap text e) = text <> ": " <> text_of e

-- The event and the condition for an error that is tried again later.
abbrev pub give_up : PgDoorman → String → Error → Io Outcome
give_up d reason e =
    emit reason >> set_rendered d false reason (text_of e) >> pure (requeue_after requeue_delay)

-- The same for one that only a change of the objects can mend.
abbrev pub refuse : PgDoorman → String → String → Io Outcome
refuse d reason text = emit reason >> set_rendered d false reason text >> pure done

module _ {Q : Type 0} (R : Renderer Q) where
  -- From the rendered text on.
  unfoldable pub store_config :
      PgDoorman → Cluster → PluginConfiguration Q → String × String → Io Outcome
  store_config d c cfg (text, admin) =
      upsert_secret R c text admin cfg.in_place_upgrades
      >> set_rendered d true "Rendered" "generation rendered into the config secret"
      >> pure done

  -- From the check of the referenced Secrets on.
  unfoldable pub render_and_store :
      PgDoorman → Cluster → PluginConfiguration Q → PgDoormanSpec → Io Outcome
  render_and_store d c cfg spec =
      handle (validate_secret_ownership d.namespace spec c.name) (give_up d "SecretNotAllowed") λ _.
        handle (render R spec d.namespace c cfg) (give_up d "RenderFailed") (store_config d c cfg)

  unfoldable pub auth_secret : Cluster → String → Io (Unit {0})
  auth_secret c user = if user == "" then pure tt else ensure_generated_auth_secret R c user

  unfoldable pub referring :
      PgDoorman → Cluster → PluginConfiguration Q → Result (PgDoormanSpec × String) → Io Outcome
  referring d c cfg (err e) = refuse d "InvalidSpec" (text_of e)
  referring d c cfg (ok (spec, user)) =
      handle (auth_secret c user) (give_up d "AuthSecretFailed") λ _. render_and_store d c cfg spec

  unfoldable pub deployable :
      PgDoorman → Cluster → PluginConfiguration Q → Option String → Io Outcome
  deployable d c cfg (some e) = refuse d "InvalidPluginConfig" e
  deployable d c cfg none = referring d c cfg (default_auth_secret_refs d.spec)

  -- Reconcile for a PgDoorman that stays, once its finalizer is right.
  unfoldable pub reconcile_config : PgDoorman → Option Cluster → Io Outcome
  reconcile_config d none = pure (requeue_after requeue_delay)
  reconcile_config d (some c) =
      let cfg = new_from_cluster R.parsers R.sidecar_image c in
      if not cfg.enabled || not (cfg.config_name == d.name)
      then pure done
      else deployable d c cfg (validate R.parsers cfg)

  abbrev pub uses : Option Cluster → PgDoorman → Bool
  uses none d = false
  uses (some c) d = (new_from_cluster R.parsers R.sidecar_image c).config_name == d.name

  unfoldable pub reconcile_found : PgDoorman → Option Cluster → Io Outcome
  reconcile_found d o =
      if d.deleting
      then reconcile_deletion d (uses o d)
      else ensure_finalizer d (uses o d) >>= λ d'. reconcile_config d' o

  unfoldable pub find_cluster : PgDoorman → Io (Option Cluster)
  find_cluster d =
      handle (fetch (λ a. a.clusters) d.namespace d.spec.cluster_ref)
        (λ e. if is_not_found e then pure none else throw e) (λ c. pure (some c))

  -- Reconcile
  unfoldable pub reconcile : String → String → Io Outcome
  reconcile ns name =
      handle (fetch (λ a. a.doormans) ns name) (λ e. if is_not_found e then pure done else throw e)
        λ d. find_cluster d >>= reconcile_found d
