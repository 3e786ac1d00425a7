-- ===== src/Plugin/Reconciler/Defs.antt =====
-- pre, cleanup, cleanupLegacyRBAC and ensureService of internal/reconciler/reconciler.go, with the
-- names and the Service of internal/specs.
use cnpg_pg_doorman.Base.{
  ℕ, String, ◌<>◌, ◌==◌, Bool, true, false, not, ◌&&◌, Option, none, some, List, [], ◌∷◌, nat_eq, ℤ,
  int_eq, if◌then◌else◌,
}
use cnpg_pg_doorman.Base.Maps.{Map, lookup}
use cnpg_pg_doorman.Plugin.Config.{
  Cluster, Parsers, PluginConfiguration, new_from_cluster, validate,
}
use cnpg_pg_doorman.Plugin.Api.{
  Io, Error, message, is_not_found, Service, ServicePort, IntOrString, from_int, from_string,
  PgDoorman, pure, throw, handle, ◌>>◌, fetch, delete_from, create_service, patch_service,
}
use cnpg_pg_doorman.Plugin.Controller.{rendered_secret_name}
use cnpg_pg_doorman.Plugin.Lifecycle.{to_int32}

-- GetRBACName
abbrev pub rbac_name : String → String
rbac_name cluster_name = cluster_name <> "-pg-doorman"

-- GetServiceName
abbrev pub service_name : String → String
service_name cluster_name = cluster_name <> "-doorman-rw"

-- BuildDoormanService, with the owner that ensureService sets.
unfoldable pub build_doorman_service : Cluster → ℤ → Service
build_doorman_service cluster pooler_port = record {
  labels = ("cnpg.io/cluster", cluster.name) ∷ [];
  selector = ("cnpg.io/cluster", cluster.name) ∷ ("cnpg.io/instanceRole", "primary") ∷ [];
  ports =
      record {
        name = "pooler";
        port = 5432;
        target_port = from_int (to_int32 pooler_port);
        protocol = "TCP";
        rest = "";
      }
      ∷ [];
  owner = cluster.name;
}

-- What the hook tells the operator: to go on, or to stop and come back after some seconds.
pub data Behavior : Type 0 where
  proceed : Behavior
  requeue_in : ℕ → Behavior

unfoldable pub ignore_not_found : Io (Unit {0}) → Io (Unit {0})
ignore_not_found m = handle m (λ e. if is_not_found e then pure tt else throw e) pure

unfoldable pub delete_role : Cluster → Io (Unit {0})
delete_role c =
    ignore_not_found
      (delete_from (λ a. a.roles) (λ s a. record a { roles = s }) c.namespace (rbac_name c.name))

unfoldable pub delete_role_binding : Cluster → Io (Unit {0})
delete_role_binding c = ignore_not_found (
    delete_from (λ a. a.role_bindings) (λ s a. record a { role_bindings = s }) c.namespace
      (rbac_name c.name))

unfoldable pub delete_service : Cluster → Io (Unit {0})
delete_service c = ignore_not_found (
    delete_from (λ a. a.services) (λ s a. record a { services = s }) c.namespace
      (service_name c.name))

unfoldable pub delete_rendered_secret : Cluster → Io (Unit {0})
delete_rendered_secret c = ignore_not_found (
    delete_from (λ a. a.secrets) (λ s a. record a { secrets = s }) c.namespace
      (rendered_secret_name c.name))

unfoldable pub cleanup : Cluster → Io (Unit {0})
cleanup c = delete_role c >> delete_role_binding c >> delete_service c >> delete_rendered_secret c

unfoldable pub cleanup_legacy_rbac : Cluster → Io (Unit {0})
cleanup_legacy_rbac c = delete_role c >> delete_role_binding c

-- equality.Semantic.DeepEqual on selectors, which are maps, and on ports.
abbrev pub has_value : Option String → String → Bool
has_value none v = false
has_value (some w) v = w == v

unfoldable pub included : Map String → Map String → Bool
unfolding lookup
included [] n = true
included ((key, v) ∷ m) n = has_value (lookup key n) v && included m n

abbrev pub same_target : IntOrString → IntOrString → Bool
same_target (from_int n) (from_int m) = int_eq n m
same_target (from_int n) (from_string t) = false
same_target (from_string s) (from_int m) = false
same_target (from_string s) (from_string t) = s == t

abbrev pub same_port : ServicePort → ServicePort → Bool
same_port p q =
    p.name == q.name
    && nat_eq p.port q.port
    && same_target p.target_port q.target_port
    && p.protocol == q.protocol
    && p.rest == q.rest

unfoldable pub same_ports : List ServicePort → List ServicePort → Bool
same_ports [] [] = true
same_ports [] (_ ∷ _) = false
same_ports (_ ∷ _) [] = false
same_ports (p ∷ ps) (q ∷ qs) = same_port p q && same_ports ps qs

unfoldable pub is_current_service : Service → Service → Bool
is_current_service svc new_service =
    included svc.selector new_service.selector
    && included new_service.selector svc.selector
    && same_ports svc.ports new_service.ports

abbrev pub with_spec : Service → Service → Service
with_spec svc new_service = record svc {
  selector = new_service.selector;
  ports = new_service.ports;
}

unfoldable pub update_service : Cluster → Service → Service → Io (Unit {0})
update_service c new_service svc =
    if is_current_service svc new_service
    then pure tt
    else patch_service c.namespace (service_name c.name) (with_spec svc new_service)

unfoldable pub ensure_service : Cluster → ℤ → Io (Unit {0})
ensure_service c pooler_port =
    let new_service = build_doorman_service c pooler_port in
    handle (fetch (λ a. a.services) c.namespace (service_name c.name))
      (λ e.
        if is_not_found e
        then create_service c.namespace (service_name c.name) new_service
        else throw e)
      (update_service c new_service)

module _ {Q : Type 0} (p : Parsers Q) (sidecar_image : String) where
  -- Without the PgDoorman: only a cluster that has no primary yet has to wait for it.
  unfoldable pub pre_missing : Cluster → Error → Io Behavior
  pre_missing c e =
      if is_not_found e
      then if not (c.current_primary == "") then pure proceed else pure (requeue_in 10)
      else throw e

  unfoldable pub pre_found : Cluster → PluginConfiguration Q → PgDoorman → Io Behavior
  pre_found c cfg d =
      if not (d.spec.cluster_ref == c.name)
      then throw (message "the PgDoorman belongs to another cluster")
      else cleanup_legacy_rbac c >> ensure_service c cfg.pooler_port >> pure proceed

  unfoldable pub pre_valid : Cluster → PluginConfiguration Q → Option String → Io Behavior
  pre_valid c cfg (some e) = throw (message e)
  pre_valid c cfg none =
      handle (fetch (λ a. a.doormans) c.namespace cfg.config_name) (pre_missing c) (pre_found c cfg)

  unfoldable pub pre_cluster : Cluster → Io Behavior
  pre_cluster c =
      let cfg = new_from_cluster p sidecar_image c in
      if not cfg.enabled then cleanup c >> pure proceed else pre_valid c cfg (validate p cfg)

  abbrev pre_decoded : Option Cluster → Io Behavior
  pre_decoded none = throw (message "cannot decode the cluster")
  pre_decoded (some c) = pre_cluster c

  -- pre: `none` is an object whose kind, or whose Cluster, does not decode.
  unfoldable pub pre : Option String → Option Cluster → Io Behavior
  pre none c = throw (message "cannot get the object kind")
  pre (some kind) c = if not (kind == "Cluster") then pure proceed else pre_decoded c
