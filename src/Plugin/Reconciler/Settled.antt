-- ===== src/Plugin/Reconciler/Settled.antt =====
-- A hook that runs again finds its work done (`Pre` of internal/reconciler/reconciler.go).
use cnpg_pg_doorman.Base.{
  ◌≡◌, refl, ap, sym, ◌∙◌, if◌then◌else◌, Bool, ℕ, ◌==◌, String, true, false, not, Option, none,
  some, ℤ, eq_iff,
}
use cnpg_pg_doorman.Plugin.Config.{
  Cluster, Parsers, PluginConfiguration, new_from_cluster, validate,
}
use cnpg_pg_doorman.Plugin.Api.{
  Api, Io, ok, pure, throw, handle, ◌>>=◌, fetch, PgDoorman, delete_from, called,
}
use cnpg_pg_doorman.Plugin.Reconciler.Defs.{
  proceed, cleanup_legacy_rbac, ensure_service, update_service, pre_found, pre_valid, pre_cluster,
  pre, ignore_not_found, delete_role, delete_role_binding,
}
use cnpg_pg_doorman.Plugin.Reconciler.Cleanup.{NoRole, NoRoleBinding}
use cnpg_pg_doorman.Plugin.Reconciler.Served.{Serves, IsServed, pre-IsServed}

-- No call fails from here on.
abbrev pub IsUp : Api → Type 0
IsUp a = (n : ℕ) → a.fault n ≡ false

if_not :
    {A : Type 0} (b : Bool) (m n : Io A) (a : Api) → b ≡ true → (if not b then m else n) a ≡ n a
if_not true m n a h = refl
if_not false m n a h = cc h

module _ (c : Cluster) where
  delete_role-settled : (a : Api) → IsUp a → NoRole c a → delete_role c a ≡ (ok tt, called a)
  unfolding delete_role ignore_not_found handle delete_from pure
  delete_role-settled a up gone = rw (up a.calls, gone) refl

  delete_role_binding-settled :
      (a : Api) → IsUp a → NoRoleBinding c a → delete_role_binding c a ≡ (ok tt, called a)
  unfolding delete_role_binding ignore_not_found handle delete_from pure
  delete_role_binding-settled a up gone = rw (up a.calls, gone) refl

  cleanup_legacy_rbac-settled :
      (a : Api)
      → IsUp a
      → NoRole c a
      → NoRoleBinding c a
      → cleanup_legacy_rbac c a ≡ (ok tt, called (called a))
  unfolding cleanup_legacy_rbac ◌>>=◌
  cleanup_legacy_rbac-settled a up role binding =
      rw (delete_role-settled a up role, delete_role_binding-settled (called a) up binding) refl

  ensure_service-settled :
      (port : ℤ) (a : Api) → IsUp a → Serves c port a → ensure_service c port a ≡ (ok tt, called a)
  unfolding ensure_service handle fetch update_service pure
  ensure_service-settled port a up (s, there, current) = rw (up a.calls, there, current) refl

  module _ {Q : Type 0} (p : Parsers Q) (sidecar_image : String) where
    pre_found-settled :
        (cfg : PluginConfiguration Q) (d : PgDoorman) (a : Api)
        → IsUp a
        → d.spec.cluster_ref ≡ c.name
        → IsServed c cfg.pooler_port a
        → pre_found p sidecar_image c cfg d a ≡ (ok proceed, called (called (called a)))
    unfolding pre_found ◌>>=◌ handle pure
    pre_found-settled cfg d a up own ((role, binding), serves) =
        let same : (d.spec.cluster_ref == c.name) ≡ true =
          (eq_iff d.spec.cluster_ref c.name).1 own in
        rw
          (
            same,
            cleanup_legacy_rbac-settled a up role binding,
            ensure_service-settled cfg.pooler_port (called (called a)) up serves,
          )
          refl

    pre_valid-settled :
        (cfg : PluginConfiguration Q) (d : PgDoorman) (a : Api)
        → IsUp a
        → a.doormans c.namespace cfg.config_name ≡ some d
        → d.spec.cluster_ref ≡ c.name
        → IsServed c cfg.pooler_port a
        → pre_valid p sidecar_image c cfg none a ≡ (ok proceed, called (called (called (called a))))
    unfolding pre_valid handle fetch
    pre_valid-settled cfg d a up there own served =
        rw (up a.calls, there, pre_found-settled cfg d (called a) up own served) refl

    pre-enabled :
        (a : Api)
        → (new_from_cluster p sidecar_image c).enabled ≡ true
        → let cfg = new_from_cluster p sidecar_image c in
          pre p sidecar_image (some "Cluster") (some c) a
          ≡ pre_valid p sidecar_image c cfg (validate p cfg) a
    unfolding pre pre_cluster
    pre-enabled a on = if_not (new_from_cluster p sidecar_image c).enabled _ _ a on

    pre_valid-passed :
        (cfg : PluginConfiguration Q) (o : Option String) (a : Api)
        → (pre_valid p sidecar_image c cfg o a).0 ≡ ok proceed
        → o ≡ none
    unfolding pre_valid throw
    pre_valid-passed cfg none a h = refl
    pre_valid-passed cfg (some e) a h = cc h

    -- A hook of an enabled plugin that tells the operator to go on has found the parameters valid.
    pub pre-valid :
        (a : Api)
        → (new_from_cluster p sidecar_image c).enabled ≡ true
        → (pre p sidecar_image (some "Cluster") (some c) a).0 ≡ ok proceed
        → validate p (new_from_cluster p sidecar_image c) ≡ none
    pre-valid a on h =
        let cfg = new_from_cluster p sidecar_image c in
        pre_valid-passed cfg (validate p cfg) a (ap (λ r. r.0) (sym (pre-enabled a on)) ∙ h)

    -- If the plugin is enabled on the cluster, the hook has told the operator to go on, and the
    -- PgDoorman of the configName was there and still is and belongs to the cluster, then the hook
    -- called again with no call failing tells the operator to go on, and changes nothing: it makes
    -- four calls, two deletions of what is not there and two reads.
    pub pre_twice :
        (a : Api) (d e : PgDoorman)
        → (new_from_cluster p sidecar_image c).enabled ≡ true
        → a.doormans c.namespace (new_from_cluster p sidecar_image c).config_name ≡ some d
        → (pre p sidecar_image (some "Cluster") (some c) a).0 ≡ ok proceed
        → let a' = (pre p sidecar_image (some "Cluster") (some c) a).1 in
          IsUp a'
          → a'.doormans c.namespace (new_from_cluster p sidecar_image c).config_name ≡ some e
          → e.spec.cluster_ref ≡ c.name
          → pre p sidecar_image (some "Cluster") (some c) a'
            ≡ (ok proceed, called (called (called (called a'))))
    pre_twice a d e on there h up still own =
        let cfg = new_from_cluster p sidecar_image c in
        let a' = (pre p sidecar_image (some "Cluster") (some c) a).1 in
        let (_, served) = pre-IsServed c p sidecar_image a d on there h in
        let valid = pre-valid a on h in
        pre-enabled a' on
        ∙ ap (λ o. pre_valid p sidecar_image c cfg o a') valid
        ∙ pre_valid-settled cfg e a' up still own served
