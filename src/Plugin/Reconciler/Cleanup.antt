-- ===== src/Plugin/Reconciler/Cleanup.antt =====
-- What the hook leaves behind.
use cnpg_pg_doorman.Base.{◌≡◌, String, false, not, none, some, arith, eq_refl}
use cnpg_pg_doorman.Plugin.Config.{Cluster, Parsers, new_from_cluster, validate}
use cnpg_pg_doorman.Plugin.Api.{Api, Io, ok, pure, throw, handle, ◌>>=◌, ◌>>◌, delete_from}
use cnpg_pg_doorman.Plugin.Api.Frame.{handle_by, if_by, Along, IsSteady}
use cnpg_pg_doorman.Plugin.Controller.{rendered_secret_name}
use cnpg_pg_doorman.Plugin.Reconciler.Defs.{
  proceed, cleanup, cleanup_legacy_rbac, ignore_not_found, delete_role, delete_role_binding,
  delete_service, delete_rendered_secret, rbac_name, service_name, pre_valid, pre_cluster, pre,
}

-- What is not there does not appear.
record NothingNew (a b : Api) : Type 0 where
  roles : (ns n : String) → a.roles ns n ≡ none → b.roles ns n ≡ none
  role_bindings : (ns n : String) → a.role_bindings ns n ≡ none → b.role_bindings ns n ≡ none
  services : (ns n : String) → a.services ns n ≡ none → b.services ns n ≡ none
  secrets : (ns n : String) → a.secrets ns n ≡ none → b.secrets ns n ≡ none

nothing_new : IsSteady NothingNew
nothing_new = record {
  same = λ a. record {
    roles = λ ns n h. h;
    role_bindings = λ ns n h. h;
    services = λ ns n h. h;
    secrets = λ ns n h. h;
  };
  then_on = λ a b c p q. record {
    roles = λ ns n h. q.roles ns n (p.roles ns n h);
    role_bindings = λ ns n h. q.role_bindings ns n (p.role_bindings ns n h);
    services = λ ns n h. q.services ns n (p.services ns n h);
    secrets = λ ns n h. q.secrets ns n (p.secrets ns n h);
  };
}

NothingNew-delete_role : (c : Cluster) → Along NothingNew (delete_role c)
unfolding delete_role ignore_not_found delete_from handle pure throw
NothingNew-delete_role c = record {
  at = λ a. record {
    roles = λ ns n h. ground arith;
    role_bindings = λ ns n h. ground arith;
    services = λ ns n h. ground arith;
    secrets = λ ns n h. ground arith;
  };
}

delete_role-gone :
    (c : Cluster) (a : Api)
    → (delete_role c a).0 ≡ ok tt
    → (delete_role c a).1.roles c.namespace (rbac_name c.name) ≡ none
unfolding delete_role ignore_not_found delete_from handle pure throw
delete_role-gone c a h = ground (arith, eq_refl c.namespace, eq_refl (rbac_name c.name))

NothingNew-delete_role_binding : (c : Cluster) → Along NothingNew (delete_role_binding c)
unfolding delete_role_binding ignore_not_found delete_from handle pure throw
NothingNew-delete_role_binding c = record {
  at = λ a. record {
    roles = λ ns n h. ground arith;
    role_bindings = λ ns n h. ground arith;
    services = λ ns n h. ground arith;
    secrets = λ ns n h. ground arith;
  };
}

delete_role_binding-gone :
    (c : Cluster) (a : Api)
    → (delete_role_binding c a).0 ≡ ok tt
    → (delete_role_binding c a).1.role_bindings c.namespace (rbac_name c.name) ≡ none
unfolding delete_role_binding ignore_not_found delete_from handle pure throw
delete_role_binding-gone c a h = ground (arith, eq_refl c.namespace, eq_refl (rbac_name c.name))

NothingNew-delete_service : (c : Cluster) → Along NothingNew (delete_service c)
unfolding delete_service ignore_not_found delete_from handle pure throw
NothingNew-delete_service c = record {
  at = λ a. record {
    roles = λ ns n h. ground arith;
    role_bindings = λ ns n h. ground arith;
    services = λ ns n h. ground arith;
    secrets = λ ns n h. ground arith;
  };
}

delete_service-gone :
    (c : Cluster) (a : Api)
    → (delete_service c a).0 ≡ ok tt
    → (delete_service c a).1.services c.namespace (service_name c.name) ≡ none
unfolding delete_service ignore_not_found delete_from handle pure throw
delete_service-gone c a h = ground (arith, eq_refl c.namespace, eq_refl (service_name c.name))

NothingNew-delete_rendered_secret : (c : Cluster) → Along NothingNew (delete_rendered_secret c)
unfolding delete_rendered_secret ignore_not_found delete_from handle pure throw
NothingNew-delete_rendered_secret c = record {
  at = λ a. record {
    roles = λ ns n h. ground arith;
    role_bindings = λ ns n h. ground arith;
    services = λ ns n h. ground arith;
    secrets = λ ns n h. ground arith;
  };
}

delete_rendered_secret-gone :
    (c : Cluster) (a : Api)
    → (delete_rendered_secret c a).0 ≡ ok tt
    → (delete_rendered_secret c a).1.secrets c.namespace (rendered_secret_name c.name) ≡ none
unfolding delete_rendered_secret ignore_not_found delete_from handle pure throw
delete_rendered_secret-gone c a h =
    ground (arith, eq_refl c.namespace, eq_refl (rendered_secret_name c.name))

-- Where both of two calls succeed, what the first achieves stays, and the second adds its own.
pub seq_by :
    (P T : Api → Type 0) (m n : Io (Unit {0}))
    → ((a : Api) → (m a).0 ≡ ok tt → P (m a).1)
    → ((a : Api) → P a → P (n a).1)
    → ((a : Api) → (n a).0 ≡ ok tt → T (n a).1)
    → (a : Api) → ((m >> n) a).0 ≡ ok tt
    → P ((m >> n) a).1 × T ((m >> n) a).1
unfolding ◌>>=◌ throw
seq_by P T m n first stays second a =
    handle_by (λ r. r.0 ≡ ok tt → P r.1 × T r.1) m throw (λ _. n) a
      (λ x e k. (stays _ (first a e), second _ k)) (λ x e k. cc k)

module _ (c : Cluster) where
  abbrev pub NoRole : Api → Type 0
  NoRole a = a.roles c.namespace (rbac_name c.name) ≡ none

  abbrev pub NoRoleBinding : Api → Type 0
  NoRoleBinding a = a.role_bindings c.namespace (rbac_name c.name) ≡ none

  abbrev NoService : Api → Type 0
  NoService a = a.services c.namespace (service_name c.name) ≡ none

  abbrev NoRenderedSecret : Api → Type 0
  NoRenderedSecret a = a.secrets c.namespace (rendered_secret_name c.name) ≡ none

  -- The instances have no Role, and what the plugin made for them is gone.
  abbrev pub IsCleaned : Api → Type 0
  IsCleaned a = ((NoRole a × NoRoleBinding a) × NoService a) × NoRenderedSecret a

  pub cleanup_legacy_rbac-gone :
      (a : Api)
      → (cleanup_legacy_rbac c a).0 ≡ ok tt
      → NoRole (cleanup_legacy_rbac c a).1 × NoRoleBinding (cleanup_legacy_rbac c a).1
  unfolding cleanup_legacy_rbac
  cleanup_legacy_rbac-gone =
      seq_by NoRole NoRoleBinding (delete_role c) (delete_role_binding c) (delete_role-gone c)
        (λ a h. ((NothingNew-delete_role_binding c).at a).roles _ _ h) (delete_role_binding-gone c)

  cleanup-IsCleaned : (a : Api) → (cleanup c a).0 ≡ ok tt → IsCleaned (cleanup c a).1
  unfolding cleanup cleanup_legacy_rbac
  cleanup-IsCleaned =
      seq_by (λ a. (NoRole a × NoRoleBinding a) × NoService a) NoRenderedSecret
        (delete_role c >> delete_role_binding c >> delete_service c) (delete_rendered_secret c)
        (seq_by (λ a. NoRole a × NoRoleBinding a) NoService (delete_role c >> delete_role_binding c)
          (delete_service c) cleanup_legacy_rbac-gone
          (λ a (r, b).
            let n = (NothingNew-delete_service c).at a in (n.roles _ _ r, n.role_bindings _ _ b))
          (delete_service-gone c))
        (λ a ((r, b), s).
          let n = (NothingNew-delete_rendered_secret c).at a in
          ((n.roles _ _ r, n.role_bindings _ _ b), n.services _ _ s))
        (delete_rendered_secret-gone c)

  -- Where the plugin is off for a cluster and the hook tells the operator to go on, the Role, the
  -- RoleBinding, the Service of the pooler and the rendered Secret of the cluster are gone.
  pub pre-IsCleaned :
      {Q : Type 0} (p : Parsers Q) (sidecar_image : String) (a : Api)
      → (new_from_cluster p sidecar_image c).enabled ≡ false
      → (pre p sidecar_image (some "Cluster") (some c) a).0 ≡ ok proceed
      → IsCleaned (pre p sidecar_image (some "Cluster") (some c) a).1
  unfolding pre pre_cluster ◌>>=◌ throw pure
  pre-IsCleaned p sidecar_image a off =
      if_by (λ r. r.0 ≡ ok proceed → IsCleaned r.1)
        (not (new_from_cluster p sidecar_image c).enabled) (cleanup c >> pure proceed)
        (pre_valid p sidecar_image c (new_from_cluster p sidecar_image c)
          (validate p (new_from_cluster p sidecar_image c)))
        a
        (λ k.
          handle_by (λ r. r.0 ≡ ok proceed → IsCleaned r.1) (cleanup c) throw (λ _. pure proceed) a
            (λ x e h. cleanup-IsCleaned a e) (λ x e h. cc h))
        (λ k h. cc (rw off at k))
