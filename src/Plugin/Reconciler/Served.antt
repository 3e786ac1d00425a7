-- ===== src/Plugin/Reconciler/Served.antt =====
-- The Service that the hook sees to.
use cnpg_pg_doorman.Base.{
  ◌≡◌, refl, sym, ap, ◌∙◌, String, ◌==◌, true, not, Option, none, some, ℤ, pos, negsuc, int_eq,
  arith, eq_iff, eq_refl,
}
use cnpg_pg_doorman.Base.Maps.{lookup}
use cnpg_pg_doorman.Plugin.Config.{
  Cluster, Parsers, PluginConfiguration, new_from_cluster, validate,
}
use cnpg_pg_doorman.Plugin.Api.{
  Api, ok, is_not_found, pure, throw, handle, ◌>>=◌, ◌>>◌, fetch, PgDoorman, message,
  create_service, patch_service, Service,
}
use cnpg_pg_doorman.Plugin.Api.Frame.{handle_by, if_by, fetch-ok, fetch-failed}
use cnpg_pg_doorman.Plugin.Lifecycle.{to_int32}
use cnpg_pg_doorman.Plugin.Reconciler.Defs.{
  proceed, cleanup_legacy_rbac, ensure_service, update_service, is_current_service, included,
  same_ports, build_doorman_service, with_spec, service_name, pre_missing, pre_found, pre_valid,
  pre_cluster, pre, cleanup,
}
use cnpg_pg_doorman.Plugin.Reconciler.Cleanup.{
  seq_by, NoRole, NoRoleBinding, cleanup_legacy_rbac-gone,
}

int_eq_refl : (n : ℤ) → int_eq n n ≡ true
int_eq_refl (pos n) = ground arith
int_eq_refl (negsuc n) = ground arith

-- Of two Services with the selector and the ports of a third, each counts as the other.
is_current_service-built :
    (c : Cluster) (port : ℤ) (s : Service)
    → s.selector ≡ (build_doorman_service c port).selector
    → s.ports ≡ (build_doorman_service c port).ports
    → is_current_service s (build_doorman_service c port) ≡ true
unfolding is_current_service included same_ports build_doorman_service lookup
is_current_service-built c port s e k = rw (e, k, eq_refl c.name, int_eq_refl (to_int32 port)) refl

fetched-services :
    (ns n : String) (a : Api) (s : Service)
    → (fetch (λ b. b.services) ns n a).0 ≡ ok s
    → (fetch (λ b. b.services) ns n a).1.services ns n ≡ some s
unfolding fetch
fetched-services ns n a s h = ground arith

put_service-there :
    (ns n : String) (s : Service) (a : Api)
    → (patch_service ns n s a).0 ≡ ok tt
    → (patch_service ns n s a).1.services ns n ≡ some s
unfolding patch_service
put_service-there ns n s a h = ground (arith, eq_refl ns, eq_refl n)

create_service-there :
    (ns n : String) (s : Service) (a : Api)
    → (create_service ns n s a).0 ≡ ok tt
    → (create_service ns n s a).1.services ns n ≡ some s
unfolding create_service
create_service-there ns n s a h = ground (arith, eq_refl ns, eq_refl n)

module _ (c : Cluster) where
  -- There is a Service that the hook would leave as it is.
  abbrev pub Serves : ℤ → Api → Type 0
  Serves port a =
      (s : Service) × (a.services c.namespace (service_name c.name) ≡ some s)
      × (is_current_service s (build_doorman_service c port) ≡ true)

  update_service-Serves :
      (port : ℤ) (s : Service) (a : Api)
      → a.services c.namespace (service_name c.name) ≡ some s
      → (update_service c (build_doorman_service c port) s a).0 ≡ ok tt
      → Serves port (update_service c (build_doorman_service c port) s a).1
  unfolding update_service pure
  update_service-Serves port s a there =
      let built = build_doorman_service c port in
      if_by (λ r. r.0 ≡ ok tt → Serves port r.1) (is_current_service s built) (pure tt)
        (patch_service c.namespace (service_name c.name) (with_spec s built)) a
        (λ k h. (s, there, k))
        (λ k h. (
          with_spec s built,
          put_service-there c.namespace (service_name c.name) _ a h,
          is_current_service-built c port (with_spec s built) refl refl,
        ))

  ensure_service-Serves :
      (port : ℤ) (a : Api)
      → (ensure_service c port a).0 ≡ ok tt
      → Serves port (ensure_service c port a).1
  unfolding ensure_service throw
  ensure_service-Serves port a =
      let built = build_doorman_service c port in
      handle_by (λ r. r.0 ≡ ok tt → Serves port r.1)
        (fetch (λ b. b.services) c.namespace (service_name c.name)) _ (update_service c built) a
        (λ s e. update_service-Serves port s _ (fetched-services c.namespace _ a s e))
        (λ x e.
          if_by (λ r. r.0 ≡ ok tt → Serves port r.1) (is_not_found x)
            (create_service c.namespace (service_name c.name) built) (throw x) _
            (λ k h. (
              built,
              create_service-there c.namespace (service_name c.name) built _ h,
              is_current_service-built c port built refl refl,
            ))
            (λ k h. cc h))

  ensure_service-roles :
      (port : ℤ) (a : Api)
      → ((ensure_service c port a).1.roles ≡ a.roles)
        × ((ensure_service c port a).1.role_bindings ≡ a.role_bindings)
  unfolding ensure_service handle fetch update_service create_service patch_service pure throw
  ensure_service-roles port a = (ground arith, ground arith)

  -- The legacy rights are gone and the Service is current.
  abbrev pub IsServed : ℤ → Api → Type 0
  IsServed port a = (NoRole c a × NoRoleBinding c a) × Serves port a

  pre_found-IsServed :
      {Q : Type 0} (p : Parsers Q) (sidecar_image : String) (cfg : PluginConfiguration Q)
      (d : PgDoorman) (a : Api)
      → (pre_found p sidecar_image c cfg d a).0 ≡ ok proceed
      → (d.spec.cluster_ref ≡ c.name)
        × IsServed cfg.pooler_port (pre_found p sidecar_image c cfg d a).1
  unfolding pre_found ◌>>=◌ throw pure
  pre_found-IsServed p sidecar_image cfg d a =
      let prepared = cleanup_legacy_rbac c >> ensure_service c cfg.pooler_port in
      if_by (λ r. r.0 ≡ ok proceed → (d.spec.cluster_ref ≡ c.name) × IsServed cfg.pooler_port r.1)
        (not (d.spec.cluster_ref == c.name))
        (throw (message "the PgDoorman belongs to another cluster")) (prepared >> pure proceed) a
        (λ k h. cc h)
        (λ k.
          handle_by
            (λ r. r.0 ≡ ok proceed → (d.spec.cluster_ref ≡ c.name) × IsServed cfg.pooler_port r.1)
            prepared throw (λ _. pure proceed) a
            (λ x e h. (
              ground (arith, eq_iff d.spec.cluster_ref c.name),
              seq_by (λ b. NoRole c b × NoRoleBinding c b) (Serves cfg.pooler_port)
                  (cleanup_legacy_rbac c) (ensure_service c cfg.pooler_port)
                  (cleanup_legacy_rbac-gone c)
                  (λ b (r, s).
                    let (k, l) = ensure_service-roles cfg.pooler_port b in (rw k r, rw l s))
                  (ensure_service-Serves cfg.pooler_port) a e,
            ))
            (λ x e h. cc h))

  pre_valid-IsServed :
      {Q : Type 0} (p : Parsers Q) (sidecar_image : String) (cfg : PluginConfiguration Q)
      (o : Option String) (d : PgDoorman) (a : Api)
      → a.doormans c.namespace cfg.config_name ≡ some d
      → (pre_valid p sidecar_image c cfg o a).0 ≡ ok proceed
      → (d.spec.cluster_ref ≡ c.name)
        × IsServed cfg.pooler_port (pre_valid p sidecar_image c cfg o a).1
  unfolding pre_valid throw pre_missing
  pre_valid-IsServed p sidecar_image cfg (some e) d a there = λ h. cc h
  pre_valid-IsServed p sidecar_image cfg none d a there =
      handle_by
        (λ r. r.0 ≡ ok proceed → (d.spec.cluster_ref ≡ c.name) × IsServed cfg.pooler_port r.1)
        (fetch (λ b. b.doormans) c.namespace cfg.config_name) (pre_missing p sidecar_image c)
        (pre_found p sidecar_image c cfg) a
        (λ x e h.
          let same : x ≡ d =
            cc (fetch-ok (λ b. b.doormans) c.namespace cfg.config_name a e, there) in
          let (r, s) = pre_found-IsServed p sidecar_image cfg x _ h in
          (ap (λ o. o.spec.cluster_ref) (sym same) ∙ r, s))
        (λ x e h.
          cc (rw (fetch-failed (λ b. b.doormans) c.namespace cfg.config_name a x e there) at h))

  pub pre-IsServed :
      {Q : Type 0} (p : Parsers Q) (sidecar_image : String) (a : Api) (d : PgDoorman)
      → (new_from_cluster p sidecar_image c).enabled ≡ true
      → a.doormans c.namespace (new_from_cluster p sidecar_image c).config_name ≡ some d
      → (pre p sidecar_image (some "Cluster") (some c) a).0 ≡ ok proceed
      → (d.spec.cluster_ref ≡ c.name)
        × IsServed
            (new_from_cluster p sidecar_image c).pooler_port
            (pre p sidecar_image (some "Cluster") (some c) a).1
  unfolding pre pre_cluster
  pre-IsServed p sidecar_image a d on there =
      let cfg = new_from_cluster p sidecar_image c in
      if_by (λ r. r.0 ≡ ok proceed → (d.spec.cluster_ref ≡ c.name) × IsServed cfg.pooler_port r.1)
        (not cfg.enabled) (cleanup c >> pure proceed)
        (pre_valid p sidecar_image c cfg (validate p cfg)) a (λ k h. cc (rw on at k))
        (λ k. pre_valid-IsServed p sidecar_image cfg (validate p cfg) d a there)
