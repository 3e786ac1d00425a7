-- ===== src/Plugin/Reconciler/Outcomes.antt =====
-- What the hook tells the operator.
use cnpg_pg_doorman.Base.{◌≢◌, ℕ, String, ◌==◌, not, Option, none, some, arith, eq_iff}
use cnpg_pg_doorman.Plugin.Config.{
  Cluster, Parsers, PluginConfiguration, new_from_cluster, validate,
}
use cnpg_pg_doorman.Plugin.Api.{
  Api, Io, Error, Result, ok, pure, throw, ◌>>◌, fetch, PgDoorman, message,
}
use cnpg_pg_doorman.Plugin.Api.Frame.{handle_by, if_by, bind-ok}
use cnpg_pg_doorman.Plugin.Reconciler.Defs.{
  Behavior, proceed, requeue_in, cleanup, cleanup_legacy_rbac, ensure_service, pre_missing,
  pre_found, pre_valid, pre_cluster, pre,
}

then_proceeds :
    {A : Type 0} (m : Io A) (a : Api) (n : ℕ) → ((m >> pure proceed) a).0 ≢ ok (requeue_in n)
unfolding pure
then_proceeds m a n h = let (x, e, k) = bind-ok m (λ _. pure proceed) a h in cc k

module _ {Q : Type 0} (p : Parsers Q) (sidecar_image : String) where
  -- The answer is not to wait.
  abbrev Goes : Result Behavior × Api → Type 0
  Goes r = (n : ℕ) → r.0 ≢ ok (requeue_in n)

  pre_missing-Goes :
      (c : Cluster) (e : Error) (a : Api)
      → c.current_primary ≢ ""
      → Goes (pre_missing p sidecar_image c e a)
  unfolding pre_missing pure throw
  pre_missing-Goes c e a running n h = ground (arith, eq_iff c.current_primary "")

  pre_found-Goes :
      (c : Cluster) (cfg : PluginConfiguration Q) (d : PgDoorman) (a : Api)
      → Goes (pre_found p sidecar_image c cfg d a)
  unfolding pre_found throw
  pre_found-Goes c cfg d a =
      if_by Goes (not (d.spec.cluster_ref == c.name))
        (throw (message "the PgDoorman belongs to another cluster"))
        (cleanup_legacy_rbac c >> ensure_service c cfg.pooler_port >> pure proceed) a
        (λ k n h. cc h) (λ k n. then_proceeds _ a n)

  pre_valid-Goes :
      (c : Cluster) (cfg : PluginConfiguration Q) (o : Option String) (a : Api)
      → c.current_primary ≢ ""
      → Goes (pre_valid p sidecar_image c cfg o a)
  unfolding pre_valid throw
  pre_valid-Goes c cfg (some e) a running = λ n h. cc h
  pre_valid-Goes c cfg none a running =
      handle_by Goes (fetch (λ b. b.doormans) c.namespace cfg.config_name) _ _ a
        (λ d e. pre_found-Goes c cfg d _) (λ x e. pre_missing-Goes c x _ running)

  -- For a cluster that has a primary, the hook never tells the operator to stop and come back later,
  -- whatever the state of the API server and whatever calls fail.
  pub pre-goes_on_running :
      (kind : String) (c : Cluster) (a : Api) (n : ℕ)
      → c.current_primary ≢ ""
      → (pre p sidecar_image (some kind) (some c) a).0 ≢ ok (requeue_in n)
  unfolding pre pre_cluster pure
  pre-goes_on_running kind c a n running =
      let cfg = new_from_cluster p sidecar_image c in
      if_by Goes (not (kind == "Cluster")) (pure proceed) (pre_cluster p sidecar_image c) a
        (λ k m h. cc h)
        (λ k.
          if_by Goes (not cfg.enabled) (cleanup c >> pure proceed)
            (pre_valid p sidecar_image c cfg (validate p cfg)) a
            (λ off m. then_proceeds (cleanup c) a m)
            (λ on. pre_valid-Goes c cfg (validate p cfg) a running))
        n
