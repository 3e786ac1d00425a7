-- ===== src/Plugin/Controller/Whole.antt =====
-- A whole run of Reconcile (internal/controller/renderedconfig.go).
use mathlib.Core.Path.{subst}
use cnpg_pg_doorman.Base.{
  ap, sym, eq_iff, ◌≡◌, refl, ◌∙◌, ◌⊎◌, inl, inr, String, ◌==◌, true, false, not, ◌||◌, Option,
  none, some, arith,
}
use cnpg_pg_doorman.Plugin.Config.{Cluster, PluginConfiguration, new_from_cluster, validate}
use cnpg_pg_doorman.Plugin.Defaults.{PgDoormanSpec}
use cnpg_pg_doorman.Plugin.Api.{
  is_not_found, Api, Io, Error, Result, ok, err, PgDoorman, pure, throw, handle, ◌>>=◌, fetch,
  already_exists, not_found, failed, message, wrap,
}
use cnpg_pg_doorman.Plugin.Api.Frame.{
  Along, SameSecrets, same_secrets, along_rules, Along-pure, Along-throw, handle_by, if_by,
  NoSecretLost, no_secret_lost, same-not_lost, NoSecretLost-create_secret, fetch-ok,
  SameSecrets-fetch,
}
use cnpg_pg_doorman.Plugin.AuthSecrets.{default_auth_secret_refs}
use cnpg_pg_doorman.Plugin.Controller.Defs.{
  Renderer, Outcome, done, exists_unlabeled, ensure_generated_auth_secret, ensure_finalizer,
  reconcile_deletion,
}
use cnpg_pg_doorman.Plugin.Controller.Loop.{
  auth_secret, referring, deployable, reconcile_config, reconcile_found, find_cluster, reconcile,
  refuse, uses,
}
use cnpg_pg_doorman.Plugin.Controller.Finalizer.{IsSame, ensure_finalizer-IsSame}
use cnpg_pg_doorman.Plugin.Controller.Reads.{
  SameSecrets-set_rendered, SameSecrets-random_password, SameSecrets-ensure_finalizer,
  SameSecrets-reconcile_deletion,
}
use cnpg_pg_doorman.Plugin.Controller.Safety.{
  IsRendered, render_and_store-RendersOrStops, SameSecrets-give_up,
}

SameSecrets-refuse :
    (d : PgDoorman) (reason text : String) → Along SameSecrets (refuse d reason text)
SameSecrets-refuse d reason text = search (along_rules, SameSecrets-set_rendered) depth 12

module _ {Q : Type 0} (R : Renderer Q) where
  NoSecretLost-exists_unlabeled : (e : Error) → Along NoSecretLost (exists_unlabeled R e)
  unfolding exists_unlabeled
  NoSecretLost-exists_unlabeled not_found = Along-throw no_secret_lost _
  NoSecretLost-exists_unlabeled already_exists = Along-throw no_secret_lost _
  NoSecretLost-exists_unlabeled failed = Along-throw no_secret_lost _
  NoSecretLost-exists_unlabeled (message t) = Along-throw no_secret_lost _
  NoSecretLost-exists_unlabeled (wrap t e) = Along-throw no_secret_lost _

  NoSecretLost-auth_secret :
      (c : Cluster) (user : String) → Along NoSecretLost (auth_secret R c user)
  unfolding auth_secret ensure_generated_auth_secret
  NoSecretLost-auth_secret c user =
      search
        (
          along_rules, no_secret_lost, same-not_lost, NoSecretLost-create_secret,
          NoSecretLost-exists_unlabeled, SameSecrets-random_password,
        )
        depth 24

  -- No Secret that was there changed, or, after such calls, a config was stored.
  abbrev pub MayRender :
      String
      → Cluster
      → PluginConfiguration Q
      → Result (PgDoormanSpec × String)
      → Api
      → Result Outcome × Api
      → Type 0
  MayRender ns c cfg s a r =
      NoSecretLost a r.1
      ⊎ ((spec : PgDoormanSpec) × ((user : String) × (s ≡ ok (spec, user)))
          × (mid : Api) × NoSecretLost a mid
          × IsRendered R ns c cfg spec mid r.1)

  then_same :
      {A : Type 0} {m : Io A} (a b : Api)
      → NoSecretLost a b
      → Along SameSecrets m
      → NoSecretLost a (m b).1
  then_same a b k same n m s h = rw (same.at b) (k n m s h)

  may_same :
      (ns : String) (c : Cluster) (cfg : PluginConfiguration Q)
      (s : Result (PgDoormanSpec × String)) {m : Io Outcome} (a : Api)
      → Along SameSecrets m
      → MayRender ns c cfg s a (m a)
  may_same ns c cfg s a k = inl ((same-not_lost k).at a)

  referring-MayRender :
      (d : PgDoorman) (c : Cluster) (cfg : PluginConfiguration Q)
      (s : Result (PgDoormanSpec × String)) (a : Api)
      → MayRender d.namespace c cfg s a (referring R d c cfg s a)
  unfolding referring
  referring-MayRender d c cfg (err e) a =
      may_same d.namespace c cfg (err e) a (SameSecrets-refuse d _ _)
  referring-MayRender d c cfg (ok (spec, user)) a =
      let kept = (NoSecretLost-auth_secret c user).at a in
      handle_by (MayRender d.namespace c cfg (ok (spec, user)) a) (auth_secret R c user) _ _ a
        (λ x e. elim (render_and_store-RendersOrStops R d c cfg spec (auth_secret R c user a).1) [
          | inl (same, _) ↦ inl (λ n m s h. rw same (kept n m s h))
          | inr r ↦ inr (spec, (user, refl), (auth_secret R c user a).1, kept, r)
        ])
        (λ x e. inl (then_same a (auth_secret R c user a).1 kept (SameSecrets-give_up d _ x)))

  deployable-MayRender :
      (d : PgDoorman) (c : Cluster) (cfg : PluginConfiguration Q) (o : Option String) (a : Api)
      → MayRender d.namespace c cfg (default_auth_secret_refs d.spec) a (deployable R d c cfg o a)
  unfolding deployable
  deployable-MayRender d c cfg none a = referring-MayRender d c cfg _ a
  deployable-MayRender d c cfg (some e) a =
      may_same d.namespace c cfg (default_auth_secret_refs d.spec) a (SameSecrets-refuse d _ _)

  -- What a run that stores a config has seen: the PgDoorman, which stays, and the Cluster that uses it.
  pub record Rendering (d : PgDoorman) (a b : Api) : Type 0 where
    pub cluster : Cluster
    pub spec : PgDoormanSpec
    pub mid : Api
    pub normalized : (user : String) × (default_auth_secret_refs d.spec ≡ ok (spec, user))
    pub found : a.clusters d.namespace d.spec.cluster_ref ≡ some cluster
    pub enabled : (new_from_cluster R.parsers R.sidecar_image cluster).enabled ≡ true
    pub named : (new_from_cluster R.parsers R.sidecar_image cluster).config_name ≡ d.name
    pub stays : d.deleting ≡ false
    pub before : NoSecretLost a mid
    pub rendered :
        IsRendered R d.namespace cluster
          (new_from_cluster R.parsers R.sidecar_image cluster)
          spec
          mid
          b

  -- No Secret that was there changed, or a config was stored for `d`.
  abbrev pub RendersOnly : PgDoorman → Api → Result Outcome × Api → Type 0
  RendersOnly d a r = NoSecretLost a r.1 ⊎ Rendering d a r.1

  reconcile_config-RendersOnly :
      (d d' : PgDoorman) (o : Option Cluster) (a b : Api)
      → IsSame d d'
      → d.deleting ≡ false
      → b.secrets ≡ a.secrets
      → ((c : Cluster) → o ≡ some c → a.clusters d.namespace d.spec.cluster_ref ≡ some c)
      → RendersOnly d a (reconcile_config R d' o b)
  unfolding reconcile_config
  reconcile_config-RendersOnly d d' none a b same stays e found =
      inl (then_same a b (λ n m s h. rw e h) (Along-pure same_secrets _))
  reconcile_config-RendersOnly d d' (some c) a b (ns, sp, nm) stays e found =
      let cfg = new_from_cluster R.parsers R.sidecar_image c in
      if_by (RendersOnly d a) (not cfg.enabled || not (cfg.config_name == d'.name)) (pure done)
        (deployable R d' c cfg (validate R.parsers cfg)) b
        (λ _. inl (then_same a b (λ n m s h. rw e h) (Along-pure same_secrets _)))
        (λ k. elim (deployable-MayRender d' c cfg (validate R.parsers cfg) b) [
          | inl kept ↦ inl (λ n m s h. kept n m s (rw e h))
          | inr (spec, (user, refers), mid, kept, r) ↦ inr (record {
            cluster = c;
            spec = spec;
            mid = mid;
            normalized = (user, ap default_auth_secret_refs (sym sp) ∙ refers);
            found = found c refl;
            enabled = ground arith;
            named = (eq_iff cfg.config_name d'.name).0 (ground arith) ∙ nm;
            stays = stays;
            before = λ n m s h. kept n m s (rw e h);
            rendered =
                subst
                  (λ at.
                    IsRendered R at c cfg spec mid
                      (deployable R d' c cfg (validate R.parsers cfg) b).1)
                  ns r;
          })
        ])

  reconcile_found-RendersOnly :
      (d : PgDoorman) (o : Option Cluster) (a b : Api)
      → b.secrets ≡ a.secrets
      → ((c : Cluster) → o ≡ some c → a.clusters d.namespace d.spec.cluster_ref ≡ some c)
      → RendersOnly d a (reconcile_found R d o b)
  unfolding reconcile_found ◌>>=◌ throw
  reconcile_found-RendersOnly d o a b e found =
      let same : NoSecretLost a b = λ n m s h. rw e h in
      if_by (RendersOnly d a) d.deleting (reconcile_deletion d (uses R o d))
        (handle (ensure_finalizer d (uses R o d)) throw (λ d'. reconcile_config R d' o)) b
        (λ k. inl (then_same a b same (SameSecrets-reconcile_deletion d _)))
        (λ k.
          handle_by (RendersOnly d a) (ensure_finalizer d (uses R o d)) throw
            (λ d'. reconcile_config R d' o) b
            (λ d' f.
              reconcile_config-RendersOnly d d' o a _ (ensure_finalizer-IsSame d _ b f) k
                ((SameSecrets-ensure_finalizer d _).at b ∙ e) found)
            (λ x f. inl (then_same a b same (SameSecrets-ensure_finalizer d _))))

  find_cluster-some :
      (d : PgDoorman) (a : Api) (o : Option Cluster)
      → (find_cluster R d a).0 ≡ ok o
      → (c : Cluster) → o ≡ some c
      → a.clusters d.namespace d.spec.cluster_ref ≡ some c
  unfolding find_cluster pure throw
  find_cluster-some d a o h c k =
      handle_by (λ r. r.0 ≡ ok o → a.clusters d.namespace d.spec.cluster_ref ≡ some c)
        (fetch (λ b. b.clusters) d.namespace d.spec.cluster_ref) _ _ a
        (λ x e q. fetch-ok (λ b. b.clusters) d.namespace d.spec.cluster_ref a e ∙ cc (q, k))
        (λ x e.
          if_by (λ r. r.0 ≡ ok o → a.clusters d.namespace d.spec.cluster_ref ≡ some c)
            (is_not_found x) (pure none) (throw x) _ (λ m q. cc (q, k)) (λ m q. cc q))
        h

  SameSecrets-find_cluster : (d : PgDoorman) → Along SameSecrets (find_cluster R d)
  unfolding find_cluster
  SameSecrets-find_cluster d = search along_rules depth 12

  fetch-clusters :
      (ns name : String) (a : Api) (d : PgDoorman) {c : Cluster}
      → (fetch (λ b. b.doormans) ns name a).1.clusters d.namespace d.spec.cluster_ref ≡ some c
      → a.clusters d.namespace d.spec.cluster_ref ≡ some c
  unfolding fetch
  fetch-clusters ns name a d h = h

  -- Whatever calls fail, a run of Reconcile changes no Secret that was there, or it found the
  -- PgDoorman, which is not being deleted, and the Cluster of its clusterRef, which has the plugin
  -- enabled and names that PgDoorman, and stored a config for it: every Secret that its spec refers
  -- to, with the default references filled in, belongs to the Cluster, the stored text is the one
  -- generated from that spec, the Cluster's ports, some passwords and the stored admin password, and
  -- passes the checks, the admin password is the one that the rendered Secret showed before, where
  -- it showed one that is not empty, and up to this nothing that was there had changed, and from
  -- there on only the rendered Secret.
  pub reconcile-RendersOnly :
      (ns name : String) (a : Api)
      → NoSecretLost a (reconcile R ns name a).1
        ⊎ ((d : PgDoorman) × (a.doormans ns name ≡ some d)
            × Rendering d a (reconcile R ns name a).1)
  unfolding reconcile ◌>>=◌ throw
  reconcile-RendersOnly ns name a =
      let read = fetch (λ b. b.doormans) ns name in
      let P = λ (r : Result Outcome × Api).
        NoSecretLost a r.1
        ⊎ ((d : PgDoorman) × (a.doormans ns name ≡ some d) × Rendering d a r.1) in
      let same : (read a).1.secrets ≡ a.secrets =
        (SameSecrets-fetch (λ b. b.doormans) ns name).at a in
      let kept : NoSecretLost a (read a).1 = λ n m s h. rw same h in
      handle_by P read _ _ a
        (λ d e.
          handle_by P (find_cluster R d) throw (reconcile_found R d) (read a).1
            (λ o f.
              elim (reconcile_found-RendersOnly d o a _ ((SameSecrets-find_cluster d).at _ ∙ same)
                (λ c k. fetch-clusters ns name a d (find_cluster-some d _ o f c k))) [
                  | inl k ↦ inl k
                  | inr r ↦ inr (d, fetch-ok (λ b. b.doormans) ns name a e, r)
                ])
            (λ x f. inl (then_same a (read a).1 kept (SameSecrets-find_cluster d))))
        (λ x e.
          if_by P (is_not_found x) (pure done) (throw x) (read a).1
            (λ _. inl (then_same a (read a).1 kept (Along-pure same_secrets done)))
            (λ _. inl (then_same {A = Outcome} a (read a).1 kept (Along-throw same_secrets x))))
