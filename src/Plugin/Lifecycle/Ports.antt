-- ===== src/Plugin/Lifecycle/Ports.antt =====
-- The ports of a Pod that the lifecycle hook changed.
use mathlib.Core.Path.{subst}
use cnpg_pg_doorman.Base.{
  ◌≡◌, inl, inr, refl, ap, ◌∙◌, String, true, some, [], ◌∷◌, arith, ℤ, pos, negsuc, Bool-cases,
  Option-cases, eq_iff, ◌==◌,
}
use cnpg_pg_doorman.Plugin.Config.{Cluster, Parsers, new_from_cluster, validate}
use cnpg_pg_doorman.Plugin.Config.Checked.{IsFreePort, IsDeployable, validate_iff}
use cnpg_pg_doorman.Plugin.Lifecycle.Defs.{
  PodSpec, Request, changed, lifecycle_hook, decoded_hook, sidecar_container, inject_sidecar,
  to_int32, reconcile_pod,
}
use cnpg_pg_doorman.Plugin.Lifecycle.Injection.{IsInjected, inject_sidecar-IsInjected}

pub to_int32-IsFreePort : (port : ℤ) → IsFreePort port → to_int32 port ≡ port
to_int32-IsFreePort (negsuc n) h = ground arith
to_int32-IsFreePort (pos n) h = ground arith

module _ {Q : Type 0} (p : Parsers Q) where
  -- A Pod that was changed for a cluster whose parameters are right.
  pub record IsAnswered (image : String) (request : Request Q) (made : PodSpec Q) : Type 0 where
    pub pod : PodSpec Q
    pub cluster : Cluster
    pub is_pod : request.kind ≡ some "Pod"
    pub given : request.pod ≡ some pod
    pub asked : request.cluster ≡ some cluster
    pub enabled : (new_from_cluster p image cluster).enabled ≡ true
    pub deployable : IsDeployable p (new_from_cluster p image cluster)
    pub injected : IsInjected pod (new_from_cluster p image cluster) cluster made
    pub ports :
        (sidecar_container (new_from_cluster p image cluster)).ports
        ≡ record {
          name = "pooler";
          container_port = (new_from_cluster p image cluster).pooler_port;
          protocol = "TCP";
        }
          ∷ record {
            name = "pgd-metrics";
            container_port = (new_from_cluster p image cluster).metrics_port;
            protocol = "TCP";
          }
          ∷ []

  -- From a kind and a cluster that decode on.
  of_cluster :
      (image : String) (request : Request Q) (made : PodSpec Q) (kind : String) (cluster : Cluster)
      → request.kind ≡ some kind
      → request.cluster ≡ some cluster
      → decoded_hook p image (some kind) (some cluster) request.pod ≡ changed made
      → IsAnswered image request made
  unfolding reconcile_pod sidecar_container validate
  of_cluster image request made kind cluster k c h =
      let cfg = new_from_cluster p image cluster in
      elim (Bool-cases cfg.enabled) [
        | inr off ↦ cc (rw off at h)
        | inl on ↦ elim (Option-cases (validate p cfg)) [
          | inr (x, v) ↦ cc (rw (on, v) at h)
          | inl v ↦ elim (Bool-cases (kind == "Pod")) [
            | inr n ↦ cc (rw (on, v, n) at h)
            | inl y ↦ elim (Option-cases request.pod) [
              | inl g ↦ cc (rw (on, v, y, g) at h)
              | inr (pod, g) ↦
                  let right = (validate_iff p cfg).0 v in
                  let e : inject_sidecar pod cfg cluster ≡ made = cc (rw (on, v, y, g) at h) in
                  record {
                    pod = pod;
                    cluster = cluster;
                    is_pod = k ∙ ap some ((eq_iff kind "Pod").0 y);
                    given = g;
                    asked = c;
                    enabled = on;
                    deployable = right;
                    injected =
                        subst (IsInjected pod cfg cluster) e
                          (inject_sidecar-IsInjected pod cfg cluster);
                    ports =
                        rw
                          (
                            to_int32-IsFreePort cfg.pooler_port right.pooler,
                            to_int32-IsFreePort cfg.metrics_port right.metrics,
                          )
                          refl;
                  }
            ]
          ]
        ]
      ]

  -- Where the hook answers with a changed object, the request was for a Pod that decodes and for a
  -- Cluster that has the plugin enabled and whose parameters pass Validate, the answer is that Pod
  -- with the sidecar, and the two ports of the sidecar are the configured ones, which the conversion
  -- to 32 bits does not change.
  pub lifecycle_hook-IsAnswered :
      (image : String) (request : Request Q) (made : PodSpec Q)
      → lifecycle_hook p image request ≡ changed made
      → IsAnswered image request made
  unfolding lifecycle_hook reconcile_pod
  lifecycle_hook-IsAnswered image request made h = elim (Option-cases request.kind) [
    | inl k ↦ cc (rw k at h)
    | inr (kind, k) ↦ elim (Option-cases request.cluster) [
      | inl c ↦ cc (rw (k, c) at h)
      | inr (cluster, c) ↦ of_cluster image request made kind cluster k c (rw (k, c) at h)
    ]
  ]
