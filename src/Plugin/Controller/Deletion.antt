-- ===== src/Plugin/Controller/Deletion.antt =====
-- The deletion of a PgDoorman (reconcileDeletion of internal/controller/renderedconfig.go).
use cnpg_pg_doorman.Base.{
  ◌≡◌, refl, ◌⊎◌, inl, inr, ℕ, ◌+◌, String, Bool-cases, true, false, none, some, [], ◌∷◌, arith,
  eq_refl,
}
use cnpg_pg_doorman.Plugin.Config.{Cluster}
use cnpg_pg_doorman.Plugin.Api.{
  Api, Error, ok, err, PgDoorman, pure, throw, handle, ◌>>=◌, fetch, patch_doorman, emit, failed,
  called, Store,
}
use cnpg_pg_doorman.Plugin.Controller.Defs.{Renderer, done, reconcile_deletion, finalizer}
use cnpg_pg_doorman.Plugin.Controller.Loop.{reconcile_found, find_cluster, reconcile, uses}

fetch-cases :
    {X : Type 0} (store : Api → Store X) (ns n : String) (a : Api) (x : X)
    → store a ns n ≡ some x
    → (fetch store ns n a ≡ (err failed, called a)) ⊎ (fetch store ns n a ≡ (ok x, called a))
unfolding fetch
fetch-cases store ns n a x h = elim (Bool-cases (a.fault a.calls)) [
  | inl e ↦ inl (rw e refl)
  | inr e ↦ inr (rw (e, h) refl)
]

module _ {Q : Type 0} (R : Renderer Q) where
  -- What the run reads first.
  reads-found :
      (ns name : String) (a : Api) (d : PgDoorman) (c : Cluster)
      → a.doormans ns name ≡ some d
      → a.clusters d.namespace d.spec.cluster_ref ≡ some c
      → ((e : Error) × (b : Api) × (b.doormans ≡ a.doormans) × (reconcile R ns name a ≡ (err e, b)))
        ⊎ (reconcile R ns name a ≡ reconcile_found R d (some c) (called (called a)))
  unfolding reconcile find_cluster ◌>>=◌ handle pure throw
  reads-found ns name a d c h k = elim (fetch-cases (λ b. b.doormans) ns name a d h) [
    | inl e ↦ inl (failed, called a, refl, rw e refl)
    | inr e ↦ elim (fetch-cases (λ b. b.clusters) d.namespace d.spec.cluster_ref (called a) c k) [
      | inl f ↦ inl (failed, called (called a), refl, rw (e, f) refl)
      | inr f ↦ inr (rw (e, f) refl)
    ]
  ]

  deletion-blocked :
      (d : PgDoorman) (c : Cluster) (b : Api)
      → d.deleting ≡ true
      → uses R (some c) d ≡ true
      → (reconcile_found R d (some c) b).1.doormans ≡ b.doormans
  unfolding reconcile_found reconcile_deletion ◌>>=◌ handle pure emit
  deletion-blocked d c b h k = ground arith

  -- While the Cluster of its clusterRef uses it, a run of Reconcile leaves a PgDoorman that is being
  -- deleted, and every other PgDoorman, as it is, whatever calls fail.
  pub reconcile-blocks_deletion :
      (ns name : String) (a : Api) (d : PgDoorman) (c : Cluster)
      → a.doormans ns name ≡ some d
      → d.deleting ≡ true
      → a.clusters d.namespace d.spec.cluster_ref ≡ some c
      → uses R (some c) d ≡ true
      → (reconcile R ns name a).1.doormans ≡ a.doormans
  reconcile-blocks_deletion ns name a d c found deleting cluster used =
      elim (reads-found ns name a d c found cluster) [
        | inl (x, b, same, e) ↦ rw e same
        | inr e ↦ rw e (deletion-blocked d c (called (called a)) deleting used)
      ]

  deletion-released :
      (d : PgDoorman) (c : Cluster) (b : Api)
      → b.doormans d.namespace d.name ≡ some d
      → d.deleting ≡ true
      → d.finalizers ≡ finalizer ∷ []
      → uses R (some c) d ≡ false
      → b.fault b.calls ≡ false
      → ((reconcile_found R d (some c) b).0 ≡ ok done)
        × ((reconcile_found R d (some c) b).1.doormans d.namespace d.name ≡ none)
  unfolding reconcile_found reconcile_deletion ◌>>=◌ handle pure patch_doorman
  deletion-released d c b there deleting last unused works = (
    rw (deleting, unused, last, works, there) refl,
    rw (deleting, unused, last, works, there, eq_refl d.namespace, eq_refl d.name) refl,
  )

  reads-works :
      (ns name : String) (a : Api) (d : PgDoorman) (c : Cluster)
      → a.doormans ns name ≡ some d
      → a.clusters d.namespace d.spec.cluster_ref ≡ some c
      → ((n : ℕ) → a.fault n ≡ false)
      → reconcile R ns name a ≡ reconcile_found R d (some c) (called (called a))
  unfolding reconcile find_cluster ◌>>=◌ handle pure throw fetch
  reads-works ns name a d c h k works = rw (works a.calls, h, works (a.calls + 1), k) refl

  -- A PgDoorman that is being deleted, has the finalizer of the controller and no other, and is not
  -- used by the Cluster of its clusterRef is gone after one run of Reconcile in which no call fails.
  pub reconcile-releases_unused :
      (a : Api) (d : PgDoorman) (c : Cluster)
      → a.doormans d.namespace d.name ≡ some d
      → d.deleting ≡ true
      → d.finalizers ≡ finalizer ∷ []
      → a.clusters d.namespace d.spec.cluster_ref ≡ some c
      → uses R (some c) d ≡ false
      → ((n : ℕ) → a.fault n ≡ false)
      → ((reconcile R d.namespace d.name a).0 ≡ ok done)
        × ((reconcile R d.namespace d.name a).1.doormans d.namespace d.name ≡ none)
  reconcile-releases_unused a d c found deleting last cluster unused works =
      rw (reads-works d.namespace d.name a d c found cluster works) (
        deletion-released d c (called (called a)) found deleting last unused
          (works (a.calls + 1 + 1)))
