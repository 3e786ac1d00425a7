-- ===== src/Plugin/Webhook.antt =====
-- The validation webhook (internal/operator/validation.go). The codec of the requests and the
-- metrics around the handlers are left out, and an error is its text.
use cnpg_pg_doorman.Base.{
  String, ◌==◌, ◌≡◌, ◌≢◌, ◌↔◌, refl, Bool, true, false, not, ◌||◌, Option, none, some, List, [],
  ◌∷◌, ◌++◌, arith, eq_iff, if◌then◌else◌, Option-cases, inl, inr,
}
use cnpg_pg_doorman.Plugin.Config.{
  PluginConfiguration, Cluster, Parsers, validate, new_from_cluster,
}
use cnpg_pg_doorman.Plugin.Config.Checked.{IsDeployable, validate_iff}

-- What reading the PgDoorman gives: the cluster that its clusterRef names, or an error.
pub data Reading : Type 0 where
  found : String → Reading
  not_found transient : Reading

-- The client's Get by namespace and name, and `none` for a nil client.
abbrev pub Client : Type 0
Client = Option (String → String → Reading)

abbrev compare_ref : Cluster → Bool → Reading → List String
compare_ref cluster require_exists (found owner) =
    if owner == cluster.name then [] else "PgDoorman belongs to another cluster" ∷ []
compare_ref cluster require_exists not_found =
    if require_exists then "PgDoorman not found" ∷ [] else []
compare_ref cluster require_exists transient = []

abbrev error_list : Option String → List String
error_list none = []
error_list (some e) = e ∷ []

module _ {Q : Type 0} (p : Parsers Q) (sidecar_image : String) where
  -- validateConfig
  unfoldable pub validate_config : PluginConfiguration Q → List String
  validate_config cfg = if not cfg.enabled then [] else error_list (validate p cfg)

  -- validateClusterRef
  unfoldable pub validate_cluster_ref :
      Client → Cluster → PluginConfiguration Q → Bool → List String
  validate_cluster_ref none cluster cfg require_exists = []
  validate_cluster_ref (some get) cluster cfg require_exists =
      if not cfg.enabled || cfg.config_name == ""
      then []
      else compare_ref cluster require_exists (get cluster.namespace cfg.config_name)

  unfoldable pub validate_cluster_create : Client → Cluster → List String
  validate_cluster_create client cluster =
      let cfg = new_from_cluster p sidecar_image cluster in
      validate_config cfg ++ validate_cluster_ref client cluster cfg false

  unfoldable pub validate_cluster_change : Client → Cluster → List String
  validate_cluster_change client cluster =
      let cfg = new_from_cluster p sidecar_image cluster in
      validate_config cfg ++ validate_cluster_ref client cluster cfg true

  validate_config_none :
      (cfg : PluginConfiguration Q)
      → cfg.enabled ≡ true
      → (validate_config cfg ≡ []) ↔ IsDeployable p cfg
  unfolding validate_config
  validate_config_none cfg on = elim (Option-cases (validate p cfg)) [
    | inl good ↦ ground (arith, validate_iff p cfg)
    | inr (e, bad) ↦ ground (arith, validate_iff p cfg)
  ]

  append_nil : (xs ys : List String) → ((xs ++ ys) ≡ []) ↔ ((xs ≡ []) × (ys ≡ []))
  append_nil [] ys = ground arith
  append_nil (x ∷ xs) ys = ground arith

  reference_none :
      (get : String → String → Reading) (cluster : Cluster) (cfg : PluginConfiguration Q)
      → cfg.enabled ≡ true
      → cfg.config_name ≢ ""
      → get cluster.namespace cfg.config_name ≢ transient
      → (validate_cluster_ref (some get) cluster cfg true ≡ [])
        ↔ (get cluster.namespace cfg.config_name ≡ found cluster.name)
  unfolding validate_cluster_ref
  reference_none get cluster cfg on named up =
      ground (arith, eq_iff cfg.config_name "", ref_none (get cluster.namespace cfg.config_name) up)
    where
      ref_none :
          (r : Reading)
          → r ≢ transient
          → (compare_ref cluster true r ≡ []) ↔ (r ≡ found cluster.name)
      ref_none (found owner) h = ground (arith, eq_iff owner cluster.name)
      ref_none not_found h = ground arith
      ref_none transient h = absurd (h refl)

  -- If the plugin is enabled on the Cluster, and the PgDoorman that its parameters name can be read
  -- or is missing, then a change is accepted exactly if the parameters are deployable and the
  -- PgDoorman of that name is there and refers back to this Cluster.
  pub validate_cluster_change_iff :
      (get : String → String → Reading) (cluster : Cluster)
      → (new_from_cluster p sidecar_image cluster).enabled ≡ true
      → get cluster.namespace (new_from_cluster p sidecar_image cluster).config_name ≢ transient
      → (validate_cluster_change (some get) cluster ≡ []) ↔ (
          IsDeployable p (new_from_cluster p sidecar_image cluster)
          × (get cluster.namespace (new_from_cluster p sidecar_image cluster).config_name
              ≡ found cluster.name))
  unfolding validate_cluster_change
  validate_cluster_change_iff get cluster on up =
      let cfg = new_from_cluster p sidecar_image cluster in
      (
        λ h.
            let (sound, linked) =
              (append_nil (validate_config cfg)
                  (validate_cluster_ref (some get) cluster cfg true)).0
                h in
            let good = (validate_config_none cfg on).0 sound in
            (good, (reference_none get cluster cfg on good.config_named up).0 linked),
        λ (good, linked).
            (append_nil (validate_config cfg) (validate_cluster_ref (some get) cluster cfg true)).1
              (
                (validate_config_none cfg on).1 good,
                (reference_none get cluster cfg on good.config_named up).1 linked,
              ),
      )

  create_ref :
      (client : Client) (cluster : Cluster) (cfg : PluginConfiguration Q)
      → validate_cluster_ref client cluster cfg true ≡ []
      → validate_cluster_ref client cluster cfg false ≡ []
  unfolding validate_cluster_ref
  create_ref none cluster cfg h = refl
  create_ref (some get) cluster cfg h = ground arith

  -- A Cluster whose change is accepted is accepted at creation too, with the same client, be it nil
  -- or failing.
  pub validate_cluster_create_weaker :
      (client : Client) (cluster : Cluster)
      → validate_cluster_change client cluster ≡ []
      → validate_cluster_create client cluster ≡ []
  unfolding validate_cluster_change validate_cluster_create
  validate_cluster_create_weaker client cluster h =
      let cfg = new_from_cluster p sidecar_image cluster in
      let (sound, linked) =
        (append_nil (validate_config cfg) (validate_cluster_ref client cluster cfg true)).0 h in
      (append_nil (validate_config cfg) (validate_cluster_ref client cluster cfg false)).1
        (sound, create_ref client cluster cfg linked)
