-- ===== src/Plugin/Config/Mutation.antt =====
-- What SetDefaults and MutateCluster leave in a Cluster.
use cnpg_pg_doorman.Base.{
  String, ◌≡◌, refl, sym, ◌==◌, true, Option, none, some, List, [], ◌∷◌, pos, arith, eq_iff,
  if◌then◌else◌, Option-cases, inl, inr,
}
use cnpg_pg_doorman.Base.Maps.{Map, lookup, lookup-insert}
use cnpg_pg_doorman.Plugin.Config.Defs.{
  PluginEntry, Cluster, Parsers, set_defaults, mutate_plugins, mutate_cluster, new_from_cluster,
  read_plugins, read_parameters, initial, defaulted, set_resource, set_pooler_port,
  set_metrics_port, value_or,
}

lookup-defaulted :
    (k j v : String) (m : Map String)
    → lookup j (defaulted (lookup k m) k v m)
      ≡ (if k == j then some (value_or (lookup k m) v) else lookup j m)
lookup-defaulted k j v m = elim (Option-cases (lookup k m)) [
  | inl missing ↦ rw (missing) (sym (lookup-insert k j v m))
  | inr (x, there) ↦ rw there (ground (arith, there, eq_iff k j))
]

-- SetDefaults fills in the two ports and changes no other parameter.
lookup-set_defaults :
    (j : String) (m : Map String)
    → lookup j (set_defaults m) ≡ (
        if "metricsPort" == j
        then some (value_or (lookup "metricsPort" m) "9127")
        else if "poolerPort" == j
        then some (value_or (lookup "poolerPort" m) "6432")
        else lookup j m)
unfolding set_defaults
lookup-set_defaults j m =
    let m' = defaulted (lookup "poolerPort" m) "poolerPort" "6432" m in
    ground (
      arith,
      lookup-defaulted "metricsPort" j "9127" m',
      lookup-defaulted "poolerPort" j "6432" m,
      lookup-defaulted "poolerPort" "metricsPort" "6432" m,
    )

set_defaults_twice : (m : Map String) → set_defaults (set_defaults m) ≡ set_defaults m
unfolding set_defaults
set_defaults_twice m =
    let both = lookup-set_defaults in rw (both "poolerPort" m) (rw (both "metricsPort" m) refl)

mutate_plugins_twice :
    (ps : List PluginEntry) → mutate_plugins (mutate_plugins ps) ≡ mutate_plugins ps
unfolding mutate_plugins
mutate_plugins_twice [] = refl
mutate_plugins_twice (p ∷ ps) =
    ground (arith, set_defaults_twice p.parameters, mutate_plugins_twice ps)

module _ {Q : Type 0} (p : Parsers Q) (six : p.atoi "6432" ≡ some (pos 6432))
    (nine : p.atoi "9127" ≡ some (pos 9127)) where
  ports_defaulted :
      (pooler metrics : Option String) (image : String)
      → let c = record (initial p image) { enabled = true } in
        set_metrics_port p
          (some (value_or metrics "9127"))
          (set_pooler_port p (some (value_or pooler "6432")) c)
        ≡ set_metrics_port p metrics (set_pooler_port p pooler c)
  ports_defaulted none none image = rw (six, nine) refl
  ports_defaulted (some v) none image = elim (Option-cases (p.atoi v)) [
    | inl bad ↦ rw (nine, bad) refl
    | inr (n, good) ↦ rw (nine, good) refl
  ]
  ports_defaulted none (some m) image = rw six refl
  ports_defaulted (some v) (some m) image = refl

  read_parameters_defaulted :
      (params : Map String) (image : String)
      → read_parameters p (set_defaults params) (initial p image)
        ≡ read_parameters p params (initial p image)
  unfolding read_parameters set_resource
  read_parameters_defaulted params image =
      let at = λ (j : String). lookup-set_defaults j params in
      rw
        (
          at "poolerPort",
          at "metricsPort",
          at "configName",
          at "logLevel",
          at "inPlaceUpgrades",
          at "sidecarCpuRequest",
          at "sidecarMemoryRequest",
          at "sidecarCpuLimit",
          at "sidecarMemoryLimit",
          ports_defaulted (lookup "poolerPort" params) (lookup "metricsPort" params) image,
        )
        refl

  read_plugins_mutated :
      (ps : List PluginEntry) (image : String)
      → read_plugins p (mutate_plugins ps) (initial p image) ≡ read_plugins p ps (initial p image)
  unfolding read_plugins mutate_plugins
  read_plugins_mutated [] image = refl
  read_plugins_mutated (e ∷ ps) image =
      ground (arith, read_plugins_mutated ps image, read_parameters_defaulted e.parameters image)

  -- If Atoi reads the two default ports, the plugin reads the same configuration from a Cluster that
  -- MutateCluster has been through as from the one before it, whatever its entries and parameters
  -- are.
  pub new_from_cluster-mutate_cluster :
      (image : String) (cluster : Cluster)
      → new_from_cluster p image (mutate_cluster cluster) ≡ new_from_cluster p image cluster
  unfolding new_from_cluster mutate_cluster
  new_from_cluster-mutate_cluster image cluster = read_plugins_mutated cluster.plugins image

-- MutateCluster changes nothing in a Cluster that it has been through.
pub mutate_cluster_twice :
    (cluster : Cluster) → mutate_cluster (mutate_cluster cluster) ≡ mutate_cluster cluster
unfolding mutate_cluster
mutate_cluster_twice cluster = rw (mutate_plugins_twice cluster.plugins) refl
