-- ===== src/Plugin/AuthSecrets/Agreement.antt =====
-- When DefaultAuthSecretRefs of internal/specs/authsecrets.go succeeds, and with what.
use cnpg_pg_doorman.Base.{String, ◌≡◌, ◌≢◌, Option, none, some, [], ◌∷◌}
use cnpg_pg_doorman.Base.Maps.{Map}
use cnpg_pg_doorman.Plugin.Defaults.{PoolSpec, AuthQuerySpec}
use cnpg_pg_doorman.Plugin.AuthSecrets.Defs.{omitting, refer_to}

-- What the loops above are for, said of each pool on its own.
abbrev referenced_pool : String → PoolSpec → Option AuthQuerySpec → PoolSpec
referenced_pool secret pool none = pool
referenced_pool secret pool (some aq) = refer_to secret pool aq

abbrev pub referenced : String → Map PoolSpec → Map PoolSpec
referenced secret [] = []
referenced secret ((name, pool) ∷ pools) =
    (name, referenced_pool secret pool (omitting pool.auth_query)) ∷ referenced secret pools

-- Every auth_query that omits its reference is for `user`.
abbrev UsesIn : String → Option AuthQuerySpec → Type 0
UsesIn user none = Unit
UsesIn user (some aq) = aq.user ≡ user

abbrev pub AllUse : String → Map PoolSpec → Type 0
AllUse user [] = Unit
AllUse user ((_, pool) ∷ pools) = UsesIn user (omitting pool.auth_query) × AllUse user pools

-- No auth_query is for the empty user, as the CRD's MinLength has it.
abbrev Named : Option AuthQuerySpec → Type 0
Named none = Unit
Named (some aq) = aq.user ≢ ""

abbrev pub AllNamed : Map PoolSpec → Type 0
AllNamed [] = Unit
AllNamed ((_, pool) ∷ pools) = Named pool.auth_query × AllNamed pools
