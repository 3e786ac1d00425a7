-- ===== src/Plugin/AuthSecrets/Names.antt =====
-- What CollectSecretNames of internal/specs/secrets.go returns.
use cnpg_pg_doorman.Base.{
  String, ◌≡◌, ◌↔◌, ◌⊎◌, refl, true, ◌||◌, Option, none, some, List, [], ◌∷◌, ◌++◌, contains, arith,
  eq_iff,
}
use cnpg_pg_doorman.Base.Maps.{Map}
use cnpg_pg_doorman.Plugin.Defaults.{PgDoormanSpec, PoolSpec, UserSpec, SecretKeySelector}
use cnpg_pg_doorman.Plugin.AuthSecrets.Defs.{
  add, add_pools, add_ref, add_users, admin_ref, auth_ref, collect_secret_names,
}

-- Who refers to the Secret `n`.
abbrev ByRef : String → Option SecretKeySelector → Type 0
ByRef n none = ⊥
ByRef n (some ref) = ref.name ≡ n

abbrev ByUsers : String → List UserSpec → Type 0
ByUsers n [] = ⊥
ByUsers n (user ∷ users) = (user.password_secret_ref.name ≡ n) ⊎ ByUsers n users

abbrev ByPools : String → Map PoolSpec → Type 0
ByPools n [] = ⊥
ByPools n ((_, pool) ∷ pools) =
    ByRef n (auth_ref pool.auth_query) ⊎ ByUsers n pool.users ⊎ ByPools n pools

abbrev pub IsReferred : String → PgDoormanSpec → Type 0
IsReferred n spec = ByPools n spec.pools ⊎ ByRef n (admin_ref spec.general)

contains-append :
    (xs ys : List String) (n : String) → contains (xs ++ ys) n ≡ contains xs n || contains ys n
contains-append [] ys n = refl
contains-append (x ∷ xs) ys n = ground (arith, contains-append xs ys n)

contains-add :
    (names : List String) (name n : String)
    → (contains (add names name) n ≡ true) ↔ ((name ≡ n) ⊎ (contains names n ≡ true))
unfolding add
contains-add names name n =
    ground (arith, contains-append names (name ∷ []) n, eq_iff name n, eq_iff name name)

contains-add_ref :
    (names : List String) (o : Option SecretKeySelector) (n : String)
    → (contains (add_ref names o) n ≡ true) ↔ (ByRef n o ⊎ (contains names n ≡ true))
contains-add_ref names none n = ground arith
contains-add_ref names (some ref) n = contains-add names ref.name n

contains-add_users :
    (users : List UserSpec) (names : List String) (n : String)
    → (contains (add_users users names) n ≡ true) ↔ (ByUsers n users ⊎ (contains names n ≡ true))
unfolding add_users
contains-add_users [] names n = ground arith
contains-add_users (user ∷ users) names n =
    let name = user.password_secret_ref.name in
    ground (arith, contains-add names name n, contains-add_users users (add names name) n)

contains-add_pools :
    (pools : Map PoolSpec) (names : List String) (n : String)
    → (contains (add_pools pools names) n ≡ true) ↔ (ByPools n pools ⊎ (contains names n ≡ true))
unfolding add_pools
contains-add_pools [] names n = ground arith
contains-add_pools ((_, pool) ∷ pools) names n =
    let after_auth = add_ref names (auth_ref pool.auth_query) in
    ground (
      arith,
      contains-add_ref names (auth_ref pool.auth_query) n,
      contains-add_users pool.users after_auth n,
      contains-add_pools pools (add_users pool.users after_auth) n,
    )

-- A name is among the collected ones exactly if a user, an auth_query or the admin password of the
-- spec refers to a Secret of that name.
pub collect_secret_names_iff :
    (spec : PgDoormanSpec) (n : String)
    → (contains (collect_secret_names spec) n ≡ true) ↔ IsReferred n spec
unfolding collect_secret_names
collect_secret_names_iff spec n =
    let names = add_pools spec.pools [] in
    ground
      (arith, contains-add_pools spec.pools [] n, contains-add_ref names (admin_ref spec.general) n)
