-- ===== src/Plugin/Controller/Reads.antt =====
-- The parts of Reconcile that change no Secret, and what they return.
use cnpg_pg_doorman.Base.{
  ◌≡◌, refl, ap, ◌∙◌, inl, inr, String, ◌==◌, Bool, true, false, Option, none, some, List, [], ◌∷◌,
  All, arith, if◌then◌else◌, eq_iff, Option-cases,
}
use cnpg_pg_doorman.Base.Maps.{lookup}
use cnpg_pg_doorman.Plugin.Config.{Cluster}
use cnpg_pg_doorman.Plugin.Defaults.{PgDoormanSpec}
use cnpg_pg_doorman.Plugin.Api.{
  Api, Io, Error, ok, Secret, PgDoorman, throw, handle, get_secret, cluster_label, Result-cases,
  visible, fetch,
}
use cnpg_pg_doorman.Plugin.Api.Frame.{
  Along, SameSecrets, same_secrets, along_rules, Along-handle, Along-throw, Along-if,
  SameSecrets-get_secret,
}
use cnpg_pg_doorman.Plugin.Controller.Defs.{
  Renderer, set_rendered, reuse_password, reconcile_deletion, ensure_finalizer, check_secrets,
  validate_secret_ownership, random_password, admin_password_fallback, entry_of,
}

pub SameSecrets-set_rendered :
    (d : PgDoorman) (b : Bool) (reason text : String)
    → Along SameSecrets (set_rendered d b reason text)
unfolding set_rendered
SameSecrets-set_rendered d b reason text = search along_rules depth 12

pub SameSecrets-reconcile_deletion :
    (d : PgDoorman) (b : Bool) → Along SameSecrets (reconcile_deletion d b)
unfolding reconcile_deletion
SameSecrets-reconcile_deletion d b = search along_rules depth 12

pub SameSecrets-ensure_finalizer :
    (d : PgDoorman) (b : Bool) → Along SameSecrets (ensure_finalizer d b)
unfolding ensure_finalizer
SameSecrets-ensure_finalizer d b = search along_rules depth 12

SameSecrets-check_secrets :
    (ns cn : String) (names : List String) → Along SameSecrets (check_secrets ns cn names)
unfolding check_secrets
SameSecrets-check_secrets ns cn [] = search along_rules
SameSecrets-check_secrets ns cn (n ∷ names) =
    Along-handle same_secrets _ _ _ (SameSecrets-get_secret ns n) (λ e. Along-throw same_secrets _)
      λ s.
        Along-if same_secrets _ _ _ (SameSecrets-check_secrets ns cn names)
          (Along-throw same_secrets _)

pub SameSecrets-validate_secret_ownership :
    (ns : String) (spec : PgDoormanSpec) (cn : String)
    → Along SameSecrets (validate_secret_ownership ns spec cn)
unfolding validate_secret_ownership
SameSecrets-validate_secret_ownership ns spec cn = SameSecrets-check_secrets ns cn _

-- A Secret that carries the label of the cluster.
abbrev pub IsOwned : Api → String → String → String → Type 0
IsOwned a ns cn n =
    (s : Secret) × (a.secrets ns n ≡ some s) × (lookup cluster_label s.labels ≡ some cn)

pub visible_inv :
    (o : Option Secret) (s : Secret)
    → visible o ≡ some s
    → (o ≡ some s) × ((v : String) × (lookup cluster_label s.labels ≡ some v))
unfolding visible
visible_inv none s h = cc h
visible_inv (some s') s h = elim (Option-cases (lookup cluster_label s'.labels)) [
  | inl e ↦ cc (rw e at h)
  | inr (v, e) ↦ (cc (rw e at h), (v, cc (rw e at h, e)))
]

get_secret-IsOwned :
    (a : Api) (ns cn n : String) (s : Secret)
    → (get_secret ns n a).0 ≡ ok s
    → (entry_of s.labels cluster_label == cn) ≡ true
    → IsOwned a ns cn n
unfolding get_secret entry_of fetch
get_secret-IsOwned a ns cn n s h k =
    let (e, (v, k')) = visible_inv (a.secrets ns n) s (ground arith) in
    (s, e, k' ∙ ap some ((eq_iff v cn).0 (rw (entry_of, k') at k)))

if_throw-ok :
    {A : Type 0} (b : Bool) (m : Io A) (e : Error) (a : Api) {x : A}
    → ((if b then m else throw e) a).0 ≡ ok x
    → (b ≡ true) × ((m a).0 ≡ ok x)
unfolding throw
if_throw-ok true m e a h = (refl, h)
if_throw-ok false m e a h = cc h

pub check_secrets-IsOwned :
    (ns cn : String) (names : List String) (a : Api)
    → (check_secrets ns cn names a).0 ≡ ok tt
    → All (IsOwned a ns cn) names
unfolding check_secrets handle throw get_secret fetch
check_secrets-IsOwned ns cn [] a h = tt
check_secrets-IsOwned ns cn (n ∷ names) a h = elim (Result-cases (get_secret ns n a).0) [
  | inr (e, ge) ↦ cc (rw ge at h)
  | inl (s, ge) ↦
      let (k, rest) = if_throw-ok _ _ _ _ (rw ge at h) in
      (get_secret-IsOwned a ns cn n s ge k, check_secrets-IsOwned ns cn names _ rest)
]

module _ {Q : Type 0} (R : Renderer Q) where
  pub SameSecrets-random_password : Along SameSecrets (random_password R)
  unfolding random_password
  SameSecrets-random_password = record { at = λ a. refl }

  SameSecrets-reuse_password : (o : Option String) → Along SameSecrets (reuse_password R o)
  unfolding reuse_password
  SameSecrets-reuse_password none = SameSecrets-random_password
  SameSecrets-reuse_password (some p) = search (along_rules, SameSecrets-random_password)

  pub SameSecrets-admin_password_fallback :
      (c : Cluster) → Along SameSecrets (admin_password_fallback R c)
  unfolding admin_password_fallback
  SameSecrets-admin_password_fallback c =
      search (along_rules, SameSecrets-random_password, SameSecrets-reuse_password) depth 12
