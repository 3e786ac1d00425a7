-- ===== src/Plugin/Controller/Finalizer.antt =====
-- What ensureFinalizer gives back (internal/controller/renderedconfig.go).
use cnpg_pg_doorman.Base.{◌≡◌, refl, sym, ap, ◌∙◌, Bool, true, false, contains}
use cnpg_pg_doorman.Plugin.Api.{Api, ok, PgDoorman, pure, ◌>>◌, patch_doorman}
use cnpg_pg_doorman.Plugin.Api.Frame.{bind-ok, if_by}
use cnpg_pg_doorman.Plugin.Controller.Defs.{
  ensure_finalizer, add_finalizer, remove_finalizer, finalizer,
}

-- The object is the one that was read but for its finalizers.
abbrev pub IsSame : PgDoorman → PgDoorman → Type 0
IsSame d d' = (d'.namespace ≡ d.namespace) × (d'.spec ≡ d.spec) × (d'.name ≡ d.name)

patched-IsSame :
    (d p : PgDoorman) (a : Api) (d' : PgDoorman)
    → IsSame d p
    → ((patch_doorman p >> pure p) a).0 ≡ ok d'
    → IsSame d d'
unfolding pure
patched-IsSame d p a d' (n, s, m) h =
    let (x, q, k) = bind-ok (patch_doorman p) (λ _. pure p) a h in
    let e : p ≡ d' = cc k in
    (sym (ap (λ o. o.namespace) e) ∙ n, sym (ap (λ o. o.spec) e) ∙ s, sym (ap (λ o. o.name) e) ∙ m)

kept-IsSame : (d : PgDoorman) (a : Api) (d' : PgDoorman) → (pure d a).0 ≡ ok d' → IsSame d d'
unfolding pure
kept-IsSame d a d' h =
    let e : d ≡ d' = cc h in
    (sym (ap (λ o. o.namespace) e), sym (ap (λ o. o.spec) e), sym (ap (λ o. o.name) e))

pub ensure_finalizer-IsSame :
    (d : PgDoorman) (b : Bool) (a : Api) {d' : PgDoorman}
    → (ensure_finalizer d b a).0 ≡ ok d'
    → IsSame d d'
unfolding ensure_finalizer
ensure_finalizer-IsSame d true a {d'} =
    if_by (λ r. r.0 ≡ ok d' → IsSame d d') (contains d.finalizers finalizer) (pure d)
      (patch_doorman (add_finalizer d) >> pure (add_finalizer d)) a (λ _. kept-IsSame d a d')
      (λ _. patched-IsSame d (add_finalizer d) a d' (refl, refl, refl))
ensure_finalizer-IsSame d false a {d'} =
    if_by (λ r. r.0 ≡ ok d' → IsSame d d') (contains d.finalizers finalizer)
      (patch_doorman (remove_finalizer d) >> pure (remove_finalizer d)) (pure d) a
      (λ _. patched-IsSame d (remove_finalizer d) a d' (refl, refl, refl)) (λ _. kept-IsSame d a d')
