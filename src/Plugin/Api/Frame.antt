-- ===== src/Plugin/Api/Frame.antt =====
-- Lifting a relation between two states of the API server to the calls that stay within it.
use cnpg_pg_doorman.Base.{
  ◌≡◌, refl, ◌∙◌, inl, inr, String, ◌==◌, Bool, true, false, ◌&&◌, some, arith, if◌then◌else◌,
  eq_iff,
}
use cnpg_pg_doorman.Plugin.Api.{
  Api, Io, Error, failed, Result, visible, ok, err, Secret, PgDoorman, Result-cases, Store, pure,
  throw, handle, ◌>>=◌, emit, fetch, get_secret, patch_doorman, create_secret, patch_secret,
}

pub record Along {ℓ} (R : Api → Api → Type ℓ) {A : Type 0} (m : Io A) : Type ℓ where
  pub at : (a : Api) → R a (m a).1

-- A relation that holds of a state with itself, and from step to step.
pub record IsSteady {ℓ} (R : Api → Api → Type ℓ) : Type ℓ where
  pub same : (a : Api) → R a a
  pub then_on : (a b c : Api) → R a b → R b c → R a c

-- Where a call ends, with the equation for what it returned.
module _ {ℓ κ μ} {R : Api → Api → Type ℓ} {S : Api → Api → Type κ} {T : Api → Api → Type μ}
    (chain : (a b c : Api) → R a b → S b c → T a c) {A B : Type 0} where
  pub handle_at :
      (m : Io A) (h : Error → Io B) (f : A → Io B) (a : Api)
      → R a (m a).1
      → ((e : Error) → (m a).0 ≡ err e → S (m a).1 (h e (m a).1).1)
      → ((x : A) → (m a).0 ≡ ok x → S (m a).1 (f x (m a).1).1)
      → T a (handle m h f a).1
  unfolding handle
  handle_at m h f a r on_err on_ok = elim (Result-cases (m a).0) [
    | inl (x, e) ↦ rw e (chain a (m a).1 _ r (on_ok x e))
    | inr (x, e) ↦ rw e (chain a (m a).1 _ r (on_err x e))
  ]

module _ {ℓ} {R : Api → Api → Type ℓ} (steady : IsSteady R) where
  pub Along-pure : {A : Type 0} (x : A) → Along R (pure x)
  unfolding pure
  Along-pure x = record { at = λ a. steady.same a }

  pub Along-throw : {A : Type 0} (e : Error) → Along R (throw {A = A} e)
  unfolding throw
  Along-throw e = record { at = λ a. steady.same a }

  pub Along-handle :
      {A B : Type 0} (m : Io A) (h : Error → Io B) (f : A → Io B)
      → Along R m
      → ((e : Error) → Along R (h e))
      → ((x : A) → Along R (f x))
      → Along R (handle m h f)
  Along-handle m h f am ah af = record {
    at = λ a.
        handle_at steady.then_on m h f a (am.at a) (λ e _. (ah e).at (m a).1)
          (λ x _. (af x).at (m a).1);
  }

  pub Along-bind :
      {A B : Type 0} (m : Io A) (f : A → Io B)
      → Along R m
      → ((x : A) → Along R (f x))
      → Along R (m >>= f)
  unfolding ◌>>=◌
  Along-bind m f am af = Along-handle m throw f am Along-throw af

  pub Along-if :
      {A : Type 0} (b : Bool) (m n : Io A) → Along R m → Along R n → Along R (if b then m else n)
  Along-if true m n h k = h
  Along-if false m n h k = k

-- The Secrets stay as they are.
abbrev pub SameSecrets : Api → Api → Type 0
SameSecrets a b = b.secrets ≡ a.secrets

pub same_secrets : IsSteady SameSecrets
same_secrets = record { same = λ a. refl; then_on = λ a b c p q. q ∙ p }

-- No Secret that is there changes.
abbrev pub NoSecretLost : Api → Api → Type 0
NoSecretLost a b = (ns n : String) (s : Secret) → a.secrets ns n ≡ some s → b.secrets ns n ≡ some s

pub no_secret_lost : IsSteady NoSecretLost
no_secret_lost = record {
  same = λ a ns n s h. h;
  then_on = λ a b c p q ns n s h. q ns n s (p ns n s h);
}

pub same-not_lost : {A : Type 0} {m : Io A} → Along SameSecrets m → Along NoSecretLost m
same-not_lost k = record { at = λ a ns n s h. rw (k.at a) h }

pub SameSecrets-fetch :
    {X : Type 0} (store : Api → Store X) (ns n : String) → Along SameSecrets (fetch store ns n)
unfolding fetch
SameSecrets-fetch store ns n = record { at = λ a. refl }

pub SameSecrets-get_secret : (ns n : String) → Along SameSecrets (get_secret ns n)
unfolding get_secret
SameSecrets-get_secret ns n = record { at = λ a. refl }

pub SameSecrets-emit : (reason : String) → Along SameSecrets (emit reason)
unfolding emit
SameSecrets-emit reason = record { at = λ a. refl }

pub SameSecrets-patch_doorman : (d : PgDoorman) → Along SameSecrets (patch_doorman d)
unfolding patch_doorman
SameSecrets-patch_doorman d = record { at = λ a. ground arith }

pub NoSecretLost-create_secret :
    (ns n : String) (s : Secret) → Along NoSecretLost (create_secret ns n s)
unfolding create_secret
NoSecretLost-create_secret ns n s = record {
  at = λ a ns' n' s' h. ground (arith, eq_iff ns ns', eq_iff n n');
}

-- A bind that succeeded, taken apart.
pub bind-ok :
    {A B : Type 0} (m : Io A) (f : A → Io B) (a : Api) {y : B}
    → ((m >>= f) a).0 ≡ ok y
    → (x : A) × ((m a).0 ≡ ok x) × ((f x (m a).1).0 ≡ ok y)
unfolding ◌>>=◌
bind-ok m f a h = elim (Result-cases (m a).0) [
  | inl (x, e) ↦ (x, e, rw e at h)
  | inr (x, e) ↦ cc (rw e at h)
]

pub ruleset along_rules = (
  Along-pure, Along-throw, Along-handle, Along-bind, Along-if, same_secrets, SameSecrets-fetch,
  SameSecrets-get_secret, SameSecrets-emit, SameSecrets-patch_doorman,
)

-- What holds of both ways that a call and its handler can go.
pub handle_by {ℓ} :
    {A B : Type 0} (P : Result B × Api → Type ℓ) (m : Io A) (h : Error → Io B) (f : A → Io B)
    (a : Api)
    → ((x : A) → (m a).0 ≡ ok x → P (f x (m a).1))
    → ((e : Error) → (m a).0 ≡ err e → P (h e (m a).1))
    → P (handle m h f a)
unfolding handle
handle_by P m h f a on_ok on_err = elim (Result-cases (m a).0) [
  | inl (x, e) ↦ rw e (on_ok x e)
  | inr (x, e) ↦ rw e (on_err x e)
]

pub if_by {ℓ} :
    {A : Type 0} (P : Result A × Api → Type ℓ) (b : Bool) (m n : Io A) (a : Api)
    → (b ≡ true → P (m a))
    → (b ≡ false → P (n a))
    → P ((if b then m else n) a)
if_by P true m n a on_true on_false = on_true refl
if_by P false m n a on_true on_false = on_false refl

pub fetch-ok :
    {X : Type 0} (store : Api → Store X) (ns n : String) (a : Api) {x : X}
    → (fetch store ns n a).0 ≡ ok x
    → store a ns n ≡ some x
unfolding fetch
fetch-ok store ns n a h = ground arith

pub fetch-failed :
    {X : Type 0} (store : Api → Store X) (ns n : String) (a : Api) {x : X} (e : Error)
    → (fetch store ns n a).0 ≡ err e
    → store a ns n ≡ some x
    → e ≡ failed
unfolding fetch
fetch-failed store ns n a e h k = ground arith

pub get_secret-visible :
    (ns n : String) (a : Api) (s : Secret)
    → (get_secret ns n a).0 ≡ ok s
    → visible (a.secrets ns n) ≡ some s
unfolding get_secret fetch
get_secret-visible ns n a s h = ground arith

pub get_secret-same :
    (ns n : String) (a : Api) (s : Secret)
    → (get_secret ns n a).0 ≡ ok s
    → visible ((get_secret ns n a).1.secrets ns n) ≡ some s
unfolding get_secret fetch
get_secret-same ns n a s h = ground arith

pub get_secret-failed :
    (ns n : String) (a : Api) (s : Secret) (e : Error)
    → (get_secret ns n a).0 ≡ err e
    → visible (a.secrets ns n) ≡ some s
    → e ≡ failed
unfolding get_secret fetch
get_secret-failed ns n a s e h k = ground arith

-- Only the Secret of this key may change.
abbrev pub OnlySecret : String → String → Api → Api → Type 0
OnlySecret ns n a b =
    (ns' n' : String) → (ns == ns' && n == n') ≡ false → b.secrets ns' n' ≡ a.secrets ns' n'

pub only_secret : (ns n : String) → IsSteady (OnlySecret ns n)
only_secret ns n = record {
  same = λ a ns' n' h. refl;
  then_on = λ a b c p q ns' n' h. q ns' n' h ∙ p ns' n' h;
}

pub same-only :
    (ns n : String) {A : Type 0} {m : Io A} → Along SameSecrets m → Along (OnlySecret ns n) m
same-only ns n k = record { at = λ a ns' n' h. rw (k.at a) refl }

pub OnlySecret-create_secret :
    (ns n : String) (s : Secret) → Along (OnlySecret ns n) (create_secret ns n s)
unfolding create_secret
OnlySecret-create_secret ns n s = record { at = λ a ns' n' h. ground arith }

pub OnlySecret-patch_secret :
    (ns n : String) (s : Secret) → Along (OnlySecret ns n) (patch_secret ns n s)
unfolding patch_secret
OnlySecret-patch_secret ns n s = record { at = λ a ns' n' h. ground arith }

-- A call that fails changes no Secret.
abbrev pub KeepsOnError : {A : Type 0} → Api → Result A × Api → Type 0
KeepsOnError a r = (e : Error) → r.0 ≡ err e → r.1.secrets ≡ a.secrets

pub KeepsOnError-create_secret :
    (ns n : String) (s : Secret) (a : Api) → KeepsOnError a (create_secret ns n s a)
unfolding create_secret
KeepsOnError-create_secret ns n s a e h = ground arith

pub KeepsOnError-patch_secret :
    (ns n : String) (s : Secret) (a : Api) → KeepsOnError a (patch_secret ns n s a)
unfolding patch_secret
KeepsOnError-patch_secret ns n s a e h = ground arith

pub KeepsOnError-handle :
    {A B : Type 0} (m : Io A) (h : Error → Io B) (f : A → Io B)
    → Along SameSecrets m
    → ((e : Error) (a : Api) → KeepsOnError a (h e a))
    → ((x : A) (a : Api) → KeepsOnError a (f x a))
    → (a : Api) → KeepsOnError a (handle m h f a)
KeepsOnError-handle m h f same kh kf a =
    handle_by (KeepsOnError a) m h f a (λ x g e q. kf x _ e q ∙ same.at a)
      (λ x g e q. kh x _ e q ∙ same.at a)

-- What comes last and leaves the Secrets alone.
pub bind-same :
    {A B : Type 0} (m : Io A) (f : A → Io B) (a : Api)
    → ((x : A) → Along SameSecrets (f x))
    → ((m >>= f) a).1.secrets ≡ (m a).1.secrets
unfolding ◌>>=◌ throw
bind-same m f a k =
    handle_by (λ r. r.1.secrets ≡ (m a).1.secrets) m throw f a (λ x e. (k x).at _) (λ e g. refl)
