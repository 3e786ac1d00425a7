-- ===== src/Plugin/Api.antt =====
-- The API server as the plugin sees it through its client: the objects, and the calls on them.
-- The n-th call fails if `fault n`. Reads of Secrets go through the informer of cmd/plugin, which
-- holds those that carry the cluster label; that it may lag behind is left out.
pub mod Frame
use cnpg_pg_doorman.Base.{
  ◌≡◌, refl, ◌⊎◌, inl, inr, ℕ, ◌+◌, ℤ, String, ◌==◌, Bool, true, false, ◌&&◌, Option, none, some,
  List, [], ◌∷◌, if◌then◌else◌,
}
use cnpg_pg_doorman.Base.Maps.{Map, lookup}
use cnpg_pg_doorman.Plugin.Config.{Cluster}
use cnpg_pg_doorman.Plugin.Defaults.{PgDoormanSpec}

-- `failed` is any error of a call but the two that the code tells apart.
pub data Error : Type 0 where
  not_found already_exists failed : Error
  message : String → Error
  wrap : String → Error → Error

pub data Result {ℓ} (A : Type ℓ) : Type ℓ where
  ok : A → Result A
  err : Error → Result A

-- apierrs.IsNotFound, and IsNotFound of a wrapped error.
abbrev pub is_not_found : Error → Bool
is_not_found not_found = true
is_not_found (wrap _ e) = is_not_found e
is_not_found _ = false

-- ClusterLabel
abbrev pub cluster_label : String
cluster_label = "cnpg.io/cluster"

pub record Secret : Type 0 where
  pub labels : Map String
  pub entries : Map String
  pub resource_version : String
  pub owner : String

pub data IntOrString : Type 0 where
  from_int : ℤ → IntOrString
  from_string : String → IntOrString

-- `rest` stands for the fields that the code leaves empty.
pub record ServicePort : Type 0 where
  pub name : String
  pub port : ℕ
  pub target_port : IntOrString
  pub protocol : String
  pub rest : String

pub record Service : Type 0 where
  pub labels : Map String
  pub selector : Map String
  pub ports : List ServicePort
  pub owner : String

-- A status condition, of the one type Rendered that the controller sets.
pub record Condition : Type 0 where
  pub status : Bool
  pub reason : String
  pub text : String
  pub observed_generation : ℕ

pub record PgDoorman : Type 0 where
  pub name : String
  pub namespace : String
  pub generation : ℕ
  pub deleting : Bool
  pub finalizers : List String
  pub spec : PgDoormanSpec
  pub observed_generation : ℕ
  pub rendered : Option Condition

-- Objects by namespace and name.
abbrev pub Store : Type 0 → Type 0
Store X = String → String → Option X

pub record Api : Type 0 where
  pub doormans : Store PgDoorman
  pub clusters : Store Cluster
  pub secrets : Store Secret
  pub services : Store Service
  pub roles : Store (Unit {0})
  pub role_bindings : Store (Unit {0})
  pub fault : ℕ → Bool
  pub calls : ℕ
  pub events : List String

abbrev pub Io {ℓ} : Type ℓ → Type ℓ
Io A = Api → Result A × Api

abbrev pub continue {ℓ κ} :
    {A : Type ℓ} {B : Type κ}
    → Result A
    → (Error → Api → Result B × Api)
    → (A → Api → Result B × Api)
    → Api
    → Result B × Api
continue (ok x) h f a = f x a
continue (err e) h f a = h e a

unfoldable pub pure : {A : Type 0} → A → Io A
pure x a = (ok x, a)

unfoldable pub throw : {A : Type 0} → Error → Io A
throw e a = (err e, a)

-- `if err := m; err != nil { h }`, and what comes after.
unfoldable pub handle : {A B : Type 0} → Io A → (Error → Io B) → (A → Io B) → Io B
handle m h f a = continue (m a).0 h f (m a).1

infixl 5 ◌>>=◌ ◌>>◌
unfoldable pub ◌>>=◌ : {A B : Type 0} → Io A → (A → Io B) → Io B
unfolding handle throw pure
m >>= f = handle m throw f

abbrev pub ◌>>◌ : {A B : Type 0} → Io A → Io B → Io B
m >> n = m >>= λ _. n

-- An event for the recorder.
unfoldable pub emit : String → Io (Unit {0})
emit reason a = (ok tt, record a { events = reason ∷ a.events })

abbrev pub fails : Api → Bool
fails a = a.fault a.calls

abbrev pub called : Api → Api
called a = record a { calls = a.calls + 1 }

abbrev pub update : {X : Type 0} → Store X → String → String → Option X → Store X
update f ns n o ns' n' = if ns == ns' && n == n' then o else f ns' n'

abbrev or_not_found : {X : Type 0} → Option X → Result X
or_not_found none = err not_found
or_not_found (some x) = ok x

-- client.Get on a store.
unfoldable pub fetch : {X : Type 0} → (Api → Store X) → String → String → Io X
fetch store ns n a = (if fails a then err failed else or_not_found (store a ns n), called a)

abbrev labelled : Option String → Secret → Option Secret
labelled none s = none
labelled (some v) s = some s

unfoldable pub visible : Option Secret → Option Secret
unfolding lookup
visible none = none
visible (some s) = labelled (lookup cluster_label s.labels) s

-- The Secrets that the informer holds.
abbrev pub visible_secrets : Api → Store Secret
visible_secrets a ns n = visible (a.secrets ns n)

unfoldable pub get_secret : String → String → Io Secret
unfolding fetch visible
get_secret ns n = fetch visible_secrets ns n

abbrev pub put_secret : String → String → Secret → Api → Api
put_secret ns n s a = record a { secrets = update a.secrets ns n (some s) }

unfoldable pub create_secret : String → String → Secret → Io (Unit {0})
create_secret ns n s a = if fails a then (err failed, called a) else elim (a.secrets ns n) [
  | some _ ↦ (err already_exists, called a)
  | none ↦ (ok tt, called (put_secret ns n s a))
]

-- client.Patch with the difference to the object that was read.
unfoldable pub patch_secret : String → String → Secret → Io (Unit {0})
patch_secret ns n s a = if fails a then (err failed, called a) else elim (a.secrets ns n) [
  | none ↦ (err not_found, called a)
  | some _ ↦ (ok tt, called (put_secret ns n s a))
]

abbrev kept : PgDoorman → Option PgDoorman
kept d = if d.deleting then kept_by d.finalizers d else some d
  where
    kept_by : List String → PgDoorman → Option PgDoorman
    kept_by [] x = none
    kept_by (_ ∷ _) x = some x

abbrev pub put_doorman : PgDoorman → Api → Api
put_doorman d a = record a { doormans = update a.doormans d.namespace d.name (kept d) }

-- A patch or a status update of a PgDoorman: one that is being deleted goes with its last finalizer.
unfoldable pub patch_doorman : PgDoorman → Io (Unit {0})
patch_doorman d a =
    if fails a then (err failed, called a) else elim (a.doormans d.namespace d.name) [
      | none ↦ (err not_found, called a)
      | some _ ↦ (ok tt, called (put_doorman d a))
    ]

-- client.Delete, with the store of the object's kind.
unfoldable pub delete_from :
    {X : Type 0} → (Api → Store X) → (Store X → Api → Api) → String → String → Io (Unit {0})
delete_from get set ns n a = if fails a then (err failed, called a) else elim (get a ns n) [
  | none ↦ (err not_found, called a)
  | some _ ↦ (ok tt, called (set (update (get a) ns n none) a))
]

abbrev pub put_service : String → String → Service → Api → Api
put_service ns n s a = record a { services = update a.services ns n (some s) }

unfoldable pub create_service : String → String → Service → Io (Unit {0})
create_service ns n s a = if fails a then (err failed, called a) else elim (a.services ns n) [
  | some _ ↦ (err already_exists, called a)
  | none ↦ (ok tt, called (put_service ns n s a))
]

unfoldable pub patch_service : String → String → Service → Io (Unit {0})
patch_service ns n s a = if fails a then (err failed, called a) else elim (a.services ns n) [
  | none ↦ (err not_found, called a)
  | some _ ↦ (ok tt, called (put_service ns n s a))
]

pub Result-cases {ℓ} :
    {A : Type ℓ} (r : Result A) → ((x : A) × (r ≡ ok x)) ⊎ ((e : Error) × (r ≡ err e))
Result-cases (ok x) = inl (x, refl)
Result-cases (err e) = inr (e, refl)
