-- ===== src/Plugin/Binaries.antt =====
-- The digests that the plugin publishes (LoadManifest of internal/binaries/binaries.go and
-- loadBinarySpec of cmd/plugin/plugin.go). The directory is what os.ReadDir and
-- wrapper.FileSHA256 give.
pub mod Endpoint
use cnpg_pg_doorman.Base.{
  ◌≡◌, ◌⊎◌, inl, inr, refl, sym, ap, ◌∙◌, String, ◌==◌, Bool, true, false, not, Option, none, some,
  List, [], ◌∷◌, if◌then◌else◌, eq_iff, Bool-cases,
}
use cnpg_pg_doorman.Base.Maps.{Map, lookup, insert, lookup-insert}
use cnpg_pg_doorman.Wrapper.World
use cnpg_pg_doorman.Wrapper.BinarySpec.{BinarySpec, parse_binary_spec}
use cnpg_pg_doorman.Plugin.Api.{failed, Result, ok, err}

-- The digest of <dir>/<name>/pg_doorman.
pub data FileHash : Type 0 where
  missing unreadable : FileHash
  digest : String → FileHash

pub record Entry : Type 0 where
  pub name : String
  pub is_dir : Bool
  pub hash : FileHash

pub data Directory : Type 0 where
  absent : Directory
  broken : Directory
  holding : List Entry → Directory

abbrev add_digest : String → FileHash → Map String → Result (Map String)
add_digest name missing manifest = ok manifest
add_digest name unreadable manifest = err failed
add_digest name (digest sum) manifest = ok (insert name sum manifest)

abbrev go_on : Result (Map String) → (Map String → Result (Map String)) → Result (Map String)
go_on (err e) rest = err e
go_on (ok manifest) rest = rest manifest

unfoldable pub collect_digests : List Entry → Map String → Result (Map String)
unfolding insert
collect_digests [] manifest = ok manifest
collect_digests (e ∷ es) manifest =
    if not e.is_dir
    then collect_digests es manifest
    else go_on (add_digest e.name e.hash manifest) (collect_digests es)

abbrev nil_if_empty : Result (Map String) → Result (Option (Map String))
nil_if_empty (err e) = err e
nil_if_empty (ok []) = ok none
nil_if_empty (ok (d ∷ ds)) = ok (some (d ∷ ds))

-- LoadManifest
unfoldable pub load_manifest : Directory → Result (Option (Map String))
load_manifest absent = ok none
load_manifest broken = err failed
load_manifest (holding es) = nil_if_empty (collect_digests es [])

abbrev with_ca : String → Map String → Option String → Result (Option BinarySpec)
with_ca base_url manifest none = err failed
with_ca base_url manifest (some ca) =
    ok (some (record { url = base_url; sha256 = manifest; ca_bundle = ca }))

abbrev pub spec_of :
    Result (Option (Map String))
    → String
    → String
    → (String → Option String)
    → Result (Option BinarySpec)
spec_of (err e) base_url ca_file read_file = err e
spec_of (ok none) base_url ca_file read_file = ok none
spec_of (ok (some manifest)) base_url ca_file read_file =
    if base_url == ""
    then ok none
    else if not (ca_file == "")
    then with_ca base_url manifest (read_file ca_file)
    else with_ca base_url manifest (some "")

-- loadBinarySpec: `read_file` is os.ReadFile.
unfoldable pub load_binary_spec :
    Directory → String → String → (String → Option String) → Result (Option BinarySpec)
load_binary_spec dir base_url ca_file read_file =
    spec_of (load_manifest dir) base_url ca_file read_file

-- A directory of the name `arch` with a pg_doorman of the digest `sum`.
abbrev pub Holds : String → String → List Entry → Type 0
Holds arch sum [] = ⊥
Holds arch sum (e ∷ es) =
    ((e.name ≡ arch) × (e.is_dir ≡ true) × (e.hash ≡ digest sum)) ⊎ Holds arch sum es

abbrev pub Carries : String → String → Directory → Type 0
Carries arch sum absent = ⊥
Carries arch sum broken = ⊥
Carries arch sum (holding es) = Holds arch sum es

-- One round: what the manifest has for a name was there before, or comes from this entry or a later
-- one.
module _ (arch sum : String) where
  kept_or_held :
      (name : String) (hash : FileHash) (es : List Entry) (manifest out : Map String)
      → ((m : Map String)
          → collect_digests es m ≡ ok out
          → (lookup arch m ≡ some sum) ⊎ Holds arch sum es)
      → go_on (add_digest name hash manifest) (collect_digests es) ≡ ok out
      → (lookup arch manifest ≡ some sum)
        ⊎ (((name ≡ arch) × (hash ≡ digest sum)) ⊎ Holds arch sum es)
  kept_or_held name missing es manifest out later h = elim (later manifest h) [
    | inl k ↦ inl k
    | inr k ↦ inr (inr k)
  ]
  kept_or_held name unreadable es manifest out later h = cc h
  kept_or_held name (digest s) es manifest out later h = elim (later (insert name s manifest) h) [
    | inr k ↦ inr (inr k)
    | inl k ↦ elim (Bool-cases (name == arch)) [
      | inl e ↦
          let found : some s ≡ some sum =
            rw e at (lookup-insert {V = String} name arch s manifest ∙ k) in
          inr (inl ((eq_iff name arch).0 e, cc found))
      | inr e ↦ inl (rw e at (lookup-insert {V = String} name arch s manifest ∙ k))
    ]
  ]

  collect_digests-Holds :
      (es : List Entry) (manifest out : Map String)
      → lookup arch out ≡ some sum
      → collect_digests es manifest ≡ ok out
      → (lookup arch manifest ≡ some sum) ⊎ Holds arch sum es
  unfolding collect_digests
  collect_digests-Holds [] manifest out k h = inl (cc (h, k))
  collect_digests-Holds (e ∷ es) manifest out k h =
      let later = λ (m : Map String). collect_digests-Holds es m out k in
      elim (Bool-cases e.is_dir) [
        | inr d ↦ elim (later manifest (rw d at h)) [
          | inl found ↦ inl found
          | inr held ↦ inr (inr held)
        ]
        | inl d ↦ elim (kept_or_held e.name e.hash es manifest out later (rw d at h)) [
          | inl found ↦ inl found
          | inr (inl (n, s)) ↦ inr (inl (n, d, s))
          | inr (inr held) ↦ inr (inr held)
        ]
      ]

abbrev IsNonEmpty : Map String → Type 0
IsNonEmpty m = (d : String × String) × (ds : Map String) × (m ≡ d ∷ ds)

nil_if_empty-some :
    (r : Result (Map String)) (m : Map String)
    → nil_if_empty r ≡ ok (some m)
    → (r ≡ ok m) × IsNonEmpty m
nil_if_empty-some (err e) m h = cc h
nil_if_empty-some (ok []) m h = cc h
nil_if_empty-some (ok (d ∷ ds)) m h = (cc h, (d, ds, cc h))

with_ca-some :
    (base_url : String) (manifest : Map String) (ca : Option String) (spec : BinarySpec)
    → with_ca base_url manifest ca ≡ ok (some spec)
    → (spec.sha256 ≡ manifest) × (spec.url ≡ base_url)
with_ca-some base_url manifest none spec h = cc h
with_ca-some base_url manifest (some ca) spec h =
    let same : record { url = base_url; sha256 = manifest; ca_bundle = ca } ≡ spec = cc h in
    (sym (ap (λ s. s.sha256) same), sym (ap (λ s. s.url) same))

pub spec_of-some :
    (r : Result (Option (Map String))) (base_url ca_file : String)
    (read_file : String → Option String) (spec : BinarySpec)
    → spec_of r base_url ca_file read_file ≡ ok (some spec)
    → (r ≡ ok (some spec.sha256)) × ((spec.url == "") ≡ false)
spec_of-some (err e) base_url ca_file read_file spec h = cc h
spec_of-some (ok none) base_url ca_file read_file spec h = cc h
spec_of-some (ok (some m)) base_url ca_file read_file spec h = elim (Bool-cases (base_url == "")) [
  | inl e ↦ cc (rw e at h)
  | inr e ↦ elim (Bool-cases (ca_file == "")) [
    | inl c ↦
        let (s, u) = with_ca-some base_url m (some "") spec (rw (e, c) at h) in
        (ap (λ x. ok (some x)) (sym s), rw u e)
    | inr c ↦
        let (s, u) = with_ca-some base_url m (read_file ca_file) spec (rw (e, c) at h) in
        (ap (λ x. ok (some x)) (sym s), rw u e)
  ]
]

pub load_manifest-Carries :
    (dir : Directory) (m : Map String)
    → load_manifest dir ≡ ok (some m)
    → IsNonEmpty m × ((arch sum : String) → lookup arch m ≡ some sum → Carries arch sum dir)
unfolding load_manifest lookup
load_manifest-Carries absent m h = cc h
load_manifest-Carries broken m h = cc h
load_manifest-Carries (holding es) m h =
    let (made, filled) = nil_if_empty-some (collect_digests es []) m h in
    (
      filled,
      λ arch sum k. elim (collect_digests-Holds arch sum es [] m k made) [
        | inl none_yet ↦ cc none_yet
        | inr held ↦ held
      ],
    )

-- Where the plugin has a spec of the binary to publish, and the JSON decoder gives it back for a
-- text, the wrapper's parser accepts that text and gives the same spec, and each digest in it is
-- that of a pg_doorman in the directory of its architecture in the image.
pub load_binary_spec-parse_binary_spec :
    (dir : Directory) (base_url ca_file : String) (read_file : String → Option String)
    (parse_json : String → Option BinarySpec) (text : String) (spec : BinarySpec)
    → load_binary_spec dir base_url ca_file read_file ≡ ok (some spec)
    → parse_json text ≡ some spec
    → (parse_binary_spec parse_json text ≡ World.ok spec)
      × ((arch sum : String) → lookup arch spec.sha256 ≡ some sum → Carries arch sum dir)
unfolding load_binary_spec parse_binary_spec
load_binary_spec-parse_binary_spec dir base_url ca_file read_file parse_json text spec h k =
    let (made, u) = spec_of-some (load_manifest dir) base_url ca_file read_file spec h in
    let ((d, ds, filled), carried) = load_manifest-Carries dir spec.sha256 made in
    (rw (k, u, filled) refl, carried)
