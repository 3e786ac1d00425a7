-- ===== src/Wrapper/BinarySync/Defs.antt =====
-- BinarySyncer of binarysync.go, and FileSHA256 of binaryspec.go.
use Prim.Native.String.{len, slice}
use cnpg_pg_doorman.Base.{
  ℕ, ◌+◌, String, ◌<>◌, ◌==◌, Bool, true, false, not, ◌||◌, Option, none, some, nat_eq, leb,
  if◌then◌else◌, pos, int_lt,
}
use cnpg_pg_doorman.Base.Maps.{lookup}
use cnpg_pg_doorman.Wrapper.World.{
  Error, os_error, not_exist, message, wrap, Result, ok, err, Response, no_response, response,
  World, Io, called, fails, pure, lift, ignore, deferred, ◌>>=◌, ◌>>◌,
}
use cnpg_pg_doorman.Wrapper.Calls.{
  read_file, write, touch, chmod, remove, rename, mkdir_all, create_temp,
}
use cnpg_pg_doorman.Wrapper.Platform.{Platform}
use cnpg_pg_doorman.Wrapper.BinarySpec.{BinarySpec, parse_binary_spec}

abbrev pub max_binary_bytes : ℕ
max_binary_bytes = 268435456

pub record BinarySyncer : Type 0 where
  pub spec_path : String
  pub image_path : String
  pub runtime_path : String
  pub arch : String

-- NewBinarySyncer
unfoldable pub new_binary_syncer : String → String → String → String → BinarySyncer
new_binary_syncer spec_path image_path runtime_path arch = record {
  spec_path = spec_path;
  image_path = image_path;
  runtime_path = runtime_path;
  arch = arch;
}

abbrev pub when_not : Bool → String → Io (Unit {0})
when_not true text w = (ok tt, w)
when_not false text w = (err (message text), w)

-- io.LimitReader at one byte over the cap.
unfoldable pub limited : String → String
limited body =
    if leb (len body) (max_binary_bytes + 1) then body else slice body 0 (max_binary_bytes + 1)

unfoldable pub set_binary_stale : ℕ → World → World
set_binary_stale n w = record w { metrics = record w.metrics { binary_stale = n } }

abbrev value_or_empty : Option String → String
value_or_empty none = ""
value_or_empty (some v) = v

-- spec.SHA256[arch], which is "" on a missing key.
unfoldable pub desired_digest : BinarySpec → String → String
unfolding lookup
desired_digest spec arch = value_or_empty (lookup arch spec.sha256)

-- err == nil && cur == want
abbrev pub is_digest : Result String → String → Bool
is_digest (ok cur) want = cur == want
is_digest (err e) want = false

module _ (P : Platform) where
  unfoldable pub file_sha256 : String → Io String
  file_sha256 path = do text ← read_file path; pure (P.sha256 text)

  -- The last calls of `atomicInstall` and `Download`: mode, fsync, close, rename.
  unfoldable pub install_temp : String → String → Io (Unit {0})
  install_temp tmp dest_path = do chmod tmp 0o755; touch; touch; rename tmp dest_path

  -- The deferred Close and Remove of the temporary file.
  unfoldable pub discard : String → Io (Unit {0})
  discard tmp = ignore touch >> ignore (remove tmp)

  unfoldable pub atomic_install : String → String → Io (Unit {0})
  atomic_install dest_path text = do
    mkdir_all (P.dir dest_path)
    tmp ← create_temp P.temp_name (P.dir dest_path)
    deferred (write tmp text >> install_temp tmp dest_path) (discard tmp)

  -- httpClientFor: only the CA bundle can be refused.
  abbrev pub http_client_for : BinarySpec → Io (Unit {0})
  http_client_for spec =
      when_not (spec.ca_bundle == "" || P.ca_parses spec.ca_bundle)
        "binary spec: cannot parse CA bundle"

  -- http.NewRequest and client.Do.
  unfoldable pub request : String → Io Response
  request url w = (
    if fails w then err os_error else elim (w.serve url w.calls) [
      | no_response ↦ err os_error
      | response status content_length body broken ↦ ok (response status content_length body broken)
    ],
    called w,
  )

  -- CreateTemp, once more after MkdirAll if it fails.
  abbrev retried : Result String → String → Io String
  retried (ok tmp) d w = (ok tmp, w)
  retried (err e) d w = (mkdir_all d >> create_temp P.temp_name d) w

  unfoldable pub create_download : String → Io String
  create_download d w = let (r, w') = create_temp P.temp_name d w in retried r d w'

  -- io.Copy and the checks on what it copied, then the installation.
  unfoldable pub receive : String → Bool → String → String → String → Io (Unit {0})
  receive body broken want_sha dest_path tmp = do
    write tmp (limited body)
    when_not (not broken) "read error"
    when_not (leb (len (limited body)) max_binary_bytes) "binary exceeds the byte limit"
    when_not (P.sha256 (limited body) == want_sha) "downloaded binary digest mismatch"
    install_temp tmp dest_path

  unfoldable pub answered : Response → String → String → Io (Unit {0})
  answered no_response want_sha dest_path = lift (err os_error)
  answered (response status content_length body broken) want_sha dest_path = do
    when_not (nat_eq status 200) "binary endpoint status"
    when_not (not (int_lt (pos max_binary_bytes) content_length)) "declared size over the limit"
    tmp ← create_download (P.dir dest_path)
    deferred (receive body broken want_sha dest_path tmp) (discard tmp)

  module _ (s : BinarySyncer) where
    unfoldable pub download : BinarySpec → String → String → Io (Unit {0})
    download spec want_sha dest_path = do
      http_client_for spec
      resp ← request (spec.url <> "/binaries/" <> s.arch)
      answered resp want_sha dest_path

    -- The copy of `installFromImage`, unless the runtime binary is the image one already.
    unfoldable pub copy_image : String → Io (Unit {0})
    copy_image img_sha w =
        let (cur, w') = file_sha256 s.runtime_path w in
        if is_digest cur img_sha
        then (ok tt, w')
        else (do text ← read_file s.image_path; atomic_install s.runtime_path text) w'

    abbrev hashed : Result String → Io String
    hashed (ok sum) w = (ok sum, w)
    hashed (err e) w = (err (wrap "hashing image binary" e), w)

    unfoldable pub hash_image : Io String
    hash_image w = let (r, w') = file_sha256 s.image_path w in hashed r w'

    unfoldable pub install_from_image : String → Io (Unit {0})
    install_from_image want_sha = do
      img_sha ← hash_image
      when_not (want_sha == "" || img_sha == want_sha) "image binary digest mismatch"
      copy_image img_sha

    unfoldable pub revert_to_image : Io Bool
    revert_to_image = do
      img_sha ← hash_image
      λ w.
          let (cur, w') = file_sha256 s.runtime_path w in
          if is_digest cur img_sha then (ok false, w') else (do install_from_image ""; pure true) w'

    -- The seed goes with the result of the installation.
    abbrev pub seeded : String → Io (Unit {0}) → Io String
    seeded seed m = do m; pure seed

    abbrev pub downloaded : String → Result (Unit {0}) → Io String
    downloaded text (ok _) w = (ok text, set_binary_stale 0 w)
    downloaded text (err e) w = seeded "" (install_from_image "") (set_binary_stale 1 w)

    -- The sources in order of preference, for a digest that is not empty.
    unfoldable pub obtain : BinarySpec → String → String → Io String
    obtain spec text desired w =
        let (cur, w1) = file_sha256 s.runtime_path w in
        if is_digest cur desired
        then (ok text, w1)
        else (let (img, w2) = file_sha256 s.image_path w1 in
            if is_digest img desired
            then seeded text (install_from_image desired) w2
            else (let (r, w3) = download spec desired s.runtime_path w2 in downloaded text r w3))

    unfoldable pub ensure_desired : BinarySpec → String → Io String
    ensure_desired spec text =
        let desired = desired_digest spec s.arch in
        if desired == "" then seeded text (install_from_image "") else obtain spec text desired

    abbrev pub spec_parsed : String → Result BinarySpec → Io String
    spec_parsed text (err e) = seeded text (install_from_image "")
    spec_parsed text (ok spec) = ensure_desired spec text

    abbrev is_not_exist : Error → Bool
    is_not_exist not_exist = true
    is_not_exist _ = false

    abbrev pub spec_read : Result String → Io String
    spec_read (ok text) = spec_parsed text (parse_binary_spec P.parse_json text)
    spec_read (err e) = if is_not_exist e then seeded "" (install_from_image "") else lift (err e)

    -- EnsureAtStartup. The seed "" is Go's nil: bytes.Equal does not tell them apart.
    unfoldable pub ensure_at_startup : Io String
    ensure_at_startup w = let (r, w') = read_file s.spec_path w in spec_read r w'
