-- ===== src/Wrapper/BinarySync/Started.antt =====
-- What a start of the binary sync that succeeds has established (`EnsureAtStartup` of
-- binarysync.go).
use cnpg_pg_doorman.Base.{
  String, ◌==◌, ◌≡◌, ◌≢◌, inl, inr, refl, ◌∙◌, ap, sym, Bool-cases, false, some, arith, eq_iff,
}
use cnpg_pg_doorman.Wrapper.World.{
  Error, os_error, not_exist, message, wrap, join, lift, Result-cases, ok, err, World, called, pure,
}
use cnpg_pg_doorman.Wrapper.Calls.{read_file}
use cnpg_pg_doorman.Wrapper.Frame.{bind-ok}
use cnpg_pg_doorman.Wrapper.Platform.{Platform}
use cnpg_pg_doorman.Wrapper.BinarySpec.{BinarySpec, parse_binary_spec}
use cnpg_pg_doorman.Wrapper.FileWatcher.Materialize.{text_at, read_file_text}
use cnpg_pg_doorman.Wrapper.BinarySync.Defs.{
  BinarySyncer, file_sha256, is_digest, install_from_image, obtain, ensure_desired,
  ensure_at_startup, desired_digest, download, set_binary_stale, seeded, downloaded, spec_read,
  spec_parsed,
}
use cnpg_pg_doorman.Wrapper.BinarySync.Download.{
  IsFresh, Keeps-download, download-IsVerified, IsVerified,
}
use cnpg_pg_doorman.Wrapper.BinarySync.Sources.{
  digest_of, digest_at, is_digest-ok, file_sha256-digest, file_sha256-world,
  install_from_image-digest,
}

module _ (P : Platform) (s : BinarySyncer) where
  -- The runtime binary has the digest of the image binary.
  pub record IsImageBinary (w w' : World) : Type 0 where
    pub sum : String
    pub image : digest_at P s.image_path w ≡ some sum
    pub runtime : digest_at P s.runtime_path w' ≡ some sum

  pub data IsStarted (w w' : World) (seed : String) : Type 0 where
    -- The mounted spec names a digest for this architecture, and the runtime binary has it.
    delivered :
        (spec : BinarySpec)
        → text_at s.spec_path w ≡ some seed
        → parse_binary_spec P.parse_json seed ≡ ok spec
        → desired_digest spec s.arch ≢ ""
        → digest_at P s.runtime_path w' ≡ some (desired_digest spec s.arch)
        → IsStarted w w' seed
    -- The mounted spec is invalid or names no digest for this architecture.
    undirected :
        text_at s.spec_path w ≡ some seed
        → ((spec : BinarySpec)
            → parse_binary_spec P.parse_json seed ≡ ok spec
            → desired_digest spec s.arch ≡ "")
        → IsImageBinary w w'
        → IsStarted w w' seed
    -- There is no spec, or the download failed: the binary watcher will take any spec as new.
    fallen_back : seed ≡ "" → IsImageBinary w w' → IsStarted w w' seed

  verified-digest :
      (path : String) (w : World) {want_sha : String}
      → IsVerified P want_sha (text_at path w)
      → digest_at P path w ≡ some want_sha
  verified-digest path w h = ground arith

  module _ (fresh : IsFresh P s.runtime_path) (fresh_image : IsFresh P s.image_path)
      (apart : (s.runtime_path == s.image_path) ≡ false) where
    from_image :
        (given : String) (w : World) {seed : String}
        → (seeded P s given (install_from_image P s "") w).0 ≡ ok seed
        → (seed ≡ given) × IsImageBinary w (seeded P s given (install_from_image P s "") w).1
    unfolding pure
    from_image given w h =
        let (_, done, h1, e1) = bind-ok (install_from_image P s "") (λ _. pure given) w h in
        let (sum, image, runtime, _) = install_from_image-digest P s fresh "" w done in
        (cc h1, record { sum = sum; image = image; runtime = rw e1 runtime })

    from_before :
        (w w0 : World) {w' : World}
        → digest_at P s.image_path w0 ≡ digest_at P s.image_path w
        → IsImageBinary w w'
        → IsImageBinary w0 w'
    from_before w w0 same from = record {
      sum = from.sum;
      image = same ∙ from.image;
      runtime = from.runtime;
    }

    downloaded-IsStarted :
        (spec : BinarySpec) (text : String) (w w0 : World) {seed : String}
        → text_at s.spec_path w0 ≡ some text
        → parse_binary_spec P.parse_json text ≡ ok spec
        → desired_digest spec s.arch ≢ ""
        → digest_at P s.image_path w0 ≡ digest_at P s.image_path w
        → let got = download P s spec (desired_digest spec s.arch) s.runtime_path in
          (downloaded P s text (got w).0 (got w).1).0 ≡ ok seed
          → IsStarted w0 (downloaded P s text (got w).0 (got w).1).1 seed
    unfolding set_binary_stale
    downloaded-IsStarted spec text w w0 {seed} there parsed wanted same h =
        let desired = desired_digest spec s.arch in
        let got = download P s spec desired s.runtime_path in
        elim (Result-cases (got w).0) [
          | inl (_, done) ↦
              (let good = download-IsVerified P s spec desired s.runtime_path w fresh done in
                let same_seed : text ≡ seed = cc (rw done at h) in
                rw (← same_seed, done)
                  (delivered spec there parsed wanted
                    (verified-digest s.runtime_path (got w).1 good)))
          | inr (e, failed) ↦
              (let (empty, from) = from_image "" (set_binary_stale 1 (got w).1) (rw failed at h) in
                let kept =
                  ap (λ f. digest_of P f)
                    ((Keeps-download P s.image_path fresh_image s spec desired s.runtime_path
                        apart).at
                      w) in
                rw failed (
                  fallen_back empty (
                    from_before (got w).1 w0 (same ∙ sym kept)
                      (record { sum = from.sum; image = from.image; runtime = from.runtime }))))
        ]

    obtain-IsStarted :
        (spec : BinarySpec) (text : String) (w w0 : World) {seed : String}
        → text_at s.spec_path w0 ≡ some text
        → parse_binary_spec P.parse_json text ≡ ok spec
        → desired_digest spec s.arch ≢ ""
        → digest_at P s.image_path w0 ≡ digest_at P s.image_path w
        → (obtain P s spec text (desired_digest spec s.arch) w).0 ≡ ok seed
        → IsStarted w0 (obtain P s spec text (desired_digest spec s.arch) w).1 seed
    unfolding obtain pure
    obtain-IsStarted spec text w w0 {seed} there parsed wanted same h =
        let desired = desired_digest spec s.arch in
        let once = file_sha256-world P s.runtime_path w in
        let twice = file_sha256-world P s.image_path (called w) in
        elim (Bool-cases (is_digest (file_sha256 P s.runtime_path w).0 desired)) [
          | inl current ↦
              (let cur = is_digest-ok P (file_sha256 P s.runtime_path w).0 desired current in
                let same_seed : text ≡ seed = cc (rw current at h) in
                rw (← same_seed, current, once)
                  (delivered spec there parsed wanted (file_sha256-digest P s.runtime_path w cur)))
          | inr differs ↦
              elim (Bool-cases (is_digest (file_sha256 P s.image_path (called w)).0 desired)) [
                | inl at_image ↦
                    (let img =
                        is_digest-ok P (file_sha256 P s.image_path (called w)).0 desired at_image in
                      let w2 = called (called w) in
                      let (_, done, h1, e1) =
                        bind-ok (install_from_image P s desired) (λ _. pure text) w2
                          (rw (differs, once, at_image, twice) at h) in
                      let (sum, image, runtime, right) =
                        install_from_image-digest P s fresh desired w2 done in
                      let same_seed : text ≡ seed = cc h1 in
                      let same_sum : sum ≡ desired = ground (arith, right, wanted) in
                      rw (← same_seed, differs, once, at_image, twice, e1)
                        (delivered spec there parsed wanted (rw same_sum at runtime)))
                | inr remote ↦
                    rw (differs, once, remote, twice)
                      (downloaded-IsStarted spec text (called (called w)) w0 there parsed wanted
                        same (rw (differs, once, remote, twice) at h))
              ]
        ]

    spec_parsed-IsStarted :
        (text : String) (w w0 : World) {seed : String}
        → text_at s.spec_path w0 ≡ some text
        → digest_at P s.image_path w0 ≡ digest_at P s.image_path w
        → let parsed = spec_parsed P s text (parse_binary_spec P.parse_json text) in
          (parsed w).0 ≡ ok seed → IsStarted w0 (parsed w).1 seed
    unfolding ensure_desired
    spec_parsed-IsStarted text w w0 {seed} there same h =
        elim (Result-cases (parse_binary_spec P.parse_json text)) [
          | inr (e, bad) ↦
              (let (given, from) = from_image text w (rw bad at h) in
                rw (given, bad)
                  (undirected there (λ spec good. cc (good, bad)) (from_before w w0 same from)))
          | inl (spec, good) ↦ elim (Bool-cases (desired_digest spec s.arch == "")) [
            | inl nothing ↦
                (let (given, from) = from_image text w (rw (good, nothing) at h) in
                  let empty = (eq_iff (desired_digest spec s.arch) "").0 nothing in
                  rw (given, good, nothing)
                    (undirected there
                      (λ other good'. let e : other ≡ spec = cc (good', good) in rw e empty)
                      (from_before w w0 same from)))
            | inr wanted ↦
                rw (good, wanted)
                  (obtain-IsStarted spec text w w0 there good
                    (ground (arith, wanted, eq_iff (desired_digest spec s.arch) "")) same
                    (rw (good, wanted) at h))
          ]
        ]

    -- A spec that cannot be read: a missing one is as good as none.
    unread-IsStarted :
        (e : Error) (w w0 : World) {seed : String}
        → digest_at P s.image_path w0 ≡ digest_at P s.image_path w
        → (spec_read P s (err e) w).0 ≡ ok seed
        → IsStarted w0 (spec_read P s (err e) w).1 seed
    unfolding lift
    unread-IsStarted not_exist w w0 same h =
        let (empty, from) = from_image "" w h in fallen_back empty (from_before w w0 same from)
    unread-IsStarted os_error w w0 same h = cc h
    unread-IsStarted (message _) w w0 same h = cc h
    unread-IsStarted (wrap _ _) w w0 same h = cc h
    unread-IsStarted (join _ _) w w0 same h = cc h

    -- If the names of temporary files differ from the runtime and the image path, and these differ,
    -- then a binary sync that succeeds either returns the mounted spec, which names a digest for
    -- this architecture, and the runtime binary has it; or the runtime binary has the digest of the
    -- image binary, and what is returned is empty, or the mounted text where that is no valid spec
    -- or names no digest for this architecture.
    pub ensure_at_startup-IsStarted :
        (w : World) {seed : String}
        → (ensure_at_startup P s w).0 ≡ ok seed
        → IsStarted w (ensure_at_startup P s w).1 seed
    unfolding ensure_at_startup
    ensure_at_startup-IsStarted w h =
        let once : (read_file s.spec_path w).1 ≡ called w = unfold read_file in refl in
        elim (Result-cases (read_file s.spec_path w).0) [
          | inl (text, there) ↦
              rw (there, once)
                (spec_parsed-IsStarted text (called w) w (read_file_text s.spec_path w there) refl
                  (rw (there, once) at h))
          | inr (e, failed) ↦
              rw (failed, once) (unread-IsStarted e (called w) w refl (rw (failed, once) at h))
        ]
