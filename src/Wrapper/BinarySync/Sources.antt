-- ===== src/Wrapper/BinarySync/Sources.antt =====
-- Which binary is at the runtime path after the start (`EnsureAtStartup` of binarysync.go).
use cnpg_pg_doorman.Base.{
  String, ◌==◌, ◌≡◌, ◌≢◌, ◌⊎◌, inl, inr, refl, ap, ◌||◌, Bool, Bool-cases, true, false, Option,
  none, some, arith, eq_iff, eq_refl,
}
use cnpg_pg_doorman.Wrapper.World.{File, Result, ok, err, World, ◌>>=◌, ◌>>◌, called, deferred}
use cnpg_pg_doorman.Wrapper.Calls.{read_file, write, touch, chmod, rename, mkdir_all, create_temp}
use cnpg_pg_doorman.Wrapper.Frame.{bind-ok, create_temp-ne}
use cnpg_pg_doorman.Wrapper.Platform.{Platform}
use cnpg_pg_doorman.Wrapper.FileWatcher.Materialize.{read_file_text, text_at}
use cnpg_pg_doorman.Wrapper.BinarySync.Defs.{
  BinarySyncer, when_not, install_temp, atomic_install, file_sha256, is_digest, copy_image,
  hash_image, install_from_image,
}
use cnpg_pg_doorman.Wrapper.BinarySync.Download.{IsFresh, Keeps-discard}

module _ (P : Platform) where
  abbrev pub digest_of : Option File → Option String
  digest_of none = none
  digest_of (some f) = some (P.sha256 f.content)

  -- The digest of the file at a path, if there is one.
  abbrev pub digest_at : String → World → Option String
  digest_at path w = digest_of (w.files path)

  pub file_sha256-digest :
      (path : String) (w : World) {sum : String}
      → (file_sha256 P path w).0 ≡ ok sum
      → digest_at path w ≡ some sum
  unfolding file_sha256 read_file ◌>>=◌
  file_sha256-digest path w h = ground arith

  pub file_sha256-world : (path : String) (w : World) → (file_sha256 P path w).1 ≡ called w
  unfolding file_sha256 read_file ◌>>=◌
  file_sha256-world path w = ground arith

  write_install-text :
      (tmp dest_path text : String) (w : World)
      → ((write tmp text >> install_temp P tmp dest_path) w).0 ≡ ok tt
      → text_at tmp w ≢ none
      → text_at dest_path ((write tmp text >> install_temp P tmp dest_path) w).1 ≡ some text
  unfolding install_temp write chmod touch rename ◌>>=◌
  write_install-text tmp dest_path text w h there = ground (arith, eq_refl tmp, eq_refl dest_path)

  create_temp-there :
      (d tmp : String) (w : World)
      → (create_temp P.temp_name d w).0 ≡ ok tmp
      → text_at tmp (create_temp P.temp_name d w).1 ≢ none
  unfolding create_temp
  create_temp-there d tmp w h = ground (arith, eq_refl tmp)

  atomic_install-text :
      (dest_path text : String) (w : World)
      → IsFresh P dest_path
      → (atomic_install P dest_path text w).0 ≡ ok tt
      → text_at dest_path (atomic_install P dest_path text w).1 ≡ some text
  unfolding atomic_install deferred
  atomic_install-text dest_path text w fresh h =
      let d = P.dir dest_path in
      let (_, _, h1, e1) = bind-ok _ _ w h in
      let w1 = (mkdir_all d w).1 in
      let (tmp, made, h2, e2) = bind-ok (create_temp P.temp_name d) _ w1 h1 in
      let apart = create_temp-ne dest_path P.temp_name fresh d tmp w1 made in
      let w2 = (create_temp P.temp_name d w1).1 in
      let good = write_install-text tmp dest_path text w2 h2 (create_temp-there d tmp w1 made) in
      rw (e1, e2, (Keeps-discard P dest_path fresh tmp apart).at) good

  pub is_digest-ok : (r : Result String) (want : String) → is_digest r want ≡ true → r ≡ ok want
  is_digest-ok (ok cur) want h = ap ok ((eq_iff cur want).0 h)
  is_digest-ok (err e) want h = cc h

  when_not-ok :
      (b : Bool) (text : String) (w : World) {u : Unit {0}}
      → (when_not b text w).0 ≡ ok u
      → (b ≡ true) × ((when_not b text w).1 ≡ w)
  when_not-ok true text w h = (refl, refl)
  when_not-ok false text w h = cc h

  module _ (s : BinarySyncer) (fresh : IsFresh P s.runtime_path) where
    hash_image-digest :
        (w : World) {sum : String}
        → (hash_image P s w).0 ≡ ok sum
        → (digest_at s.image_path w ≡ some sum) × ((hash_image P s w).1 ≡ called w)
    unfolding hash_image file_sha256 read_file ◌>>=◌
    hash_image-digest w h = ground arith

    copy_image-digest :
        (sum : String) (w : World)
        → digest_at s.image_path w ≡ some sum
        → (copy_image P s sum w).0 ≡ ok tt
        → digest_at s.runtime_path (copy_image P s sum w).1 ≡ some sum
    unfolding copy_image
    copy_image-digest sum w there h =
        let once = file_sha256-world s.runtime_path w in
        elim (Bool-cases (is_digest (file_sha256 P s.runtime_path w).0 sum)) [
          | inl same ↦
              (let cur = is_digest-ok (file_sha256 P s.runtime_path w).0 sum same in
                rw (same, once) (file_sha256-digest s.runtime_path w cur))
          | inr differs ↦
              (let (text, read, done, whole) =
                  bind-ok (read_file s.image_path) (atomic_install P s.runtime_path) (called w)
                    (rw (differs, once) at h) in
                let w1 = (read_file s.image_path (called w)).1 in
                let source : text_at s.image_path w ≡ some text =
                  read_file_text s.image_path (called w) read in
                let sum' : P.sha256 text ≡ sum = ground (arith, source, there) in
                let copied = atomic_install-text s.runtime_path text w1 fresh done in
                rw (differs, once, whole) (ground (arith, copied, sum')))
        ]

    -- The image binary is there, it has the digest that was asked for, if any, and the runtime
    -- binary has its digest.
    pub install_from_image-digest :
        (want_sha : String) (w : World)
        → (install_from_image P s want_sha w).0 ≡ ok tt
        → (sum : String) × (digest_at s.image_path w ≡ some sum)
          × (digest_at s.runtime_path (install_from_image P s want_sha w).1 ≡ some sum)
          × ((want_sha ≡ "") ⊎ (sum ≡ want_sha))
    unfolding install_from_image
    install_from_image-digest want_sha w h =
        let (sum, hashed, h1, e1) = bind-ok (hash_image P s) _ w h in
        let w1 = (hash_image P s w).1 in
        let (_, passed, h2, e2) = bind-ok _ (λ _. copy_image P s sum) w1 h1 in
        let (there, files) = hash_image-digest w hashed in
        let (right, same) = when_not-ok (want_sha == "" || sum == want_sha) _ w1 passed in
        let installed = copy_image-digest sum (called w) there (rw (same, files) at h2) in
        (
          sum,
          there,
          rw (e1, e2, same, files) installed,
          ground (arith, right, eq_iff want_sha "", eq_iff sum want_sha),
        )
