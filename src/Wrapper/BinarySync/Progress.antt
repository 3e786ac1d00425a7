-- ===== src/Wrapper/BinarySync/Progress.antt =====
-- A download from an endpoint that serves the wanted binary (`Download` of binarysync.go).
use Prim.Native.String.{len}
use cnpg_pg_doorman.Base.{
  ℕ, ◌+◌, ◌≤◌, String, ◌<>◌, ◌==◌, ◌≡◌, inl, inr, refl, ◌||◌, Bool-cases, true, false, none, some,
  pos, ltb, arith, eq_iff, eq_refl,
}
use cnpg_pg_doorman.Wrapper.World.{ok, World, Io, ◌>>=◌, response, called, deferred}
use cnpg_pg_doorman.Wrapper.Calls.{write, touch, chmod, rename, mkdir_all, create_temp}
use cnpg_pg_doorman.Wrapper.Platform.{Platform}
use cnpg_pg_doorman.Wrapper.BinarySpec.{BinarySpec}
use cnpg_pg_doorman.Wrapper.FileWatcher.Materialize.{text_at}
use cnpg_pg_doorman.Wrapper.FileWatcher.Progress.{IsUp}
use cnpg_pg_doorman.Wrapper.BinarySync.Defs.{
  BinarySyncer, max_binary_bytes, limited, install_temp, discard, request, create_download, receive,
  answered, download,
}
use cnpg_pg_doorman.Wrapper.BinarySync.Download.{IsFresh, Keeps-discard}

limited-short : (body : String) → len body ≤ max_binary_bytes → limited body ≡ body
unfolding limited
limited-short body h = ground arith

module _ (P : Platform) where
  create_download-succeeds :
      (d : String) (w : World)
      → IsUp w
      → ((n : ℕ) → w.files (P.temp_name d n) ≡ none)
      → (tmp : String) × (n : ℕ) × (tmp ≡ P.temp_name d n)
        × ((create_download P d w).0 ≡ ok tmp)
        × (text_at tmp (create_download P d w).1 ≡ some "")
        × ((create_download P d w).1.fault ≡ w.fault)
  unfolding create_download create_temp mkdir_all ◌>>=◌
  create_download-succeeds d w up free = elim (Bool-cases (w.dirs d)) [
    | inl there ↦
        (let n = w.calls in
          (
            P.temp_name d n,
            n,
            refl,
            ground (arith, up n, free n),
            ground (arith, up n, free n, eq_refl (P.temp_name d n)),
            ground arith,
          ))
    | inr missing ↦
        (let n = w.calls + 1 + 1 in
          (
            P.temp_name d n,
            n,
            refl,
            ground (arith, up w.calls, up (w.calls + 1), up n, free n, eq_refl d),
            ground (
              arith,
              up w.calls,
              up (w.calls + 1),
              up n,
              free n,
              eq_refl d,
              eq_refl (P.temp_name d n),
            ),
            ground arith,
          ))
  ]

  receive-succeeds :
      (body want_sha dest_path tmp : String) (w : World)
      → IsUp w
      → text_at tmp w ≡ some ""
      → len body ≤ max_binary_bytes
      → P.sha256 body ≡ want_sha
      → ((receive P body false want_sha dest_path tmp w).0 ≡ ok tt)
        × (text_at dest_path (receive P body false want_sha dest_path tmp w).1 ≡ some body)
  unfolding receive install_temp write chmod touch rename ◌>>=◌
  receive-succeeds body want_sha dest_path tmp w up there short same =
      let n = w.calls in
      let l = limited-short body short in
      ground (
        arith,
        up n,
        up (n + 1),
        up (n + 2),
        up (n + 3),
        up (n + 4),
        l,
        eq_iff (P.sha256 body) want_sha,
        eq_refl tmp,
        eq_refl dest_path,
      )

  -- What is needed of the endpoint's answer and of the pod for a download to `dest_path`.
  pub record IsServed (spec : BinarySpec) (arch want_sha dest_path body : String) (w : World)
      : Type 0 where
    pub up : IsUp w
    pub trusted : ((spec.ca_bundle == "") || P.ca_parses spec.ca_bundle) ≡ true
    pub answer :
        w.serve (spec.url <> "/binaries/" <> arch) w.calls
        ≡ response 200 (pos (len body)) body false
    pub wanted : P.sha256 body ≡ want_sha
    pub short : len body ≤ max_binary_bytes
    pub fresh : IsFresh P dest_path
    pub free : (n : ℕ) → w.files (P.temp_name (P.dir dest_path) n) ≡ none

  abbrev fetch : String → String → String → Io (Unit {0})
  fetch body want_sha dest_path =
      create_download P (P.dir dest_path)
      >>= (λ tmp. deferred (receive P body false want_sha dest_path tmp) (discard P tmp))

  fetch-succeeds :
      (body want_sha dest_path : String) (w : World)
      → IsUp w
      → P.sha256 body ≡ want_sha
      → len body ≤ max_binary_bytes
      → IsFresh P dest_path
      → ((n : ℕ) → w.files (P.temp_name (P.dir dest_path) n) ≡ none)
      → ((fetch body want_sha dest_path w).0 ≡ ok tt)
        × (text_at dest_path (fetch body want_sha dest_path w).1 ≡ some body)
  unfolding deferred ◌>>=◌
  fetch-succeeds body want_sha dest_path w up wanted short fresh free =
      let (tmp, n, name, made, there, kept) =
        create_download-succeeds (P.dir dest_path) w up free in
      let w1 = (create_download P (P.dir dest_path) w).1 in
      let up1 : IsUp w1 = λ m. rw kept (up m) in
      let (done, text) = receive-succeeds body want_sha dest_path tmp w1 up1 there short wanted in
      let apart : (tmp == dest_path) ≡ false = rw name (fresh (P.dir dest_path) n) in
      rw (made, (Keeps-discard P dest_path fresh tmp apart).at) (done, text)

  pub download-succeeds :
      (s : BinarySyncer) (spec : BinarySpec) (want_sha dest_path body : String) (w : World)
      → IsServed spec s.arch want_sha dest_path body w
      → ((download P s spec want_sha dest_path w).0 ≡ ok tt)
        × (text_at dest_path (download P s spec want_sha dest_path w).1 ≡ some body)
  unfolding download answered request ◌>>=◌
  download-succeeds s spec want_sha dest_path body w i =
      let fetched =
        fetch-succeeds body want_sha dest_path (called w) i.up i.wanted i.short i.fresh i.free in
      let small : ltb max_binary_bytes (len body) ≡ false = ground (arith, i.short) in
      rw (i.trusted, i.up w.calls, i.answer, small) fetched
