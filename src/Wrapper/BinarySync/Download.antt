-- ===== src/Wrapper/BinarySync/Download.antt =====
-- What a download of the binary leaves behind (`Download` of binarysync.go).
use Prim.Native.String.{len}
use cnpg_pg_doorman.Base.{
  ℕ, ◌≤◌, String, ◌≡◌, ◌≢◌, refl, Bool, true, false, Option, none, some, ◌==◌, arith, eq_iff,
  eq_refl,
}
use cnpg_pg_doorman.Wrapper.World.{
  ok, World, Response, no_response, response, deferred, ◌>>=◌, lift,
}
use cnpg_pg_doorman.Wrapper.Calls.{write, touch, chmod, rename, mkdir_all, create_temp}
use cnpg_pg_doorman.Wrapper.Frame.{
  Keeps, file_at, file_rules, bind-ok, Keeps-bind_where, Keeps-bind, Keeps-deferred,
  Keeps-create_temp, create_temp-ne, Keeps-mkdir_all, Keeps-lift, Keeps-mkdir_all, Keeps-write,
  Keeps-bind_where, Keeps-bind, Keeps-deferred, Keeps-create_temp, create_temp-ne,
}
use cnpg_pg_doorman.Wrapper.Platform.{Platform}
use cnpg_pg_doorman.Wrapper.BinarySpec.{BinarySpec}
use cnpg_pg_doorman.Wrapper.FileWatcher.Materialize.{text_at}
use cnpg_pg_doorman.Wrapper.BinarySync.Defs.{
  BinarySyncer, max_binary_bytes, limited, when_not, install_temp, discard, atomic_install, request,
  create_download, receive, answered, download,
}

-- Every name that os.CreateTemp makes up differs from `q`.
abbrev pub IsFresh : Platform → String → Type 0
IsFresh P q = (d : String) (n : ℕ) → (P.temp_name d n == q) ≡ false

Keeps-when_not : {q : String} (b : Bool) (text : String) → Keeps (file_at q) (when_not b text)
Keeps-when_not true text = record { at = λ w. refl }
Keeps-when_not false text = record { at = λ w. refl }

module _ (P : Platform) (q : String) (fresh : IsFresh P q) where
  Keeps-install_temp :
      (tmp dest_path : String)
      → (tmp == q) ≡ false
      → (dest_path == q) ≡ false
      → Keeps (file_at q) (install_temp P tmp dest_path)
  unfolding install_temp
  Keeps-install_temp tmp dest_path h k = search file_rules depth 12

  pub Keeps-discard : (tmp : String) → (tmp == q) ≡ false → Keeps (file_at q) (discard P tmp)
  unfolding discard
  Keeps-discard tmp h = search file_rules depth 12

  Keeps-receive :
      (body : String) (broken : Bool) (want_sha dest_path tmp : String)
      → (tmp == q) ≡ false
      → (dest_path == q) ≡ false
      → Keeps (file_at q) (receive P body broken want_sha dest_path tmp)
  unfolding receive
  Keeps-receive body broken want_sha dest_path tmp h k =
      search (file_rules, Keeps-when_not, Keeps-install_temp) depth 14

  Keeps-request : (url : String) → Keeps (file_at q) (request P url)
  unfolding request
  Keeps-request url = record { at = λ w. refl }

  pub Keeps-atomic_install :
      (dest_path text : String)
      → (dest_path == q) ≡ false
      → Keeps (file_at q) (atomic_install P dest_path text)
  unfolding atomic_install
  Keeps-atomic_install dest_path text k = Keeps-bind _ _ (Keeps-mkdir_all _) λ _.
      Keeps-bind_where _ _ (Keeps-create_temp q P.temp_name fresh _) λ w tmp made.
        let apart = create_temp-ne q P.temp_name fresh _ tmp w made in
        Keeps-deferred _ _
          (Keeps-bind _ _ (Keeps-write tmp text apart)
            (λ _. Keeps-install_temp tmp dest_path apart k))
          (Keeps-discard tmp apart)

  Keeps-create_download : (d : String) → Keeps (file_at q) (create_download P d)
  unfolding create_download ◌>>=◌
  Keeps-create_download d = record {
    at = λ w.
        let w1 = (create_temp P.temp_name d w).1 in
        ground (
          arith,
          (Keeps-create_temp q P.temp_name fresh d).at w,
          (Keeps-mkdir_all {q = q} d).at w1,
          (Keeps-create_temp q P.temp_name fresh d).at (mkdir_all d w1).1,
        );
  }

  create_download-ne :
      (d t : String) (w : World) → (create_download P d w).0 ≡ ok t → (t == q) ≡ false
  unfolding create_download ◌>>=◌
  create_download-ne d t w h =
      let w1 = (create_temp P.temp_name d w).1 in
      ground (
        arith,
        create_temp-ne q P.temp_name fresh d t w,
        create_temp-ne q P.temp_name fresh d t (mkdir_all d w1).1,
      )

  Keeps-answered :
      (r : Response) (want_sha dest_path : String)
      → (dest_path == q) ≡ false
      → Keeps (file_at q) (answered P r want_sha dest_path)
  unfolding answered
  Keeps-answered no_response want_sha dest_path k = Keeps-lift _
  Keeps-answered (response status content_length body broken) want_sha dest_path k =
      Keeps-bind _ _ (Keeps-when_not _ _) λ _. Keeps-bind _ _ (Keeps-when_not _ _) λ _.
        Keeps-bind_where _ _ (Keeps-create_download _) λ w tmp made.
          let apart = create_download-ne _ tmp w made in
          Keeps-deferred _ _ (Keeps-receive body broken want_sha dest_path tmp apart k)
            (Keeps-discard tmp apart)

  -- A download touches no file but its destination and its temporary file.
  pub Keeps-download :
      (s : BinarySyncer) (spec : BinarySpec) (want_sha dest_path : String)
      → (dest_path == q) ≡ false
      → Keeps (file_at q) (download P s spec want_sha dest_path)
  unfolding download
  Keeps-download s spec want_sha dest_path k =
      search (file_rules, Keeps-when_not, Keeps-request, Keeps-answered)

module _ (P : Platform) where
  abbrev pub IsVerified : String → Option String → Type 0
  IsVerified want_sha none = ⊥
  IsVerified want_sha (some x) = (P.sha256 x ≡ want_sha) × (len x ≤ max_binary_bytes)

  receive-IsVerified :
      (body : String) (broken : Bool) (want_sha dest_path tmp : String) (w : World)
      → (receive P body broken want_sha dest_path tmp w).0 ≡ ok tt
      → text_at tmp w ≢ none
      → IsVerified want_sha (text_at dest_path (receive P body broken want_sha dest_path tmp w).1)
  unfolding receive install_temp write chmod touch rename ◌>>=◌
  receive-IsVerified body broken want_sha dest_path tmp w h t =
      ground (arith, eq_iff (P.sha256 (limited body)) want_sha, eq_refl tmp, eq_refl dest_path)

  create_download_there :
      (d t : String) (w : World)
      → (create_download P d w).0 ≡ ok t
      → text_at t (create_download P d w).1 ≢ none
  unfolding create_download create_temp mkdir_all ◌>>=◌
  create_download_there d t w h = ground (arith, eq_refl t)

  fetched-IsVerified :
      (body : String) (broken : Bool) (want_sha dest_path : String) (w : World)
      → IsFresh P dest_path
      → let fetch =
          create_download P (P.dir dest_path)
          >>= (λ tmp. deferred (receive P body broken want_sha dest_path tmp) (discard P tmp)) in
        (fetch w).0 ≡ ok tt → IsVerified want_sha (text_at dest_path (fetch w).1)
  unfolding deferred
  fetched-IsVerified body broken want_sha dest_path w fresh h =
      let create = create_download P (P.dir dest_path) in
      let rest =
        λ (tmp : String). deferred (receive P body broken want_sha dest_path tmp) (discard P tmp) in
      let (tmp, made, done, whole) = bind-ok create rest w h in
      let w1 = (create w).1 in
      let good =
        receive-IsVerified body broken want_sha dest_path tmp w1 done
          (create_download_there (P.dir dest_path) tmp w made) in
      let apart = create_download-ne P dest_path fresh (P.dir dest_path) tmp w made in
      rw (whole, (Keeps-discard P dest_path fresh tmp apart).at) good

  answered-IsVerified :
      (r : Response) (want_sha dest_path : String) (w : World)
      → IsFresh P dest_path
      → (answered P r want_sha dest_path w).0 ≡ ok tt
      → IsVerified want_sha (text_at dest_path (answered P r want_sha dest_path w).1)
  unfolding answered lift
  answered-IsVerified no_response want_sha dest_path w fresh h = cc h
  answered-IsVerified (response status size body broken) want_sha dest_path w fresh h =
      let (_, _, h1, e1) = bind-ok _ _ w h in
      let (_, _, h2, e2) = bind-ok _ _ _ h1 in
      rw (e1, e2) (fetched-IsVerified body broken want_sha dest_path _ fresh h2)

  -- If the names of temporary files differ from the destination, then after a download that succeeds
  -- the file at the destination has the digest that was asked for, and its length is within the size
  -- cap, whatever the endpoint answered.
  pub download-IsVerified :
      (s : BinarySyncer) (spec : BinarySpec) (want_sha dest_path : String) (w : World)
      → IsFresh P dest_path
      → (download P s spec want_sha dest_path w).0 ≡ ok tt
      → IsVerified want_sha (text_at dest_path (download P s spec want_sha dest_path w).1)
  unfolding download
  download-IsVerified s spec want_sha dest_path w fresh h =
      let (_, _, h1, e1) = bind-ok _ _ w h in
      let (r, _, h2, e2) = bind-ok _ _ _ h1 in
      rw (e1, e2) (answered-IsVerified r want_sha dest_path _ fresh h2)
