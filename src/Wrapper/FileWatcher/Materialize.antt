-- ===== src/Wrapper/FileWatcher/Materialize.antt =====
-- What `materialize` of filewatcher.go leaves behind.
use cnpg_pg_doorman.Base.{
  String, ◌<>◌, ◌≡◌, refl, Bool, true, false, Option, none, some, ◌==◌, arith, eq_refl,
}
use cnpg_pg_doorman.Wrapper.World.{File, Error, ok, err, World, Io, ◌>>=◌, ◌>>◌}
use cnpg_pg_doorman.Wrapper.Calls.{read_file, open_trunc, write, touch, remove, rename}
use cnpg_pg_doorman.Wrapper.Frame.{bind-ok, Keeps, file_at, outside, file_rules, outside_rules}
use cnpg_pg_doorman.Wrapper.Platform.{Platform}
use cnpg_pg_doorman.Wrapper.AtomicWrite.{atomic_write}
use cnpg_pg_doorman.Wrapper.TlsKey.{ensure_pkcs8_key}
use cnpg_pg_doorman.Wrapper.FileWatcher.Defs.{
  FileWatcher, candidate_suffix, run_test_config, ensure_key, tested, prepare, materialize,
}

-- The text of the file at a path.
abbrev pub text_of : Option File → Option String
text_of none = none
text_of (some f) = some f.content

abbrev pub text_at : String → World → Option String
text_at p w = text_of (w.files p)

pub read_file_text :
    (p : String) (w : World) {text : String} → (read_file p w).0 ≡ ok text → text_at p w ≡ some text
unfolding read_file
read_file_text p w h = ground arith

-- `q` is none of the files that a materialization writes before its last rename.
pub record IsAside (fw : FileWatcher) (q : String) : Type 0 where
  pub key : (fw.key_path == q) ≡ false
  pub key_tmp : ((fw.key_path <> ".tmp") == q) ≡ false
  pub candidate : ((fw.runtime_path <> candidate_suffix) == q) ≡ false
  pub candidate_tmp : (((fw.runtime_path <> candidate_suffix) <> ".tmp") == q) ≡ false

pub Keeps-atomic_write :
    {q : String} (p text : String)
    → (p == q) ≡ false
    → ((p <> ".tmp") == q) ≡ false
    → Keeps (file_at q) (atomic_write p text)
unfolding atomic_write
Keeps-atomic_write p text h k = search file_rules depth 20

outside-atomic_write : (p text : String) → Keeps outside (atomic_write p text)
unfolding atomic_write
outside-atomic_write p text = search outside_rules depth 20

module _ (P : Platform) where
  Keeps-ensure_pkcs8_key :
      {q : String} (src dst : String)
      → (dst == q) ≡ false
      → ((dst <> ".tmp") == q) ≡ false
      → Keeps (file_at q) (ensure_pkcs8_key P src dst)
  unfolding ensure_pkcs8_key
  Keeps-ensure_pkcs8_key src dst h k = search file_rules depth 20

  outside-ensure_pkcs8_key : (src dst : String) → Keeps outside (ensure_pkcs8_key P src dst)
  unfolding ensure_pkcs8_key
  outside-ensure_pkcs8_key src dst = search outside_rules depth 20

  Keeps-run_test_config : {q : String} (b c : String) → Keeps (file_at q) (run_test_config P b c)
  unfolding run_test_config
  Keeps-run_test_config b c = record { at = λ w. refl }

  outside-run_test_config : (b c : String) → Keeps outside (run_test_config P b c)
  unfolding run_test_config
  outside-run_test_config b c = record { at = λ w. refl }

  Keeps-tested :
      {q : String} (t : Option String) (c : String)
      → (c == q) ≡ false
      → Keeps (file_at q) (tested P t c)
  Keeps-tested none c h = search file_rules
  Keeps-tested (some b) c h = search (file_rules, Keeps-run_test_config)

  outside-tested : (t : Option String) (c : String) → Keeps outside (tested P t c)
  outside-tested none c = search outside_rules
  outside-tested (some b) c = search (outside_rules, outside-run_test_config)

  pub Keeps-ensure_key :
      {q : String} (fw : FileWatcher) → IsAside fw q → Keeps (file_at q) (ensure_key P fw)
  Keeps-ensure_key fw a = search (file_rules, Keeps-ensure_pkcs8_key, a.key, a.key_tmp) depth 20

  pub Keeps-prepare :
      {q : String} (fw : FileWatcher) (text : String)
      → IsAside fw q
      → Keeps (file_at q) (prepare P fw text)
  unfolding prepare
  Keeps-prepare fw text a =
      search
        (
          file_rules, Keeps-ensure_pkcs8_key, Keeps-atomic_write, Keeps-tested, a.key, a.key_tmp,
          a.candidate, a.candidate_tmp,
        )
        depth 20

  pub outside-materialize :
      (fw : FileWatcher) (text : String) → Keeps outside (materialize P fw text)
  unfolding materialize prepare
  outside-materialize fw text =
      search (outside_rules, outside-ensure_pkcs8_key, outside-atomic_write, outside-tested) depth
        20

  pub Keeps-materialize :
      {q : String} (fw : FileWatcher) (text : String)
      → IsAside fw q
      → (fw.runtime_path == q) ≡ false
      → Keeps (file_at q) (materialize P fw text)
  unfolding materialize
  Keeps-materialize fw text a h = search (file_rules, Keeps-prepare, a.candidate) depth 20

  pub atomic_write_text :
      (p text : String) (w : World)
      → (atomic_write p text w).0 ≡ ok tt
      → text_at p (atomic_write p text w).1 ≡ some text
  unfolding atomic_write open_trunc write touch remove rename ◌>>=◌
  atomic_write_text p text w h = ground (arith, eq_refl p, eq_refl (p <> ".tmp"))

  abbrev pub agrees : Option String → Option String → Bool
  agrees (some x) (some c) = P.accepts x c
  agrees (some x) none = false
  agrees none c = false

  -- The binary at `b` accepts `text`.
  abbrev pub IsAccepted : String → String → World → Type 0
  IsAccepted b text w = agrees (text_at b w) (some text) ≡ true

  -- The binary at `b` accepts the config at `c`.
  abbrev pub IsCompatible : String → String → World → Type 0
  IsCompatible b c w = agrees (text_at b w) (text_at c w) ≡ true

  tested_text :
      (b c text : String) (w : World)
      → text_at c w ≡ some text
      → (tested P (some b) c w).0 ≡ ok tt
      → IsAccepted b text w × (text_at c (tested P (some b) c w).1 ≡ some text)
  unfolding run_test_config ◌>>=◌ remove
  tested_text b c text w h k = ground arith

  -- The steps of `prepare` after the TLS key.
  abbrev stage : FileWatcher → String → String → Io (Unit {0})
  stage fw b text = do
    atomic_write (fw.runtime_path <> candidate_suffix) text
    tested P (some b) (fw.runtime_path <> candidate_suffix)

  stage_text :
      (fw : FileWatcher) (b text : String) (w : World)
      → (stage fw b text w).0 ≡ ok tt
      → IsAside fw b
      → IsAccepted b text w
        × (text_at (fw.runtime_path <> candidate_suffix) (stage fw b text w).1 ≡ some text)
  stage_text fw b text w h a =
      let c = fw.runtime_path <> candidate_suffix in
      let (_, written, passed, whole) =
        bind-ok (atomic_write c text) (λ _. tested P (some b) c) w h in
      let w' = (atomic_write c text w).1 in
      let (yes', there) = tested_text b c text w' (atomic_write_text c text w written) passed in
      let kept = (Keeps-atomic_write c text a.candidate a.candidate_tmp).at w in
      (rw kept at yes', rw whole there)

  pub prepare_text :
      (fw : FileWatcher) (b text : String) (w : World)
      → fw.test_config ≡ some b
      → (prepare P fw text w).0 ≡ ok tt
      → IsAside fw b
      → IsAccepted b text w
        × (text_at (fw.runtime_path <> candidate_suffix) (prepare P fw text w).1 ≡ some text)
  unfolding prepare
  prepare_text fw b text w t h a =
      let keyed = ensure_key P fw in
      let rest = λ (_ : Unit {0}). stage fw b text in
      let same : prepare P fw text ≡ (keyed >>= rest) = rw t in
      let (_, _, passed, whole) = bind-ok keyed rest w (rw same at h) in
      let (yes', there) = stage_text fw b text (keyed w).1 passed a in
      let kept = (Keeps-ensure_key fw a).at w in (rw kept at yes', rw (same, whole) there)

  -- A materialization that succeeds leaves the text at the runtime path, and the binary that the
  -- tester ran accepts that text.
  pub materialize_text :
      (fw : FileWatcher) (b text : String) (w : World)
      → fw.test_config ≡ some b
      → IsAside fw b
      → (materialize P fw text w).0 ≡ ok tt
      → IsAccepted b text w × (text_at fw.runtime_path (materialize P fw text w).1 ≡ some text)
  unfolding materialize rename
  materialize_text fw b text w t a h =
      let c = fw.runtime_path <> candidate_suffix in
      let moved = λ (_ : Unit {0}). rename c fw.runtime_path in
      let (_, ready, renamed, whole) = bind-ok (prepare P fw text) moved w h in
      let (yes', there) = prepare_text fw b text w t ready a in
      (yes', rw whole (ground (arith, eq_refl fw.runtime_path)))

  -- If the runtime path is apart from the key, the candidate and their temporary files, then a
  -- materialization that fails at any call leaves the runtime config as it was.
  pub materialize_failed :
      (fw : FileWatcher) (text : String) (w : World) {e : Error}
      → IsAside fw fw.runtime_path
      → (materialize P fw text w).0 ≡ err e
      → file_at fw.runtime_path (materialize P fw text w).1 ≡ file_at fw.runtime_path w
  unfolding materialize rename ◌>>=◌
  materialize_failed fw text w a h = ground (arith, (Keeps-prepare fw text a).at w)
