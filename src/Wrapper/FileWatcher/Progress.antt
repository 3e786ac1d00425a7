-- ===== src/Wrapper/FileWatcher/Progress.antt =====
-- A good config that is mounted gets applied (`check` of filewatcher.go).
use mathlib.Core.Path.{subst}
use cnpg_pg_doorman.Base.{
  ℕ, ◌+◌, String, ◌<>◌, ◌≡◌, ◌≢◌, ◌⊎◌, inl, inr, refl, Bool, Bool-cases, false, some, ◌==◌, arith,
  eq_iff, eq_refl, ◌∙◌, ap, sym,
}
use cnpg_pg_doorman.Wrapper.World.{ok, World, Io, ◌>>=◌, called, pure}
use cnpg_pg_doorman.Wrapper.Calls.{read_file, open_trunc, write, touch, remove, rename, kill}
use cnpg_pg_doorman.Wrapper.Frame.{Keeps, keeps_rules}
use cnpg_pg_doorman.Wrapper.Platform.{Platform}
use cnpg_pg_doorman.Wrapper.AtomicWrite.{atomic_write}
use cnpg_pg_doorman.Wrapper.TlsKey.{parse_key, ensure_pkcs8_key}
use cnpg_pg_doorman.Wrapper.Validator.{DoormanConfig, validate_config_bytes}
use cnpg_pg_doorman.Wrapper.Process.{pid_locked, restart, reload}
use cnpg_pg_doorman.Wrapper.FileWatcher.Defs.{
  FileWatcher, candidate_suffix, run_test_config, ensure_key, tested, prepare, materialize, check,
  signal_process, set_config_stale, restart_for,
}
use cnpg_pg_doorman.Wrapper.FileWatcher.Check.{IsApplied, check-IsApplied}
use cnpg_pg_doorman.Wrapper.FileWatcher.Materialize.{
  text_at, IsAside, IsAccepted, Keeps-atomic_write, Keeps-ensure_key, outside-materialize,
  atomic_write_text,
}

-- No call fails from here on.
abbrev pub IsUp : World → Type 0
IsUp w = (n : ℕ) → w.fault n ≡ false

abbrev fault_of : World → ℕ → Bool
fault_of w = w.fault

atomic_write-succeeds : (p text : String) (w : World) → IsUp w → (atomic_write p text w).0 ≡ ok tt
unfolding atomic_write open_trunc write touch remove rename ◌>>=◌
atomic_write-succeeds p text w up =
    let n = w.calls in
    ground (arith, up n, up (n + 1), up (n + 2), up (n + 3), up (n + 4), eq_refl (p <> ".tmp"))

up-read_file : (p : String) → Keeps fault_of (read_file p)
unfolding read_file
up-read_file p = record { at = λ w. refl }

up-open_trunc : (p : String) (mode : ℕ) → Keeps fault_of (open_trunc p mode)
unfolding open_trunc
up-open_trunc p mode = record { at = λ w. ground arith }

up-write : (p text : String) → Keeps fault_of (write p text)
unfolding write
up-write p text = record { at = λ w. ground arith }

up-touch : Keeps fault_of touch
unfolding touch
up-touch = record { at = λ w. refl }

up-remove : (p : String) → Keeps fault_of (remove p)
unfolding remove
up-remove p = record { at = λ w. ground arith }

up-rename : (a b : String) → Keeps fault_of (rename a b)
unfolding rename
up-rename a b = record { at = λ w. ground arith }

ruleset up_rules =
    (keeps_rules, up-read_file, up-open_trunc, up-write, up-touch, up-remove, up-rename)

up-atomic_write : (p text : String) → Keeps fault_of (atomic_write p text)
unfolding atomic_write
up-atomic_write p text = search up_rules depth 20

module _ {A B : Type 0} where
  bind-succeeds :
      (m : Io A) (g : A → Io B) (w : World) {a : A} {b : B}
      → (m w).0 ≡ ok a
      → (g a (m w).1).0 ≡ ok b
      → ((m >>= g) w).0 ≡ ok b
  unfolding ◌>>=◌
  bind-succeeds m g w h k = rw h k

module _ (P : Platform) where
  -- A PEM text from which ensurePKCS8Key makes a key.
  pub record IsConvertible (pem : String) : Type 0 where
    pub block : String × String
    pub key : String
    pub der : String
    pub decoded : P.pem_decode pem ≡ some block
    pub parsed : parse_key P block ≡ ok key
    pub marshalled : P.marshal_pkcs8 key ≡ some der

  ensure_pkcs8_key-succeeds :
      (src dst : String) (w : World) {pem : String}
      → IsUp w
      → text_at src w ≡ some pem
      → IsConvertible pem
      → (ensure_pkcs8_key P src dst w).0 ≡ ok tt
  unfolding ensure_pkcs8_key read_file open_trunc write rename ◌>>=◌
  ensure_pkcs8_key-succeeds src dst w up there k =
      let n = w.calls in
      ground (
        arith,
        up n,
        up (n + 1),
        up (n + 2),
        up (n + 3),
        k.decoded,
        k.parsed,
        k.marshalled,
        eq_refl (dst <> ".tmp"),
      )

  up-ensure_pkcs8_key : (src dst : String) → Keeps fault_of (ensure_pkcs8_key P src dst)
  unfolding ensure_pkcs8_key
  up-ensure_pkcs8_key src dst = search up_rules depth 20

  up-ensure_key : (fw : FileWatcher) → Keeps fault_of (ensure_key P fw)
  up-ensure_key fw = search (up_rules, up-ensure_pkcs8_key)

  -- Either there is no TLS key, or there is one that can be converted.
  unfoldable pub HasKey : FileWatcher → World → Type 0
  HasKey fw w =
      (fw.raw_key_path ≡ "")
      ⊎ ((pem : String) × (text_at fw.raw_key_path w ≡ some pem) × IsConvertible pem)

  ensure_key-succeeds :
      (fw : FileWatcher) (w : World) → IsUp w → HasKey fw w → (ensure_key P fw w).0 ≡ ok tt
  unfolding HasKey pure
  ensure_key-succeeds fw w up (inl off) = rw off refl
  ensure_key-succeeds fw w up (inr (pem, there, good)) = elim (Bool-cases (fw.raw_key_path == "")) [
    | inl off ↦ rw off refl
    | inr on ↦ rw on (ensure_pkcs8_key-succeeds fw.raw_key_path fw.key_path w up there good)
  ]

  tested-succeeds :
      (b c text : String) (w : World)
      → IsUp w
      → IsAccepted P b text w
      → text_at c w ≡ some text
      → ((tested P (some b) c w).0 ≡ ok tt)
        × (text_at c (tested P (some b) c w).1 ≡ some text)
        × ((tested P (some b) c w).1.fault ≡ w.fault)
  unfolding run_test_config ◌>>=◌ remove
  tested-succeeds b c text w up good there = ground (arith, up w.calls)

  -- The parts that a good text needs: the key, a tester that runs `b`, and a binary that accepts it.
  pub record IsReady (fw : FileWatcher) (b text : String) (w : World) : Type 0 where
    pub up : IsUp w
    pub key : HasKey fw w
    pub tests : fw.test_config ≡ some b
    pub aside : IsAside fw b
    pub accepted : IsAccepted P b text w

  abbrev candidate : FileWatcher → String
  candidate fw = fw.runtime_path <> candidate_suffix

  prepare-succeeds :
      (fw : FileWatcher) (b text : String) (w : World)
      → IsReady fw b text w
      → ((prepare P fw text w).0 ≡ ok tt)
        × (text_at (candidate fw) (prepare P fw text w).1 ≡ some text)
        × ((prepare P fw text w).1.fault ≡ w.fault)
  unfolding prepare ◌>>=◌
  prepare-succeeds fw b text w r =
      let w1 = (ensure_key P fw w).1 in
      let w2 = (atomic_write (candidate fw) text w1).1 in
      let keyed = ensure_key-succeeds fw w r.up r.key in
      let f1 = (up-ensure_key fw).at w in
      let f2 = (up-atomic_write (candidate fw) text).at w1 in
      let up1 : IsUp w1 = λ n. rw f1 (r.up n) in
      let up2 : IsUp w2 = λ n. rw f2 (up1 n) in
      let written = atomic_write-succeeds (candidate fw) text w1 up1 in
      let there = atomic_write_text P (candidate fw) text w1 written in
      let b1 = (Keeps-ensure_key P fw r.aside).at w in
      let b2 =
        (Keeps-atomic_write (candidate fw) text r.aside.candidate r.aside.candidate_tmp).at w1 in
      let good : IsAccepted P b text w2 = rw (b2, b1) r.accepted in
      let (passed, still, f3) = tested-succeeds b (candidate fw) text w2 up2 good there in
      rw (keyed, written, r.tests) (passed, still, f3 ∙ f2 ∙ f1)

  pub materialize-succeeds :
      (fw : FileWatcher) (b text : String) (w : World)
      → IsReady fw b text w
      → ((materialize P fw text w).0 ≡ ok tt) × ((materialize P fw text w).1.fault ≡ w.fault)
  unfolding materialize rename ◌>>=◌
  materialize-succeeds fw b text w r =
      let (done, there, kept) = prepare-succeeds fw b text w r in
      let w' = (prepare P fw text w).1 in
      let up : w'.fault w'.calls ≡ false = rw kept (r.up w'.calls) in
      ground (arith, done, there, kept, up)

  signal_process-succeeds :
      (fw : FileWatcher) (text : String) (needs : Bool) (w : World)
      → IsUp w
      → pid_locked w.process ≢ 0
      → (signal_process P fw text needs w).0 ≡ record fw { last_applied = text }
  unfolding signal_process restart reload kill
  signal_process-succeeds fw text needs w up runs = ground (arith, up w.calls)

  check-last_applied :
      (fw : FileWatcher) (b text : String) (w : World) {config : DoormanConfig}
      → IsReady fw b text w
      → pid_locked w.process ≢ 0
      → text_at fw.source_path w ≡ some text
      → validate_config_bytes P.parse_yaml text ≡ ok config
      → (check P fw w).0 ≡ record fw { last_applied = text }
  unfolding check read_file set_config_stale HasKey
  check-last_applied fw b text w {config} r runs there valid =
      let w' = set_config_stale 1 (called w) in
      let ready : IsReady fw b text w' = record {
        up = r.up;
        key = r.key;
        tests = r.tests;
        aside = r.aside;
        accepted = r.accepted;
      } in
      let (done, kept) = materialize-succeeds fw b text w' ready in
      let same = (outside-materialize P fw text).at w' in
      let w'' = (materialize P fw text w').1 in
      let up : IsUp w'' = λ n. rw kept (r.up n) in
      let runs' : pid_locked w''.process ≢ 0 = ground (arith, same) in
      let needs = restart_for P (validate_config_bytes P.parse_yaml fw.last_applied) config in
      let told = signal_process-succeeds fw text needs w'' up runs' in
      ground (arith, eq_iff text fw.last_applied, r.up w.calls, done, told)

  -- If no call fails, the pooler runs, the mounted text differs from `lastApplied` and is valid, the
  -- tester runs a binary that accepts it, that binary and the runtime config lie apart from each
  -- other and from the other files that are written, and the TLS key, where there is one, can be
  -- converted, then one poll applies that text: it is `lastApplied` and stands at the runtime path,
  -- the process got SIGTERM if the changed fields need a restart and SIGHUP if not and nothing else,
  -- and the metrics count one success and nothing stale.
  pub check-applies :
      (fw : FileWatcher) (b text : String) (w : World) {config : DoormanConfig}
      (r : IsReady fw b text w) (own : IsAside fw fw.runtime_path)
      (apart : (fw.runtime_path == b) ≡ false)
      → pid_locked w.process ≢ 0
      → text_at fw.source_path w ≡ some text
      → text ≢ fw.last_applied
      → validate_config_bytes P.parse_yaml text ≡ ok config
      → let (fw', w') = check P fw w in
        (fw' ≡ record fw { last_applied = text })
        × IsApplied P fw b r.tests r.aside own apart text w w'
  check-applies fw b text w r own apart runs there fresh valid =
      let whole = check-last_applied fw b text w r runs there valid in
      let last = ap (λ v. v.last_applied) whole in
      let applied =
        check-IsApplied P fw b r.tests r.aside own apart w (λ same. fresh (sym last ∙ same)) in
      (
        whole,
        subst (λ t. IsApplied P fw b r.tests r.aside own apart t w (check P fw w).1) last applied,
      )
