-- ===== src/Wrapper/FileWatcher/Gauge.antt =====
-- What the stale gauge says over a run of polls (`check` of filewatcher.go), from the contract.
use cnpg_pg_doorman.Base.{String, ◌≡◌, refl, ap, sym, ◌∙◌, false, Option, some, ◌==◌}
use cnpg_pg_doorman.Wrapper.World.{World}
use cnpg_pg_doorman.Wrapper.Platform.{Platform}
use cnpg_pg_doorman.Wrapper.FileWatcher.Defs.{FileWatcher, check}
use cnpg_pg_doorman.Wrapper.FileWatcher.Materialize.{IsAside, text_of}
use cnpg_pg_doorman.Wrapper.FileWatcher.Contract.{
  Status, Step, unread, unchanged, refused, untold, applied, view, check-refines,
}

-- Where nothing is reported stale, the config at the runtime path is the text last applied.
pub record IsHonest (s : Status) : Type 0 where
  pub fresh : s.stale ≡ 0 → s.serving ≡ some s.applied

Step-IsHonest :
    {mount : Option String} {Good : String → Type 0} {s t : Status}
    → Step mount Good s t
    → IsHonest s
    → IsHonest t
Step-IsHonest (unread _ e) h = rw e h
Step-IsHonest (unchanged _ e) h = rw e h
Step-IsHonest (refused text _ _ e) h = rw e (record { fresh = λ z. cc z })
Step-IsHonest (untold text _ _ _ e) h = rw e (record { fresh = λ z. cc z })
Step-IsHonest (applied text pid sig _ _ _ e) h = rw e (record { fresh = λ z. refl })

pub aside_after :
    {fw : FileWatcher} {q : String} (t : String)
    → IsAside fw q
    → IsAside (record fw { last_applied = t }) q
aside_after t a = record {
  key = a.key;
  key_tmp = a.key_tmp;
  candidate = a.candidate;
  candidate_tmp = a.candidate_tmp;
}

module _ (P : Platform) (fw : FileWatcher) where
  -- Polls of one watcher, which keeps the text `last`, and changes by others in between that leave
  -- the runtime config and the gauge alone.
  pub data Polls (last : String) (w : World) : String → World → Type 0 where
    here : Polls last w last w
    polled :
        {last' : String} {w' : World}
        → Polls last w last' w'
        → Polls last w
            (check P (record fw { last_applied = last' }) w').0.last_applied
            (check P (record fw { last_applied = last' }) w').1
    by_others :
        {last' : String} {w' : World} (w'' : World)
        → Polls last w last' w'
        → w''.files fw.runtime_path ≡ w'.files fw.runtime_path
        → w''.metrics.config_stale ≡ w'.metrics.config_stale
        → Polls last w last' w''

  -- For a watcher whose tester runs the binary at a path apart from the files it writes: if the
  -- config at the runtime path is the text last applied wherever the stale gauge is 0, then this
  -- still holds after any run of polls, whatever calls fail and whatever is mounted, with changes by
  -- others in between that leave that config and the gauge alone.
  pub Polls-IsHonest :
      (b : String) {last : String} {w : World} {last' : String} {w' : World}
      → fw.test_config ≡ some b
      → IsAside fw b
      → IsAside fw fw.runtime_path
      → (fw.runtime_path == b) ≡ false
      → IsHonest (view fw.runtime_path last w)
      → Polls last w last' w'
      → IsHonest (view fw.runtime_path last' w')
  Polls-IsHonest b tests aside own apart h here = h
  Polls-IsHonest b tests aside own apart h (polled {last'} {w'} run) =
      Step-IsHonest
        (check-refines P (record fw { last_applied = last' }) b tests (aside_after last' aside)
          (aside_after last' own) apart w')
        (Polls-IsHonest b tests aside own apart h run)
  Polls-IsHonest b tests aside own apart h (by_others w'' run files gauge) =
      let before = Polls-IsHonest b tests aside own apart h run in
      record { fresh = λ z. ap text_of files ∙ before.fresh (sym gauge ∙ z) }
