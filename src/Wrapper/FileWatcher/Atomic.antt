-- ===== src/Wrapper/FileWatcher/Atomic.antt =====
-- What AtomicWrite of internal/wrapper/validator.go leaves behind, whatever calls fail.
use cnpg_pg_doorman.Base.{
  String, ◌<>◌, ◌==◌, ◌≡◌, ◌≢◌, ◌⊎◌, inl, inr, false, some, arith, eq_iff, eq_refl, Option, none, ℕ,
}
use cnpg_pg_doorman.Wrapper.World.{File, Result, Result-cases, ok, World, ◌>>=◌}
use cnpg_pg_doorman.Wrapper.Calls.{open_trunc, write, touch, remove, rename}
use cnpg_pg_doorman.Wrapper.Frame.{file_at}
use cnpg_pg_doorman.Wrapper.AtomicWrite.{atomic_write}
use cnpg_pg_doorman.Wrapper.FileWatcher.Materialize.{Keeps-atomic_write}

-- A file is made with mode 0600, and one that is there keeps its mode.
abbrev pub private_mode : Option File → ℕ
private_mode none = 0o600
private_mode (some f) = f.mode

-- What the write of a text to a path has led to.
pub record IsAtomic (p text : String) (r : Result (Unit {0})) (w w' : World) : Type 0 where
  pub outcome :
      ((r ≡ ok tt)
        × (file_at p w'
            ≡ some (record { content = text; mode = private_mode (file_at (p <> ".tmp") w) }))
        × (file_at (p <> ".tmp") w' ≡ none))
      ⊎ ((r ≢ ok tt) × (file_at p w' ≡ file_at p w))
  pub others :
      (q : String) → (p == q) ≡ false → ((p <> ".tmp") == q) ≡ false → file_at q w' ≡ file_at q w

module _ (p text : String) (w : World) (apart : ((p <> ".tmp") == p) ≡ false) where
  atomic_write-kept :
      (atomic_write p text w).0 ≢ ok tt → file_at p (atomic_write p text w).1 ≡ file_at p w
  unfolding atomic_write open_trunc write touch remove rename ◌>>=◌
  atomic_write-kept h = ground (arith, eq_refl (p <> ".tmp"))

  atomic_write-written :
      (atomic_write p text w).0 ≡ ok tt
      → (file_at p (atomic_write p text w).1
          ≡ some (record { content = text; mode = private_mode (file_at (p <> ".tmp") w) }))
        × (file_at (p <> ".tmp") (atomic_write p text w).1 ≡ none)
  unfolding atomic_write open_trunc write touch remove rename ◌>>=◌
  atomic_write-written h =
      let same = eq_refl (p <> ".tmp") in
      (
        ground (arith, same, eq_refl p),
        ground (arith, same, eq_iff p (p <> ".tmp"), eq_iff (p <> ".tmp") p),
      )

  -- For a path that differs from its temporary name: whatever calls fail, AtomicWrite either
  -- succeeds, and then the file at the path has the whole text, with mode 0600 where there was no
  -- temporary file and the mode of that file where there was one, and no temporary file is left; or
  -- it fails, and the file at the path is as before. All files apart from these two are as before.
  pub atomic_write-IsAtomic : IsAtomic p text (atomic_write p text w).0 w (atomic_write p text w).1
  atomic_write-IsAtomic =
      let others : (q : String)
          → (p == q) ≡ false
          → ((p <> ".tmp") == q) ≡ false
          → file_at q (atomic_write p text w).1 ≡ file_at q w =
        λ q h k. (Keeps-atomic_write p text h k).at w in
      elim (Result-cases (atomic_write p text w).0) [
        | inl (_, done) ↦ record {
          outcome = inl (done, (atomic_write-written done).0, (atomic_write-written done).1);
          others = others;
        }
        | inr (e, failed) ↦
            (let no : (atomic_write p text w).0 ≢ ok tt = λ h. cc (failed, h) in
              record { outcome = inr (no, atomic_write-kept no); others = others })
      ]
