-- ===== src/Wrapper/Frame.antt =====
-- What an operation leaves alone: one rule for each way to build an operation, and for each call.
use cnpg_pg_doorman.Base.{
  ℕ, String, ◌≡◌, refl, ◌∙◌, Bool, true, false, Option, List, ◌==◌, arith, if◌then◌else◌,
}
use cnpg_pg_doorman.Wrapper.World.{
  File, Signal, Result, ok, err, World, Process, Metrics, Io, pure, lift, ignore, cleaned, or_clean,
  deferred, continue, ◌>>=◌,
}
use cnpg_pg_doorman.Wrapper.Calls.{
  read_file, open_trunc, write, touch, chmod, remove, rename, mkdir_all, create_temp, kill,
}

-- `m` leaves what `f` sees as it was, whether it succeeds or fails.
pub record Keeps {A X : Type 0} (f : World → X) (m : Io A) : Type 0 where
  pub at : (w : World) → f (m w).1 ≡ f w

-- The file at a path; the process, the metrics, the signals and the clock.
abbrev pub file_at : String → World → Option File
file_at q w = w.files q

pub record Outside : Type 0 where
  pub process : Process
  pub metrics : Metrics
  pub sent : List (ℕ × Signal)
  pub now : ℕ

abbrev pub outside : World → Outside
outside w = record { process = w.process; metrics = w.metrics; sent = w.sent; now = w.now }

module _ {A X : Type 0} {f : World → X} where
  pub Keeps-pure : (a : A) → Keeps f (pure a)
  unfolding pure
  Keeps-pure a = record { at = λ w. refl }

  pub Keeps-lift : (r : Result A) → Keeps f (lift r)
  unfolding lift
  Keeps-lift r = record { at = λ w. refl }

  pub Keeps-ignore : (m : Io A) → Keeps f m → Keeps f (ignore m)
  unfolding ignore
  Keeps-ignore m h = record { at = h.at }

  pub Keeps-deferred :
      (m : Io A) (c : Io (Unit {0})) → Keeps f m → Keeps f c → Keeps f (deferred m c)
  unfolding deferred
  Keeps-deferred m c h k = record { at = λ w. k.at (m w).1 ∙ h.at w }

  pub Keeps-if : (b : Bool) (m n : Io A) → Keeps f m → Keeps f n → Keeps f (if b then m else n)
  Keeps-if true m n h k = h
  Keeps-if false m n h k = k

module _ {X : Type 0} {f : World → X} where
  Keeps-cleaned : (r : Result (Unit {0})) (c : Io (Unit {0})) → Keeps f c → Keeps f (cleaned r c)
  Keeps-cleaned (ok _) c k = record { at = λ w. refl }
  Keeps-cleaned (err e) c k = record { at = k.at }

  pub Keeps-or_clean : (m c : Io (Unit {0})) → Keeps f m → Keeps f c → Keeps f (or_clean m c)
  unfolding or_clean
  Keeps-or_clean m c h k = record { at = λ w. (Keeps-cleaned (m w).0 c k).at (m w).1 ∙ h.at w }

module _ {A B X : Type 0} {f : World → X} where
  Keeps-continue :
      (r : Result A) (g : A → Io B) → ((a : A) → Keeps f (g a)) → Keeps f (continue r g)
  Keeps-continue (ok a) g k = record { at = (k a).at }
  Keeps-continue (err e) g k = record { at = λ w. refl }

  pub Keeps-bind :
      (m : Io A) (g : A → Io B) → Keeps f m → ((a : A) → Keeps f (g a)) → Keeps f (m >>= g)
  unfolding ◌>>=◌
  Keeps-bind m g h k = record { at = λ w. (Keeps-continue (m w).0 g k).at (m w).1 ∙ h.at w }

module _ {A B : Type 0} where
  continue-ok :
      (r : Result A) (g : A → Io B) (w : World) {b : B}
      → (continue r g w).0 ≡ ok b
      → (a : A) × (r ≡ ok a) × ((g a w).0 ≡ ok b) × (continue r g w ≡ g a w)
  continue-ok (ok a) g w h = (a, refl, h, refl)
  continue-ok (err e) g w h = cc

  -- A chain that succeeds has succeeded in each part.
  pub bind-ok :
      (m : Io A) (g : A → Io B) (w : World) {b : B}
      → ((m >>= g) w).0 ≡ ok b
      → (a : A) × ((m w).0 ≡ ok a) × ((g a (m w).1).0 ≡ ok b) × ((m >>= g) w ≡ g a (m w).1)
  unfolding ◌>>=◌
  bind-ok m g w h = continue-ok (m w).0 g (m w).1 h

pub ruleset keeps_rules =
    (Keeps-pure, Keeps-lift, Keeps-ignore, Keeps-deferred, Keeps-if, Keeps-or_clean, Keeps-bind)

-- A path that is not `q` is told by the test `==`.
module _ {q : String} where
  pub Keeps-read_file : (p : String) → Keeps (file_at q) (read_file p)
  unfolding read_file
  Keeps-read_file p = record { at = λ w. refl }

  pub Keeps-touch : Keeps (file_at q) touch
  unfolding touch
  Keeps-touch = record { at = λ w. refl }

  pub Keeps-mkdir_all : (d : String) → Keeps (file_at q) (mkdir_all d)
  unfolding mkdir_all
  Keeps-mkdir_all d = record { at = λ w. ground arith }

  pub Keeps-kill : (pid : ℕ) (sig : Signal) → Keeps (file_at q) (kill pid sig)
  unfolding kill
  Keeps-kill pid sig = record { at = λ w. ground arith }

  pub Keeps-open_trunc :
      (p : String) (mode : ℕ) → (p == q) ≡ false → Keeps (file_at q) (open_trunc p mode)
  unfolding open_trunc
  Keeps-open_trunc p mode h = record { at = λ w. ground arith }

  pub Keeps-write : (p text : String) → (p == q) ≡ false → Keeps (file_at q) (write p text)
  unfolding write
  Keeps-write p text h = record { at = λ w. ground arith }

  pub Keeps-chmod : (p : String) (mode : ℕ) → (p == q) ≡ false → Keeps (file_at q) (chmod p mode)
  unfolding chmod
  Keeps-chmod p mode h = record { at = λ w. ground arith }

  pub Keeps-remove : (p : String) → (p == q) ≡ false → Keeps (file_at q) (remove p)
  unfolding remove
  Keeps-remove p h = record { at = λ w. ground arith }

  pub Keeps-rename :
      (a b : String) → (a == q) ≡ false → (b == q) ≡ false → Keeps (file_at q) (rename a b)
  unfolding rename
  Keeps-rename a b h k = record { at = λ w. ground arith }

pub ruleset file_rules = (
  keeps_rules, Keeps-read_file, Keeps-touch, Keeps-mkdir_all, Keeps-kill, Keeps-open_trunc,
  Keeps-write, Keeps-chmod, Keeps-remove, Keeps-rename,
)

-- No call on files touches what is outside them.
pub outside-read_file : (p : String) → Keeps outside (read_file p)
unfolding read_file
outside-read_file p = record { at = λ w. refl }

pub outside-touch : Keeps outside touch
unfolding touch
outside-touch = record { at = λ w. refl }

pub outside-mkdir_all : (d : String) → Keeps outside (mkdir_all d)
unfolding mkdir_all
outside-mkdir_all d = record { at = λ w. ground arith }

pub outside-open_trunc : (p : String) (mode : ℕ) → Keeps outside (open_trunc p mode)
unfolding open_trunc
outside-open_trunc p mode = record { at = λ w. ground arith }

pub outside-write : (p text : String) → Keeps outside (write p text)
unfolding write
outside-write p text = record { at = λ w. ground arith }

pub outside-chmod : (p : String) (mode : ℕ) → Keeps outside (chmod p mode)
unfolding chmod
outside-chmod p mode = record { at = λ w. ground arith }

pub outside-remove : (p : String) → Keeps outside (remove p)
unfolding remove
outside-remove p = record { at = λ w. ground arith }

pub outside-rename : (a b : String) → Keeps outside (rename a b)
unfolding rename
outside-rename a b = record { at = λ w. ground arith }

pub outside-create_temp :
    (temp : String → ℕ → String) (d : String) → Keeps outside (create_temp temp d)
unfolding create_temp
outside-create_temp temp d = record { at = λ w. ground arith }

pub ruleset outside_rules = (
  keeps_rules, outside-read_file, outside-touch, outside-mkdir_all, outside-open_trunc,
  outside-write, outside-chmod, outside-remove, outside-rename, outside-create_temp,
)

-- The rest of a chain may use that what came before succeeded.
module _ {A B X : Type 0} {f : World → X} where
  Keeps-continue_where :
      (r : Result A) (g : A → Io B) → ((a : A) → r ≡ ok a → Keeps f (g a)) → Keeps f (continue r g)
  Keeps-continue_where (ok a) g k = record { at = (k a refl).at }
  Keeps-continue_where (err e) g k = record { at = λ w. refl }

  pub Keeps-bind_where :
      (m : Io A) (g : A → Io B)
      → Keeps f m
      → ((w : World) (a : A) → (m w).0 ≡ ok a → Keeps f (g a))
      → Keeps f (m >>= g)
  unfolding ◌>>=◌
  Keeps-bind_where m g h k = record {
    at = λ w. (Keeps-continue_where (m w).0 g (k w)).at (m w).1 ∙ h.at w;
  }

-- The names that os.CreateTemp makes up differ from `q`.
module _ (q : String) (temp : String → ℕ → String)
    (fresh : (d : String) (n : ℕ) → (temp d n == q) ≡ false) where
  pub Keeps-create_temp : (d : String) → Keeps (file_at q) (create_temp temp d)
  unfolding create_temp
  Keeps-create_temp d = record { at = λ w. ground (arith, fresh d w.calls) }

  pub create_temp-ne :
      (d t : String) (w : World) → (create_temp temp d w).0 ≡ ok t → (t == q) ≡ false
  unfolding create_temp
  create_temp-ne d t w h = ground (arith, fresh d w.calls)
