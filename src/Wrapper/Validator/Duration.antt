-- ===== src/Wrapper/Validator/Duration.antt =====
-- What `durationPattern` of validator.go accepts: digits and an optional unit.
use mathlib.Core.Path.{subst}
use cnpg_pg_doorman.Base.{
  sym, ℕ, true, ◌≡◌, refl, ◌⊎◌, inl, inr, ◌↔◌, List, [], ◌∷◌, ◌++◌, arith, All, Bool-cases, String,
}
use cnpg_pg_doorman.Wrapper.Validator.Defs.{codes, is_digit, is_unit, digits_unit, duration_matches}

abbrev IsOneOf : List ℕ → List String → Type 0
IsOneOf u [] = ⊥
IsOneOf u (v ∷ vs) = (u ≡ codes v) ⊎ IsOneOf u vs

abbrev units : List String
units = "" ∷ "ms" ∷ "s" ∷ "m" ∷ "h" ∷ "d" ∷ []

abbrev AreDigits : List ℕ → Type 0
AreDigits = All (λ c. is_digit c ≡ true)

-- A number in front, then a unit.
pub record IsDuration (cs : List ℕ) : Type 0 where
  pub first : ℕ
  pub more : List ℕ
  pub unit : List ℕ
  pub first_digit : is_digit first ≡ true
  pub more_digits : AreDigits more
  pub known : IsOneOf unit units
  pub whole : cs ≡ first ∷ (more ++ unit)

is_unit_sound : (u : List ℕ) → is_unit u ≡ true → IsOneOf u units
unfolding is_unit
is_unit_sound [] h = inl refl
is_unit_sound (c ∷ []) h = ground arith
is_unit_sound (c ∷ d ∷ []) h = ground arith
is_unit_sound (c ∷ d ∷ e ∷ cs) h = ground arith

digits_unit_sound :
    (cs : List ℕ)
    → digits_unit cs ≡ true
    → (ds : List ℕ) × (u : List ℕ) × AreDigits ds × IsOneOf u units × (cs ≡ ds ++ u)
unfolding digits_unit
digits_unit_sound [] h = ([], [], tt, inl refl, refl)
digits_unit_sound (c ∷ cs) h = elim (Bool-cases (is_digit c)) [
  | inl digit ↦
      let (ds, u, digits, known, whole) = digits_unit_sound cs (ground arith) in
      (c ∷ ds, u, (digit, digits), known, ground arith)
  | inr other ↦ ([], c ∷ cs, tt, is_unit_sound (c ∷ cs) (rw other at h), refl)
]

digits_unit_unit : (u : List ℕ) → IsOneOf u units → digits_unit u ≡ true
unfolding digits_unit is_unit
digits_unit_unit u h = ground arith

digits_unit_complete :
    (ds u : List ℕ) → AreDigits ds → IsOneOf u units → digits_unit (ds ++ u) ≡ true
unfolding digits_unit
digits_unit_complete [] u digits known = digits_unit_unit u known
digits_unit_complete (d ∷ ds) u (digit, digits) known =
    rw digit (digits_unit_complete ds u digits known)

-- The duration pattern matches exactly the texts that are one digit or more followed by nothing or
-- by one of the units ms, s, m, h and d.
pub duration_matches_iff : (cs : List ℕ) → (duration_matches cs ≡ true) ↔ IsDuration cs
unfolding duration_matches
duration_matches_iff [] = (λ h. cc, λ d. let e = d.whole in cc e)
duration_matches_iff (c ∷ cs) = (
  λ h.
      let (ds, u, digits, known, whole) = digits_unit_sound cs (ground arith) in
      record {
        first = c;
        more = ds;
        unit = u;
        first_digit = ground arith;
        more_digits = digits;
        known = known;
        whole = ground arith;
      },
  λ d.
      subst (λ x. duration_matches x ≡ true) (sym d.whole)
        (ground (arith, d.first_digit, digits_unit_complete d.more d.unit d.more_digits d.known)),
)
