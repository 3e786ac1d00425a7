-- ===== src/Plugin/Config/Checked.antt =====
-- Which configurations Validate of config.go lets through.
use cnpg_pg_doorman.Base.{
  ◌≤◌, String, ◌≡◌, ◌≢◌, ◌↔◌, refl, ◌==◌, Bool, true, false, not, Option, none, some, List, [], ◌∷◌,
  ℤ, pos, negsuc, int_eq, contains, arith, eq_iff, int_eq_iff, ◌⊎◌,
}
use cnpg_pg_doorman.Base.Maps.{lookup}
use cnpg_pg_doorman.Plugin.Config.Defs.{
  PluginConfiguration, Parsers, validate, any_error, over_limit, out_of_range, is_reserved,
}

is_false : (b : Bool) → (b ≡ true → ⊥) → b ≡ false
is_false true h = absurd (h refl)
is_false false h = refl

-- A TCP port that PostgreSQL, its exporter, the instance manager and the wrapper leave free.
abbrev pub IsFreePort : ℤ → Type 0
IsFreePort (negsuc n) = ⊥
IsFreePort (pos n) = (1 ≤ n) × (n ≤ 65535) × (n ≢ 5432) × (n ≢ 8000) × (n ≢ 9187) × (n ≢ 8081)

abbrev pub IsLogLevel : String → Type 0
IsLogLevel s =
    (s ≡ "") ⊎ (s ≡ "error") ⊎ (s ≡ "warn") ⊎ (s ≡ "info") ⊎ (s ≡ "debug") ⊎ (s ≡ "trace")

any_error_iff : (es : List String) → (any_error es ≡ false) ↔ (es ≡ [])
any_error_iff [] = ground arith
any_error_iff (e ∷ es) = ground arith

abbrev is_level : String → Bool
is_level = contains ("" ∷ "error" ∷ "warn" ∷ "info" ∷ "debug" ∷ "trace" ∷ [])

free_port_iff :
    (port : ℤ) → IsFreePort port ↔ ((out_of_range port ≡ false) × (is_reserved port ≡ false))
free_port_iff (negsuc n) = ground arith
free_port_iff (pos n) = ground arith

IsLogLevel-iff :
    (s : String)
    → IsLogLevel s ↔ (contains ("" ∷ "error" ∷ "warn" ∷ "info" ∷ "debug" ∷ "trace" ∷ []) s ≡ true)
IsLogLevel-iff s = ground (
  arith,
  eq_iff "" s,
  eq_iff "error" s,
  eq_iff "warn" s,
  eq_iff "info" s,
  eq_iff "debug" s,
  eq_iff "trace" s,
)

module _ {Q : Type 0} (p : Parsers Q) where
  abbrev pub IsWithin : Option Q → Option Q → Type 0
  IsWithin (some req) (some lim) = p.exceeds req lim ≡ false
  IsWithin (some req) none = Unit
  IsWithin none lim = Unit

  IsWithin-iff : (req lim : Option Q) → IsWithin req lim ↔ (over_limit p req lim ≡ false)
  IsWithin-iff none lim = ground arith
  IsWithin-iff (some req) none = ground arith
  IsWithin-iff (some req) (some lim) = ground arith

  pub record IsDeployable (c : PluginConfiguration Q) : Type 0 where
    pub parsed : c.parse_errors ≡ []
    pub config_named : c.config_name ≢ ""
    pub has_image : c.sidecar_image ≢ ""
    pub pooler : IsFreePort c.pooler_port
    pub metrics : IsFreePort c.metrics_port
    pub distinct : c.pooler_port ≢ c.metrics_port
    pub level : IsLogLevel c.log_level
    pub cpu : IsWithin (lookup "cpu" c.requests) (lookup "cpu" c.limits)
    pub memory : IsWithin (lookup "memory" c.requests) (lookup "memory" c.limits)

  -- The tests of Validate, each of which must come out false.
  validate_tests :
      (c : PluginConfiguration Q)
      → (validate p c ≡ none) ↔ (
          (any_error c.parse_errors ≡ false)
          × ((c.config_name == "") ≡ false)
          × (out_of_range c.pooler_port ≡ false)
          × (out_of_range c.metrics_port ≡ false)
          × ((c.sidecar_image == "") ≡ false)
          × (int_eq c.pooler_port c.metrics_port ≡ false)
          × (not (is_level c.log_level) ≡ false)
          × (is_reserved c.pooler_port ≡ false)
          × (is_reserved c.metrics_port ≡ false)
          × (over_limit p (lookup "cpu" c.requests) (lookup "cpu" c.limits) ≡ false)
          × (over_limit p (lookup "memory" c.requests) (lookup "memory" c.limits) ≡ false))
  unfolding validate
  validate_tests c = (
    λ h.
        let h1 = is_false (any_error c.parse_errors) (λ t. cc (rw (t) at h)) in
        let h2 = is_false (c.config_name == "") (λ t. cc (rw (h1, t) at h)) in
        let h3 = is_false (out_of_range c.pooler_port) (λ t. cc (rw (h1, h2, t) at h)) in
        let h4 = is_false (out_of_range c.metrics_port) (λ t. cc (rw (h1, h2, h3, t) at h)) in
        let h5 = is_false (c.sidecar_image == "") (λ t. cc (rw (h1, h2, h3, h4, t) at h)) in
        let h6 =
          is_false (int_eq c.pooler_port c.metrics_port)
            (λ t. cc (rw (h1, h2, h3, h4, h5, t) at h)) in
        let h7 =
          is_false (not (is_level c.log_level)) (λ t. cc (rw (h1, h2, h3, h4, h5, h6, t) at h)) in
        let h8 =
          is_false (is_reserved c.pooler_port)
            (λ t. cc (rw (h1, h2, h3, h4, h5, h6, h7, t) at h)) in
        let h9 =
          is_false (is_reserved c.metrics_port)
            (λ t. cc (rw (h1, h2, h3, h4, h5, h6, h7, h8, t) at h)) in
        let h10 =
          is_false (over_limit p (lookup "cpu" c.requests) (lookup "cpu" c.limits))
            (λ t. cc (rw (h1, h2, h3, h4, h5, h6, h7, h8, h9, t) at h)) in
        let h11 =
          is_false (over_limit p (lookup "memory" c.requests) (lookup "memory" c.limits))
            (λ t. cc (rw (h1, h2, h3, h4, h5, h6, h7, h8, h9, h10, t) at h)) in
        (h1, h2, h3, h4, h5, h6, h7, h8, h9, h10, h11),
    λ (h1, h2, h3, h4, h5, h6, h7, h8, h9, h10, h11).
        rw (h1, h2, h3, h4, h5, h6, h7, h8, h9, h10, h11) refl,
  )

  -- Validate reports nothing exactly for a configuration whose parameters all parsed, that names a
  -- config and has an image, whose two ports differ, are TCP ports and none of the reserved ones,
  -- whose log level is known or empty, and whose cpu and memory requests do not exceed the limits
  -- that are set.
  pub validate_iff : (c : PluginConfiguration Q) → (validate p c ≡ none) ↔ IsDeployable c
  validate_iff c = ground (
    arith,
    validate_tests c,
    eq_iff c.config_name "",
    eq_iff c.sidecar_image "",
    int_eq_iff c.pooler_port c.metrics_port,
    free_port_iff c.pooler_port,
    free_port_iff c.metrics_port,
    IsLogLevel-iff c.log_level,
    any_error_iff c.parse_errors,
    IsWithin-iff (lookup "cpu" c.requests) (lookup "cpu" c.limits),
    IsWithin-iff (lookup "memory" c.requests) (lookup "memory" c.limits),
  )
