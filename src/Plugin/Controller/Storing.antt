-- ===== src/Plugin/Controller/Storing.antt =====
-- The storing of a rendered config (upsertSecret of internal/controller/renderedconfig.go).
use cnpg_pg_doorman.Base.{
  ◌≡◌, refl, ◌⊎◌, inl, inr, String, Bool, true, Option, none, some, arith, eq_iff, eq_refl,
}
use cnpg_pg_doorman.Base.Maps.{lookup, insert}
use cnpg_pg_doorman.Plugin.Config.{Cluster}
use cnpg_pg_doorman.Plugin.Api.{
  is_not_found, Api, Error, Result, ok, err, Secret, pure, throw, ◌>>=◌, get_secret, create_secret,
  patch_secret, visible, Result-cases,
}
use cnpg_pg_doorman.Plugin.Api.Frame.{
  Along, SameSecrets, along_rules, handle_by, if_by, KeepsOnError, KeepsOnError-create_secret,
  KeepsOnError-patch_secret, KeepsOnError-handle, get_secret-same, OnlySecret, only_secret,
  same-only, OnlySecret-create_secret, OnlySecret-patch_secret, SameSecrets-get_secret,
}
use cnpg_pg_doorman.Wrapper.BinarySpec.{BinarySpec}
use cnpg_pg_doorman.Plugin.Controller.Defs.{
  Renderer, upsert_secret, update_secret, is_current, updated, binary_spec_json, encoded, json_of,
  desired_entries, owned_secret, entry_of, config_key, rendered_secret_name,
  generated_admin_password_key,
}
use cnpg_pg_doorman.Plugin.Controller.Reads.{visible_inv}

module _ {Q : Type 0} (R : Renderer Q) where
  SameSecrets-encoded : (o : Option String) → Along SameSecrets (encoded R o)
  unfolding encoded
  SameSecrets-encoded none = search along_rules
  SameSecrets-encoded (some t) = search along_rules

  SameSecrets-json_of : (o : Option BinarySpec) (b : Bool) → Along SameSecrets (json_of R o b)
  unfolding json_of
  SameSecrets-json_of none b = search along_rules
  SameSecrets-json_of (some s) b = search (along_rules, SameSecrets-encoded)

  SameSecrets-binary_spec_json : (b : Bool) → Along SameSecrets (binary_spec_json R b)
  unfolding binary_spec_json
  SameSecrets-binary_spec_json b = SameSecrets-json_of R.binary b

  OnlySecret-update_secret :
      (c : Cluster) (text admin : String) (json : Option String) (s : Secret)
      → Along
          (OnlySecret c.namespace (rendered_secret_name c.name))
          (update_secret R c text admin json s)
  unfolding update_secret
  OnlySecret-update_secret c text admin json s =
      search (along_rules, only_secret, OnlySecret-patch_secret) depth 12

  pub OnlySecret-upsert_secret :
      (c : Cluster) (text admin : String) (b : Bool)
      → Along
          (OnlySecret c.namespace (rendered_secret_name c.name))
          (upsert_secret R c text admin b)
  unfolding upsert_secret
  OnlySecret-upsert_secret c text admin b =
      search
        (
          along_rules, only_secret, OnlySecret-create_secret, same-only,
          SameSecrets-binary_spec_json, OnlySecret-update_secret,
        )
        depth 16

  -- A Secret with this config and this admin password.
  abbrev pub IsStored : String → String → Option Secret → Type 0
  IsStored text admin o =
      (s : Secret) × (o ≡ some s)
      × (entry_of s.entries config_key ≡ text)
      × (entry_of s.entries generated_admin_password_key ≡ admin)

  desired_entries-text :
      (text admin : String) (json : Option String)
      → entry_of (desired_entries R text admin json) config_key ≡ text
  unfolding entry_of lookup insert
  desired_entries-text text admin none = refl
  desired_entries-text text admin (some j) = refl

  desired_entries-admin :
      (text admin : String) (json : Option String)
      → entry_of (desired_entries R text admin json) generated_admin_password_key ≡ admin
  unfolding entry_of lookup insert
  desired_entries-admin text admin none = refl
  desired_entries-admin text admin (some j) = refl

  put_desired-IsStored :
      (text admin : String) (json : Option String) (s : Secret) {o : Option Secret}
      → s.entries ≡ desired_entries R text admin json
      → o ≡ some s
      → IsStored text admin o
  put_desired-IsStored text admin json s e k = (
    s,
    k,
    rw e (desired_entries-text text admin json),
    rw e (desired_entries-admin text admin json),
  )

  patch_secret-put :
      (ns n : String) (s : Secret) (a : Api)
      → (patch_secret ns n s a).0 ≡ ok tt
      → (patch_secret ns n s a).1.secrets ns n ≡ some s
  unfolding patch_secret
  patch_secret-put ns n s a h = ground (arith, eq_refl ns, eq_refl n)

  create_secret-put :
      (ns n : String) (s : Secret) (a : Api)
      → (create_secret ns n s a).0 ≡ ok tt
      → (create_secret ns n s a).1.secrets ns n ≡ some s
  unfolding create_secret
  create_secret-put ns n s a h = ground (arith, eq_refl ns, eq_refl n)

  is_current-IsStored :
      (text admin : String) (json : Option String) (s : Secret)
      → is_current R text admin json s ≡ true
      → (entry_of s.entries config_key ≡ text)
        × (entry_of s.entries generated_admin_password_key ≡ admin)
  unfolding is_current
  is_current-IsStored text admin json s k = (
    ground (arith, eq_iff (entry_of s.entries config_key) text),
    ground (arith, eq_iff (entry_of s.entries generated_admin_password_key) admin),
  )

  -- A call that, where it succeeds, leaves the config stored.
  abbrev Stores : Cluster → String → String → Result (Unit {0}) × Api → Type 0
  Stores c text admin r =
      r.0 ≡ ok tt → IsStored text admin (r.1.secrets c.namespace (rendered_secret_name c.name))

  update_secret-Stores :
      (c : Cluster) (text admin : String) (json : Option String) (s : Secret) (a : Api)
      → visible (a.secrets c.namespace (rendered_secret_name c.name)) ≡ some s
      → Stores c text admin (update_secret R c text admin json s a)
  unfolding update_secret pure
  update_secret-Stores c text admin json s a v =
      if_by (Stores c text admin) (is_current R text admin json s) (pure tt)
        (patch_secret c.namespace _ (updated R c text admin json s)) a
        (λ k q.
          let (t, m) = is_current-IsStored text admin json s k in (s, (visible_inv _ s v).0, t, m))
        (λ k q. put_desired-IsStored text admin json _ refl (patch_secret-put _ _ _ a q))

  upsert_secret-Stores :
      (c : Cluster) (text admin : String) (b : Bool) (a : Api)
      → Stores c text admin (upsert_secret R c text admin b a)
  unfolding upsert_secret ◌>>=◌ throw
  upsert_secret-Stores c text admin b a =
      handle_by (Stores c text admin) (binary_spec_json R b) _ _ a
        (λ json j.
          handle_by (Stores c text admin) (get_secret _ _) _ _ _
            (λ s e. update_secret-Stores c text admin json s _ (get_secret-same _ _ _ s e))
            (λ e g.
              if_by (Stores c text admin) (is_not_found e)
                (create_secret c.namespace _ (owned_secret R c (desired_entries R text admin json)))
                (throw e) _
                (λ k q. put_desired-IsStored text admin json _ refl (create_secret-put _ _ _ _ q))
                (λ k q. cc q)))
        (λ e g q. cc q)

  update_secret-KeepsOnError :
      (c : Cluster) (text admin : String) (json : Option String) (s : Secret) (a : Api)
      → KeepsOnError a (update_secret R c text admin json s a)
  unfolding update_secret pure
  update_secret-KeepsOnError c text admin json s a =
      if_by (KeepsOnError a) (is_current R text admin json s) (pure tt)
        (patch_secret c.namespace _ (updated R c text admin json s)) a (λ k e q. cc q)
        (λ k. KeepsOnError-patch_secret c.namespace _ _ a)

  upsert_secret-KeepsOnError :
      (c : Cluster) (text admin : String) (b : Bool) (a : Api)
      → KeepsOnError a (upsert_secret R c text admin b a)
  unfolding upsert_secret ◌>>=◌ throw
  upsert_secret-KeepsOnError c text admin b =
      KeepsOnError-handle (binary_spec_json R b) throw _ (SameSecrets-binary_spec_json b)
        (λ e a x q. refl)
        (λ json.
          KeepsOnError-handle (get_secret c.namespace (rendered_secret_name c.name)) _
            (update_secret R c text admin json) (SameSecrets-get_secret _ _)
            (λ x a.
              if_by (KeepsOnError a) (is_not_found x)
                (create_secret c.namespace _ (owned_secret R c (desired_entries R text admin json)))
                (throw x) a (λ k. KeepsOnError-create_secret c.namespace _ _ a) (λ k e q. refl))
            (update_secret-KeepsOnError c text admin json))

  -- The Secrets stay and the call fails, or the config is stored.
  abbrev pub StoresOrFails : Cluster → String → String → Api → Result (Unit {0}) × Api → Type 0
  StoresOrFails c text admin a r =
      ((r.1.secrets ≡ a.secrets) × ((e : Error) × (r.0 ≡ err e)))
      ⊎ IsStored text admin (r.1.secrets c.namespace (rendered_secret_name c.name))

  pub upsert_secret-StoresOrFails :
      (c : Cluster) (text admin : String) (b : Bool) (a : Api)
      → StoresOrFails c text admin a (upsert_secret R c text admin b a)
  upsert_secret-StoresOrFails c text admin b a =
      elim (Result-cases (upsert_secret R c text admin b a).0) [
        | inl (x, e) ↦ inr (upsert_secret-Stores c text admin b a e)
        | inr (x, e) ↦ inl (upsert_secret-KeepsOnError c text admin b a x e, (x, e))
      ]
