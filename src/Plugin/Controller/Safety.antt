-- ===== src/Plugin/Controller/Safety.antt =====
-- What a run of the controller may do to the Secrets.
use cnpg_pg_doorman.Base.{◌≡◌, ◌≢◌, ap, ◌∙◌, ◌⊎◌, inl, inr, String, true, All}
use cnpg_pg_doorman.Plugin.Config.{Cluster, PluginConfiguration}
use cnpg_pg_doorman.Plugin.Defaults.{PgDoormanSpec}
use cnpg_pg_doorman.Plugin.Api.{Api, Error, Result, ok, PgDoorman, pure}
use cnpg_pg_doorman.Plugin.Api.Frame.{
  Along, SameSecrets, same_secrets, along_rules, Along-pure, bind-ok, handle_by, OnlySecret,
  bind-same,
}
use cnpg_pg_doorman.Plugin.AuthSecrets.{collect_secret_names}
use cnpg_pg_doorman.Plugin.Controller.Defs.{
  Renderer, Outcome, done, render, upsert_secret, validate_secret_ownership, rendered_secret_name,
}
use cnpg_pg_doorman.Plugin.Controller.Loop.{give_up, render_and_store, store_config}
use cnpg_pg_doorman.Plugin.Controller.Reads.{
  IsOwned, SameSecrets-set_rendered, SameSecrets-validate_secret_ownership, check_secrets-IsOwned,
}
use cnpg_pg_doorman.Plugin.Controller.Rendering.{IsMade, KeepsAdmin, render-ok, SameSecrets-render}
use cnpg_pg_doorman.Plugin.Controller.Storing.{
  IsStored, OnlySecret-upsert_secret, upsert_secret-StoresOrFails,
}

pub SameSecrets-give_up :
    (d : PgDoorman) (reason : String) (e : Error) → Along SameSecrets (give_up d reason e)
SameSecrets-give_up d reason e = search (along_rules, SameSecrets-set_rendered) depth 12

give_up-not_done :
    (d : PgDoorman) (reason : String) (e : Error) (a : Api) → (give_up d reason e a).0 ≢ ok done
unfolding pure
give_up-not_done d reason e a h = let (x, p, k) = bind-ok _ _ a h in cc k

module _ {Q : Type 0} (R : Renderer Q) where
  store_config-same :
      (d : PgDoorman) (c : Cluster) (cfg : PluginConfiguration Q) (text admin : String) (a : Api)
      → (store_config R d c cfg (text, admin) a).1.secrets
        ≡ (upsert_secret R c text admin cfg.in_place_upgrades a).1.secrets
  unfolding store_config
  store_config-same d c cfg text admin a =
      bind-same _ _ a (λ x. Along-pure same_secrets done)
      ∙ bind-same _ _ a (λ x. SameSecrets-set_rendered d true _ _)

  -- A config was stored: every Secret that the spec refers to belongs to the cluster, the text is the
  -- one made from the spec, the admin password is the old one where there was one, and no other
  -- Secret changed.
  pub record IsRendered (ns : String) (c : Cluster) (cfg : PluginConfiguration Q)
      (spec : PgDoormanSpec) (a b : Api) : Type 0 where
    pub text : String
    pub admin : String
    pub owned : All (IsOwned a ns c.name) (collect_secret_names spec)
    pub made : IsMade R spec cfg text admin
    pub keeps : KeepsAdmin R c a admin
    pub stored : IsStored R text admin (b.secrets c.namespace (rendered_secret_name c.name))
    pub only : OnlySecret c.namespace (rendered_secret_name c.name) a b

  abbrev pub RendersOrStops :
      String → Cluster → PluginConfiguration Q → PgDoormanSpec → Api → Result Outcome × Api → Type 0
  RendersOrStops ns c cfg spec a r =
      ((r.1.secrets ≡ a.secrets) × (r.0 ≢ ok done)) ⊎ IsRendered ns c cfg spec a r.1

  store_config-RendersOrStops :
      (d : PgDoorman) (c : Cluster) (cfg : PluginConfiguration Q) (spec : PgDoormanSpec)
      (text admin : String) (a b : Api)
      → b.secrets ≡ a.secrets
      → All (IsOwned a d.namespace c.name) (collect_secret_names spec)
      → IsMade R spec cfg text admin
      → KeepsAdmin R c a admin
      → RendersOrStops d.namespace c cfg spec a (store_config R d c cfg (text, admin) b)
  unfolding store_config
  store_config-RendersOrStops d c cfg spec text admin a b same owned made keeps =
      elim (upsert_secret-StoresOrFails R c text admin cfg.in_place_upgrades b) [
        | inl (kept, (e, failing)) ↦ inl (
          store_config-same d c cfg text admin b ∙ kept ∙ same,
          λ h.
              let (x, p, k) = bind-ok _ _ b h in
              let (y, p', k') = bind-ok _ _ b p in cc (p', failing),
        )
        | inr (s, there, t, m) ↦ inr (record {
          text = text;
          admin = admin;
          owned = owned;
          made = made;
          keeps = keeps;
          stored = (
            s,
            ap (λ f. f c.namespace (rendered_secret_name c.name))
                  (store_config-same d c cfg text admin b)
                ∙ there,
            t,
            m,
          );
          only = λ ns n other.
              ap (λ f. f ns n) (store_config-same d c cfg text admin b)
              ∙ (OnlySecret-upsert_secret R c text admin cfg.in_place_upgrades).at b ns n other
              ∙ ap (λ f. f ns n) same;
        })
      ]

  -- From the check of the referenced Secrets on, the controller leaves all Secrets as they are and
  -- does not report that it is done, or it stored a config in the sense of IsRendered.
  pub render_and_store-RendersOrStops :
      (d : PgDoorman) (c : Cluster) (cfg : PluginConfiguration Q) (spec : PgDoormanSpec) (a : Api)
      → RendersOrStops d.namespace c cfg spec a (render_and_store R d c cfg spec a)
  unfolding render_and_store validate_secret_ownership
  render_and_store-RendersOrStops d c cfg spec a =
      let held = (SameSecrets-validate_secret_ownership d.namespace spec c.name).at a in
      let rendered = (SameSecrets-render R spec d.namespace c cfg).at _ ∙ held in
      handle_by (RendersOrStops d.namespace c cfg spec a)
        (validate_secret_ownership d.namespace spec c.name) _ _ a
        (λ x e.
          handle_by (RendersOrStops d.namespace c cfg spec a) (render R spec d.namespace c cfg) _ _
            _
            (λ y r.
              let (made, keeps) = render-ok R spec d.namespace c cfg _ r in
              store_config-RendersOrStops d c cfg spec y.0 y.1 a _ rendered
                (check_secrets-IsOwned d.namespace c.name (collect_secret_names spec) a e) made
                (λ s p k. keeps s p (rw held k)))
            (λ y r. inl ((SameSecrets-give_up d _ y).at _ ∙ rendered, give_up-not_done d _ y _)))
        (λ x e. inl ((SameSecrets-give_up d _ x).at _ ∙ held, give_up-not_done d _ x _))
