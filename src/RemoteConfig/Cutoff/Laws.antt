-- ===== src/RemoteConfig/Cutoff/Laws.antt =====
-- What a publication of the cutoff does to the live template, whoever else writes to it.
use text.Mathlib.TextEquality.{eq_iff}
use sesori_apps_monorepo.Prelude.{
  ℕ, ltb, ◌<◌, ◌≡◌, ◌≢◌, ◌⊎◌, inl, inr, refl, ap, ◌∙◌, true, false, String, Option, none, some,
  ◌==◌, nat_eq, arith,
}
use sesori_apps_monorepo.Prelude.Exec.{ok}
use sesori_apps_monorepo.Prelude.Exec.Ensures.{
  Ensures, Ensures-bind, Ensures-lift, Ensures-if, Ensures-pure, Ensures-raise,
}
use sesori_apps_monorepo.Json.{Fields, null, find, get}
use sesori_apps_monorepo.RemoteConfig.Template.{
  read_parameters, read_existing_build, updated_template,
}
use sesori_apps_monorepo.RemoteConfig.Template.Laws.{read_existing_build-updated_template}
use sesori_apps_monorepo.RemoteConfig.Cutoff.{
  RemoteConfigTemplate, RemoteConfigClient, publish_update, publish_over, publish_cutoff,
}

-- What the code relies on of Firebase Remote Config. Others may write to it between two requests:
-- `met` is the live template that the last write replaced.
pub record IsServer {World : Type 0} (client : RemoteConfigClient World) : Type 1 where
  pub live : World → RemoteConfigTemplate
  pub met : World → RemoteConfigTemplate
  -- an ETag stands for one version of the template
  pub Served : RemoteConfigTemplate → Type 0
  pub served-etag :
      (a b : RemoteConfigTemplate) → Served a → Served b → a.etag ≡ b.etag → a.body ≡ b.body
  -- what a fetch returns was live once
  pub fetch-served :
      (w : World) (t : RemoteConfigTemplate) → (client.fetch_template w).0 ≡ ok t → Served t
  pub met-served : (w : World) → Served (met w)
  -- A write that is let through met the version of its `If-Match`, and is live then; the server
  -- sets the field `version` itself.
  pub publish-if_match :
      (body : Fields) (etag : String) (w : World)
      → (client.publish_template body etag w).0 ≡ ok tt
      → ((met (client.publish_template body etag w).1).etag ≡ etag)
        × ((key : String)
            → key ≢ "version"
            → find (live (client.publish_template body etag w).1).body key ≡ find body key)

module _ {World : Type 0} (client : RemoteConfigClient World) (server : IsServer client) where
  -- The write raised the build number: there was none, or a smaller one.
  abbrev pub Raised : ℕ → World → Type 0
  Raised b w =
      (read_existing_build (server.met w).body ≡ ok none)
      ⊎ ((n : ℕ) × (read_existing_build (server.met w).body ≡ ok (some n)) × (n < b))

  -- The live template is the update of the one that was met, but for the field `version`.
  abbrev pub Updated : ℕ → World → Type 0
  Updated b w =
      (u : Fields) × (updated_template (server.met w).body b ≡ ok u)
      × ((key : String) → key ≢ "version" → find (server.live w).body key ≡ find u key)

  update-Updated :
      (current : RemoteConfigTemplate) (b : ℕ) (w : World)
      → server.Served current
      → Ensures
          (λ changed w'. Updated b w' × ((server.met w').body ≡ current.body))
          (publish_update client current b)
          w
  unfolding publish_update
  update-Updated current b w is =
      Ensures-bind (λ u _. updated_template current.body b ≡ ok u) _ _ w
        (Ensures-lift _ _ w (λ u e. e))
        (λ u w' e.
          Ensures-bind (λ _ _. Unit) _ _ w' (record { at = λ _ _. tt })
            (λ _ v _.
              Ensures-bind (λ _ v'. Updated b v' × ((server.met v').body ≡ current.body))
                (client.publish_template u current.etag) _ v
                (record {
                  at = λ t done.
                      let (match, written) = server.publish-if_match u current.etag v done in
                      let same = server.served-etag _ current (server.met-served _) is match in
                      ((u, ap (λ x. updated_template x b) same ∙ e, written), same);
                })
                (λ t v' h.
                  Ensures-pure (λ _ x. Updated b x × ((server.met x).body ≡ current.body)) true v'
                    h)))

  publish_over-Raised :
      (current : RemoteConfigTemplate) (b : ℕ) (existing : Option ℕ) (w : World)
      → server.Served current
      → read_existing_build current.body ≡ ok existing
      → Ensures
          (λ changed w'. changed ≡ true → Updated b w' × Raised b w')
          (publish_over client current b existing)
          w
  unfolding publish_over
  publish_over-Raised current b none w is e = record {
    at = λ changed done _.
        let (updated, same) = (update-Updated current b w is).at changed done in
        (updated, inl (ap read_existing_build same ∙ e));
  }
  publish_over-Raised current b (some n) w is e =
      Ensures-if (ltb b n) _ _ w (λ _. Ensures-raise _ w)
        (λ not_less.
          Ensures-if (b == n) _ _ w
            (λ _.
              Ensures-pure (λ changed w'. changed ≡ true → Updated b w' × Raised b w') false w
                (λ h. cc))
            (λ other. record {
              at = λ changed done _.
                  let (updated, same) = (update-Updated current b w is).at changed done in
                  let more : n < b = ground arith in
                  (updated, inr (n, ap read_existing_build same ∙ e, more));
            }))

  cutoff-Raised :
      (b : ℕ) (w : World)
      → Ensures
          (λ changed w'. changed ≡ true → (b ≢ 0) × (Updated b w' × Raised b w'))
          (publish_cutoff client b)
          w
  unfolding publish_cutoff
  cutoff-Raised b w =
      Ensures-if (b == 0) _ _ w (λ _. Ensures-raise _ w)
        (λ positive.
          Ensures-bind (λ t _. server.Served t) _ _ w
            (record { at = λ t e. server.fetch-served w t e })
            (λ current w' is.
              Ensures-bind (λ o _. read_existing_build current.body ≡ ok o) _ _ w'
                (Ensures-lift _ _ w' (λ o e. e))
                (λ existing v e. record {
                  at = λ changed done h. (
                    λ zero. ground arith,
                    (publish_over-Raised current b existing v is e).at changed done h,
                  );
                })))

  read_live :
      (a c : Fields)
      → find a "parameters" ≡ find c "parameters"
      → read_existing_build a ≡ read_existing_build c
  unfolding read_existing_build get
  read_live a c h = ap (λ o. read_parameters (elim o [ some v ↦ v | none ↦ null ])) h

  -- Where `publish_cutoff` reports a change, the live template has the new build number, and the
  -- template that the write replaced had none or a smaller one, whatever others wrote between the
  -- requests.
  pub publish_cutoff-Raised :
      (b : ℕ) (w : World)
      → (publish_cutoff client b w).0 ≡ ok true
      → (read_existing_build (server.live (publish_cutoff client b w).1).body ≡ ok (some b))
        × Raised b (publish_cutoff client b w).1
  publish_cutoff-Raised b w returned =
      let (positive, ((u, is, kept), raised)) = (cutoff-Raised b w).at true returned refl in
      (
        read_live _ u (kept "parameters" (ground (arith, eq_iff "parameters" "version")))
            ∙ read_existing_build-updated_template _ b u positive is,
        raised,
      )
