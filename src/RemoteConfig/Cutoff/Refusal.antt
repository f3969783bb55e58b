-- ===== src/RemoteConfig/Cutoff/Refusal.antt =====
-- The publications of the cutoff that write nothing.
use mathlib.Core.Path.{subst}
use sesori_apps_monorepo.Prelude.{
  ℕ, ltb, ◌<◌, ◌≤◌, ◌≡◌, ◌↔◌, refl, sym, ap, ==→≡, ◌∙◌, Bool, true, false, some, ◌==◌, nat_eq,
  arith, if◌then◌else◌,
}
use sesori_apps_monorepo.Prelude.Exec.{Error, Result, Exec, ok, err, pure, raise, lift, bind-elim}
use sesori_apps_monorepo.RemoteConfig.Template.{read_existing_build}
use sesori_apps_monorepo.RemoteConfig.Cutoff.{
  RemoteConfigTemplate, RemoteConfigClient, publish_over, publish_cutoff,
}

if-elim :
    {A : Type 0} (P : A → Type 0) (c : Bool) (x y : A)
    → (c ≡ true → P x)
    → (c ≡ false → P y)
    → P (if c then x else y)
if-elim P true x y h k = h refl
if-elim P false x y h k = k refl

ok-injective : {A : Type 0} {x y : A} → ok x ≡ ok y → x ≡ y
ok-injective h = cc

ok≢err : {A : Type 0} (x : A) (e : Error) → ok x ≡ err e → ⊥
ok≢err x e h = cc

module _ {World : Type 0} (client : RemoteConfigClient World) where
  -- What a publication that writes nothing leaves and reports
  abbrev Refused : ℕ → ℕ → World → Result Bool × World → Type 0
  Refused b n w q = (q.1 ≡ w) × ((q.0 ≡ ok false) ↔ (b ≡ n))

  publish_over-Refused :
      (t : RemoteConfigTemplate) (b n : ℕ) (w : World)
      → b ≤ n
      → Refused b n w (publish_over client t b (some n) w)
  unfolding publish_over raise pure
  publish_over-Refused t b n w le =
      if-elim (λ (m : Exec World Bool). Refused b n w (m w)) (ltb b n) _ _
        (λ less. (refl, (λ h. absurd (ok≢err false _ (sym h)), λ same. absurd (ground arith))))
        (λ not_less.
          if-elim (λ (m : Exec World Bool). Refused b n w (m w)) (b == n) (pure false) _
            (λ same. (refl, (λ _. ==→≡ b n same, λ _. refl))) (λ other. absurd (ground arith)))

  -- Where the template that is fetched has a build number that is not smaller, `publish_cutoff`
  -- makes no request but the fetch; it returns that nothing changed exactly if the numbers are the
  -- same.
  pub publish_cutoff-kept :
      (b n : ℕ) (t : RemoteConfigTemplate) (w : World)
      → 0 < b
      → b ≤ n
      → (client.fetch_template w).0 ≡ ok t
      → read_existing_build t.body ≡ ok (some n)
      → ((publish_cutoff client b w).1 ≡ (client.fetch_template w).1)
        × (((publish_cutoff client b w).0 ≡ ok false) ↔ (b ≡ n))
  unfolding publish_cutoff lift
  publish_cutoff-kept b n t w positive le fetched existing =
      if-elim (λ (m : Exec World Bool). P (m w)) (b == 0) _ _ (λ zero. absurd (ground arith))
        (λ _.
          bind-elim P client.fetch_template _ w
            (λ e raised. absurd (ok≢err t e (sym fetched ∙ raised)))
            (λ t' is.
              let same : t ≡ t' = ok-injective (sym fetched ∙ is) in
              let found : read_existing_build t'.body ≡ ok (some n) =
                ap (λ (x : RemoteConfigTemplate). read_existing_build x.body) (sym same)
                ∙ existing in
              bind-elim P (lift (read_existing_build t'.body)) _ after
                (λ e raised. absurd (ok≢err (some n) e (sym found ∙ raised)))
                (λ o read.
                  subst (λ x. P (publish_over client t' b x after))
                    (ok-injective (sym found ∙ read)) (publish_over-Refused t' b n after le))))
    where
      after : World
      after = (client.fetch_template w).1

      P : Result Bool × World → Type 0
      P q = Refused b n after q
