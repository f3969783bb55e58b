-- ===== src/Prelude/Reflect.antt =====
-- What the Boolean tests mean, one rule for each way to build a test.
use mathlib.Core.Path.{◌≡◌, refl}
use mathlib.Core.Logic.{◌↔◌, ◌⊎◌, inl, inr}
use mathlib.Core.Bool.{Bool, true, false, ◌&&◌, ◌||◌, not}
use sesori_apps_monorepo.Prelude.Equality.{Eq, ◌==◌, ==→≡, ≡→==}

-- The test says whether the property holds.
abbrev pub Says : Bool → Type 0 → Type 0
Says b P = (b ≡ true) ↔ P

pub and_says : (a b : Bool) {P Q : Type 0} → Says a P → Says b Q → Says (a && b) (P × Q)
and_says true b (f, f') (g, g') = (λ h. (f refl, g h), λ k. g' k.1)
and_says false b (f, f') (g, g') = (λ h. cc, λ k. f' k.0)

pub or_says : (a b : Bool) {P Q : Type 0} → Says a P → Says b Q → Says (a || b) (P ⊎ Q)
or_says true b (f, f') (g, g') = (λ h. inl (f refl), λ k. refl)
or_says false b (f, f') (g, g') =
    (λ h. inr (g h), λ k. elim k [ inl p ↦ absurd (absent (f' p)) | inr q ↦ g' q ])
  where
    absent : ◌≡◌ {A = Bool} false true → ⊥
    absent h = cc

pub not_says : (a : Bool) {P : Type 0} → Says a P → Says (not a) (P → ⊥)
not_says true (f, f') = (λ h p. cc, λ k. absurd (k (f refl)))
not_says false (f, f') = (λ h p. let e = f' p in cc, λ k. refl)

pub eq_says {ℓ} : {A : Type ℓ} ⦃e : Eq A⦄ (a b : A) → (a == b ≡ true) ↔ (a ≡ b)
eq_says a b = (==→≡ a b, ≡→== a b)
