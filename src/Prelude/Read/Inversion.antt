-- ===== src/Prelude/Read/Inversion.antt =====
-- Taking apart a reading that returned, and putting one together.
use mathlib.Core.Path.{◌≡◌, refl, ap, sym, ◌∙◌, subst}
use mathlib.Core.Bool.{Bool, true, false}
use mathlib.Core.Logic.{◌↔◌}
use mathlib.Core.List
use mathlib.Core.List.{List, [], ◌∷◌}
use Prim.Native.String.{String}
use sesori_apps_monorepo.Prelude.Exec.{Result, ok, err}
use sesori_apps_monorepo.Prelude.Exec.Inversion.{ok-injective}
use sesori_apps_monorepo.Prelude.Lists.{All}
use sesori_apps_monorepo.Prelude.Read.{Read, pure, lift, require, resume, ◌>>=◌, collect}

module _ {W B : Type 0} where
  pub require-inv :
      (c : Bool) (message : String) (f : Unit {0} → Read W B) (w : W) (b : B)
      → (require c message >>= f) w ≡ ok b
      → (c ≡ true) × (f tt w ≡ ok b)
  unfolding ◌>>=◌
  require-inv true message f w b h = (refl, h)
  require-inv false message f w b h = cc

  pub require-intro :
      (c : Bool) (message : String) (f : Unit {0} → Read W B) (w : W)
      → c ≡ true
      → (require c message >>= f) w ≡ f tt w
  unfolding ◌>>=◌
  require-intro true message f w e = refl
  require-intro false message f w e = cc

  pub bind-inv :
      {A : Type 0} (m : Read W A) (f : A → Read W B) (w : W) (b : B)
      → (m >>= f) w ≡ ok b
      → (a : A) × (m w ≡ ok a) × (f a w ≡ ok b)
  unfolding ◌>>=◌
  bind-inv {A} m f w b h = by (m w) refl h
    where
      by : (r : Result A) → m w ≡ r → resume r f w ≡ ok b → (a : A) × (m w ≡ ok a) × (f a w ≡ ok b)
      by (ok a) e k = (a, e, k)
      by (err x) e k = cc

  pub bind-intro :
      {A : Type 0} (m : Read W A) (f : A → Read W B) (w : W) (a : A)
      → m w ≡ ok a
      → (m >>= f) w ≡ f a w
  unfolding ◌>>=◌
  bind-intro m f w a h = ap (λ r. resume r f w) h

  pub lift-inv :
      {A : Type 0} (r : Result A) (f : A → Read W B) (w : W) (b : B)
      → (lift r >>= f) w ≡ ok b
      → (a : A) × (r ≡ ok a) × (f a w ≡ ok b)
  unfolding lift
  lift-inv r f w b h = bind-inv (lift r) f w b h

  pub lift-intro :
      {A : Type 0} (r : Result A) (f : A → Read W B) (w : W) (a : A)
      → r ≡ ok a
      → (lift r >>= f) w ≡ f a w
  unfolding lift
  lift-intro r f w a h = bind-intro (lift r) f w a h

pub require_iff :
    {W : Type 0} (c : Bool) (message : String) (w : W) → (require c message w ≡ ok tt) ↔ (c ≡ true)
unfolding require
require_iff true message w = (λ _. refl, λ _. refl)
require_iff false message w = (λ h. cc, λ h. cc)

pub pure-intro : {W A : Type 0} (a : A) (w : W) → pure a w ≡ ok a
unfolding pure
pure-intro a w = refl

pub pure-inv : {W A : Type 0} (a b : A) (w : W) → pure a w ≡ ok b → a ≡ b
unfolding pure
pure-inv a b w h = ok-injective h

module _ {W A B : Type 0} (f : A → Read W B) (w : W) where
  -- What a collection holds comes from its rounds, and what the rounds establish holds of it.
  pub collect-All :
      (P : B → Type 0)
      → ((x : A) (y : B) → f x w ≡ ok y → P y)
      → (xs : List A) (ys : List B) → collect f xs w ≡ ok ys
      → All P ys
  unfolding collect
  collect-All P each [] ys h = let e = pure-inv [] ys w h in subst (All P) e tt
  collect-All P each (x ∷ xs) ys h =
      let (y, is, h) = bind-inv (f x) _ w ys h in
      let (zs, rest, h) = bind-inv (collect f xs) _ w ys h in
      subst (All P) (pure-inv (y ∷ zs) ys w h) (each x y is, collect-All P each xs zs rest)

  pub collect-map :
      (g : B → A)
      → ((x : A) (y : B) → f x w ≡ ok y → g y ≡ x)
      → (xs : List A) (ys : List B) → collect f xs w ≡ ok ys
      → List.map g ys ≡ xs
  unfolding collect
  collect-map g each [] ys h = let e = pure-inv [] ys w h in ap (List.map g) (sym e)
  collect-map g each (x ∷ xs) ys h =
      let (y, is, h) = bind-inv (f x) _ w ys h in
      let (zs, rest, h) = bind-inv (collect f xs) _ w ys h in
      let e = pure-inv (y ∷ zs) ys w h in
      let first = each x y is in
      let others = collect-map g each xs zs rest in
      ap (List.map g) (sym e) ∙ ap (λ a. a ∷ List.map g zs) first ∙ ap (λ l. x ∷ l) others
