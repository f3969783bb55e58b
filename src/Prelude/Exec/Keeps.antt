-- ===== src/Prelude/Exec/Keeps.antt =====
-- Invariants of the world, one rule for each way to build an action.
use mathlib.Core.Path.{◌≡◌, refl}
use mathlib.Core.Bool.{Bool, true, false}
use mathlib.Core.List.{List, [], ◌∷◌}
use Prim.Native.String.{String}
use sesori_apps_monorepo.Prelude.Equality.{if◌then◌else◌}
use mathlib.Core.Logic.{inl, inr}
use sesori_apps_monorepo.Prelude.Lists.{In}
use sesori_apps_monorepo.Prelude.Read.{Read, ask}
use sesori_apps_monorepo.Prelude.Exec.{
  Error, Result, Exec, pure, raise, lift, require, ◌>>=◌, for_each, bind-elim, ok, collect, raising,
  finally,
}

-- Whether `m` returns or raises, the world that it leaves has the property.
pub record Keeps {W A : Type 0} (P : W → Type 0) (m : Exec W A) : Type 0 where
  pub at : (w : W) → P w → P (m w).1

module _ {W : Type 0} {P : W → Type 0} where
  pub Keeps-pure : {A : Type 0} (a : A) → Keeps P (pure a)
  unfolding pure
  Keeps-pure a = record { at = λ w h. h }

  pub Keeps-raise : {A : Type 0} (e : Error) → Keeps P (raise {A = A} e)
  unfolding raise
  Keeps-raise e = record { at = λ w h. h }

  pub Keeps-lift : {A : Type 0} (r : Result A) → Keeps P (lift r)
  unfolding lift
  Keeps-lift r = record { at = λ w h. h }

  pub Keeps-require : (c : Bool) (message : String) → Keeps P (require c message)
  unfolding require
  Keeps-require true message = record { at = λ w h. h }
  Keeps-require false message = record { at = λ w h. h }

  pub Keeps-if :
      {A : Type 0} (c : Bool) (m n : Exec W A)
      → (c ≡ true → Keeps P m)
      → (c ≡ false → Keeps P n)
      → Keeps P (if c then m else n)
  Keeps-if true m n km kn = km refl
  Keeps-if false m n km kn = kn refl

  pub Keeps-bind :
      {A B : Type 0} (m : Exec W A) (f : A → Exec W B)
      → Keeps P m
      → ((a : A) → Keeps P (f a))
      → Keeps P (m >>= f)
  Keeps-bind m f km kf = record {
    at = λ w h. bind-elim (λ q. P q.1) m f w (λ _ _. km.at w h) (λ a _. (kf a).at _ (km.at w h));
  }

  pub Keeps-for_each :
      {A : Type 0} (f : A → Exec W (Unit {0})) (xs : List A)
      → ((a : A) → Keeps P (f a))
      → Keeps P (for_each f xs)
  unfolding for_each
  Keeps-for_each f [] kf = Keeps-pure tt
  Keeps-for_each f (x ∷ xs) kf = Keeps-bind (f x) _ (kf x) (λ _. Keeps-for_each f xs kf)

  pub Keeps-ask : {A : Type 0} (m : Read W A) → Keeps P (ask m)
  unfolding ask
  Keeps-ask m = record { at = λ w h. h }

  -- The code behind `lift` runs on the value alone.
  pub Keeps-lift_bind :
      {A B : Type 0} (r : Result A) (f : A → Exec W B)
      → ((a : A) → r ≡ ok a → Keeps P (f a))
      → Keeps P (lift r >>= f)
  Keeps-lift_bind r f kf = record {
    at = λ w h.
        bind-elim (λ q. P q.1) (lift r) f w (λ _ _. (Keeps-lift r).at w h)
          (λ a e. (kf a (lifted r a w e)).at _ ((Keeps-lift r).at w h));
  }
    where
      lifted : {A : Type 0} (r : Result A) (a : A) (w : W) → (lift r w).0 ≡ ok a → r ≡ ok a
      lifted r a w e = unfold lift in e

  pub Keeps-collect :
      {A B : Type 0} (f : A → Exec W B) (xs : List A)
      → ((a : A) → In a xs → Keeps P (f a))
      → Keeps P (collect f xs)
  unfolding collect
  Keeps-collect f [] kf = Keeps-pure []
  Keeps-collect f (x ∷ xs) kf = Keeps-bind (f x) _ (kf x (inl refl)) (λ y.
      Keeps-bind (collect f xs) _ (Keeps-collect f xs (λ a m. kf a (inr m)))
        (λ ys. Keeps-pure (y ∷ ys)))

  pub Keeps-raising :
      {A : Type 0} (g : Error → Error) (m : Exec W A) → Keeps P m → Keeps P (raising g m)
  unfolding raising
  Keeps-raising g m k = record { at = k.at }

  pub Keeps-finally :
      {A : Type 0} (m : Exec W A) (last : Exec W (Unit {0}))
      → Keeps P m
      → Keeps P last
      → Keeps P (finally m last)
  unfolding finally
  Keeps-finally m last km kl = record { at = λ w h. kl.at _ (km.at w h) }

pub ruleset keeps_rules =
    (Keeps-pure, Keeps-raise, Keeps-lift, Keeps-require, Keeps-if, Keeps-bind, Keeps-for_each)
