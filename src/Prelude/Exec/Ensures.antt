-- ===== src/Prelude/Exec/Ensures.antt =====
-- What an action that returns has established.
use mathlib.Core.Path.{◌≡◌, refl, subst}
use mathlib.Core.Bool.{Bool, true, false}
use Prim.Native.String.{String}
use sesori_apps_monorepo.Prelude.Exec.{
  Error, Result, ok, Exec, pure, raise, lift, require, ◌>>=◌, for_each, bind-elim,
}
use sesori_apps_monorepo.Prelude.Exec.Keeps.{Keeps}
use sesori_apps_monorepo.Prelude.Lists.{All}
use sesori_apps_monorepo.Prelude.Equality.{if◌then◌else◌}
use mathlib.Core.List.{List, [], ◌∷◌}

-- Run in `w`, if `m` returns, then its value and the world that it leaves have the property.
pub record Ensures {W A : Type 0} (P : A → W → Type 0) (m : Exec W A) (w : W) : Type 0 where
  pub at : (a : A) → (m w).0 ≡ ok a → P a (m w).1

module _ {W : Type 0} where
  pub Ensures-bind :
      {A B : Type 0} {P : B → W → Type 0} (Q : A → W → Type 0) (m : Exec W A) (f : A → Exec W B)
      (w : W)
      → Ensures Q m w
      → ((a : A) (w' : W) → Q a w' → Ensures P (f a) w')
      → Ensures P (m >>= f) w
  Ensures-bind {A} {B} {P} Q m f w em ef = record {
    at =
        bind-elim (λ q. (b : B) → q.0 ≡ ok b → P b q.1) m f w (λ _ _ b h. cc)
          (λ a e b h. (ef a _ (em.at a e)).at b h);
  }

  pub Ensures-require :
      {P : Unit {0} → W → Type 0} (c : Bool) (message : String) (w : W)
      → (c ≡ true → P tt w)
      → Ensures P (require c message) w
  unfolding require
  Ensures-require true message w h = record { at = λ _ _. h refl }
  Ensures-require false message w h = record { at = λ _ p. cc }

  pub Ensures-lift :
      {A : Type 0} (P : A → W → Type 0) (r : Result A) (w : W)
      → ((a : A) → r ≡ ok a → P a w)
      → Ensures P (lift r) w
  unfolding lift
  Ensures-lift P r w h = record { at = h }

  pub Ensures-pure :
      {A : Type 0} (P : A → W → Type 0) (a : A) (w : W) → P a w → Ensures P (pure a) w
  unfolding pure
  Ensures-pure P a w h = record { at = λ b e. let p : a ≡ b = cc in subst (λ c. P c w) p h }

  pub Ensures-raise :
      {A : Type 0} {P : A → W → Type 0} (e : Error) (w : W) → Ensures P (raise {A = A} e) w
  unfolding raise
  Ensures-raise e w = record { at = λ a h. cc }

  pub Ensures-if :
      {A : Type 0} {P : A → W → Type 0} (c : Bool) (m n : Exec W A) (w : W)
      → (c ≡ true → Ensures P m w)
      → (c ≡ false → Ensures P n w)
      → Ensures P (if c then m else n) w
  Ensures-if true m n w em en = em refl
  Ensures-if false m n w em en = en refl

-- A loop that returns has established the property of every round, where an invariant that the
-- rounds keep is enough for it.
module _ {W A : Type 0} (I : W → Type 0) (Q : A → Type 0) (f : A → Exec W (Unit {0}))
    (keep : (a : A) → Keeps I (f a))
    (each : (a : A) (w : W) → I w → Ensures (λ _ _. Q a) (f a) w) where
  pub Ensures-for_each : (xs : List A) (w : W) → I w → Ensures (λ _ _. All Q xs) (for_each f xs) w
  unfolding for_each
  Ensures-for_each [] w i = Ensures-pure (λ _ _. All Q []) tt w tt
  Ensures-for_each (x ∷ xs) w i =
      Ensures-bind (λ _ w'. Q x × I w') (f x) (λ _. for_each f xs) w
        (record { at = λ t e. ((each x w i).at t e, (keep x).at w i) })
        (λ _ w' (q, i'). record { at = λ t e. (q, (Ensures-for_each xs w' i').at t e) })
