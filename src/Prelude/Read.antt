-- ===== src/Prelude/Read.antt =====
-- Python code that only looks at the world: it may raise, and changes nothing.
pub mod Inversion
use mathlib.Core.Path.{◌≡◌, refl}
use mathlib.Core.Bool.{Bool, true, false}
use mathlib.Core.List.{List, [], ◌∷◌}
use Prim.Native.String.{String}
use sesori_apps_monorepo.Prelude.Exec.{Error, Result, ok, err, value_error, Exec}

abbrev pub Read : Type 0 → Type 0 → Type 0
Read W A = W → Result A

-- `Read` in code that acts
unfoldable pub ask : {W A : Type 0} → Read W A → Exec W A
ask m w = (m w, w)

unfoldable pub test : {W : Type 0} → (W → Bool) → Read W Bool
test f w = ok (f w)

module _ {W : Type 0} where
  unfoldable pub pure : {A : Type 0} → A → Read W A
  pure a w = ok a

  unfoldable pub raise : {A : Type 0} → Error → Read W A
  raise e w = err e

  unfoldable pub lift : {A : Type 0} → Result A → Read W A
  lift r w = r

  unfoldable pub require : Bool → String → Read W (Unit {0})
  unfolding pure raise
  require true message = pure tt
  require false message = raise (value_error message)

  abbrev pub resume : {A B : Type 0} → Result A → (A → Read W B) → Read W B
  resume (ok a) f w = f a w
  resume (err e) f w = err e

  infixl 10 ◌>>=◌ ◌>>◌
  -- opening this opens `pure`, `raise`, `lift` and `require` too
  unfoldable pub ◌>>=◌ : {A B : Type 0} → Read W A → (A → Read W B) → Read W B
  unfolding pure raise lift require
  ◌>>=◌ m f w = resume (m w) f w

  abbrev pub ◌>>◌ : {A B : Type 0} → Read W A → Read W B → Read W B
  m >> n = m >>= λ _. n

  -- `for x in xs: f(x)`, with what the rounds give
  unfoldable pub collect : {A B : Type 0} → (A → Read W B) → List A → Read W (List B)
  collect f [] = pure []
  collect f (x ∷ xs) = f x >>= λ y. collect f xs >>= λ ys. pure (y ∷ ys)

  unfoldable pub for_each : {A : Type 0} → (A → Read W (Unit {0})) → List A → Read W (Unit {0})
  for_each f [] = pure tt
  for_each f (x ∷ xs) = f x >>= λ _. for_each f xs
