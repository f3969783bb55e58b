-- ===== src/Prelude/Exec.antt =====
-- Python code that may raise and that changes the world outside: what was changed before an
-- exception stays changed, so the world comes back beside the error.
pub mod Keeps
pub mod Inversion
pub mod Ensures
use mathlib.Core.Path.{◌≡◌, refl}
use mathlib.Core.Bool.{Bool, true, false}
use mathlib.Core.List.{List, [], ◌∷◌}
use Prim.Native.Nat.{ℕ}
use Prim.Native.String.{String}

-- The exceptions that the scripts raise or let through, with their message or code.
pub data Error : Type 0 where
  value_error runtime_error publication_error key_error : String → Error
  http_error called_process_error : ℕ → Error
  type_error index_error struct_error url_error timeout_expired os_error : Error

pub data Result (A : Type 0) : Type 0 where
  ok : A → Result A
  err : Error → Result A

abbrev pub Exec : Type 0 → Type 0 → Type 0
Exec W A = W → Result A × W

abbrev pub ended : {A : Type 0} → Result A → Result (Unit {0}) → Result A
ended r (ok _) = r
ended r (err e) = err e

abbrev pub mapped : {A : Type 0} → (Error → Error) → Result A → Result A
mapped f (ok a) = ok a
mapped f (err e) = err (f e)

module _ {W : Type 0} where
  unfoldable pub pure : {A : Type 0} → A → Exec W A
  pure a w = (ok a, w)

  unfoldable pub raise : {A : Type 0} → Error → Exec W A
  raise e w = (err e, w)

  unfoldable pub lift : {A : Type 0} → Result A → Exec W A
  lift r w = (r, w)

  -- `require(condition, message)` of prepare_desktop_release.py
  unfoldable pub require : Bool → String → Exec W (Unit {0})
  unfolding pure raise
  require true message = pure tt
  require false message = raise (value_error message)

  -- `if not condition: raise error`
  unfoldable pub demand : Bool → Error → Exec W (Unit {0})
  unfolding pure raise
  demand true error = pure tt
  demand false error = raise error

  abbrev pub resume : {A B : Type 0} → Result A → (A → Exec W B) → Exec W B
  resume (ok a) f w = f a w
  resume (err e) f w = (err e, w)

  infixl 10 ◌>>=◌ ◌>>◌
  -- opening this opens `pure`, `raise`, `lift` and `require` too
  unfoldable pub ◌>>=◌ : {A B : Type 0} → Exec W A → (A → Exec W B) → Exec W B
  unfolding pure raise lift require demand
  ◌>>=◌ m f w = let r = m w in resume r.0 f r.1

  abbrev pub ◌>>◌ : {A B : Type 0} → Exec W A → Exec W B → Exec W B
  m >> n = m >>= λ _. n

  -- `for x in xs: f(x)`
  unfoldable pub for_each : {A : Type 0} → (A → Exec W (Unit {0})) → List A → Exec W (Unit {0})
  unfolding pure
  for_each f [] = pure tt
  for_each f (x ∷ xs) = f x >>= λ _. for_each f xs

  -- `[f(x) for x in xs]`
  unfoldable pub collect : {A B : Type 0} → (A → Exec W B) → List A → Exec W (List B)
  unfolding pure
  collect f [] = pure []
  collect f (x ∷ xs) = f x >>= λ y. collect f xs >>= λ ys. pure (y ∷ ys)

  -- `try: m except …: raise …`, the exceptions as a function
  unfoldable pub raising : {A : Type 0} → (Error → Error) → Exec W A → Exec W A
  raising f m w = let r = m w in (mapped f r.0, r.1)

  -- `try: m finally: last`; an exception of `last` replaces that of `m`
  unfoldable pub finally : {A : Type 0} → Exec W A → Exec W (Unit {0}) → Exec W A
  finally m last w = let r = m w in let q = last r.1 in (ended r.0 q.0, q.1)

-- To show a property of what `m >>= f` returns and leaves: of the case that `m` raises, and of the
-- case that it returns.
module _ {W A B : Type 0} (P : Result B × W → Type 0) where
  resume-elim :
      (r : Result A) (f : A → Exec W B) (w : W)
      → ((e : Error) → r ≡ err e → P (err e, w))
      → ((a : A) → r ≡ ok a → P (f a w))
      → P (resume r f w)
  resume-elim (ok a) f w raised returned = returned a refl
  resume-elim (err e) f w raised returned = raised e refl

  pub bind-elim :
      (m : Exec W A) (f : A → Exec W B) (w : W)
      → ((e : Error) → (m w).0 ≡ err e → P (err e, (m w).1))
      → ((a : A) → (m w).0 ≡ ok a → P (f a (m w).1))
      → P ((m >>= f) w)
  unfolding ◌>>=◌
  bind-elim m f w raised returned = resume-elim (m w).0 f (m w).1 raised returned
