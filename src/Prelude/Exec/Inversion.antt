-- ===== src/Prelude/Exec/Inversion.antt =====
-- Taking apart an action that returned, at the steps that change nothing, and putting one together.
use mathlib.Core.Path.{◌≡◌, refl, ap, subst}
use mathlib.Core.List.{List, [], ◌∷◌}
use sesori_apps_monorepo.Prelude.Lists.{All}
use mathlib.Core.Bool.{Bool, true, false}
use mathlib.Core.Logic.{◌↔◌}
use Prim.Native.String.{String}
use sesori_apps_monorepo.Prelude.Equality.{if◌then◌else◌}
use sesori_apps_monorepo.Prelude.Exec.{
  Result, ok, err, Exec, pure, lift, require, resume, ◌>>=◌, finally, ended, collect,
}

module _ {W B : Type 0} where
  pub require-inv :
      (c : Bool) (message : String) (f : Unit {0} → Exec W B) (w : W) (b : B)
      → ((require c message >>= f) w).0 ≡ ok b
      → (c ≡ true) × ((f tt w).0 ≡ ok b)
  unfolding ◌>>=◌
  require-inv true message f w b h = (refl, h)
  require-inv false message f w b h = cc

  pub require-intro :
      (c : Bool) (message : String) (f : Unit {0} → Exec W B) (w : W)
      → c ≡ true
      → (require c message >>= f) w ≡ f tt w
  unfolding ◌>>=◌
  require-intro true message f w e = refl
  require-intro false message f w e = cc

  pub lift-inv :
      {A : Type 0} (r : Result A) (f : A → Exec W B) (w : W) (b : B)
      → ((lift r >>= f) w).0 ≡ ok b
      → (a : A) × (r ≡ ok a) × ((f a w).0 ≡ ok b)
  unfolding ◌>>=◌
  lift-inv (ok a) f w b h = (a, refl, h)
  lift-inv (err e) f w b h = cc

  pub lift-intro :
      {A : Type 0} (r : Result A) (f : A → Exec W B) (w : W) (a : A)
      → r ≡ ok a
      → (lift r >>= f) w ≡ f a w
  unfolding ◌>>=◌
  lift-intro (ok a') f w a h = let e : a' ≡ a = cc in ap (λ x. f x w) e
  lift-intro (err e) f w a h = cc

  -- any action: its value, and the rest where it left the world
  pub bind-inv :
      {A : Type 0} (m : Exec W A) (f : A → Exec W B) (w : W) (b : B)
      → ((m >>= f) w).0 ≡ ok b
      → (a : A) × ((m w).0 ≡ ok a) × ((f a (m w).1).0 ≡ ok b)
  unfolding ◌>>=◌
  bind-inv {A} m f w b h = by (m w).0 refl h
    where
      by :
          (r : Result A)
          → (m w).0 ≡ r
          → (resume r f (m w).1).0 ≡ ok b
          → (a : A) × ((m w).0 ≡ ok a) × ((f a (m w).1).0 ≡ ok b)
      by (ok a) e k = (a, e, k)
      by (err x) e k = cc

-- An action that returned: its first step did, and the rest is the whole.
pub bind-run :
    {W A B : Type 0} (m : Exec W A) (f : A → Exec W B) (w : W) (b : B)
    → ((m >>= f) w).0 ≡ ok b
    → (a : A) × ((m w).0 ≡ ok a) × ((m >>= f) w ≡ f a (m w).1) × ((f a (m w).1).0 ≡ ok b)
unfolding ◌>>=◌
bind-run m f w b h = let (a, e, k) = bind-inv m f w b h in (a, e, ap (λ r. resume r f (m w).1) e, k)

-- `finally`: both parts returned, and the world is where the last one left it
pub finally-run :
    {W A : Type 0} (m : Exec W A) (last : Exec W (Unit {0})) (w : W) (a : A)
    → (finally m last w).0 ≡ ok a
    → ((m w).0 ≡ ok a) × ((last (m w).1).0 ≡ ok tt) × ((finally m last w).1 ≡ (last (m w).1).1)
unfolding finally
finally-run m last w a h = let (e, k) = both (m w).0 (last (m w).1).0 h in (e, k, refl)
  where
    both :
        {A : Type 0} {a : A} (r : Result A) (q : Result (Unit {0}))
        → ended r q ≡ ok a
        → (r ≡ ok a) × (q ≡ ok tt)
    both r (ok tt) h = (h, refl)
    both r (err e) h = cc

pub bind-intro :
    {W A B : Type 0} (m : Exec W A) (f : A → Exec W B) (w : W) (a : A) (w' : W)
    → m w ≡ (ok a, w')
    → (m >>= f) w ≡ f a w'
unfolding ◌>>=◌
bind-intro m f w a w' h = ap (λ q. resume q.0 f q.1) h

-- an action that is done before a value is returned
pub returns :
    {W A : Type 0} (m : Exec W (Unit {0})) (a : A) (w : W)
    → (m w).0 ≡ ok tt
    → ((m >>= λ _. pure a) w).0 ≡ ok a
unfolding ◌>>=◌
returns m a w h = ap (λ r. (resume r (λ _. pure a) (m w).1).0) h

pub require_iff :
    {W : Type 0} (c : Bool) (message : String) (w : W)
    → ((require c message w).0 ≡ ok tt) ↔ (c ≡ true)
unfolding require
require_iff true message w = (λ _. refl, λ _. refl)
require_iff false message w = (λ h. cc, λ h. cc)

pub ok-injective : {A : Type 0} {x y : A} → ◌≡◌ {A = Result A} (ok x) (ok y) → x ≡ y
ok-injective h = cc

pub pure-inv : {W A : Type 0} (a b : A) (w : W) → (pure a w).0 ≡ ok b → a ≡ b
unfolding pure
pure-inv a b w h = ok-injective h

-- a code that branches
pub branch :
    {W A : Type 0} {P : Type 0} {a : A} {w : W} (c : Bool) (m n : Exec W A)
    → ((if c then m else n) w).0 ≡ ok a
    → ((m w).0 ≡ ok a → P)
    → ((n w).0 ≡ ok a → P)
    → P
branch true m n h taken other = taken h
branch false m n h taken other = other h

-- a code that branches, with what the test says
pub branch_on :
    {W A : Type 0} {P : Type 0} {a : A} {w : W} (c : Bool) (m n : Exec W A)
    → ((if c then m else n) w).0 ≡ ok a
    → (c ≡ true → (m w).0 ≡ ok a → P)
    → (c ≡ false → (n w).0 ≡ ok a → P)
    → P
branch_on true m n h taken other = taken refl h
branch_on false m n h taken other = other refl h

-- What the rounds of a comprehension establish of their values holds of all of them.
pub collect-All :
    {W A B : Type 0} (f : A → Exec W B) (P : B → Type 0)
    → ((x : A) (w : W) (y : B) → (f x w).0 ≡ ok y → P y)
    → (xs : List A) (w : W) (ys : List B) → (collect f xs w).0 ≡ ok ys
    → All P ys
unfolding collect
collect-All f P each [] w ys h = subst (All P) (pure-inv [] ys w h) tt
collect-All f P each (x ∷ xs) w ys h =
    let (y, is, _, h) = bind-run (f x) _ w ys h in
    let (zs, rest, _, h) = bind-run (collect f xs) _ _ ys h in
    subst (All P) (pure-inv (y ∷ zs) ys (collect f xs (f x w).1).1 h)
      (each x w y is, collect-All f P each xs _ zs rest)
