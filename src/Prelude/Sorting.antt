-- ===== src/Prelude/Sorting.antt =====
-- What `sorted` keeps and gives: the elements, relations that hold between any two, and the order.
use mathlib.Core.Path.{◌≡◌, refl, subst, sym}
use mathlib.Core.Logic.{inl, inr}
use mathlib.Core.Bool.{Bool, true, false}
use mathlib.Core.List.{List, [], ◌∷◌}
use sesori_apps_monorepo.Prelude.Equality.{Bool-cases}
use sesori_apps_monorepo.Prelude.Lists.{All, Pairwise, In, insert, sort}

module _ {A : Type 0} (P : A → Type 0) where
  pub All-In : {a : A} (xs : List A) → All P xs → In a xs → P a
  All-In [] h m = absurd m
  All-In (x ∷ xs) h (inl e) = subst P (sym e) h.0
  All-In (x ∷ xs) h (inr m) = All-In xs h.1 m

  pub All-of_In : (xs : List A) → ((a : A) → In a xs → P a) → All P xs
  All-of_In [] h = tt
  All-of_In (x ∷ xs) h = (h x (inl refl), All-of_In xs (λ a m. h a (inr m)))

  pub All-map : (Q : A → Type 0) → ((a : A) → P a → Q a) → (xs : List A) → All P xs → All Q xs
  All-map Q f [] h = tt
  All-map Q f (x ∷ xs) h = (f x h.0, All-map Q f xs h.1)

module _ {A : Type 0} (lt : A → A → Bool) where
  All-insert : (P : A → Type 0) (x : A) (xs : List A) → P x → All P xs → All P (insert lt x xs)
  unfolding insert
  All-insert P x [] p h = (p, tt)
  All-insert P x (y ∷ ys) p h = elim (Bool-cases (lt y x)) [
    | inl e ↦ rw e (h.0, All-insert P x ys p h.1)
    | inr e ↦ rw e (p, h)
  ]

  pub All-sort : (P : A → Type 0) (xs : List A) → All P xs → All P (sort lt xs)
  unfolding sort
  All-sort P [] h = tt
  All-sort P (x ∷ xs) h = All-insert P x (sort lt xs) h.0 (All-sort P xs h.1)

  In-insert : (x : A) (xs : List A) (a : A) → In a (x ∷ xs) → In a (insert lt x xs)
  unfolding insert
  In-insert x [] a m = m
  In-insert x (y ∷ ys) a m = elim (Bool-cases (lt y x)) [
    | inl e ↦ rw e (elim m [
      | inl p ↦ inr (In-insert x ys a (inl p))
      | inr k ↦ elim k [ inl p ↦ inl p | inr k' ↦ inr (In-insert x ys a (inr k')) ]
    ])
    | inr e ↦ rw e m
  ]

  -- Sorting loses nothing.
  pub In-sort : (xs : List A) (a : A) → In a xs → In a (sort lt xs)
  unfolding sort
  In-sort [] a m = absurd m
  In-sort (x ∷ xs) a (inl p) = In-insert x (sort lt xs) a (inl p)
  In-sort (x ∷ xs) a (inr m) = In-insert x (sort lt xs) a (inr (In-sort xs a m))

  -- A symmetric relation between any two elements survives.
  module _ {R : A → A → Type 0} (symm : (a b : A) → R a b → R b a) where
    Pairwise-insert :
        (x : A) (xs : List A) → All (R x) xs → Pairwise R xs → Pairwise R (insert lt x xs)
    unfolding insert
    Pairwise-insert x [] h p = (tt, tt)
    Pairwise-insert x (y ∷ ys) h p = elim (Bool-cases (lt y x)) [
      | inl e ↦ rw e (All-insert (R y) x ys (symm x y h.0) p.0, Pairwise-insert x ys h.1 p.1)
      | inr e ↦ rw e (h, p)
    ]

    pub Pairwise-sort : (xs : List A) → Pairwise R xs → Pairwise R (sort lt xs)
    unfolding sort
    Pairwise-sort [] p = tt
    Pairwise-sort (x ∷ xs) p =
        Pairwise-insert x (sort lt xs) (All-sort (R x) xs p.0) (Pairwise-sort xs p.1)

  -- The result is in order, for any transitive order that the test decides.
  module _ {R : A → A → Type 0} (trans : (a b c : A) → R a b → R b c → R a c)
      (less : (a b : A) → lt a b ≡ true → R a b)
      (not_less : (a b : A) → lt a b ≡ false → R b a) where
    insert-IsSorted : (x : A) (xs : List A) → Pairwise R xs → Pairwise R (insert lt x xs)
    unfolding insert
    insert-IsSorted x [] p = (tt, tt)
    insert-IsSorted x (y ∷ ys) p = elim (Bool-cases (lt y x)) [
      | inl e ↦ rw e (All-insert (R y) x ys (less y x e) p.0, insert-IsSorted x ys p.1)
      | inr e ↦
          rw e (
            (not_less y x e, All-map (R y) (R x) (λ z r. trans x y z (not_less y x e) r) ys p.0),
            p,
          )
    ]

    pub sort-IsSorted : (xs : List A) → Pairwise R (sort lt xs)
    unfolding sort
    sort-IsSorted [] = tt
    sort-IsSorted (x ∷ xs) = insert-IsSorted x (sort lt xs) (sort-IsSorted xs)
