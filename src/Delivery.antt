-- ===== src/Delivery.antt =====
-- The loop that the publishers of the bucket and of the release assets share: each round looks at
-- the public object of one row, uploads it where it is missing and reads it back. The lemmas are
-- about any such round; the publishers supply theirs.
use sesori_apps_monorepo.Prelude.{
  ℕ, ◌<◌, ◌≤◌, ◌≡◌, refl, sym, ap, ◌∙◌, ◌≢◌, inl, inr, String, arith,
}
use sesori_apps_monorepo.Prelude.{
  Option, some, List, [], ◌∷◌, ◌++◌, ◌==◌, ≡→==, string_eq, if◌then◌else◌,
}
use sesori_apps_monorepo.Prelude.Lists.{All, Pairwise, In}
use sesori_apps_monorepo.Prelude.Sorting.{All-In, All-of_In}
use sesori_apps_monorepo.Prelude.Exec.{Exec, ok, bind-elim, for_each}

pub In-append : {A : Type 0} (xs ys : List A) (a : A) → In a xs → In a (xs ++ ys)
In-append [] ys a m = absurd m
In-append (x ∷ xs) ys a (inl e) = inl e
In-append (x ∷ xs) ys a (inr m) = inr (In-append xs ys a m)

pub In-append_last : {A : Type 0} (xs : List A) (y : A) → In y (xs ++ y ∷ [])
In-append_last [] y = inl refl
In-append_last (x ∷ xs) y = inr (In-append_last xs y)

-- `view` is what the public sees of an object, `step` one round of the loop.
pub record IsDelivery {W Row : Type 0} (view : W → String → Option String)
    (name digest : Row → String) (step : Row → Exec W (Unit {0})) : Type 0 where
  pub delivered :
      (r : Row) (w : W) → (step r w).0 ≡ ok tt → view (step r w).1 (name r) ≡ some (digest r)
  pub frame : (r : Row) (w : W) (n : String) → n ≢ name r → view (step r w).1 n ≡ view w n

-- The rows name different objects.
abbrev pub Distinct : {Row : Type 0} → (Row → String) → List Row → Type 0
Distinct name rows = Pairwise (λ a b. name a ≢ name b) rows

-- The rows are in the order of publication.
abbrev pub Ordered : {Row : Type 0} → (Row → ℕ) → List Row → Type 0
Ordered order rows = Pairwise (λ a b. order a ≤ order b) rows

module _ {W Row : Type 0} (view : W → String → Option String) (name digest : Row → String)
    (step : Row → Exec W (Unit {0})) (d : IsDelivery view name digest step) where
  -- An object that no row names is left alone.
  pub for_each-frame :
      (rows : List Row) (w : W) (n : String)
      → All (λ r. n ≢ name r) rows
      → view (for_each step rows w).1 n ≡ view w n
  unfolding for_each
  for_each-frame [] w n h = refl
  for_each-frame (x ∷ xs) w n h =
      bind-elim (λ q. view q.1 n ≡ view w n) (step x) (λ _. for_each step xs) w
        (λ e _. d.frame x w n h.0) (λ _ _. for_each-frame xs (step x w).1 n h.1 ∙ d.frame x w n h.0)

  -- A loop that returns has delivered every row.
  pub for_each-delivered :
      (rows : List Row) (w : W)
      → Distinct name rows
      → (for_each step rows w).0 ≡ ok tt
      → All (λ r. view (for_each step rows w).1 (name r) ≡ some (digest r)) rows
  unfolding for_each
  for_each-delivered [] w u = λ _. tt
  for_each-delivered (x ∷ xs) w u =
      bind-elim (λ q. q.0 ≡ ok tt → All (λ r. view q.1 (name r) ≡ some (digest r)) (x ∷ xs))
        (step x) (λ _. for_each step xs) w (λ e _ h. cc)
        (λ _ e h. (
          for_each-frame xs (step x w).1 (name x) u.0 ∙ d.delivered x w e,
          for_each-delivered xs (step x w).1 u.1 h,
        ))

  -- Whether the loop returns or raises: where the object of a row was touched, every row that is
  -- published before it has been delivered and still is.
  module _ (order : Row → ℕ) where
    -- Nothing is published before the first row.
    first_lowest :
        (x : Row) (xs : List Row) (a b : Row)
        → Ordered order (x ∷ xs)
        → In a (x ∷ xs)
        → b ≡ x
        → order a < order b
        → ⊥
    first_lowest x xs a b o (inl e) p lt =
        let same : order a ≡ order b = ap order (e ∙ sym p) in omega arith
    first_lowest x xs a b o (inr m) p lt =
        let least : order x ≤ order a = All-In (λ r. order x ≤ order r) xs o.0 m in
        let same : order b ≡ order x = ap order p in omega arith

    -- The round of the first row leaves the object of a later one alone.
    later_untouched :
        (x : Row) (xs : List Row) (w : W) (b : Row)
        → Distinct name (x ∷ xs)
        → In b xs
        → view (step x w).1 (name b) ≡ view w (name b)
    later_untouched x xs w b u m =
        let apart : name x ≢ name b = All-In (λ r. name x ≢ name r) xs u.0 m in
        d.frame x w (name b) (λ p. apart (sym p))

    pub for_each-Ordered :
        (rows : List Row) (w : W)
        → Distinct name rows
        → Ordered order rows
        → (a b : Row) → In a rows
        → In b rows
        → order a < order b
        → view (for_each step rows w).1 (name b) ≢ view w (name b)
        → view (for_each step rows w).1 (name a) ≡ some (digest a)
    unfolding for_each
    for_each-Ordered [] w u o a b ma mb lt = absurd ma
    for_each-Ordered (x ∷ xs) w u o a b ma (inl p) lt = absurd (first_lowest x xs a b o ma p lt)
    for_each-Ordered (x ∷ xs) w u o a b (inl p) (inr mb) lt =
        bind-elim (λ q. view q.1 (name b) ≢ view w (name b) → view q.1 (name a) ≡ some (digest a))
          (step x) (λ _. for_each step xs) w
          (λ _ _ changed. absurd (changed (later_untouched x xs w b u mb)))
          (λ _ e _. rw p (for_each-frame xs (step x w).1 (name x) u.0 ∙ d.delivered x w e))
    for_each-Ordered (x ∷ xs) w u o a b (inr ma) (inr mb) lt =
        bind-elim (λ q. view q.1 (name b) ≢ view w (name b) → view q.1 (name a) ≡ some (digest a))
          (step x) (λ _. for_each step xs) w
          (λ _ _ changed. absurd (changed (later_untouched x xs w b u mb)))
          (λ _ e changed.
            for_each-Ordered xs (step x w).1 u.1 o.1 a b ma mb lt
              (λ p. changed (p ∙ later_untouched x xs w b u mb)))

  -- The last row is touched only after all the others have been delivered.
  module _ (last : Row) where
    marked : Row → ℕ
    marked r = if name r == name last then 1 else 0

    marked_first : (r : Row) → name r ≢ name last → marked r ≡ 0
    unfolding marked
    marked_first r h = ground arith

    marked_last : marked last ≡ 1
    unfolding marked
    marked_last = rw (≡→== (name last) (name last) refl) refl

    last_apart :
        (rows : List Row) (r : Row)
        → Distinct name (rows ++ last ∷ [])
        → In r rows
        → name r ≢ name last
    last_apart [] r u m = absurd m
    last_apart (x ∷ xs) r u (inl e) = λ same.
        All-In (λ a. name x ≢ name a) (xs ++ last ∷ []) u.0 (In-append_last xs last)
          (ap name (sym e) ∙ same)
    last_apart (x ∷ xs) r u (inr m) = last_apart xs r u.1 m

    marked-Ordered :
        (rows : List Row) → Distinct name (rows ++ last ∷ []) → Ordered marked (rows ++ last ∷ [])
    marked-Ordered [] u = (tt, tt)
    marked-Ordered (x ∷ xs) u =
        let low : marked x ≡ 0 = marked_first x (last_apart (x ∷ xs) x u (inl refl)) in
        (
          All-of_In (λ r. marked x ≤ marked r) (xs ++ last ∷ []) (λ r m. omega arith),
          marked-Ordered xs u.1,
        )

    pub for_each-last :
        (rows : List Row) (w : W) (a : Row)
        → Distinct name (rows ++ last ∷ [])
        → In a rows
        → view (for_each step (rows ++ last ∷ []) w).1 (name last) ≢ view w (name last)
        → view (for_each step (rows ++ last ∷ []) w).1 (name a) ≡ some (digest a)
    for_each-last rows w a u m =
        let low = marked_first a (last_apart rows a u m) in
        let high = marked_last in
        for_each-Ordered marked (rows ++ last ∷ []) w u (marked-Ordered rows u) a last
          (In-append rows (last ∷ []) a m) (In-append_last rows last) (omega arith)
