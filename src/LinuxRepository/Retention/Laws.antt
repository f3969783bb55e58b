-- ===== src/LinuxRepository/Retention/Laws.antt =====
-- What pruning promises: a package goes only where five builds of its target stay that are at least
-- as new.
use mathlib.Core.List
use sesori_apps_monorepo.Prelude.{
  ℕ, zero, suc, ◌≡◌, ◌≢◌, refl, sym, ap, false, String, List, [], ◌∷◌, inr, arith,
}
use sesori_apps_monorepo.Prelude.Lists.{All, Pairwise, In, length, take, drop, sort}
use sesori_apps_monorepo.Prelude.Sorting.{All-In, All-of_In, All-sort, Pairwise-sort, sort-IsSorted}
use sesori_apps_monorepo.Prelude.Text.{text_lt}
use sesori_apps_monorepo.LinuxRepository.Versions.{tuple_lt}
use sesori_apps_monorepo.LinuxRepository.Versions.Order.{tuple_lt_neg_trans, tuple_lt_asymm}
use sesori_apps_monorepo.LinuxRepository.Retention.{
  Build, build_gt, collect, kept_internal_builds, name_of, stale_of, stale_internal_packages,
}
use sesori_apps_monorepo.LinuxRepository.Retention.Groups.{
  All-append, Listed, Grouped, OtherName, Fresh, collect-Grouped, collect-Fresh,
}

module _ {A : Type 0} where
  length-take : (n : ℕ) (xs : List A) (x : A) → In x (drop n xs) → length (take n xs) ≡ n
  length-take zero xs x m = refl
  length-take (suc n) [] x m = absurd m
  length-take (suc n) (y ∷ ys) x m = ap suc (length-take n ys x m)

  In-drop : (n : ℕ) (xs : List A) (x : A) → In x (drop n xs) → In x xs
  In-drop zero xs x m = m
  In-drop (suc n) [] x m = absurd m
  In-drop (suc n) (y ∷ ys) x m = inr (In-drop n ys x m)

  All-take : (P : A → Type 0) (n : ℕ) (xs : List A) → All P xs → All P (take n xs)
  All-take P zero xs h = tt
  All-take P (suc n) [] h = tt
  All-take P (suc n) (y ∷ ys) h = (h.0, All-take P n ys h.1)

  Pairwise-take :
      (R : A → A → Type 0) (n : ℕ) (xs : List A) → Pairwise R xs → Pairwise R (take n xs)
  Pairwise-take R zero xs h = tt
  Pairwise-take R (suc n) [] h = tt
  Pairwise-take R (suc n) (y ∷ ys) h = (All-take (R y) n ys h.0, Pairwise-take R n ys h.1)

  -- The elements that are taken stand before those that are dropped.
  take-before :
      (R : A → A → Type 0) (n : ℕ) (xs : List A) (x : A)
      → Pairwise R xs
      → In x (drop n xs)
      → All (λ a. R a x) (take n xs)
  take-before R zero xs x p m = tt
  take-before R (suc n) [] x p m = absurd m
  take-before R (suc n) (y ∷ ys) x p m =
      (All-In (R y) ys p.0 (In-drop n ys x m), take-before R n ys x p.1 m)

All-pair :
    {A : Type 0} (P Q : A → Type 0) (xs : List A) → All P xs → All Q xs → All (λ a. P a × Q a) xs
All-pair P Q [] h k = tt
All-pair P Q (x ∷ xs) h k = ((h.0, k.0), All-pair P Q xs h.1 k.1)

pub All-name :
    (P : String → Type 0) (rows : List Build)
    → All (λ (r : Build). P r.1) rows
    → All P (List.map name_of rows)
All-name P [] h = tt
All-name P (r ∷ rows) h = (h.0, All-name P rows h.1)

abbrev NotOlder : Build → Build → Type 0
NotOlder a b = tuple_lt a.0 b.0 ≡ false

-- Why a name may go: `kept` are other builds of its directory, as many as are kept, none older.
pub IsSuperseded : List String → String → Type 0
IsSuperseded names name =
    (directory : String) × (order : List ℕ) × (kept : List Build) × Listed names directory
      (order, name)
    × (length kept ≡ 5)
    × Pairwise OtherName kept
    × All (λ (k : Build). Listed names directory k × ((k.1 ≢ name) × (tuple_lt k.0 order ≡ false)))
        kept

sort-NotOlder : (rows : List Build) → Pairwise NotOlder (sort build_gt rows)
unfolding build_gt
sort-NotOlder rows =
    sort-IsSorted build_gt {R = NotOlder} (λ a b c. tuple_lt_neg_trans a.0 b.0 c.0)
      (λ a b h. ground (arith, tuple_lt_asymm b.0 a.0)) (λ a b h. ground arith) rows

group-IsSuperseded :
    (names : List String) (directory : String) (rows : List Build)
    → All (Listed names directory) rows
    → Pairwise OtherName rows
    → All (λ (r : Build). IsSuperseded names r.1) (drop kept_internal_builds (sort build_gt rows))
unfolding IsSuperseded
group-IsSuperseded names directory rows listed other =
    let s = sort build_gt rows in
    let listed' : All (Listed names directory) s =
      All-sort build_gt (Listed names directory) rows listed in
    let other' : Pairwise OtherName s =
      Pairwise-sort build_gt {R = OtherName} (λ a b h e. h (sym e)) rows other in
    All-of_In (λ (r : Build). IsSuperseded names r.1) (drop 5 s)
      λ r m. (
        directory,
        r.0,
        take 5 s,
        All-In (Listed names directory) s listed' (In-drop 5 s r m),
        length-take 5 s r m,
        Pairwise-take OtherName 5 s other',
        All-pair _ _ (take 5 s) (All-take (Listed names directory) 5 s listed') (
            All-pair _ _ (take 5 s) (take-before OtherName 5 s r other' m)
              (take-before NotOlder 5 s r (sort-NotOlder rows) m)),
      )

stale_of-IsSuperseded :
    (names : List String) (builds : List (String × List Build))
    → Grouped names builds
    → Fresh [] builds
    → All (IsSuperseded names) (stale_of builds)
unfolding stale_of
stale_of-IsSuperseded names [] g f = tt
stale_of-IsSuperseded names ((d, rows) ∷ more) g f =
    All-append (IsSuperseded names)
      (List.map name_of (drop kept_internal_builds (sort build_gt rows))) (stale_of more)
      (All-name (IsSuperseded names) (drop kept_internal_builds (sort build_gt rows))
        (group-IsSuperseded names d rows g.0 f.0.0))
      (stale_of-IsSuperseded names more g.1 f.1)

-- A name that `stale_internal_packages` returns for a listing without repetitions is that of an
-- internal package of the listing, and the listing has five other packages of its directory none of
-- which is older.
pub stale_internal_packages-IsSuperseded :
    (names : List String) (name : String)
    → Pairwise (λ a b. a ≢ b) names
    → In name (stale_internal_packages names)
    → IsSuperseded names name
unfolding stale_internal_packages
stale_internal_packages-IsSuperseded names name u m =
    let all =
      stale_of-IsSuperseded names (collect names [])
        (collect-Grouped names names [] (All-of_In (λ n. In n names) names (λ n k. k)) tt)
        (collect-Fresh names [] u tt) in
    All-In (IsSuperseded names) (sort text_lt (stale_of (collect names [])))
      (All-sort text_lt (IsSuperseded names) (stale_of (collect names [])) all) m
