-- ===== src/LinuxRepository/Retention/Kept.antt =====
-- What pruning leaves alone.
use mathlib.Core.List
use sesori_apps_monorepo.Prelude.{
  ℕ, zero, suc, ◌≡◌, ◌≢◌, refl, ap, ◌∙◌, String, Option, none, List, [], ◌∷◌,
}
use sesori_apps_monorepo.Prelude.Lists.{All, In, drop, sort}
use sesori_apps_monorepo.Prelude.Sorting.{All-map, All-of_In, All-sort}
use sesori_apps_monorepo.Prelude.Text.{text_lt}
use sesori_apps_monorepo.Prelude.Exec.Keeps.{Keeps, Keeps-bind, Keeps-pure}
use sesori_apps_monorepo.Storage.{Storage, IsBucket}
use sesori_apps_monorepo.LinuxRepository.Retention.{
  internal_package, Build, build_gt, collect, kept_internal_builds, name_of, stale_of,
  stale_internal_packages,
}
use sesori_apps_monorepo.LinuxRepository.Retention.Groups.{All-append, Listed, collect-Grouped}
use sesori_apps_monorepo.LinuxRepository.Retention.Laws.{All-name}
use sesori_apps_monorepo.LinuxRepository.Retention.Prune.{
  list_command, remove_command, remove, prune_internal_packages,
}

-- What the code relies on of the two commands: a listing changes nothing, and a removal, done or
-- failed, changes only the objects that it names.
pub record IsPrunable (S : Storage) (b : IsBucket S) : Type 0 where
  pub objects-list :
      (w : S.World) (n : String) → b.objects (S.run list_command w).1 n ≡ b.objects w n
  pub objects-remove :
      (names : List String) (w : S.World) (n : String)
      → All (λ m. n ≢ m) names
      → b.objects (S.run (remove_command names) w).1 n ≡ b.objects w n

All-drop : {A : Type 0} (P : A → Type 0) (n : ℕ) (xs : List A) → All P xs → All P (drop n xs)
All-drop P zero xs h = h
All-drop P (suc n) [] h = tt
All-drop P (suc n) (x ∷ xs) h = All-drop P n xs h.1

stale_of-All :
    (P : String → Type 0) (builds : List (String × List Build))
    → All (λ g. All (λ (r : Build). P r.1) g.1) builds
    → All P (stale_of builds)
unfolding stale_of
stale_of-All P [] h = tt
stale_of-All P ((d, rows) ∷ more) h =
    All-append P (List.map name_of (drop kept_internal_builds (sort build_gt rows))) (stale_of more)
      (All-name P (drop kept_internal_builds (sort build_gt rows)) (
        All-drop (λ (r : Build). P r.1) kept_internal_builds (sort build_gt rows)
          (All-sort build_gt (λ (r : Build). P r.1) rows h.0)))
      (stale_of-All P more h.1)

-- A name that the expression does not match is not stale.
stale_other :
    (names : List String) (n : String)
    → internal_package n ≡ none
    → All (λ m. n ≢ m) (stale_internal_packages names)
unfolding stale_internal_packages
stale_other names n h =
    All-sort text_lt (λ m. n ≢ m) (stale_of (collect names []))
      (stale_of-All (λ m. n ≢ m) (collect names [])
        (All-map (λ g. All (Listed names g.0) g.1) (λ g. All (λ (r : Build). n ≢ r.1) g.1)
          (λ g listed.
            All-map (Listed names g.0) (λ (r : Build). n ≢ r.1) (λ r is same. other g.0 r is same)
              g.1 listed)
          (collect names [])
          (collect-Grouped names names [] (All-of_In (λ m. In m names) names (λ m k. k)) tt)))
  where
    other : (d : String) (r : Build) → Listed names d r → n ≢ r.1
    other d r is same = let k = ap internal_package same in let e = is.1 in cc

module _ (S : Storage) (b : IsBucket S) (p : IsPrunable S b) (w : S.World) where
  Keeps-remove :
      (n : String) (v : Option S.Bytes) (names : List String)
      → All (λ m. n ≢ m) names
      → Keeps (λ u. b.objects u n ≡ v) (remove S names)
  unfolding remove
  Keeps-remove n v [] h = Keeps-pure tt
  Keeps-remove n v (m ∷ names) h =
      Keeps-bind _ _ (record { at = λ u e. p.objects-remove (m ∷ names) u n h ∙ e })
        (λ _. Keeps-pure tt)

  -- Whether it returns or raises, `prune_internal_packages` changes no object whose name is not that
  -- of an internal package.
  pub prune_internal_packages-others :
      (n : String)
      → internal_package n ≡ none
      → b.objects (prune_internal_packages S w).1 n ≡ b.objects w n
  unfolding prune_internal_packages
  prune_internal_packages-others n other =
      (Keeps-bind {P = λ u. b.objects u n ≡ b.objects w n} (S.run list_command) _
          (record { at = λ u e. p.objects-list u n ∙ e })
          (λ listing. Keeps-remove n (b.objects w n) _ (stale_other _ n other))).at
        w refl
