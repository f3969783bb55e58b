-- ===== src/Packaging/Ownership/Laws.antt =====
-- What `verify_owned_paths` accepts, said without its code.
use sesori_apps_monorepo.Prelude.{
  ◌≡◌, ◌↔◌, ◌⊎◌, refl, sym, ap, ◌∙◌, Bool, true, false, ◌&&◌, not, String, List, [], ◌∷◌, ◌++◌,
  ◌==◌, ==→≡, ≡→==, string_eq, if◌then◌else◌,
}
use sesori_apps_monorepo.Prelude.Lists.{All, In, select, length}
use sesori_apps_monorepo.Prelude.Reflect.{Says, and_says, or_says}
use sesori_apps_monorepo.Prelude.Exec.{ok, err, value_error}
use sesori_apps_monorepo.Packaging.Ownership.{
  PurePath, same_parts, same_path, goes_on, is_inside, has_path, install_root, rooted,
  system_parent_paths, system_integration_paths, repository_paths, owned_of, is_allowed, no_paths,
  verify_owned, verify_owned_paths,
}

same_parts_says : (xs ys : List String) → Says (same_parts xs ys) (xs ≡ ys)
unfolding same_parts
same_parts_says [] [] = (λ _. refl, λ _. refl)
same_parts_says [] (y ∷ ys) = (λ h. cc, λ h. cc)
same_parts_says (x ∷ xs) [] = (λ h. cc, λ h. cc)
same_parts_says (x ∷ xs) (y ∷ ys) =
    let (f, g) =
      and_says (x == y) (same_parts xs ys) (==→≡ x y, ≡→== x y) (same_parts_says xs ys) in
    (λ h. let (e, k) = f h in cc, λ h. g (cc, cc))

same_path_says : (a b : PurePath) → Says (same_path a b) (a ≡ b)
unfolding same_path
same_path_says a b =
    let (f, g) =
      and_says (a.root == b.root) (same_parts a.parts b.parts)
        (==→≡ a.root b.root, ≡→== a.root b.root) (same_parts_says a.parts b.parts) in
    (
      λ h.
          let (e, k) = f h in
          ap (λ r. record { root = r; parts = a.parts }) e
          ∙ ap (λ p. record { root = b.root; parts = p }) k,
      λ h. g (ap (λ p. p.root) h, ap (λ p. p.parts) h),
    )

-- The parts go on behind those of the directory.
abbrev pub GoesOn : List String → List String → Type 0
GoesOn xs ys = (z : String) × (zs : List String) × (ys ≡ xs ++ z ∷ zs)

goes_on_says : (xs ys : List String) → Says (goes_on xs ys) (GoesOn xs ys)
unfolding goes_on
goes_on_says [] [] = (λ h. cc, λ (z, zs, e). cc)
goes_on_says [] (y ∷ ys) = (λ _. (y, ys, refl), λ _. refl)
goes_on_says (x ∷ xs) [] = (λ h. cc, λ (z, zs, e). cc)
goes_on_says (x ∷ xs) (y ∷ ys) =
    let (f, g) = and_says (x == y) (goes_on xs ys) (==→≡ x y, ≡→== x y) (goes_on_says xs ys) in
    (λ h. let (e, (z, zs, k)) = f h in (z, zs, cc), λ (z, zs, k). g (cc, (z, zs, cc)))

-- A path strictly inside of a directory.
abbrev pub Inside : PurePath → PurePath → Type 0
Inside directory path = (directory.root ≡ path.root) × GoesOn directory.parts path.parts

is_inside_says : (a b : PurePath) → Says (is_inside a b) (Inside a b)
unfolding is_inside
is_inside_says a b =
    and_says (a.root == b.root) (goes_on a.parts b.parts) (==→≡ a.root b.root, ≡→== a.root b.root)
      (goes_on_says a.parts b.parts)

has_path_says : (ps : List PurePath) (p : PurePath) → Says (has_path ps p) (In p ps)
unfolding has_path
has_path_says [] p = (λ h. cc, λ h. absurd h)
has_path_says (q ∷ qs) p =
    let (f, g) = same_path_says q p in
    or_says (same_path q p) (has_path qs p) (λ h. sym (f h), λ h. g (sym h)) (has_path_says qs p)

-- The paths that a package may own: the required ones, the directories above them, and the
-- installation with all that is inside.
abbrev pub Allowed : List PurePath → PurePath → Type 0
Allowed required path =
    In path (required ++ rooted system_parent_paths)
    ⊎ ((install_root ≡ path) ⊎ Inside install_root path)

is_allowed_says :
    (required : List PurePath) (p : PurePath) → Says (is_allowed required p) (Allowed required p)
unfolding is_allowed
is_allowed_says required p =
    or_says _ _ (has_path_says (required ++ rooted system_parent_paths) p)
      (or_says _ _ (same_path_says install_root p) (is_inside_says install_root p))

step_says :
    (b : Bool) {P Q : Type 0} (p : PurePath) (more : List PurePath)
    → Says b P
    → Says (no_paths more) Q
    → Says (no_paths (if not b then p ∷ more else more)) (P × Q)
step_says true p more (f, g) (f', g') = (λ h. (f refl, f' h), λ k. g' k.1)
step_says false p more (f, g) (f', g') = (λ h. cc, λ k. let e = g k.0 in cc)

-- Nothing fails a test exactly if the property holds of all.
select_says :
    (test : PurePath → Bool) (P : PurePath → Type 0)
    → ((p : PurePath) → Says (test p) (P p))
    → (ps : List PurePath) → Says (no_paths (select (λ p. not (test p)) ps)) (All P ps)
select_says test P each [] = (λ _. tt, λ _. refl)
select_says test P each (p ∷ ps) =
    step_says (test p) p (select (λ q. not (test q)) ps) (each p) (select_says test P each ps)

verify_owned_iff :
    (required owned : List PurePath)
    → (verify_owned required owned ≡ ok (length owned))
      ↔ (All (Allowed required) owned × All (λ p. In p owned) (required ++ install_root ∷ []))
unfolding verify_owned
verify_owned_iff required owned = by _ both
  where
    both :
        Says
          (no_paths (select (λ p. not (is_allowed required p)) owned)
            && no_paths (select (λ p. not (has_path owned p)) (required ++ install_root ∷ [])))
          (All (Allowed required) owned × All (λ p. In p owned) (required ++ install_root ∷ []))
    both =
        and_says _ _
          (select_says (is_allowed required) (Allowed required) (is_allowed_says required) owned)
          (select_says (has_path owned) (λ p. In p owned) (has_path_says owned)
            (required ++ install_root ∷ []))

    by :
        (b : Bool)
        → Says b
            (All (Allowed required) owned × All (λ p. In p owned) (required ++ install_root ∷ []))
        → ((if b then ok (length owned) else err (value_error "Package ownership mismatch"))
            ≡ ok (length owned))
          ↔ (All (Allowed required) owned × All (λ p. In p owned) (required ++ install_root ∷ []))
    by true (f, g) = (λ _. f refl, λ _. refl)
    by false (f, g) = (λ h. cc, λ k. let e = g k in cc)

-- Of a format with a repository, the check of the owned paths accepts, with the number of paths,
-- exactly if the package owns nothing but its required paths, the directories above them, and its
-- installation with what is inside, and owns all the required paths and the installation.
pub verify_owned_paths_iff :
    (paths : List String) (format : String) (own : List String)
    → repository_paths format ≡ ok own
    → (verify_owned_paths paths format ≡ ok (length (owned_of paths))) ↔ (
        All (Allowed (rooted (system_integration_paths ++ own))) (owned_of paths)
        × All
            (λ p. In p (owned_of paths))
            (rooted (system_integration_paths ++ own) ++ install_root ∷ []))
unfolding verify_owned_paths
verify_owned_paths_iff paths format own h =
    rw (verify_owned_paths, h)
      (verify_owned_iff (rooted (system_integration_paths ++ own)) (owned_of paths))
