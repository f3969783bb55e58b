-- ===== src/LinuxRepository/Retention/Groups.antt =====
-- What the loop over the names collects: the internal packages of the listing, by their directory.
use mathlib.Core.Path.{subst}
use sesori_apps_monorepo.Prelude.{
  ℕ, ◌≡◌, ◌≢◌, refl, sym, String, Option, none, some, List, [], ◌∷◌, ◌++◌, inl, inr, ◌==◌, ==→≡,
  string_eq, Bool-cases,
}
use sesori_apps_monorepo.Prelude.Lists.{All, In, Pairwise}
use sesori_apps_monorepo.Prelude.Sorting.{All-map}
use sesori_apps_monorepo.LinuxRepository.Retention.{
  internal_package, Build, append_build, add_name, collect,
}

pub All-append :
    {A : Type 0} (P : A → Type 0) (xs ys : List A) → All P xs → All P ys → All P (xs ++ ys)
All-append P [] ys h k = k
All-append P (x ∷ xs) ys h k = (h.0, All-append P xs ys h.1 k)

-- A build is that of a name in the listing, in the directory of its group.
abbrev pub Listed : List String → String → Build → Type 0
Listed names directory build =
    In build.1 names × (internal_package build.1 ≡ some (directory, build.0))

abbrev pub Grouped : List String → List (String × List Build) → Type 0
Grouped names = All (λ g. All (Listed names g.0) g.1)

append_build-Grouped :
    (names : List String) (directory : String) (build : Build) (builds : List (String × List Build))
    → Listed names directory build
    → Grouped names builds
    → Grouped names (append_build directory build builds)
unfolding append_build
append_build-Grouped names directory build [] is h = ((is, tt), tt)
append_build-Grouped names directory build ((d, rows) ∷ more) is h =
    elim (Bool-cases (d == directory)) [
      | inl e ↦
          let same : directory ≡ d = sym (==→≡ d directory e) in
          rw e (
            All-append (Listed names d) rows (build ∷ []) h.0
                (subst (λ x. Listed names x build) same is, tt),
            h.1,
          )
      | inr e ↦ rw e (h.0, append_build-Grouped names directory build more is h.1)
    ]

add_name-Grouped :
    (names : List String) (name : String) (builds : List (String × List Build))
    → In name names
    → Grouped names builds
    → Grouped names (add_name name builds)
unfolding add_name
add_name-Grouped names name builds m h = found (internal_package name) refl
  where
    found :
        (o : Option (String × List ℕ))
        → internal_package name ≡ o
        → Grouped names (elim o [
          | none ↦ builds
          | some (directory, order) ↦ append_build directory (order, name) builds
        ])
    found none e = h
    found (some (directory, order)) e =
        append_build-Grouped names directory (order, name) builds (m, e) h

pub collect-Grouped :
    (names todo : List String) (builds : List (String × List Build))
    → All (λ n. In n names) todo
    → Grouped names builds
    → Grouped names (collect todo builds)
unfolding collect
collect-Grouped names [] builds m h = h
collect-Grouped names (name ∷ rest) builds m h =
    collect-Grouped names rest (add_name name builds) m.1 (add_name-Grouped names name builds m.0 h)

-- No build of a group has the name of another one, or of a name that is still to come.
abbrev pub OtherName : Build → Build → Type 0
OtherName a b = a.1 ≢ b.1

abbrev pub Fresh : List String → List (String × List Build) → Type 0
Fresh todo = All (λ g. Pairwise OtherName g.1 × All (λ (r : Build). All (λ n. n ≢ r.1) todo) g.1)

Pairwise-snoc :
    {A : Type 0} (R : A → A → Type 0) (xs : List A) (y : A)
    → Pairwise R xs
    → All (λ x. R x y) xs
    → Pairwise R (xs ++ y ∷ [])
Pairwise-snoc R [] y p h = (tt, tt)
Pairwise-snoc R (x ∷ xs) y p h =
    (All-append (R x) xs (y ∷ []) p.0 (h.0, tt), Pairwise-snoc R xs y p.1 h.1)

other_names :
    (order : List ℕ) (name : String) (rest : List String) (rows : List Build)
    → All (λ (r : Build). All (λ n. n ≢ r.1) (name ∷ rest)) rows
    → All (λ (r : Build). OtherName r (order, name)) rows
other_names order name rest [] h = tt
other_names order name rest (r ∷ rows) h =
    ((λ same. h.0.0 (sym same)), other_names order name rest rows h.1)

later_names :
    (name : String) (rest : List String) (rows : List Build)
    → All (λ (r : Build). All (λ n. n ≢ r.1) (name ∷ rest)) rows
    → All (λ (r : Build). All (λ n. n ≢ r.1) rest) rows
later_names name rest [] h = tt
later_names name rest (r ∷ rows) h = (h.0.1, later_names name rest rows h.1)

Fresh-rest :
    (name : String) (rest : List String) (builds : List (String × List Build))
    → Fresh (name ∷ rest) builds
    → Fresh rest builds
Fresh-rest name rest [] h = tt
Fresh-rest name rest ((d, rows) ∷ more) h =
    ((h.0.0, later_names name rest rows h.0.1), Fresh-rest name rest more h.1)

append_build-Fresh :
    (directory : String) (order : List ℕ) (name : String) (rest : List String)
    (builds : List (String × List Build))
    → All (λ n. n ≢ name) rest
    → Fresh (name ∷ rest) builds
    → Fresh rest (append_build directory (order, name) builds)
unfolding append_build
append_build-Fresh directory order name rest [] new h = (((tt, tt), (new, tt)), tt)
append_build-Fresh directory order name rest ((d, rows) ∷ more) new h =
    elim (Bool-cases (d == directory)) [
      | inl e ↦ rw e (
        (
          Pairwise-snoc OtherName rows (order, name) h.0.0 (other_names order name rest rows h.0.1),
          All-append (λ (r : Build). All (λ n. n ≢ r.1) rest) rows ((order, name) ∷ [])
              (later_names name rest rows h.0.1) (new, tt),
        ),
        Fresh-rest name rest more h.1,
      )
      | inr e ↦ rw e (
        (h.0.0, later_names name rest rows h.0.1),
        append_build-Fresh directory order name rest more new h.1,
      )
    ]

add_name-Fresh :
    (name : String) (rest : List String) (builds : List (String × List Build))
    → All (λ n. n ≢ name) rest
    → Fresh (name ∷ rest) builds
    → Fresh rest (add_name name builds)
unfolding add_name
add_name-Fresh name rest builds new h = found (internal_package name)
  where
    found :
        (o : Option (String × List ℕ))
        → Fresh rest (elim o [
          | none ↦ builds
          | some (directory, order) ↦ append_build directory (order, name) builds
        ])
    found none = Fresh-rest name rest builds h
    found (some (directory, order)) = append_build-Fresh directory order name rest builds new h

pub collect-Fresh :
    (todo : List String) (builds : List (String × List Build))
    → Pairwise (λ a b. a ≢ b) todo
    → Fresh todo builds
    → Fresh [] (collect todo builds)
unfolding collect
collect-Fresh [] builds u h = h
collect-Fresh (name ∷ rest) builds u h =
    collect-Fresh rest (add_name name builds) u.1
      (add_name-Fresh name rest builds (All-map _ _ (λ n k same. k (sym same)) rest u.0) h)
