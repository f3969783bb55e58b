-- ===== src/LinuxRepository/Retention.antt =====
-- `INTERNAL_PACKAGE` and `stale_internal_packages` of publish_linux_repository.py. Names are ASCII.
pub mod Groups
pub mod Laws
pub mod Prune
pub mod Kept
use mathlib.Core.List
use Prim.Native.Char.{Char, code}
use Prim.Native.String.{[], ◌∷◌}
use sesori_apps_monorepo.Prelude.{
  ℕ, Bool, true, false, ◌&&◌, ◌||◌, not, String, ◌<>◌, Option, none, some, List, [], ◌∷◌, ◌++◌,
  ◌==◌, string_eq, nat_eq, if◌then◌else◌,
}
use sesori_apps_monorepo.Prelude.Lists.{drop, sort}
use sesori_apps_monorepo.Prelude.Text.{number, literal, text_lt, ◌>>=◌}
use sesori_apps_monorepo.LinuxRepository.Versions.{tuple_lt, three_parts, at_end}

-- the characters up to the first that ends the run
unfoldable pub span : (Char → Bool) → String → String × String
span ends [] = ("", "")
span ends (c ∷ s) = let rest = span ends s in if ends c then ("", c ∷ s) else (c ∷ rest.0, rest.1)

-- `[^/]+` and `[^/-]+`: what matched, and the rest. What follows in the expression begins with a
-- character that the class leaves out.
unfoldable pub run_of : (Char → Bool) → String → Option (String × String)
unfolding span
run_of ends s =
    let (matched, rest) = span ends s in if matched == "" then none else some (matched, rest)

abbrev is_slash : Char → Bool
is_slash c = code c == 47

abbrev is_slash_or_dash : Char → Bool
is_slash_or_dash c = code c == 47 || code c == 45

-- `(?P<directory>…)/`: what the group matched, and the rest behind the separator
unfoldable pub apt_directory : String → Option (String × String)
apt_directory s = do
  s ← literal "apt/pool/internal/" s
  (arch, s) ← run_of is_slash s
  s ← literal "/" s
  some ("apt/pool/internal/" <> arch, s)

unfoldable pub rpm_directory : String → Option (String × String)
rpm_directory s = do
  s ← literal "rpm/internal/" s
  (arch, s) ← run_of is_slash s
  s ← literal "/Packages/" s
  some ("rpm/internal/" <> (arch <> "/Packages"), s)

unfoldable pub feed_directory_of : String → Option (String × String)
feed_directory_of s = do
  s ← literal "desktop-updates/k1/internal/linux-" s
  (arch, s) ← run_of is_slash s
  s ← literal "/" s
  some ("desktop-updates/k1/internal/linux-" <> arch, s)

abbrev pub or_else : {A : Type 0} → Option A → Option A → Option A
or_else none b = b
or_else (some a) b = some a

-- `(?:Sesori-linux-[^/-]+-|sesori-desktop-)`
unfoldable pub package_prefix : String → Option String
package_prefix s =
    or_else (do s ← literal "Sesori-linux-" s; (_, s) ← run_of is_slash_or_dash s; literal "-" s)
      (literal "sesori-desktop-" s)

unfoldable pub package_suffix : String → Bool
package_suffix s = s == ".deb" || s == ".rpm" || s == "-internal-full.nupkg"

-- `INTERNAL_PACKAGE.fullmatch(name)`: the directory, and the numbers of the other groups
unfoldable pub internal_package : String → Option (String × List ℕ)
internal_package name = do
  (directory, s) ←
      or_else (apt_directory name) (or_else (rpm_directory name) (feed_directory_of name))
  s ← package_prefix s
  (parts, s) ← three_parts s
  s ← literal "-" s
  (build, s) ← number (elim (literal "internal." s) [ some rest ↦ rest | none ↦ s ])
  if package_suffix s then some (directory, parts ++ build ∷ []) else none

abbrev pub Build : Type 0
Build = List ℕ × String

-- Python's `>` on pairs of an order and a name, for `sorted(…, reverse=True)`
unfoldable pub build_gt : Build → Build → Bool
build_gt a b = tuple_lt b.0 a.0 || (not (tuple_lt a.0 b.0) && text_lt b.1 a.1)

-- `builds.setdefault(directory, []).append(build)`
unfoldable pub append_build :
    String → Build → List (String × List Build) → List (String × List Build)
append_build directory build [] = (directory, build ∷ []) ∷ []
append_build directory build ((d, rows) ∷ more) =
    let rest = append_build directory build more in
    if d == directory then (d, rows ++ build ∷ []) ∷ more else (d, rows) ∷ rest

unfoldable pub add_name : String → List (String × List Build) → List (String × List Build)
unfolding append_build
add_name name builds = elim (internal_package name) [
  | none ↦ builds
  | some (directory, order) ↦ append_build directory (order, name) builds
]

-- the loop over the names
unfoldable pub collect : List String → List (String × List Build) → List (String × List Build)
unfolding add_name
collect [] builds = builds
collect (name ∷ rest) builds = collect rest (add_name name builds)

abbrev pub kept_internal_builds : ℕ
kept_internal_builds = 5

abbrev pub name_of : Build → String
name_of build = build.1

unfoldable pub stale_of : List (String × List Build) → List String
stale_of [] = []
stale_of ((d, rows) ∷ more) =
    List.map name_of (drop kept_internal_builds (sort build_gt rows)) ++ stale_of more

unfoldable pub stale_internal_packages : List String → List String
stale_internal_packages names = sort text_lt (stale_of (collect names []))
