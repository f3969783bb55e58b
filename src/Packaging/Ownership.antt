-- ===== src/Packaging/Ownership.antt =====
-- `verify_owned_paths` of package_desktop_linux.py: which paths of the system a package may own, and
-- which it must own. A pure path is its root and its parts, as `PurePosixPath` has them.
pub mod Laws
use mathlib.Core.List
use Prim.Native.Char.{code}
use Prim.Native.String.{[], ◌∷◌}
use sesori_apps_monorepo.Prelude.{
  ℕ, suc, Bool, true, false, ◌&&◌, ◌||◌, not, String, ◌<>◌, Option, none, some, List, [], ◌∷◌, ◌++◌,
  ◌==◌, string_eq, nat_eq, if◌then◌else◌,
}
use sesori_apps_monorepo.Prelude.Lists.{length, select}
use sesori_apps_monorepo.Prelude.Text.Lines.{split, strip}
use sesori_apps_monorepo.Prelude.Exec.{Result, ok, err, value_error, key_error}

pub record PurePath : Type 0 where
  pub root : String
  pub parts : List String

-- the root of a path: two slashes are their own, three are one
unfoldable pub root_of : String → String
root_of (a ∷ b ∷ c ∷ s) =
    if code a == 47 then (if code b == 47 && not (code c == 47) then "//" else "/") else ""
root_of (a ∷ b ∷ []) = if code a == 47 then (if code b == 47 then "//" else "/") else ""
root_of (a ∷ []) = if code a == 47 then "/" else ""
root_of [] = ""

-- the parts that count: `.` and nothing between two slashes do not
unfoldable pub counted : List String → List String
counted [] = []
counted (part ∷ rest) =
    let more = counted rest in if part == "" || part == "." then more else part ∷ more

-- `PurePosixPath(text)`
unfoldable pub pure_path : String → PurePath
unfolding root_of counted
pure_path text = record { root = root_of text; parts = counted (split "/" text) }

unfoldable pub same_parts : List String → List String → Bool
same_parts [] [] = true
same_parts (x ∷ xs) (y ∷ ys) = x == y && same_parts xs ys
same_parts _ _ = false

unfoldable pub same_path : PurePath → PurePath → Bool
unfolding same_parts
same_path a b = a.root == b.root && same_parts a.parts b.parts

-- the second parts go on where the first ones end
unfoldable pub goes_on : List String → List String → Bool
goes_on [] [] = false
goes_on [] (y ∷ ys) = true
goes_on (x ∷ xs) [] = false
goes_on (x ∷ xs) (y ∷ ys) = x == y && goes_on xs ys

-- `directory in path.parents`
unfoldable pub is_inside : PurePath → PurePath → Bool
unfolding goes_on
is_inside directory path = directory.root == path.root && goes_on directory.parts path.parts

unfoldable pub has_path : List PurePath → PurePath → Bool
has_path [] path = false
has_path (p ∷ ps) path = same_path p path || has_path ps path

abbrev pub install_root : PurePath
install_root = pure_path "/opt/sesori-desktop"

abbrev pub system_integration_paths : List String
system_integration_paths =
    "usr/bin/sesori-desktop" ∷ "usr/share/applications/sesori-desktop.desktop"
    ∷ "usr/share/icons/hicolor/512x512/apps/sesori-desktop.png" ∷ []

abbrev pub system_parent_paths : List String
system_parent_paths =
    "" ∷ "opt" ∷ "usr" ∷ "usr/bin" ∷ "usr/share" ∷ "usr/share/applications" ∷ "usr/share/icons"
    ∷ "usr/share/icons/hicolor" ∷ "usr/share/icons/hicolor/512x512"
    ∷ "usr/share/icons/hicolor/512x512/apps" ∷ "etc" ∷ "etc/apt" ∷ "etc/apt/apt.conf.d"
    ∷ "etc/apt/keyrings" ∷ "etc/apt/sources.list.d" ∷ "etc/pki" ∷ "etc/pki/rpm-gpg"
    ∷ "etc/yum.repos.d" ∷ []

abbrev pub apt_key : String
apt_key = "etc/apt/keyrings/sesori.asc"

abbrev pub apt_source : String
apt_source = "etc/apt/sources.list.d/sesori.list"

abbrev pub apt_unattended : String
apt_unattended = "etc/apt/apt.conf.d/52sesori-unattended-upgrades"

abbrev pub rpm_key : String
rpm_key = "etc/pki/rpm-gpg/RPM-GPG-KEY-sesori"

abbrev pub rpm_repository : String
rpm_repository = "etc/yum.repos.d/sesori.repo"

-- `REPOSITORY_PATHS[package_format]`
unfoldable pub repository_paths : String → Result (List String)
repository_paths format =
    if format == "deb"
    then ok (apt_key ∷ apt_source ∷ apt_unattended ∷ [])
    else if format == "rpm"
    then ok (rpm_key ∷ rpm_repository ∷ [])
    else err (key_error format)

-- `{PurePosixPath("/" + path) for path in paths}`
unfoldable pub rooted : List String → List PurePath
rooted [] = []
rooted (path ∷ paths) = pure_path ("/" <> path) ∷ rooted paths

-- the set `owned`, of the lines that are not blank
unfoldable pub owned_of : List String → List PurePath
owned_of [] = []
owned_of (path ∷ paths) =
    let more = owned_of paths in
    let own = pure_path (strip path) in
    if strip path == "" || has_path more own then more else own ∷ more

-- A path that the package may own
unfoldable pub is_allowed : List PurePath → PurePath → Bool
is_allowed required path =
    has_path (required ++ rooted system_parent_paths) path
    || (same_path install_root path || is_inside install_root path)

abbrev pub no_paths : List PurePath → Bool
no_paths [] = true
no_paths (path ∷ paths) = false

-- the required paths of a format; the number of paths that are owned, where all is well
unfoldable pub verify_owned : List PurePath → List PurePath → Result ℕ
verify_owned required owned =
    let unexpected = select (λ p. not (is_allowed required p)) owned in
    let missing = select (λ p. not (has_path owned p)) (required ++ install_root ∷ []) in
    if no_paths unexpected && no_paths missing
    then ok (length owned)
    else err (value_error "Package ownership mismatch")

unfoldable pub verify_owned_paths : List String → String → Result ℕ
verify_owned_paths paths format = elim (repository_paths format) [
  | ok own ↦ verify_owned (rooted (system_integration_paths ++ own)) (owned_of paths)
  | err e ↦ err e
]
