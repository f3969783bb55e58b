-- ===== src/LinuxRepository/Versions.antt =====
-- `version_order`, `TAGS`, `newest_release` and `select_channels` of publish_linux_repository.py.
pub mod Order
pub mod Completed
pub mod Tags
pub mod Newest
use sesori_apps_monorepo.Prelude.{
  ℕ, Bool, true, false, ◌&&◌, ◌||◌, not, String, ◌<>◌, Option, none, some, List, [], ◌∷◌, ◌++◌,
  contains, ◌==◌, string_eq, nat_eq, ltb, if◌then◌else◌, is_some,
}
use sesori_apps_monorepo.Prelude.Text.{number, literal, ◌>>=◌}
use sesori_apps_monorepo.Prelude.Exec.{Result, ok, err, value_error}
use sesori_apps_monorepo.Prelude.Lists.{select}

-- Python's `<` on tuples of numbers
abbrev pub tuple_lt : List ℕ → List ℕ → Bool
tuple_lt [] [] = false
tuple_lt [] (y ∷ ys) = true
tuple_lt (x ∷ xs) [] = false
tuple_lt (x ∷ xs) (y ∷ ys) = ltb x y || (x == y && tuple_lt xs ys)

pub data Channel : Type 0 where
  stable internal : Channel

-- `fullmatch` leaves nothing over
abbrev pub at_end : {A : Type 0} → A → String → Option A
at_end a rest = if rest == "" then some a else none

-- `(\d+)\.(\d+)\.(\d+)`
unfoldable pub three_parts : String → Option (List ℕ × String)
three_parts s = do
  (major, s) ← number s
  s ← literal "." s
  (minor, s) ← number s
  s ← literal "." s
  (patch, s) ← number s
  some (major ∷ minor ∷ patch ∷ [], s)

-- `[1-9]\d*`
unfoldable pub positive_number : String → Option (ℕ × String)
positive_number s = elim (literal "0" s) [ some _ ↦ none | none ↦ number s ]

-- `(\d+)\.(\d+)\.(\d+)-(\d+)`
unfoldable pub version_groups : String → Option (List ℕ)
version_groups version = do
  (parts, s) ← three_parts version
  s ← literal "-" s
  (build, s) ← number s
  at_end (parts ++ build ∷ []) s

unfoldable pub version_order : String → Result (List ℕ)
version_order version = elim (version_groups version) [
  | some order ↦ ok order
  | none ↦ err (value_error ("Unexpected repository package version: " <> version))
]

-- `TAGS[channel].fullmatch(tag)` and the numbers of its groups
unfoldable pub tag_groups : Channel → String → Option (List ℕ)
tag_groups stable tag = do s ← literal "v" tag; (parts, s) ← three_parts s; at_end parts s
tag_groups internal tag = do
  s ← literal "v" tag
  (parts, s) ← three_parts s
  s ← literal "-internal." s
  (build, s) ← positive_number s
  at_end (parts ++ build ∷ []) s

-- A release as the GitHub API lists it; of its assets only the names are read here.
pub record Release : Type 0 where
  pub tag_name : String
  pub draft : Bool
  pub prerelease : Bool
  pub assets : List String

abbrev pub manifest : String
manifest = "desktop-linux-release.json"

-- the test in the loop of `newest_release`, and the key of a release that passes it
unfoldable pub candidate : Channel → Release → Option (List ℕ)
candidate channel release = do
  key ← tag_groups channel release.tag_name
  let complete =
      not release.draft
      && (elim channel [ stable ↦ true | internal ↦ release.prerelease ])
      && contains release.assets manifest
  if complete then some key else none

unfoldable pub candidates : Channel → List Release → List (List ℕ × Release)
candidates channel [] = []
candidates channel (release ∷ rest) =
    let more = candidates channel rest in
    elim (candidate channel release) [ some key ↦ (key, release) ∷ more | none ↦ more ]

-- `max` keeps the first of the largest.
largest : List ℕ × Release → List (List ℕ × Release) → List ℕ × Release
largest best [] = best
largest best (next ∷ rest) = largest (if tuple_lt best.0 next.0 then next else best) rest

choose : List (List ℕ × Release) → Option Release
choose [] = none
choose (first ∷ rest) = some (largest first rest).1

unfoldable pub newest_release : Channel → List Release → Option Release
unfolding choose largest candidates
newest_release channel releases = choose (candidates channel releases)

unfoldable pub select_channels : List Release → List Channel
select_channels releases =
    select (λ channel. is_some (newest_release channel releases)) (stable ∷ internal ∷ [])
