-- ===== src/Desktop/Macos.antt =====
-- `prepare` of prepare_desktop_release.py: the metadata of a macOS release, from the packages and the
-- evidence of its producer.
pub mod Laws
pub mod Output
use mathlib.Core.List
use sesori_apps_monorepo.Prelude.{
  ℕ, Bool, true, false, ◌&&◌, ◌||◌, not, String, ◌<>◌, Option, none, some, List, [], ◌∷◌, ◌++◌,
  contains, ◌==◌, string_eq, nat_eq, option_eq, if◌then◌else◌,
}
use sesori_apps_monorepo.Prelude.Exec.{Result, ok}
use sesori_apps_monorepo.Prelude.Read.{Read, pure, lift, require, ◌>>=◌, ◌>>◌, collect, for_each}
use sesori_apps_monorepo.UpdateFeed.Verification.{same_set}
use sesori_apps_monorepo.Json.{
  Json, number, string, array, object, Items, no_items, item, Fields, no_fields, field, find, get,
}
use sesori_apps_monorepo.Json.Equality.{json_eq}
use sesori_apps_monorepo.Host.{Host, read_json, digest_of, truthy, index}
use sesori_apps_monorepo.Desktop.Producer.{is_text, get_fields, require_producer}
use sesori_apps_monorepo.Desktop.Identity.{
  clean_version, positive_int, required, check_compiled, check_clean, release_tag,
}

abbrev pub channels : List String
channels = "stable" ∷ "internal" ∷ []

abbrev pub architectures : List String
architectures = "arm64" ∷ "x64" ∷ []

-- A row of `records`; what all rows share stands in `Release`.
pub record Package : Type 0 where
  pub architecture : String
  pub name : String
  pub sha256 : String

pub record Release : Type 0 where
  pub version : String
  pub build_number : ℕ
  pub source_sha : String
  pub channel : String
  pub tag : String
  pub tooling_sha : String
  pub producer_sha : Json
  pub run_id : ℕ
  pub repository : String
  pub artifacts : List Package

abbrev pub keys : Fields → List String
keys no_fields = []
keys (field k _ rest) = k ∷ keys rest

-- `sorted(expected_names)`
abbrev pub package_names : String → List String
package_names arch =
    ("Sesori-macos-" <> (arch <> ".dmg")) ∷ ("Sesori-macos-" <> (arch <> ".zip")) ∷ []

abbrev pub packages_of : String → String → String
packages_of root arch = root <> ("/desktop-macos-packages-" <> arch)

abbrev pub evidence_of : String → String → String
evidence_of root arch = root <> ("/desktop-macos-evidence-" <> arch)

-- `common` of the architectures before, where there is one
unfoldable pub same_identity : Option (String × ℕ) → String → ℕ → Bool
same_identity none version build = true
same_identity (some (v, b)) version build = v == version && b == build

module _ (H : Host) where
  open H use {World}

  unfoldable pub check_identity :
      String → String → Option (String × ℕ) → Fields → Read World (String × ℕ)
  check_identity arch source_sha common identity = do
    require (is_text (get identity "os") "macos" && is_text (get identity "architecture") arch)
        ("Wrong bundle target: " <> arch)
    require (is_text (get identity "sourceSha") source_sha) ("Wrong bundle source: " <> arch)
    version ← lift (
        required "Expected clean three-part release version"
          (clean_version (get identity "version")))
    build ←
        lift (required "Expected positive build number" (positive_int (get identity "buildNumber")))
    require (same_identity common version build) "Architecture release identities differ"
    pure (version, build)

  unfoldable pub check_notarization : String → String → Read World (Unit {0})
  check_notarization packaging kind = do
    record' ← read_json H (packaging <> ("/" <> (kind <> "-notarization.json")))
    require (is_text (get record' "status") "Accepted")
        ("Missing accepted " <> (kind <> " notarization"))

  -- the report of the packager, and the digests that it states
  unfoldable pub check_packaging : String → String → String → Fields → Read World Fields
  check_packaging packaging arch source_sha report = do
    require
        (is_text (get report "packagerSourceSha") source_sha
          && is_text (get report "architecture") arch)
        "Wrong packaging provenance"
    require (json_eq (get report "zip") (get report "dmg"))
        "Missing or differing archive inventories"
    zip ← lift (get_fields report "zip")
    require (truthy (get zip "binaries")) "Missing or differing archive inventories"
    for_each (check_notarization packaging) ("app" ∷ "dmg" ∷ [])
    artifacts ← lift (get_fields report "artifacts")
    require (same_set (keys artifacts) (package_names arch)) "Unexpected artifact inventory"
    pure artifacts

  unfoldable pub check_package : String → String → Fields → String → Read World Package
  check_package root arch artifacts name = do
    digest ← digest_of H (packages_of root arch <> ("/" <> name))
    stated ← lift (index artifacts name)
    require (is_text stated digest) ("Artifact digest mismatch: " <> name)
    pure (record { architecture = arch; name = name; sha256 = digest })

  -- one round of the loop over the architectures
  unfoldable pub prepare_architecture :
      String
      → String
      → String
      → Option (String × ℕ)
      → String
      → Read World ((String × ℕ) × List Package)
  prepare_architecture root source_sha channel common arch = do
    let evidence = evidence_of root arch
    let packaging = evidence <> "/desktop-macos-packaging"
    identity ← read_json H (packaging <> "/desktop-bundle.json")
    found ← check_identity arch source_sha common identity
    check_compiled H (evidence <> "/desktop-bundle") identity channel
    check_clean H (evidence <> "/desktop-bundle")
    report ← read_json H (packaging <> "/packaging.json")
    artifacts ← check_packaging packaging arch source_sha report
    packages ← collect (check_package root arch artifacts) (package_names arch)
    pure (found, packages)

  -- the loop: the identity of the first architecture is common to all
  unfoldable pub prepare_architectures :
      String
      → String
      → String
      → Option (String × ℕ)
      → List String
      → Read World (Option (String × ℕ) × List Package)
  prepare_architectures root source_sha channel common [] = pure (common, [])
  prepare_architectures root source_sha channel common (arch ∷ rest) = do
    (found, packages) ← prepare_architecture root source_sha channel common arch
    (common', more) ← prepare_architectures root source_sha channel (some found) rest
    pure (common', packages ++ more)

  -- all that `prepare` reads and checks
  unfoldable pub check_release :
      String → String → String → String → String → ℕ → Option ℕ → Read World Release
  check_release root source_sha channel tooling_sha repository run_id current_run_id = do
    require (contains channels channel) "Unknown release channel"
    run ← require_producer H root source_sha tooling_sha repository run_id current_run_id
    (common, packages) ← prepare_architectures root source_sha channel none architectures
    (version, build_number) ← lift (required "no architectures" common)
    producer_sha ← lift (index run "head_sha")
    pure (record {
      version = version;
      build_number = build_number;
      source_sha = source_sha;
      channel = channel;
      tag = release_tag channel version build_number;
      tooling_sha = tooling_sha;
      producer_sha = producer_sha;
      run_id = run_id;
      repository = repository;
      artifacts = packages;
    })
