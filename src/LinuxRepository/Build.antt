-- ===== src/LinuxRepository/Build.antt =====
-- build_linux_repository.py: the prepared packages checked once more (verify_release), the indexes of
-- APT and RPM, and the signatures.
pub mod Indexes
use mathlib.Core.List
use sesori_apps_monorepo.Prelude.{
  ℕ, Bool, true, false, ◌&&◌, ◌||◌, not, String, ◌<>◌, Option, none, some, List, [], ◌∷◌, ◌++◌,
  contains, starts_with, ◌==◌, string_eq, nat_eq, option_eq, if◌then◌else◌,
}
use sesori_apps_monorepo.Prelude.Lists.{length, select}
use sesori_apps_monorepo.Prelude.Text.{ends_with, str}
use sesori_apps_monorepo.Prelude.Text.Lines.{splitlines}
use sesori_apps_monorepo.Prelude.Exec.{
  Result, ok, err, Exec, pure, lift, require, ◌>>=◌, ◌>>◌, collect, for_each,
}
use sesori_apps_monorepo.Prelude.Read.{ask}
use sesori_apps_monorepo.UpdateFeed.Verification.{same_set}
use sesori_apps_monorepo.LinuxRepository.Versions.{Channel}
use sesori_apps_monorepo.LinuxRepository.Publication.{channel_value}
use sesori_apps_monorepo.Json.{Json, Fields, get}
use sesori_apps_monorepo.Json.Equality.{json_eq}
use sesori_apps_monorepo.Host.{
  Host, subscript, text_of, items_of, fields_of, digest_of, size_of, in_temporary,
}
use sesori_apps_monorepo.Desktop.Producer.{is_text, is_number}
use sesori_apps_monorepo.Desktop.Identity.{clean_version, positive_int, required, last_define}
use sesori_apps_monorepo.Desktop.Linux.Evidence.{checksum_entry}
use sesori_apps_monorepo.Desktop.Linux.{manifest_name, public_desktop_key, verify_checksums}
use sesori_apps_monorepo.Signing.Keys.{public_key_name}
use sesori_apps_monorepo.Signing.Packages.{checksums_name}

-- `ARCHITECTURES`: an architecture with its names for Debian and for RPM
abbrev pub repository_architectures : List (String × String × String)
repository_architectures = ("x64", "amd64", "x86_64") ∷ ("arm64", "arm64", "aarch64") ∷ []

abbrev pub package_file : String → String → ℕ → String → String
package_file arch version number kind =
    "Sesori-linux-" <> (arch <> ("-" <> (version <> ("-" <> (str number <> ("." <> kind))))))

-- both packages of an architecture
abbrev pub files_for : String → ℕ → String × String × String → List String
files_for version number (arch, debian_arch, rpm_arch) =
    package_file arch version number "deb" ∷ package_file arch version number "rpm" ∷ []

abbrev pub expected_files : List (String × String × String) → String → ℕ → List String
expected_files [] version number = []
expected_files (arch ∷ rest) version number =
    files_for version number arch ++ expected_files rest version number

-- `row["format"] in ("deb", "rpm")`
unfoldable pub is_served : Json → Result Bool
is_served row = elim (subscript row "format") [
  | ok format ↦ ok (is_text format "deb" || is_text format "rpm")
  | err e ↦ err e
]

unfoldable pub last_row : {A : Type 0} → String → List (String × A) → Option A
last_row name [] = none
last_row name ((n, value) ∷ rest) = elim (last_row name rest) [
  | some found ↦ some found
  | none ↦ if n == name then some value else none
]

-- Two tables of digests, the last entry of a name counting: each name of one has the same digest in
-- the other; here the first direction.
unfoldable pub covers : List (String × Json) → List (String × String) → Bool
covers wanted [] = true
covers wanted ((name, digest) ∷ rest) =
    (elim (last_row name wanted) [ some value ↦ is_text value digest | none ↦ false ])
    && covers wanted rest

-- the entries that count
unfoldable pub last_entries : List (String × String) → List (String × String)
last_entries [] = []
last_entries ((name, digest) ∷ rest) =
    let more = last_entries rest in
    if contains (List.map (λ entry. entry.0) rest) name then more else (name, digest) ∷ more

-- `checksums == wanted`: entries of a name agree with the last one of the name, on both sides
unfoldable pub same_checksums : List (String × Json) → List (String × String) → Bool
unfolding covers
same_checksums wanted checksums =
    covers wanted (last_entries checksums)
    && same_set (List.map (λ w. w.0) wanted) (List.map (λ c. c.0) checksums)

-- The release that was checked: the version and the build number, and the commit
pub record Verified : Type 0 where
  pub version : String
  pub number : ℕ
  pub source_sha : Json

module _ (H : Host) where
  open H use {World, read_text, loads, copyfile}

  unfoldable pub served_rows : List Json → Exec World (List Json)
  served_rows [] = pure []
  served_rows (row ∷ rows) = do
    served ← lift (is_served row)
    more ← served_rows rows
    pure (if served then row ∷ more else more)

  unfoldable pub name_of_row : Json → Exec World String
  name_of_row row = do name ← lift (subscript row "name"); lift (text_of name)

  -- a prepared package is what its row says
  unfoldable pub check_row : String → Json → Exec World (Unit {0})
  check_row root row = do
    name ← name_of_row row
    size ← ask (size_of H (root <> ("/" <> name)))
    bytes ← lift (subscript row "bytes")
    require (is_number bytes size) ("Prepared package digest mismatch: " <> name)
    digest ← ask (digest_of H (root <> ("/" <> name)))
    stated ← lift (subscript row "sha256")
    require (is_text stated digest) ("Prepared package digest mismatch: " <> name)

  -- the wanted digests of an architecture
  unfoldable pub wanted_rows : String → List Json → Exec World (List (String × Json))
  wanted_rows arch [] = pure []
  wanted_rows arch (row ∷ rows) = do
    name ← name_of_row row
    digest ← lift (subscript row "sha256")
    more ← wanted_rows arch rows
    pure (
        if starts_with name ("Sesori-linux-" <> (arch <> "-")) then (name, digest) ∷ more else more)

  -- the signed checksums of an architecture are those of the prepared packages
  unfoldable pub check_checksums :
      String → String → String → List Json → String × String × String → Exec World (Unit {0})
  check_checksums root packages fingerprint rows (arch, debian_arch, rpm_arch) = do
    for_each
        (λ suffix.
          copyfile (root <> ("/desktop-linux-" <> (arch <> ("-checksums.txt" <> suffix))))
            (packages <> ("/" <> (checksums_name <> suffix))))
        ("" ∷ ".asc" ∷ [])
    verify_checksums H packages fingerprint
    text ← ask (read_text (packages <> ("/" <> checksums_name)))
    entries ← collect (λ line. lift (checksum_entry line)) (splitlines text)
    let checksums = select (λ entry. not (ends_with entry.0 ".AppImage")) entries
    wanted ← wanted_rows arch rows
    require (same_checksums wanted checksums)
        ("Signed checksums differ from prepared packages: " <> arch)

  unfoldable pub verify_release : String → Channel → String → Exec World Verified
  verify_release root channel fingerprint = do
    text ← ask (read_text (root <> ("/" <> manifest_name)))
    metadata ← lift (loads text)
    schema ← lift (subscript metadata "schemaVersion")
    require (is_number schema 1) "Expected Linux release metadata"
    platform ← lift (subscript metadata "platform")
    require (is_text platform "linux") "Expected Linux release metadata"
    of_channel ← lift (subscript metadata "channel")
    require (is_text of_channel (channel_value channel))
        "Repository channel differs from prepared release"
    signer ← lift (subscript metadata "signerFingerprint")
    require (is_text signer fingerprint) "Release signer differs from repository trust anchor"
    stated ← lift (subscript metadata "version")
    build ← lift (subscript metadata "buildNumber")
    version ← lift (required "Expected clean release version" (clean_version stated))
    number ← lift (required "Expected positive shared build number" (positive_int build))
    field ← lift (subscript metadata "artifacts")
    artifacts ← lift (items_of field)
    rows ← served_rows artifacts
    require (length rows == 4) "Expected both CPUs and package formats"
    names ← collect name_of_row rows
    require (same_set names (expected_files repository_architectures version number))
        "Expected both CPUs and package formats"
    for_each (check_row root) rows
    in_temporary H "sesori-repository-input-" λ packages. do
      copyfile (root <> ("/" <> public_desktop_key)) (packages <> ("/" <> public_key_name))
      for_each (check_checksums root packages fingerprint rows) repository_architectures
    source ← lift (subscript metadata "sourceSha")
    pure (record { version = version; number = number; source_sha = source })
