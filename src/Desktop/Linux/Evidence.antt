-- ===== src/Desktop/Linux/Evidence.antt =====
-- What `prepare` of publish_desktop_linux.py checks of one architecture before it copies anything:
-- the sealed identity, the report of the signing and the two inventories.
use mathlib.Core.List
use sesori_apps_monorepo.Prelude.{
  ℕ, Bool, false, String, ◌<>◌, Option, none, some, List, [], ◌∷◌, ◌==◌, string_eq, nat_eq,
  if◌then◌else◌,
}
use sesori_apps_monorepo.Prelude.Lists.{length}
use sesori_apps_monorepo.Prelude.Text.{str}
use sesori_apps_monorepo.Prelude.Text.Lines.{splitlines, words}
use sesori_apps_monorepo.Prelude.Exec.{Result, ok, err, value_error}
use sesori_apps_monorepo.Prelude.Read.{Read, pure, lift, require, ◌>>=◌, ◌>>◌, collect, for_each}
use sesori_apps_monorepo.Json.{Json, boolean, string, object, Fields, get}
use sesori_apps_monorepo.Json.Equality.{json_eq}
use sesori_apps_monorepo.Host.{Host, index, subscript, subscripts, text_of, items_of, read_json}
use sesori_apps_monorepo.UpdateFeed.Verification.{same_set}
use sesori_apps_monorepo.Desktop.Producer.{is_text, is_number}
use sesori_apps_monorepo.Desktop.Identity.{define, read_defines, check_clean}
use sesori_apps_monorepo.Signing.Keys.{public_key_name}
use sesori_apps_monorepo.Signing.Packages.{checksums_name, package_extensions}

abbrev pub trusted_fingerprint : String
trusted_fingerprint = "E6BF6EF7B203685F480D4A2E73B86E42F31FDAE7"

abbrev pub fixtures : List String
fixtures = "ubuntu-24.04" ∷ "debian-13" ∷ "fedora-44" ∷ []

abbrev pub fixture_checks : List String
fixture_checks =
    "installedPayloadVerified" ∷ "signedChecksumsVerified" ∷ "boundedSystemOwnershipVerified"
    ∷ "sameVersionReinstallVerified" ∷ "removeOwnedPathsVerified" ∷ "sharedDataPreserved"
    ∷ "repositoryKeyMatchesSigner" ∷ []

-- `CPU_NAMES` of qualify_desktop.py
abbrev pub cpu_names : List (String × String)
cpu_names =
    ("AMD64", "x64")
    ∷ ("x86_64", "x64")
    ∷ ("arm64", "arm64")
    ∷ ("ARM64", "arm64")
    ∷ ("aarch64", "arm64")
    ∷ []

unfoldable pub value_at : List (String × String) → String → Option String
value_at [] key = none
value_at ((k, v) ∷ rest) key = if k == key then some v else value_at rest key

-- `CPU_NAMES.get(value) == arch`
unfoldable pub is_cpu : Json → String → Bool
unfolding value_at
is_cpu (string machine) arch = elim (value_at cpu_names machine) [
  | some a ↦ a == arch
  | none ↦ false
]
is_cpu _ arch = false

-- `formats`: the file of each format, with the format
abbrev pub format_of : String → String → ℕ → String × String → String × String
format_of arch version build (kind, extension) = (
  "Sesori-linux-" <> (arch <> ("-" <> (version <> ("-" <> (str build <> ("." <> extension)))))),
  kind,
)

abbrev pub formats : String → String → ℕ → List (String × String)
formats arch version build = List.map (format_of arch version build) package_extensions

-- `digest, name = line.split()`, as the entry of the name
unfoldable pub checksum_entry : String → Result (String × String)
checksum_entry line = elim (words line) [
  | digest ∷ name ∷ [] ↦ ok (name, digest)
  | _ ↦ err (value_error "not enough values to unpack")
]

-- `value is True`
unfoldable pub is_true : Json → Bool
is_true (boolean b) = b
is_true _ = false

module _ (H : Host) where
  open H use {World, read_text, loads}

  -- the identity of the bundle is that of the release, and the bundle was compiled for the channel
  unfoldable pub check_sealed :
      String → String → String → String → ℕ → String → Fields → Fields → Read World (Unit {0})
  check_sealed bundle arch source_sha version build channel signed identity = do
    os ← lift (index identity "os")
    require (is_text os "linux") "Wrong Linux target"
    target ← lift (index identity "architecture")
    require (is_text target arch) "Wrong Linux target"
    source ← lift (index identity "sourceSha")
    require (is_text source source_sha) "Package differs from shared release identity"
    stated ← lift (index identity "version")
    require (is_text stated version) "Package differs from shared release identity"
    build_number ← lift (index identity "buildNumber")
    require (is_number build_number build) "Package differs from shared release identity"
    of_signing ← lift (index signed "identity")
    require (json_eq of_signing (object identity)) "Signing identity differs from sealed bundle"
    defines ← read_defines H (bundle <> "/dart-defines.env")
    text ← lift (define defines "SESORI_DESKTOP_BUNDLE_IDENTITY")
    compiled ← lift (loads text)
    require (json_eq compiled (object identity)) "Compiled identity differs"
    built ← lift (define defines "SESORI_DESKTOP_RELEASE_CHANNEL")
    require (built == channel) "Cannot relabel compiled channel"
    check_clean H bundle

  -- the report names the trusted signer and the companion files
  unfoldable pub check_signer : String → Fields → Read World (Unit {0})
  check_signer arch signed = do
    signer ← lift (index signed "signerFingerprint")
    require (is_text signer trusted_fingerprint)
        (arch <> ": signer differs from trusted primary fingerprint")
    checksums ← lift (index signed "checksumFile")
    require (is_text checksums checksums_name) "Unexpected signing companion files"
    key ← lift (index signed "publicKeyFile")
    require (is_text key public_key_name) "Unexpected signing companion files"

  unfoldable pub name_in : Json → Read World String
  name_in row = do name ← lift (subscript row "name"); lift (text_of name)

  -- the rows of the report, one for each format
  unfoldable pub rows_of : List (String × String) → Fields → Read World (List Json)
  rows_of formats signed = do
    field ← lift (index signed "artifacts")
    rows ← lift (items_of field)
    require (length rows == length formats) "Expected every qualified DEB/RPM/AppImage file"
    names ← collect name_in rows
    require (same_set names (List.map (λ f. f.0) formats))
        "Expected every qualified DEB/RPM/AppImage file"
    pure rows

  -- the signed checksum file, an entry for each format
  unfoldable pub checksums_of :
      String → List (String × String) → Read World (List (String × String))
  checksums_of packages formats = do
    text ← read_text (packages <> ("/" <> checksums_name))
    checksums ← collect (λ line. lift (checksum_entry line)) (splitlines text)
    require (same_set (List.map (λ c. c.0) checksums) (List.map (λ f. f.0) formats))
        "Unexpected signed checksum inventory"
    pure checksums

  -- the packaging report of the unsigned package agrees with the row of the signed one
  unfoldable pub check_unsigned :
      String → String → String → Fields → String → Json → Read World (Unit {0})
  check_unsigned packaging kind source_sha identity name row = do
    unsigned ← read_json H (packaging <> ("/" <> (kind <> "/packaging.json")))
    sealed ← lift (subscripts (object unsigned) ("bundle" ∷ "identity" ∷ []))
    require (json_eq sealed (object identity)) "Unsigned qualification identity differs"
    stated ← lift (subscripts (object unsigned) ("package" ∷ "name" ∷ []))
    require (is_text stated name) "Unsigned qualification identity differs"
    source ← lift (index unsigned "packagerSourceSha")
    require (is_text source source_sha) "Unsigned qualification identity differs"
    before ← lift (subscripts (object unsigned) ("package" ∷ "sha256" ∷ []))
    recorded ← lift (subscript row "unsignedSha256")
    require (json_eq before recorded) "Unsigned package evidence differs"

  -- signing changes the bytes of an RPM alone
  unfoldable pub check_unchanged : String → Json → Read World (Unit {0})
  check_unchanged kind row = if kind == "rpm" then pure tt else (do
    before ← lift (subscript row "unsignedSha256")
    after ← lift (subscript row "sha256")
    require (json_eq before after) ("Signing changed " <> (kind <> " bytes")))

  -- the installation that a distribution qualified
  unfoldable pub check_fixture : String → String → Fields → String → Read World (Unit {0})
  check_fixture packaging arch identity fixture = do
    record' ← read_json H (packaging <> ("/" <> (fixture <> "-fixture.json")))
    installed ← lift (index record' "installedIdentity")
    require (json_eq installed (object identity)) ("Wrong native fixture identity: " <> fixture)
    target ← lift (index record' "architecture")
    require (is_text target arch) ("Wrong native fixture identity: " <> fixture)
    machine ← lift (index record' "containerMachine")
    require (is_cpu machine arch) ("Wrong native fixture identity: " <> fixture)
    for_each (λ check. require (is_true (get record' check)) ("Incomplete fixture: " <> fixture))
        fixture_checks
