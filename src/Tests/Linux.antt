-- ===== src/Tests/Linux.antt =====
-- The Linux packages of a release of both architectures on a machine in memory.
use Prim.Native.String.append
use sesori_apps_monorepo.Prelude.Text.{literal}
use sesori_apps_monorepo.Prelude.{nat_eq, ap, inl, inr, Bool-cases, ==→≡, sym}
use sesori_apps_monorepo.Desktop.Linux.Inputs.{LiesApart, Unchanged, package_path}
use sesori_apps_monorepo.Tests.Machine.{read_file, copy_file, write_file, file_at}
use sesori_apps_monorepo.Prelude.{
  ◌≡◌, refl, ◌∙◌, String, ◌<>◌, Option, none, some, List, [], ◌∷◌, ◌++◌, true, false, contains, ltb,
  ◌==◌, string_eq, if◌then◌else◌,
}
use sesori_apps_monorepo.Prelude.Lists.{All}
use sesori_apps_monorepo.Prelude.Text.{is_clean_version}
use sesori_apps_monorepo.Prelude.Exec.{Result, ok, err, os_error}
use sesori_apps_monorepo.Json.{
  Json, number, string, boolean, object, array, Fields, no_fields, field, items_from, fields_from,
  count_of,
}
use sesori_apps_monorepo.Host.{Host}
use sesori_apps_monorepo.Tests.Machine.{Files, machine}
use sesori_apps_monorepo.LinuxRepository.Versions.{internal}
use sesori_apps_monorepo.LinuxRepository.Publication.{channel_value}
use sesori_apps_monorepo.Desktop.Producer.{repository_name, require_producer}
use sesori_apps_monorepo.Desktop.Identity.{release_tag}
use sesori_apps_monorepo.Desktop.Linux.{LinuxMetadata, Artifact, Companion, prepare}
use sesori_apps_monorepo.Desktop.Linux.Evidence.{trusted_fingerprint}
use sesori_apps_monorepo.Desktop.Linux.Laws.{prepare-Recorded, Recorded}

abbrev sha : String
sha = "aaaaaaaaaabbbbbbbbbbccccccccccdddddddddd"

abbrev run_record : Fields
run_record = fields_from (
    ("id", count_of 7)
    ∷ ("repository", object (field "full_name" (string repository_name) no_fields))
    ∷ ("path", string ".github/workflows/desktop-qualification.yml")
    ∷ ("event", string "workflow_dispatch")
    ∷ ("head_branch", string "main")
    ∷ ("head_sha", string sha)
    ∷ ("status", string "completed")
    ∷ ("conclusion", string "success")
    ∷ [])

abbrev identity_of : String → Json
identity_of arch = object (
    fields_from (
      ("os", string "linux")
      ∷ ("architecture", string arch)
      ∷ ("sourceSha", string sha)
      ∷ ("version", string "1.2.0")
      ∷ ("buildNumber", count_of 5)
      ∷ []))

abbrev name_of : String → String → String
name_of arch extension = "Sesori-linux-" <> (arch <> ("-1.2.0-5." <> extension))

-- the text of a package is its extension, which is its digest
abbrev row_of : String → String → Json
row_of arch extension = object (
    fields_from (
      ("name", string (name_of arch extension))
      ∷ ("sha256", string "DIG")
      ∷ ("bytes", count_of 3)
      ∷ ("unsignedSha256", string "DIG")
      ∷ []))

abbrev signing_of : String → Json
signing_of arch = object (
    fields_from (
      ("identity", identity_of arch)
      ∷ ("signerFingerprint", string trusted_fingerprint)
      ∷ ("checksumFile", string "desktop-linux-checksums.txt")
      ∷ ("publicKeyFile", string "sesori-linux-public.asc")
      ∷ (
        "artifacts",
        array (items_from (row_of arch "deb" ∷ row_of arch "rpm" ∷ row_of arch "AppImage" ∷ [])),
      )
      ∷ []))

abbrev unsigned_of : String → String → Json
unsigned_of arch extension = object (
    fields_from (
      ("bundle", object (field "identity" (identity_of arch) no_fields))
      ∷ (
        "package",
        object (
            fields_from
              (("name", string (name_of arch extension)) ∷ ("sha256", string "DIG") ∷ [])),
      )
      ∷ ("packagerSourceSha", string sha)
      ∷ []))

abbrev fixture_of : String → String → Json
fixture_of arch machine' = object (
    fields_from (
      ("installedIdentity", identity_of arch)
      ∷ ("architecture", string arch)
      ∷ ("containerMachine", string machine')
      ∷ ("installedPayloadVerified", boolean true)
      ∷ ("signedChecksumsVerified", boolean true)
      ∷ ("boundedSystemOwnershipVerified", boolean true)
      ∷ ("sameVersionReinstallVerified", boolean true)
      ∷ ("removeOwnedPathsVerified", boolean true)
      ∷ ("sharedDataPreserved", boolean true)
      ∷ ("repositoryKeyMatchesSigner", boolean true)
      ∷ []))

abbrev documents_of : String → String → List (String × Json)
documents_of arch machine' =
    ("id " <> arch, identity_of arch)
    ∷ ("sign " <> arch, signing_of arch)
    ∷ ("deb " <> arch, unsigned_of arch "deb")
    ∷ ("rpm " <> arch, unsigned_of arch "rpm")
    ∷ ("app " <> arch, unsigned_of arch "AppImage")
    ∷ ("fixture " <> arch, fixture_of arch machine')
    ∷ []

abbrev files_of : String → Files
files_of arch =
    let evidence = "in/desktop-linux-evidence-" <> arch in
    let packaging = evidence <> "/desktop-linux-packaging" in
    let packages = "in/desktop-linux-packages-" <> arch in
    (packaging <> "/signed/signing.json", "sign " <> arch)
    ∷ (evidence <> "/desktop-bundle/bundle/bridge/desktop-bundle.json", "id " <> arch)
    ∷ (
      evidence <> "/desktop-bundle/dart-defines.env",
      "SESORI_DESKTOP_BUNDLE_IDENTITY=id "
          <> (arch <> "\nSESORI_DESKTOP_RELEASE_CHANNEL=internal\n"),
    )
    ∷ (evidence <> "/desktop-bundle/build-source-changes.patch", "")
    ∷ (packaging <> "/deb/packaging.json", "deb " <> arch)
    ∷ (packaging <> "/rpm/packaging.json", "rpm " <> arch)
    ∷ (packaging <> "/appimage/packaging.json", "app " <> arch)
    ∷ (packaging <> "/ubuntu-24.04-fixture.json", "fixture " <> arch)
    ∷ (packaging <> "/debian-13-fixture.json", "fixture " <> arch)
    ∷ (packaging <> "/fedora-44-fixture.json", "fixture " <> arch)
    ∷ (packages <> ("/" <> name_of arch "deb"), "DIG")
    ∷ (packages <> ("/" <> name_of arch "rpm"), "DIG")
    ∷ (packages <> ("/" <> name_of arch "AppImage"), "DIG")
    ∷ (
      packages <> "/desktop-linux-checksums.txt",
      "DIG  "
          <> (name_of arch "deb"
              <> ("\nDIG  "
                  <> (name_of arch "rpm" <> ("\nDIG  " <> (name_of arch "AppImage" <> "\n"))))),
    )
    ∷ (packages <> "/desktop-linux-checksums.txt.asc", "signature")
    ∷ (packages <> "/sesori-linux-public.asc", "key")
    ∷ []

abbrev files : Files
files = ("in/run.json", "{run}") ∷ (files_of "arm64" ++ files_of "x64")

abbrev host : Host
host =
    machine
      (fields_from (
        ("{run}", object run_record)
        ∷ (documents_of "arm64" "aarch64" ++ documents_of "x64" "x86_64")))
      (λ command w. ok ("[GNUPG:] VALIDSIG 0A1B 2026-01-01 " <> trusted_fingerprint)) (λ url. none)

abbrev artifact : String → String → String → Artifact
artifact arch kind extension = record {
  name = name_of arch extension;
  architecture = arch;
  format = kind;
  sha256 = string "DIG";
  bytes = count_of 3;
}

abbrev sums_of : String → String
sums_of arch =
    "DIG  "
    <> (name_of arch "deb"
        <> ("\nDIG  " <> (name_of arch "rpm" <> ("\nDIG  " <> (name_of arch "AppImage" <> "\n")))))

-- the text of a companion is its digest
abbrev metadata : LinuxMetadata
metadata = record {
  channel = "internal";
  version = "1.2.0";
  build_number = 5;
  source_sha = sha;
  tag = "v1.2.0-internal.5";
  repository = repository_name;
  run_id = 7;
  producer_sha = string sha;
  tooling_sha = sha;
  artifacts =
      artifact "arm64" "deb" "deb"
      ∷ artifact "arm64" "rpm" "rpm"
      ∷ artifact "arm64" "appimage" "AppImage"
      ∷ artifact "x64" "deb" "deb"
      ∷ artifact "x64" "rpm" "rpm"
      ∷ artifact "x64" "appimage" "AppImage"
      ∷ [];
  verification_files =
      record { name = "desktop-linux-arm64-checksums.txt"; sha256 = sums_of "arm64"; bytes = 113 }
      ∷ record { name = "desktop-linux-arm64-checksums.txt.asc"; sha256 = "signature"; bytes = 9 }
      ∷ record { name = "desktop-linux-x64-checksums.txt"; sha256 = sums_of "x64"; bytes = 107 }
      ∷ record { name = "desktop-linux-x64-checksums.txt.asc"; sha256 = "signature"; bytes = 9 }
      ∷ record { name = "desktop-linux-public.asc"; sha256 = "key"; bytes = 3 }
      ∷ [];
}

prepared :
    (prepare host "in" "out" sha sha internal repository_name 7 none "1.2.0" 5 files).0
    ≡ ok metadata
unfolding prepare sesori_apps_monorepo.Prelude.Exec.◌>>=◌ sesori_apps_monorepo.Prelude.Read.ask
    require_producer sesori_apps_monorepo.Prelude.Read.◌>>=◌
    sesori_apps_monorepo.Desktop.Producer.is_sha sesori_apps_monorepo.Desktop.Producer.is_hex
    sesori_apps_monorepo.Prelude.Text.is_digit sesori_apps_monorepo.Prelude.nat_eq string_eq
    sesori_apps_monorepo.Host.read_json sesori_apps_monorepo.Tests.Machine.read_file
    sesori_apps_monorepo.Host.index sesori_apps_monorepo.Json.find
    sesori_apps_monorepo.Host.json_object sesori_apps_monorepo.Desktop.Producer.check_run
    sesori_apps_monorepo.Desktop.Producer.is_number sesori_apps_monorepo.Json.Equality.json_eq
    sesori_apps_monorepo.Json.get sesori_apps_monorepo.Desktop.Producer.get_fields
    sesori_apps_monorepo.Host.fields_of sesori_apps_monorepo.Desktop.Producer.is_text
    sesori_apps_monorepo.Desktop.Producer.is_one_of
    sesori_apps_monorepo.Desktop.Producer.is_sha_value is_clean_version
    sesori_apps_monorepo.Prelude.Text.plain_number sesori_apps_monorepo.Prelude.Text.literal
    sesori_apps_monorepo.Prelude.Text.number
    sesori_apps_monorepo.Desktop.Linux.prepare_architectures
    sesori_apps_monorepo.Desktop.Linux.prepare_architecture
    sesori_apps_monorepo.Desktop.Linux.Evidence.check_sealed
    sesori_apps_monorepo.Desktop.Identity.read_defines sesori_apps_monorepo.Prelude.Read.collect
    sesori_apps_monorepo.Desktop.Identity.check_clean sesori_apps_monorepo.Desktop.Identity.define
    sesori_apps_monorepo.Desktop.Identity.define_line
    sesori_apps_monorepo.Desktop.Identity.last_define sesori_apps_monorepo.Desktop.Identity.required
    sesori_apps_monorepo.Desktop.Linux.Evidence.check_fixture
    sesori_apps_monorepo.Desktop.Linux.Evidence.check_signer
    sesori_apps_monorepo.Desktop.Linux.Evidence.check_unchanged
    sesori_apps_monorepo.Desktop.Linux.Evidence.check_unsigned
    sesori_apps_monorepo.Desktop.Linux.Evidence.checksum_entry
    sesori_apps_monorepo.Desktop.Linux.Evidence.checksums_of
    sesori_apps_monorepo.Desktop.Linux.Evidence.is_cpu
    sesori_apps_monorepo.Desktop.Linux.Evidence.is_true
    sesori_apps_monorepo.Desktop.Linux.Evidence.name_in
    sesori_apps_monorepo.Desktop.Linux.Evidence.rows_of
    sesori_apps_monorepo.Desktop.Linux.Evidence.value_at
    sesori_apps_monorepo.Desktop.Linux.artifact_json
    sesori_apps_monorepo.Desktop.Linux.checked_status
    sesori_apps_monorepo.Desktop.Linux.companion_json
    sesori_apps_monorepo.Desktop.Linux.copy_companion sesori_apps_monorepo.Desktop.Linux.copy_key
    sesori_apps_monorepo.Desktop.Linux.format_at sesori_apps_monorepo.Desktop.Linux.is_signed_by
    sesori_apps_monorepo.Desktop.Linux.last_of sesori_apps_monorepo.Desktop.Linux.metadata_json
    sesori_apps_monorepo.Desktop.Linux.prepare_package
    sesori_apps_monorepo.Desktop.Linux.signatures_in sesori_apps_monorepo.Desktop.Linux.unverified
    sesori_apps_monorepo.Desktop.Linux.verify_checksums
    sesori_apps_monorepo.Desktop.Producer.is_none
    sesori_apps_monorepo.Desktop.Producer.own_finalizer sesori_apps_monorepo.Host.digest_of
    sesori_apps_monorepo.Host.in_temporary sesori_apps_monorepo.Host.items_of
    sesori_apps_monorepo.Host.size_of sesori_apps_monorepo.Host.subscript
    sesori_apps_monorepo.Host.subscripts sesori_apps_monorepo.Host.text_of
    sesori_apps_monorepo.Prelude.option_eq sesori_apps_monorepo.Prelude.Exec.collect
    sesori_apps_monorepo.Prelude.Exec.finally sesori_apps_monorepo.Prelude.Exec.for_each
    sesori_apps_monorepo.Prelude.Exec.lift sesori_apps_monorepo.Prelude.Exec.pure
    sesori_apps_monorepo.Prelude.Exec.raise sesori_apps_monorepo.Prelude.Exec.raising
    sesori_apps_monorepo.Prelude.Exec.require sesori_apps_monorepo.Prelude.Read.for_each
    sesori_apps_monorepo.Prelude.Read.lift sesori_apps_monorepo.Prelude.Read.pure
    sesori_apps_monorepo.Prelude.Read.raise sesori_apps_monorepo.Prelude.Read.require
    sesori_apps_monorepo.Prelude.Read.test sesori_apps_monorepo.Prelude.Text.Lines.is_blank
    sesori_apps_monorepo.Prelude.Text.Lines.split_once
    sesori_apps_monorepo.Prelude.Text.Lines.splitlines sesori_apps_monorepo.Prelude.Text.Lines.words
    sesori_apps_monorepo.Prelude.Text.Lines.words_from sesori_apps_monorepo.Prelude.Text.read
    sesori_apps_monorepo.Prelude.Text.str sesori_apps_monorepo.Tests.Machine.file_at
    sesori_apps_monorepo.UpdateFeed.Verification.same_set
    sesori_apps_monorepo.Tests.Machine.copy_file
prepared = refl

-- A path below `out` is none below `in`.
begins_with_o : (s : String) → literal "o" ("out" <> s) ≡ some ("ut" <> s)
unfolding literal nat_eq
begins_with_o s = rw append.cons refl

begins_with_i : (arch name : String) → literal "o" (package_path "in" arch name) ≡ none
unfolding literal nat_eq
begins_with_i arch name = rw (append.cons, append.cons) refl

lies_apart : (s arch name : String) → (package_path "in" arch name == ("out" <> s)) ≡ false
lies_apart s arch name = elim (Bool-cases (package_path "in" arch name == ("out" <> s))) [
  | inl e ↦
      let same = ap (literal "o") (==→≡ (package_path "in" arch name) ("out" <> s) e) in
      let begins = sym (begins_with_i arch name) ∙ same ∙ begins_with_o s in cc
  | inr e ↦ e
]

read_file-write :
    (path target text : String) (w : Files)
    → (path == target) ≡ false
    → read_file path ((target, text) ∷ w) ≡ read_file path w
unfolding read_file file_at
read_file-write path target text w e =
    ap
      (λ b. elim (if b then some text else file_at path w) as (λ _. Result String) [
        | some text ↦ ok text
        | none ↦ err os_error
      ])
      e

copied-Unchanged :
    (source s : String) (w : Files) → Unchanged host "in" w (host.copyfile source ("out" <> s) w).1
unfolding copy_file write_file
copied-Unchanged source s w arch name = by (read_file source w)
  where
    by :
        (r : Result String)
        → read_file
            (package_path "in" arch name)
            (elim r as (λ _. Result (Unit {0}) × Files) [
              | ok text ↦ write_file ("out" <> s) text w
              | err e ↦ (err e, w)
            ]).1
          ≡ read_file (package_path "in" arch name) w
    by (ok text) = read_file-write _ _ text w (lies_apart s arch name)
    by (err e) = refl

host-LiesApart : LiesApart host "in" "out" "1.2.0" 5
host-LiesApart = record {
  mkdir = λ w arch name. refl;
  copyfile = λ source name w _. copied-Unchanged source ("/" <> name) w;
  mkdtemp = λ w arch name. refl;
  rmtree = λ directory u w _ arch name. refl;
  dearmor = λ home source w arch name. refl;
  gpgv = λ home keyring signature source w arch name. refl;
}

prepare-Recorded_example :
    (producer : Fields) × (require_producer host "in" sha sha repository_name 7 none files
      ≡ ok producer)
    × (metadata.tag ≡ release_tag (channel_value internal) "1.2.0" 5)
    × All (Recorded host "in" "out" "1.2.0" 5 host-LiesApart files) metadata.artifacts
prepare-Recorded_example =
    prepare-Recorded host "in" "out" "1.2.0" 5 host-LiesApart files sha sha internal repository_name
      7 none metadata prepared
