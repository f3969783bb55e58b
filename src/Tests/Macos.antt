-- ===== src/Tests/Macos.antt =====
-- A macOS release of both architectures on a machine in memory.
use sesori_apps_monorepo.Prelude.{
  ◌≡◌, refl, String, ◌<>◌, Option, none, some, List, [], ◌∷◌, true, false, ◌==◌, string_eq, nat_eq,
  option_eq, ◌↔◌, if◌then◌else◌, contains, is_some,
}
use sesori_apps_monorepo.Prelude.Exec.{ok, err, os_error}
use sesori_apps_monorepo.Json.{
  Json, number, string, null, object, Fields, no_fields, field, array, item, no_items,
}
use sesori_apps_monorepo.Host.{
  Host, read_json, index, json_object, fields_of, truthy, digest_of, size_of,
}
use sesori_apps_monorepo.Tests.Machine.{Files, machine, file_at, read_file}
use sesori_apps_monorepo.Desktop.Producer.{
  require_producer, check_run, is_sha, is_sha_value, is_hex, is_text, is_one_of, is_number, is_none,
  own_finalizer, get_fields, repository_name,
}
use sesori_apps_monorepo.Desktop.Producer.Laws.{require_producer_iff, IsProducer}
use sesori_apps_monorepo.Desktop.Identity
use sesori_apps_monorepo.Desktop.Macos
use sesori_apps_monorepo.Desktop.Macos.{Release, Package, check_release}
use sesori_apps_monorepo.Desktop.Macos.Laws.{check_release-Recorded, Checked}

abbrev sha : String
sha = "aaaaaaaaaabbbbbbbbbbccccccccccdddddddddd"

abbrev run_record : Fields
run_record = field "id" (number false 7 "") (
    field "repository" (object (field "full_name" (string repository_name) no_fields)) (
      field "path" (string ".github/workflows/desktop-qualification.yml") (
        field "event" (string "workflow_dispatch") (
          field "head_branch" (string "main") (
            field "head_sha" (string sha) (
              field "status" (string "completed")
                (field "conclusion" (string "success") no_fields)))))))

abbrev identity_of : String → Fields
identity_of arch = field "os" (string "macos") (
    field "architecture" (string arch) (
      field "sourceSha" (string sha)
        (field "version" (string "1.2.0") (field "buildNumber" (number false 5 "") no_fields))))

abbrev inventory : Fields
inventory = field "binaries" (array (item (string "sesori") no_items)) no_fields

abbrev report_of : String → Fields
report_of arch = field "packagerSourceSha" (string sha) (
    field "architecture" (string arch) (
      field "zip" (object inventory) (
        field "dmg" (object inventory) (
          field "artifacts"
            (object (
              field ("Sesori-macos-" <> (arch <> ".dmg")) (string "D")
                (field ("Sesori-macos-" <> (arch <> ".zip")) (string "Z") no_fields)))
            no_fields))))

abbrev documents : Fields
documents = field "{run}" (object run_record) (
    field "{arm64}" (object (identity_of "arm64")) (
      field "{x64}" (object (identity_of "x64")) (
        field "{report arm64}" (object (report_of "arm64")) (
          field "{report x64}" (object (report_of "x64")) (
            field "{accepted}" (object (field "status" (string "Accepted") no_fields))
              no_fields)))))

abbrev files_of : String → Files → Files
files_of arch rest =
    let evidence = "in/desktop-macos-evidence-" <> arch in
    let packages = "in/desktop-macos-packages-" <> arch in
    (evidence <> "/desktop-macos-packaging/desktop-bundle.json", "{" <> (arch <> "}"))
    ∷ (evidence <> "/desktop-macos-packaging/packaging.json", "{report " <> (arch <> "}"))
    ∷ (evidence <> "/desktop-macos-packaging/app-notarization.json", "{accepted}")
    ∷ (evidence <> "/desktop-macos-packaging/dmg-notarization.json", "{accepted}")
    ∷ (
      evidence <> "/desktop-bundle/dart-defines.env",
      "SESORI_DESKTOP_BUNDLE_IDENTITY={" <> (arch <> "}\nSESORI_DESKTOP_RELEASE_CHANNEL=stable\n"),
    )
    ∷ (evidence <> "/desktop-bundle/build-source-changes.patch", "")
    ∷ (packages <> ("/Sesori-macos-" <> (arch <> ".dmg")), "D")
    ∷ (packages <> ("/Sesori-macos-" <> (arch <> ".zip")), "Z")
    ∷ rest

abbrev files : Files
files = ("in/run.json", "{run}") ∷ files_of "arm64" (files_of "x64" [])

abbrev host : Host
host = machine documents (λ command w. err os_error) (λ url. none)

run_read : read_json host "in/run.json" files ≡ ok run_record
unfolding read_json sesori_apps_monorepo.Prelude.Read.◌>>=◌ read_file string_eq index
    sesori_apps_monorepo.Json.find json_object
run_read = refl

require_producer_iff_example :
    (require_producer host "in" sha sha repository_name 7 none files ≡ ok run_record) ↔ (
      (is_sha sha ≡ true)
      × ((is_sha sha ≡ true)
          × ((repository_name ≡ repository_name)
              × IsProducer run_record sha sha repository_name 7 none)))
require_producer_iff_example =
    require_producer_iff host "in" sha sha repository_name 7 none files run_record run_read

abbrev release : Release
release = record {
  version = "1.2.0";
  build_number = 5;
  source_sha = sha;
  channel = "stable";
  tag = "v1.2.0";
  tooling_sha = sha;
  producer_sha = string sha;
  run_id = 7;
  repository = repository_name;
  artifacts =
      record { architecture = "arm64"; name = "Sesori-macos-arm64.dmg"; sha256 = "D" }
      ∷ record { architecture = "arm64"; name = "Sesori-macos-arm64.zip"; sha256 = "Z" }
      ∷ record { architecture = "x64"; name = "Sesori-macos-x64.dmg"; sha256 = "D" }
      ∷ record { architecture = "x64"; name = "Sesori-macos-x64.zip"; sha256 = "Z" }
      ∷ [];
}

checked : check_release host "in" sha "stable" sha repository_name 7 none files ≡ ok release
unfolding check_release sesori_apps_monorepo.Prelude.Read.◌>>=◌ string_eq require_producer is_sha
    is_hex sesori_apps_monorepo.Prelude.Text.is_digit nat_eq read_json read_file index
    sesori_apps_monorepo.Json.find json_object check_run is_number
    sesori_apps_monorepo.Json.Equality.json_eq sesori_apps_monorepo.Json.get get_fields
    Identity.check_clean Identity.check_compiled Identity.clean_version Identity.define
    Identity.define_line Identity.last_define Identity.positive_int Identity.read_defines
    Identity.required Macos.check_identity Macos.check_notarization Macos.check_package
    Macos.check_packaging Macos.prepare_architecture Macos.prepare_architectures Macos.same_identity
    is_none is_one_of is_sha_value is_text own_finalizer digest_of fields_of size_of truthy
    option_eq sesori_apps_monorepo.Prelude.Read.collect sesori_apps_monorepo.Prelude.Read.for_each
    sesori_apps_monorepo.Prelude.Read.lift sesori_apps_monorepo.Prelude.Read.pure
    sesori_apps_monorepo.Prelude.Read.raise sesori_apps_monorepo.Prelude.Read.require
    sesori_apps_monorepo.Prelude.Read.test sesori_apps_monorepo.Prelude.Text.Lines.split_once
    sesori_apps_monorepo.Prelude.Text.Lines.splitlines
    sesori_apps_monorepo.Prelude.Text.is_clean_version sesori_apps_monorepo.Prelude.Text.literal
    sesori_apps_monorepo.Prelude.Text.number sesori_apps_monorepo.Prelude.Text.plain_number
    sesori_apps_monorepo.Prelude.Text.read sesori_apps_monorepo.Prelude.Text.str file_at
    sesori_apps_monorepo.UpdateFeed.Verification.same_set
checked = refl

check_release-Recorded_example : Checked host "in" files sha "stable" release
check_release-Recorded_example =
    check_release-Recorded host "in" files sha "stable" sha repository_name 7 none release checked
