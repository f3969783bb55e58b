-- ===== src/Tests/BridgeSignatures.antt =====
-- A delivery of the Bridge signatures whose release is complete.
use sesori_apps_monorepo.Prelude.{
  ◌≡◌, refl, String, ◌<>◌, Option, none, some, List, [], ◌∷◌, contains, true, false, ◌==◌,
  string_eq, if◌then◌else◌,
}
use sesori_apps_monorepo.Prelude.Lists.{All}
use sesori_apps_monorepo.Prelude.Exec.{Result, ok, Exec}
use sesori_apps_monorepo.Json.{
  Json, boolean, string, array, object, Fields, no_fields, field, items_from, fields_from,
}
use sesori_apps_monorepo.Host.{Host}
use sesori_apps_monorepo.UpdateFeed.Verification.{file_of}
use sesori_apps_monorepo.BridgeSignatures.{
  publish, verify_archive_bytes, public_release, signing_assets,
}
use sesori_apps_monorepo.BridgeSignatures.Laws.{
  IsGithub, IsPublic, ArchivesUnchanged, IsDelivered, publish-IsDelivered,
}
use sesori_apps_monorepo.Prelude.{ap}
use sesori_apps_monorepo.ReleaseAssets.{asset_url}
use sesori_apps_monorepo.Prelude.Exec.Inversion.{ok-injective}
use sesori_apps_monorepo.Tests.Machine.{Files, machine}

abbrev repository : String
repository = "sesori-ai/sesori_apps_monorepo"

-- every file contains its own name
abbrev files : Files
files =
    ("out/sesori-linux-public.asc", "sesori-linux-public.asc")
    ∷ ("out/sesori-bridge-linux-x64.tar.gz.asc", "sesori-bridge-linux-x64.tar.gz.asc")
    ∷ ("out/sesori-bridge-linux-arm64.tar.gz.asc", "sesori-bridge-linux-arm64.tar.gz.asc")
    ∷ ("out/signing.json", "{report}")
    ∷ []

abbrev row_of : String → Json
row_of name = object (fields_from (("name", string name) ∷ ("sha256", string name) ∷ []))

abbrev report : Json
report = object (
    fields_from (
      (
        "artifacts",
        array (
            items_from (
              row_of "sesori-bridge-linux-arm64.tar.gz"
              ∷ row_of "sesori-bridge-linux-x64.tar.gz"
              ∷ [])),
      )
      ∷ ("publicKeyFile", string "sesori-linux-public.asc")
      ∷ []))

abbrev release : Json
release = object (
    fields_from (
      ("draft", boolean false)
      ∷ ("tag_name", string "v1.2.0")
      ∷ ("assets", array (items_from (row_of "sesori-linux-public.asc" ∷ [])))
      ∷ []))

abbrev host : Host
host =
    machine (fields_from (("{report}", report) ∷ ("{release}", release) ∷ []))
      (λ arguments w. ok "{release}") (λ url. some (file_of url))

delivered : (publish host repository "v1.2.0" "out" files).0 ≡ ok tt
unfolding publish sesori_apps_monorepo.Prelude.Exec.◌>>=◌ public_release
    sesori_apps_monorepo.BridgeSignatures.is_release_tag sesori_apps_monorepo.Prelude.Text.literal
    sesori_apps_monorepo.Prelude.nat_eq sesori_apps_monorepo.Prelude.Text.number string_eq
    sesori_apps_monorepo.BridgeSignatures.github sesori_apps_monorepo.Host.index
    sesori_apps_monorepo.Json.find sesori_apps_monorepo.Host.subscript
    sesori_apps_monorepo.Host.truthy sesori_apps_monorepo.Desktop.Producer.is_text
    sesori_apps_monorepo.Json.Equality.json_eq verify_archive_bytes
    sesori_apps_monorepo.Prelude.Read.ask sesori_apps_monorepo.Tests.Machine.read_file
    sesori_apps_monorepo.BridgeSignatures.assets_of sesori_apps_monorepo.BridgeSignatures.drop_one
    sesori_apps_monorepo.BridgeSignatures.is_permutation
    sesori_apps_monorepo.BridgeSignatures.is_suffix sesori_apps_monorepo.BridgeSignatures.name_in
    sesori_apps_monorepo.BridgeSignatures.named sesori_apps_monorepo.BridgeSignatures.public_sha256
    sesori_apps_monorepo.BridgeSignatures.publish_asset
    sesori_apps_monorepo.BridgeSignatures.upload_missing
    sesori_apps_monorepo.BridgeSignatures.verify_record
    sesori_apps_monorepo.BridgeSignatures.verify_signing_asset sesori_apps_monorepo.Host.digest_of
    sesori_apps_monorepo.Host.items_of sesori_apps_monorepo.Host.text_of
    sesori_apps_monorepo.Prelude.Exec.collect sesori_apps_monorepo.Prelude.Exec.for_each
    sesori_apps_monorepo.Prelude.Exec.lift sesori_apps_monorepo.Prelude.Exec.pure
    sesori_apps_monorepo.Prelude.Exec.raise sesori_apps_monorepo.Prelude.Exec.require
    sesori_apps_monorepo.Prelude.Text.is_digit sesori_apps_monorepo.Prelude.Text.read
    sesori_apps_monorepo.ReleaseAssets.path_name sesori_apps_monorepo.Tests.Machine.file_at
    sesori_apps_monorepo.UpdateFeed.Verification.last_slash file_of
delivered = refl

-- The release has every asset; nothing is uploaded.
host-IsGithub : IsGithub host repository "v1.2.0"
host-IsGithub = record {
  assets = λ w name. some (file_of (asset_url repository "v1.2.0" name));
  urlopen-asset = λ name w body h. ap some (ok-injective h);
  urlopen_same = λ url w. (λ n. refl, λ path. (refl, refl));
  release_same = λ w. (λ n. refl, λ path. (refl, refl));
  upload_kept = λ path w. (λ n body h. h, λ path. (refl, refl));
}

publish-IsDelivered_example :
    ((release : Json) × IsPublic host repository "v1.2.0" "out" host-IsGithub files release)
    × ArchivesUnchanged host repository "v1.2.0" "out" host-IsGithub files
    × All
        (IsDelivered host repository "v1.2.0" "out" host-IsGithub files
          (publish host repository "v1.2.0" "out" files).1)
        signing_assets
publish-IsDelivered_example =
    publish-IsDelivered host repository "v1.2.0" "out" host-IsGithub files delivered
