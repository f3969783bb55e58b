-- ===== src/Desktop/Macos/Output.antt =====
-- `prepare` as a whole: what it checked, written down beside the packages.
use mathlib.Core.List
use sesori_apps_monorepo.Prelude.{ℕ, String, ◌<>◌, Option, List, [], ◌∷◌}
use sesori_apps_monorepo.Prelude.Exec.{Exec, pure, ◌>>=◌, ◌>>◌}
use sesori_apps_monorepo.Prelude.Read.{ask}
use sesori_apps_monorepo.Json.{Json, string, array, object, no_fields, field, count_of, items_from}
use sesori_apps_monorepo.Host.{Host}
use sesori_apps_monorepo.Desktop.Macos.{Release, Package, check_release}

unfoldable pub package_json : Release → Package → Json
package_json release package' = object (
    field "version" (string release.version) (
      field "buildNumber" (count_of release.build_number) (
        field "sourceSha" (string release.source_sha) (
          field "channel" (string release.channel) (
            field "platform" (string "macos") (
              field "architecture" (string package'.architecture) (
                field "name" (string package'.name) (
                  field "sha256" (string package'.sha256) (
                    field "evidenceArtifact"
                      (string ("desktop-macos-evidence-" <> package'.architecture))
                      no_fields)))))))))

unfoldable pub release_json : Release → Json
release_json release = object (
    field "schemaVersion" (count_of 1) (
      field "version" (string release.version) (
        field "buildNumber" (count_of release.build_number) (
          field "sourceSha" (string release.source_sha) (
            field "channel" (string release.channel) (
              field "platform" (string "macos") (
                field "tag" (string release.tag) (
                  field "preparationSourceSha" (string release.tooling_sha) (
                    field "producerWorkflowSha" release.producer_sha (
                      field "packagingRun" (count_of release.run_id) (
                        field "repository" (string release.repository) (
                          field "artifacts"
                            (array (items_from (List.map (package_json release) release.artifacts)))
                            (field "proofBoundary"
                              (string (
                                "Artifact consistency only; not independent signature verification, "
                                <> "interactive/minimum-OS QA, or publication approval"))
                              no_fields)))))))))))))

-- the lines of `checksums.txt`
unfoldable pub checksum_lines : List Package → String
checksum_lines [] = ""
checksum_lines (package' ∷ rest) =
    package'.sha256 <> ("  " <> (package'.name <> ("\n" <> checksum_lines rest)))

module _ (H : Host) where
  open H use {World, dumps, write_text, mkdir}

  unfoldable pub prepare :
      String → String → String → String → String → String → ℕ → Option ℕ → Exec World Release
  prepare root output source_sha channel tooling_sha repository run_id current_run_id = do
    release ←
        ask (check_release H root source_sha channel tooling_sha repository run_id current_run_id)
    mkdir output
    write_text (output <> "/desktop-release.json") (dumps (release_json release) <> "\n")
    write_text (output <> "/checksums.txt") (checksum_lines release.artifacts)
    pure release
