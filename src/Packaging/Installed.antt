-- ===== src/Packaging/Installed.antt =====
-- `verify_installed` and `package` (package_bundle) of package_desktop_linux.py: an installation against the payload
-- that the bundle makes, and the whole way from a bundle to a package with its report.
use mathlib.Core.List
use sesori_apps_monorepo.Prelude.{
  ◌&&◌, not, String, ◌<>◌, List, [], ◌∷◌, ◌++◌, starts_with, ◌==◌, string_eq, nat_eq, if◌then◌else◌,
}
use sesori_apps_monorepo.Prelude.Text.Lines.{strip}
use sesori_apps_monorepo.Prelude.Exec.{
  err, key_error, os_error, Exec, pure, lift, require, demand, ◌>>=◌, ◌>>◌, collect,
}
use sesori_apps_monorepo.Prelude.Read.{ask, test}
use sesori_apps_monorepo.UpdateFeed.Verification.{same_set}
use sesori_apps_monorepo.LinuxRepository.Retention.Prune.{removeprefix}
use sesori_apps_monorepo.ReleaseAssets.{path_name}
use sesori_apps_monorepo.Json.{Json, string, array, object, count_of, items_from, fields_from}
use sesori_apps_monorepo.Host.{Host, command, digest_of, size_of, in_temporary}
use sesori_apps_monorepo.Signing.Keys.{Environment}
use sesori_apps_monorepo.Desktop.Linux.Evidence.{is_cpu}
use sesori_apps_monorepo.Packaging.Native.{binary_json}
use sesori_apps_monorepo.Packaging.Bundle.{
  Evidence, Row, symlink, file, install_path, verify_bundle, payload_inventory, assemble_payload,
}
use sesori_apps_monorepo.Packaging.Formats.{Built, build_deb, build_rpm}
use sesori_apps_monorepo.Packaging.AppImage.{row_path, build_appimage}
use sesori_apps_monorepo.Packaging.Audit.{audit_dynamic_loading}

unfoldable pub row_json : Row → Json
row_json (symlink path target) = object (
    fields_from
      (("path", string path) ∷ ("type", string "symlink") ∷ ("target", string target) ∷ []))
row_json (file path digest size) = object (
    fields_from (
      ("path", string path)
      ∷ ("type", string "file")
      ∷ ("sha256", string digest)
      ∷ ("bytes", count_of size)
      ∷ []))

unfoldable pub evidence_json : Evidence → Json
evidence_json evidence = object (
    fields_from (
      ("identity", object evidence.identity)
      ∷ ("binaries", array (items_from (List.map binary_json evidence.binaries)))
      ∷ []))

-- the paths of the bundle, relative to the installation
unfoldable pub bundle_paths : List Row → List String
bundle_paths [] = []
bundle_paths (row ∷ rows) =
    let more = bundle_paths rows in
    if starts_with (row_path row) (install_path <> "/")
    then removeprefix (install_path <> "/") (row_path row) ∷ more
    else more

module _ (H : Host) where
  open H use {World, exists, is_file, is_symlink, readlink, owner, dumps, write_text, mkdir, run}

  -- the path belongs to root
  unfoldable pub check_owner : String → Exec World (Unit {0})
  check_owner path = do
    (user, group) ← ask (owner path)
    require (user == 0 && group == 0) ("Installed package path is not root-owned: " <> path)

  -- one round of the loop over the expected rows: what is installed there
  unfoldable pub check_installed : String → Row → Exec World Row
  check_installed installed_root (symlink path target) = do
    let installed = installed_root <> ("/" <> path)
    link ← ask (test (is_symlink installed))
    require link ("Installed symlink mismatch: " <> installed)
    actual ← ask (readlink installed)
    require (actual == target) ("Installed symlink mismatch: " <> installed)
    check_owner installed
    pure (symlink path actual)
  check_installed installed_root (file path digest size) = do
    let installed = installed_root <> ("/" <> path)
    there ← ask (test (is_file installed))
    link ← ask (test (is_symlink installed))
    require (there && not link) ("Installed file mismatch: " <> installed)
    actual ← ask (digest_of H installed)
    require (actual == digest) ("Installed file mismatch: " <> installed)
    bytes ← ask (size_of H installed)
    check_owner installed
    pure (file path actual bytes)

  -- the payload of the bundle, in a temporary directory
  unfoldable pub expected_payload : String → String → Exec World (List Row)
  expected_payload bundle package_format = in_temporary H "sesori-linux-expected-" λ expected_root.
      do assemble_payload H bundle expected_root package_format; payload_inventory H expected_root

  unfoldable pub verify_installed : String → String → String → String → Exec World (List Row)
  verify_installed bundle installed_root arch package_format = do
    evidence ← verify_bundle H bundle arch
    expected ← expected_payload bundle package_format
    actual ← collect (check_installed installed_root) expected
    rows ← payload_inventory H (installed_root <> ("/" <> install_path))
    require (same_set (List.map row_path rows) (bundle_paths expected))
        "Installed /opt payload has missing or unexpected paths"
    pure actual

  -- what stands in the temporary directory of `package`: the payload, and the package
  unfoldable pub build_in :
      Environment
      → String
      → String
      → String
      → String
      → Evidence
      → String
      → Exec World (List Row × Built)
  build_in environ bundle output arch package_format evidence work =
      if package_format == "appimage"
      then (do
        payload ← payload_inventory H bundle
        built ← build_appimage H bundle work output arch evidence.identity
        pure (payload, built))
      else (do
        assemble_payload H bundle (work <> "/root") package_format
        payload ← payload_inventory H (work <> "/root")
        built ←
            (if package_format == "deb"
              then build_deb H environ (work <> "/root") work output arch evidence.identity
              else if package_format == "rpm"
              then build_rpm H (work <> "/root") work output arch evidence.identity
              else lift (err (key_error package_format)))
        pure (payload, built))

  abbrev pub proof_boundary : String
  proof_boundary =
      "Unsigned native package construction and dependency metadata; not GUI, desktop session, "
      <> "account, signing, repository publication, or N-to-N+1 upgrade QA"

  -- the paths are resolved before
  unfoldable pub package_bundle :
      Environment → String → String → String → String → String → Exec World String
  package_bundle environ bundle output arch package_format package_config = do
    evidence ← verify_bundle H bundle arch
    source_audit ← audit_dynamic_loading H package_config
    there ← ask (test (exists output))
    demand (not there) os_error
    require (is_cpu (string H.machine) arch) "Native host required"
    mkdir output
    (payload, (artifact, package_evidence)) ←
        in_temporary H "sesori-linux-package-"
          (build_in environ bundle output arch package_format evidence)
    revision ← run (command ("git" ∷ "rev-parse" ∷ "HEAD" ∷ []))
    digest ← ask (digest_of H artifact)
    size ← ask (size_of H artifact)
    let own = object (
        fields_from (
          ("name", string (path_name artifact))
          ∷ ("sha256", string digest)
          ∷ ("bytes", count_of size)
          ∷ []))
    let report =
        (("packagerSourceSha", string (strip revision))
          ∷ ("format", string package_format)
          ∷ ("architecture", string arch)
          ∷ ("bundle", evidence_json evidence)
          ∷ ("dynamicLoadSourceAudit", source_audit)
          ∷ ("payload", array (items_from (List.map row_json payload)))
          ∷ ("package", own)
          ∷ [])
        ++ (package_evidence ++ ("proofBoundary", string proof_boundary) ∷ [])
    write_text (output <> "/packaging.json") (dumps (object (fields_from report)) <> "\n")
    pure artifact
