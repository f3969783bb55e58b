-- ===== src/Desktop/Linux.antt =====
-- `verify_checksums` and `prepare` of publish_desktop_linux.py: the signed packages of both
-- architectures, checked against their evidence and copied beside their metadata.
pub mod Evidence
pub mod Inputs
pub mod Laws
use mathlib.Core.List
use sesori_apps_monorepo.Prelude.{
  ℕ, Bool, true, false, ◌&&◌, ◌||◌, not, String, ◌<>◌, Option, none, some, List, [], ◌∷◌, ◌++◌,
  contains, ltb, starts_with, ◌==◌, string_eq, nat_eq, if◌then◌else◌,
}
use sesori_apps_monorepo.Prelude.Text.{is_clean_version, str}
use sesori_apps_monorepo.Prelude.Text.Lines.{splitlines, words}
use sesori_apps_monorepo.Prelude.Exec.{
  Result, ok, err, value_error, key_error, index_error, called_process_error, Error, Exec, pure,
  lift, require, raising, ◌>>=◌, ◌>>◌, collect, for_each,
}
use sesori_apps_monorepo.Prelude.Read.{ask, test}
use sesori_apps_monorepo.Json.{
  Json, number, string, array, object, Fields, count_of, items_from, fields_from,
}
use sesori_apps_monorepo.Host.{
  Host, command, index, subscript, read_json, digest_of, size_of, in_temporary,
}
use sesori_apps_monorepo.UpdateFeed.Verification.{same_set}
use sesori_apps_monorepo.LinuxRepository.Versions.{Channel, stable, internal}
use sesori_apps_monorepo.LinuxRepository.Publication.{channel_value}
use sesori_apps_monorepo.Desktop.Producer.{require_producer}
use sesori_apps_monorepo.Desktop.Identity.{release_tag, define}
use sesori_apps_monorepo.Desktop.Macos.{architectures}
use sesori_apps_monorepo.Desktop.Producer.{is_text, is_number}
use sesori_apps_monorepo.Desktop.Linux.Evidence.{
  trusted_fingerprint, fixtures, value_at, formats, check_sealed, check_signer, name_in, rows_of,
  checksums_of, check_unsigned, check_unchanged, check_fixture,
}
use sesori_apps_monorepo.Signing.Keys.{public_key_name}
use sesori_apps_monorepo.Signing.Packages.{checksums_name}

abbrev pub public_desktop_key : String
public_desktop_key = "desktop-linux-public.asc"

abbrev pub manifest_name : String
manifest_name = "desktop-linux-release.json"

-- A row of `artifacts`; the digest and the size are the values of the report of the signing.
pub record Artifact : Type 0 where
  pub name : String
  pub architecture : String
  pub format : String
  pub sha256 : Json
  pub bytes : Json

-- A row of `verification`
pub record Companion : Type 0 where
  pub name : String
  pub sha256 : String
  pub bytes : ℕ

pub record LinuxMetadata : Type 0 where
  pub channel : String
  pub version : String
  pub build_number : ℕ
  pub source_sha : String
  pub tag : String
  pub repository : String
  pub run_id : ℕ
  pub producer_sha : Json
  pub tooling_sha : String
  pub artifacts : List Artifact
  pub verification_files : List Companion

unfoldable pub artifact_json : Artifact → Json
artifact_json artifact = object (
    fields_from (
      ("name", string artifact.name)
      ∷ ("architecture", string artifact.architecture)
      ∷ ("format", string artifact.format)
      ∷ ("sha256", artifact.sha256)
      ∷ ("bytes", artifact.bytes)
      ∷ []))

unfoldable pub companion_json : Companion → Json
companion_json companion = object (
    fields_from (
      ("name", string companion.name)
      ∷ ("sha256", string companion.sha256)
      ∷ ("bytes", count_of companion.bytes)
      ∷ []))

unfoldable pub metadata_json : LinuxMetadata → Json
metadata_json metadata = object (
    fields_from (
      ("schemaVersion", count_of 1)
      ∷ ("platform", string "linux")
      ∷ ("channel", string metadata.channel)
      ∷ ("version", string metadata.version)
      ∷ ("buildNumber", count_of metadata.build_number)
      ∷ ("sourceSha", string metadata.source_sha)
      ∷ ("tag", string metadata.tag)
      ∷ ("repository", string metadata.repository)
      ∷ ("packagingRun", count_of metadata.run_id)
      ∷ ("producerWorkflowSha", metadata.producer_sha)
      ∷ ("preparationSourceSha", string metadata.tooling_sha)
      ∷ ("signerFingerprint", string trusted_fingerprint)
      ∷ ("artifacts", array (items_from (List.map artifact_json metadata.artifacts)))
      ∷ (
        "verificationFiles",
        array (items_from (List.map companion_json metadata.verification_files)),
      )
      ∷ (
        "proofBoundary",
        string (
            "This run verified signed native DEB/RPM/AppImage packages and container package "
            <> ("fixtures. Native GUI/login/keyring/tray and N-to-N+1 upgrades were qualified "
                <> "separately on earlier builds, not for this build. Repositories publish separately.")),
      )
      ∷ []))

-- a failed command is reported as a value error
unfoldable pub unverified : Error → Error
unverified (called_process_error code) = value_error "Public checksum signature verification failed"
unverified error = error

-- the words of the lines that report a valid signature
unfoldable pub signatures_in : List String → List (List String)
signatures_in [] = []
signatures_in (line ∷ lines) =
    let rest = signatures_in lines in
    if starts_with line "[GNUPG:] VALIDSIG " then words line ∷ rest else rest

unfoldable pub last_of : List String → Result String
last_of [] = err index_error
last_of (x ∷ []) = ok x
last_of (x ∷ y ∷ ys) = last_of (y ∷ ys)

-- one signature, by the fingerprint
unfoldable pub is_signed_by : String → List (List String) → Result Bool
unfolding last_of
is_signed_by fingerprint (signature ∷ []) = elim (last_of signature) [
  | ok signer ↦ ok (signer == fingerprint)
  | err e ↦ err e
]
is_signed_by fingerprint _ = ok false

-- `formats[name]`
unfoldable pub format_at : List (String × String) → String → Result String
format_at files name = elim (value_at files name) [
  | some kind ↦ ok kind
  | none ↦ err (key_error name)
]

module _ (H : Host) where
  open H use {World, exists, dumps, write_text, copyfile, mkdir, run}

  -- gpgv accepts the checksum file under the public key of the packages
  unfoldable pub checked_status : String → String → Exec World String
  checked_status packages home = do
    let keyring = home <> "/public.gpg"
    raising unverified (do
      run (
          command (
            "gpg"
            ∷ "--homedir"
            ∷ home
            ∷ "--batch"
            ∷ "--dearmor"
            ∷ "--output"
            ∷ keyring
            ∷ (packages <> ("/" <> public_key_name))
            ∷ []))
      run (
          command (
            "gpgv"
            ∷ "--homedir"
            ∷ home
            ∷ "--keyring"
            ∷ keyring
            ∷ "--status-fd"
            ∷ "1"
            ∷ (packages <> ("/" <> (checksums_name <> ".asc")))
            ∷ (packages <> ("/" <> checksums_name))
            ∷ [])))

  unfoldable pub verify_checksums : String → String → Exec World (Unit {0})
  verify_checksums packages fingerprint = in_temporary H "gpg-" λ home. do
    status ← checked_status packages home
    signed ← lift (is_signed_by fingerprint (signatures_in (splitlines status)))
    require signed "Unexpected checksum signer"

  -- one round of the loop over the rows of the report: the package is checked and copied
  unfoldable pub prepare_package :
      String
      → String
      → String
      → String
      → Fields
      → String
      → List (String × String)
      → List (String × String)
      → Json
      → Exec World Artifact
  prepare_package packages packaging output arch identity source_sha files checksums row = do
    name ← ask (name_in H row)
    kind ← lift (format_at files name)
    ask (check_unsigned H packaging kind source_sha identity name row)
    ask (check_unchanged H kind row)
    let path = packages <> ("/" <> name)
    size ← ask (size_of H path)
    bytes ← lift (subscript row "bytes")
    require (is_number bytes size) ("Signed package digest mismatch: " <> name)
    digest ← ask (digest_of H path)
    sha256 ← lift (subscript row "sha256")
    require (is_text sha256 digest) ("Signed package digest mismatch: " <> name)
    listed ← lift (define checksums name)
    require (listed == digest) ("Signed package digest mismatch: " <> name)
    copyfile path (output <> ("/" <> name))
    pure
        (record { name = name; architecture = arch; format = kind; sha256 = sha256; bytes = bytes })

  -- one of the two verification files of an architecture, under its own name
  unfoldable pub copy_companion : String → String → String → String → Exec World Companion
  copy_companion packages output arch suffix = do
    let name = "desktop-linux-" <> (arch <> ("-checksums.txt" <> suffix))
    copyfile (packages <> ("/" <> (checksums_name <> suffix))) (output <> ("/" <> name))
    digest ← ask (digest_of H (output <> ("/" <> name)))
    size ← ask (size_of H (output <> ("/" <> name)))
    pure (record { name = name; sha256 = digest; bytes = size })

  -- both architectures have the same public key, which is copied once
  unfoldable pub copy_key : String → String → Exec World (Unit {0})
  copy_key packages key = do
    there ← ask (test (exists key))
    if there
        then (do
          copied ← ask (digest_of H key)
          own ← ask (digest_of H (packages <> ("/" <> public_key_name)))
          require (copied == own) "Architecture public keys differ")
        else copyfile (packages <> ("/" <> public_key_name)) key

  -- one round of the loop over the architectures
  unfoldable pub prepare_architecture :
      String
      → String
      → String
      → String
      → ℕ
      → Channel
      → String
      → Exec World (List Artifact × List Companion)
  prepare_architecture root output source_sha version build channel arch = do
    let packages = root <> ("/desktop-linux-packages-" <> arch)
    let evidence = root <> ("/desktop-linux-evidence-" <> arch)
    let bundle = evidence <> "/desktop-bundle"
    let packaging = evidence <> "/desktop-linux-packaging"
    let files = formats arch version build
    signed ← ask (read_json H (packaging <> "/signed/signing.json"))
    identity ← ask (read_json H (bundle <> "/bundle/bridge/desktop-bundle.json"))
    ask (
        check_sealed H bundle arch source_sha version build (channel_value channel) signed identity)
    ask (check_signer H arch signed)
    rows ← ask (rows_of H files signed)
    checksums ← ask (checksums_of H packages files)
    artifacts ←
        collect (prepare_package packages packaging output arch identity source_sha files checksums)
          rows
    for_each (λ fixture. ask (check_fixture H packaging arch identity fixture)) fixtures
    verify_checksums packages trusted_fingerprint
    companions ← collect (copy_companion packages output arch) ("" ∷ ".asc" ∷ [])
    copy_key packages (output <> ("/" <> public_desktop_key))
    pure (artifacts, companions)

  unfoldable pub prepare_architectures :
      String
      → String
      → String
      → String
      → ℕ
      → Channel
      → List String
      → Exec World (List Artifact × List Companion)
  prepare_architectures root output source_sha version build channel [] = pure ([], [])
  prepare_architectures root output source_sha version build channel (arch ∷ rest) = do
    (artifacts, companions) ← prepare_architecture root output source_sha version build channel arch
    (more, others) ← prepare_architectures root output source_sha version build channel rest
    pure (artifacts ++ more, companions ++ others)

  unfoldable pub prepare :
      String
      → String
      → String
      → String
      → Channel
      → String
      → ℕ
      → Option ℕ
      → String
      → ℕ
      → Exec World LinuxMetadata
  prepare root output source_sha tooling_sha channel repository run_id current_run_id version
        build =
      do
        producer ←
            ask (require_producer H root source_sha tooling_sha repository run_id current_run_id)
        require (is_clean_version version) "Expected clean release version"
        require (ltb 0 build) "Expected positive shared build number"
        mkdir output
        (artifacts, companions) ←
            prepare_architectures root output source_sha version build channel architectures
        let key = output <> ("/" <> public_desktop_key)
        digest ← ask (digest_of H key)
        size ← ask (size_of H key)
        producer_sha ← lift (index producer "head_sha")
        let metadata : LinuxMetadata = record {
          channel = channel_value channel;
          version = version;
          build_number = build;
          source_sha = source_sha;
          tag = release_tag (channel_value channel) version build;
          repository = repository;
          run_id = run_id;
          producer_sha = producer_sha;
          tooling_sha = tooling_sha;
          artifacts = artifacts;
          verification_files =
              companions
              ++ record { name = public_desktop_key; sha256 = digest; bytes = size } ∷ [];
        }
        write_text (output <> ("/" <> manifest_name)) (dumps (metadata_json metadata) <> "\n")
        pure metadata
