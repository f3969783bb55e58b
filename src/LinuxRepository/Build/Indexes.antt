-- ===== src/LinuxRepository/Build/Indexes.antt =====
-- `build_apt`, `build_rpm` and `build` of build_linux_repository.py.
use sesori_apps_monorepo.Prelude.{
  ℕ, Bool, false, ◌&&◌, ◌||◌, String, ◌<>◌, none, some, List, [], ◌∷◌, ◌++◌, ◌==◌, string_eq,
  nat_eq, if◌then◌else◌,
}
use sesori_apps_monorepo.Prelude.Text
use sesori_apps_monorepo.Prelude.Text.{str}
use sesori_apps_monorepo.Prelude.Text.Lines.{splitlines}
use sesori_apps_monorepo.Prelude.Exec.{ok, Exec, pure, require, ◌>>=◌, ◌>>◌, collect, for_each}
use sesori_apps_monorepo.Prelude.Read.{ask, test}
use sesori_apps_monorepo.LinuxRepository.Versions.{Channel}
use sesori_apps_monorepo.LinuxRepository.Publication.{channel_value}
use sesori_apps_monorepo.LinuxRepository.Retention.Prune.{removeprefix}
use sesori_apps_monorepo.Json.{Json, string, array, object, count_of, items_from, fields_from}
use sesori_apps_monorepo.Host.{Host, Command, digest_of, size_of, in_temporary}
use sesori_apps_monorepo.UpdateFeed.Verification.{directory_of}
use sesori_apps_monorepo.Desktop.Linux.{public_desktop_key}
use sesori_apps_monorepo.Packaging.Ownership.{same_parts}
use sesori_apps_monorepo.Signing.Keys.{
  Environment, LinuxSigningKey, signing_key, sign_detached, sign_cleartext,
}
use sesori_apps_monorepo.Signing.Packages.{verify_rpm}
use sesori_apps_monorepo.LinuxRepository.Build.{
  Verified, repository_architectures, package_file, verify_release,
}

abbrev pub report_name : String
report_name = "repository.json"

abbrev pub call : String → Environment → List String → Command
call cwd env arguments = record {
  arguments = arguments;
  env = some env;
  input = none;
  cwd = some cwd;
}

-- the fields of Release, as options of apt-ftparchive
abbrev pub release_fields : String → String × String → List (String × String)
release_fields channel (date, valid_until) =
    ("ValidTime", "2592000")
    ∷ ("Date", date)
    ∷ ("Valid-Until", valid_until)
    ∷ ("Origin", "Sesori")
    ∷ ("Label", "Sesori " <> channel)
    ∷ ("Suite", channel)
    ∷ ("Codename", channel)
    ∷ ("Architectures", "amd64 arm64")
    ∷ ("Components", "main")
    ∷ ("Acquire-By-Hash", "yes")
    ∷ ("Description", "Sesori desktop " <> (channel <> " packages"))
    ∷ []

unfoldable pub release_options : List (String × String) → List String
release_options [] = []
release_options ((name, value) ∷ rest) =
    "-o" ∷ ("APT::FTPArchive::Release::" <> (name <> ("=" <> value))) ∷ release_options rest

-- `re.fullmatch(rf"{number}(?:\.fc\d+)?", text)`
unfoldable pub is_rpm_release : ℕ → String → Bool
is_rpm_release number text = elim (Text.literal (str number) text) [
  | some rest ↦ rest == "" || (elim (Text.◌>>=◌ (Text.literal ".fc" rest) Text.number) [
    | some (n, more) ↦ more == ""
    | none ↦ false
  ])
  | none ↦ false
]

-- the four fields of an RPM
unfoldable pub is_rpm_of : Verified → String → List String → Bool
unfolding is_rpm_release
is_rpm_of metadata rpm_arch (name ∷ version ∷ release ∷ arch ∷ []) =
    name == "sesori-desktop"
    && (version == metadata.version && (is_rpm_release metadata.number release && arch == rpm_arch))
is_rpm_of metadata rpm_arch _ = false

abbrev pub version_text : Verified → String
version_text metadata = metadata.version <> ("-" <> str metadata.number)

module _ (H : Host) where
  open H use {
    World, is_file, rglob, read_bytes, gzip, issued_at, dumps, write_text, write_bytes, copyfile,
    mkdir, run,
  }

  -- the index of an architecture, packed beside it, and both by their digests
  unfoldable pub write_index : String → Environment → String → String → Exec World (Unit {0})
  write_index apt env distribution debian_arch = do
    let directory = distribution <> ("/main/binary-" <> debian_arch)
    let index = directory <> "/Packages"
    let compressed = directory <> "/Packages.gz"
    let hashes = directory <> "/by-hash/SHA256"
    body ← ask (read_bytes index)
    write_bytes compressed (gzip body)
    mkdir hashes
    for_each (λ path. do digest ← ask (digest_of H path); copyfile path (hashes <> ("/" <> digest)))
        (index ∷ compressed ∷ [])

  -- one round of the loop of `build_apt`
  unfoldable pub add_deb :
      String
      → String
      → Verified
      → String
      → Environment
      → String × String × String
      → Exec World (Unit {0})
  add_deb root apt metadata channel env (arch, debian_arch, rpm_arch) = do
    let name = package_file arch metadata.version metadata.number "deb"
    fields ← run (
        call root env (
          "dpkg-deb"
          ∷ "--show"
          ∷ "--showformat=${Package}\n${Version}\n${Architecture}\n"
          ∷ (root <> ("/" <> name))
          ∷ []))
    require
        (same_parts (splitlines fields)
          ("sesori-desktop" ∷ version_text metadata ∷ debian_arch ∷ []))
        ("DEB metadata differs from release: " <> name)
    let pool = "pool/" <> (channel <> ("/" <> debian_arch))
    mkdir (apt <> ("/" <> pool))
    copyfile (root <> ("/" <> name)) (apt <> ("/" <> (pool <> ("/" <> name))))
    let distribution = apt <> ("/dists/" <> channel)
    mkdir (distribution <> ("/main/binary-" <> debian_arch))
    packages ← run (
        call apt env
          ("apt-ftparchive" ∷ "--md5=no" ∷ "--sha1=no" ∷ "--sha512=no" ∷ "packages" ∷ pool ∷ []))
    write_text (distribution <> ("/main/binary-" <> (debian_arch <> "/Packages"))) packages
    write_index apt env distribution debian_arch

  unfoldable pub build_apt : String → String → Verified → String → Environment → Exec World String
  build_apt root output metadata channel env = do
    let apt = output <> "/apt"
    for_each (add_deb root apt metadata channel env) repository_architectures
    dates ← ask (λ w. ok (issued_at w))
    let release = apt <> ("/dists/" <> (channel <> "/Release"))
    text ← run (
        call apt env (
          ("apt-ftparchive" ∷ "--md5=no" ∷ "--sha1=no" ∷ "--sha512=no" ∷ [])
          ++ (release_options (release_fields channel dates)
              ++ ("release" ∷ ("dists/" <> channel) ∷ []))))
    write_text release text
    pure release

  -- one round of the loop of `build_rpm`: the index of an architecture
  unfoldable pub add_rpm :
      String
      → String
      → Verified
      → String
      → String
      → Environment
      → String
      → String × String × String
      → Exec World String
  add_rpm root output metadata channel public_key env directory (arch, debian_arch, rpm_arch) = do
    let name = package_file arch metadata.version metadata.number "rpm"
    verify_rpm H (root <> ("/" <> name)) public_key (directory <> ("/" <> rpm_arch)) env
    fields ← run (
        call root env (
          "rpm"
          ∷ "-qp"
          ∷ "--queryformat"
          ∷ "%{NAME}\n%{VERSION}\n%{RELEASE}\n%{ARCH}\n"
          ∷ (root <> ("/" <> name))
          ∷ []))
    require (is_rpm_of metadata rpm_arch (splitlines fields))
        ("RPM metadata differs from release: " <> name)
    let repository = output <> ("/rpm/" <> (channel <> ("/" <> rpm_arch)))
    mkdir (repository <> "/Packages")
    copyfile (root <> ("/" <> name)) (repository <> ("/Packages/" <> name))
    run (
        call output env (
          "createrepo_c"
          ∷ "--checksum"
          ∷ "sha256"
          ∷ "--unique-md-filenames"
          ∷ "--revision"
          ∷ version_text metadata
          ∷ "--general-compress-type"
          ∷ "gz"
          ∷ repository
          ∷ []))
    pure (repository <> "/repodata/repomd.xml")

  unfoldable pub build_rpm :
      String → String → Verified → String → String → Environment → Exec World (List String)
  build_rpm root output metadata channel public_key env =
      in_temporary H "sesori-repository-rpm-" λ directory.
        collect (add_rpm root output metadata channel public_key env directory)
          repository_architectures

  -- what stands under `with signing_key(…) as key`
  unfoldable pub build_signed :
      String → String → Channel → String → LinuxSigningKey → Exec World Verified
  build_signed root output channel fingerprint key = do
    metadata ← verify_release H root channel fingerprint
    release ← build_apt root output metadata (channel_value channel) key.public_env
    indexes ←
        build_rpm root output metadata (channel_value channel) (root <> ("/" <> public_desktop_key))
          key.public_env
    sign_detached H key release (directory_of release <> "/Release.gpg")
    sign_cleartext H key release (directory_of release <> "/InRelease")
    for_each (λ index. sign_detached H key index (index <> ".asc")) indexes
    pure metadata

  -- the rows of the report: every file of the repository
  unfoldable pub file_rows : String → List String → Exec World (List Json)
  file_rows output [] = pure []
  file_rows output (path ∷ paths) = do
    there ← ask (test (is_file path))
    if there
        then (do
          digest ← ask (digest_of H path)
          size ← ask (size_of H path)
          more ← file_rows output paths
          pure (
              object (
                fields_from (
                  ("name", string (removeprefix (output <> "/") path))
                  ∷ ("sha256", string digest)
                  ∷ ("bytes", count_of size)
                  ∷ []))
              ∷ more))
        else file_rows output paths

  -- the paths are resolved before
  unfoldable pub build : Environment → String → String → Channel → String → Exec World Json
  build environ root output channel fingerprint = do
    metadata ←
        signing_key H environ output fingerprint (build_signed root output channel fingerprint)
    paths ← ask (rglob output)
    files ← file_rows output paths
    let report = object (
        fields_from (
          ("schemaVersion", count_of 1)
          ∷ ("channel", string (channel_value channel))
          ∷ ("version", string metadata.version)
          ∷ ("buildNumber", count_of metadata.number)
          ∷ ("sourceSha", metadata.source_sha)
          ∷ ("signerFingerprint", string fingerprint)
          ∷ ("files", array (items_from files))
          ∷ []))
    write_text (output <> ("/" <> report_name)) (dumps report <> "\n")
    pure report
