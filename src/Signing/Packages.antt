-- ===== src/Signing/Packages.antt =====
-- sign_desktop_linux.py: the packages of the three formats, checked against their evidence, copied and
-- signed, and the report of the signing.
use mathlib.Core.List
use Prim.Native.String.{[], ◌∷◌}
use sesori_apps_monorepo.Prelude.{
  ℕ, Bool, true, false, ◌||◌, String, ◌<>◌, Option, none, some, List, [], ◌∷◌, ◌==◌, string_eq,
  nat_eq, if◌then◌else◌,
}
use sesori_apps_monorepo.Prelude.Text.{ends_with}
use sesori_apps_monorepo.Prelude.Exec.{Exec, pure, lift, require, ◌>>=◌, ◌>>◌, collect}
use sesori_apps_monorepo.Prelude.Read.{ask}
use sesori_apps_monorepo.Prelude.Text.Lines.{splitlines}
use sesori_apps_monorepo.Prelude.Text
use sesori_apps_monorepo.UpdateFeed.Verification.{includes, directory_of}
use sesori_apps_monorepo.ReleaseAssets.{path_name}
use sesori_apps_monorepo.Json.{Json, null, string, array, object, count_of, items_from, fields_from}
use sesori_apps_monorepo.Json.Equality.{json_eq}
use sesori_apps_monorepo.Host.{Host, subscript, subscripts, shown, digest_of, size_of}
use sesori_apps_monorepo.Desktop.Producer.{is_text, is_number}
use sesori_apps_monorepo.Signing.Keys.{
  Environment, LinuxSigningKey, gpg, public_key_name, sign_detached, signing_key,
}

abbrev pub checksums_name : String
checksums_name = "desktop-linux-checksums.txt"

-- `PACKAGE_EXTENSIONS`
abbrev pub package_extensions : List (String × String)
package_extensions = ("deb", "deb") ∷ ("rpm", "rpm") ∷ ("appimage", "AppImage") ∷ []

-- the rest of a line behind the first "signature"
unfoldable pub after_first : String → String → Option String
after_first part [] = none
after_first part (c ∷ s) =
    let more = after_first part s in
    elim (Text.literal part (c ∷ s)) [ some rest ↦ some rest | none ↦ more ]

-- `re.search(r"Signature.*: OK", text, re.IGNORECASE)`, on the text in lower case: a line has the word
-- and the verdict somewhere behind it
unfoldable pub has_verdict : List String → Bool
unfolding after_first
has_verdict [] = false
has_verdict (line ∷ lines) =
    (elim (after_first "signature" line) [ some rest ↦ includes ": ok" rest | none ↦ false ])
    || has_verdict lines

-- A package that was checked, and its digest
abbrev pub Checked : Type 0
Checked = String × String

-- What the report says of a signed package
pub record Signed : Type 0 where
  pub name : String
  pub sha256 : String
  pub bytes : ℕ
  pub unsigned_sha256 : String

unfoldable pub signed_json : Signed → Json
signed_json signed = object (
    fields_from (
      ("name", string signed.name)
      ∷ ("sha256", string signed.sha256)
      ∷ ("bytes", count_of signed.bytes)
      ∷ ("unsignedSha256", string signed.unsigned_sha256)
      ∷ []))

-- `identity is not None and current != identity` is not so
unfoldable pub agrees : Option Json → Json → Bool
agrees none current = true
agrees (some identity) current = json_eq current identity

-- the lines of the checksum file
unfoldable pub checksum_lines : List Signed → String
checksum_lines [] = ""
checksum_lines (signed ∷ rest) =
    signed.sha256 <> ("  " <> (signed.name <> ("\n" <> checksum_lines rest)))

module _ (H : Host) where
  open H use {World, read_text, loads, dumps, copyfile, write_text, mkdir, run, lower}

  abbrev pub package_name : Json → Json → Json → String → String
  package_name arch version build extension =
      "Sesori-linux-"
      <> (shown H arch
          <> ("-" <> (shown H version <> ("-" <> (shown H build <> ("." <> extension))))))

  -- one round of the loop of `load_packages`: the identity, and the package
  unfoldable pub load_package : String → Option Json → String × String → Exec World (Json × Checked)
  load_package root identity (kind, extension) = do
    text ← ask (read_text (root <> ("/" <> (kind <> "/packaging.json"))))
    report ← lift (loads text)
    current ← lift (subscripts report ("bundle" ∷ "identity" ∷ []))
    os ← lift (subscript current "os")
    require (is_text os "linux") "Expected Linux package evidence for the selected format"
    stated ← lift (subscript report "format")
    require (is_text stated kind) "Expected Linux package evidence for the selected format"
    require (agrees identity current)
        "Every Linux package format must have identical bundle identity"
    arch ← lift (subscript current "architecture")
    version ← lift (subscript current "version")
    build ← lift (subscript current "buildNumber")
    let expected_name = package_name arch version build extension
    name ← lift (subscripts report ("package" ∷ "name" ∷ []))
    require (is_text name expected_name) "Package filename does not match its bundle identity"
    let path = root <> ("/" <> (kind <> ("/" <> expected_name)))
    digest ← ask (digest_of H path)
    sha256 ← lift (subscripts report ("package" ∷ "sha256" ∷ []))
    require (is_text sha256 digest) ("Package differs from qualified evidence: " <> path_name path)
    size ← ask (size_of H path)
    bytes ← lift (subscripts report ("package" ∷ "bytes" ∷ []))
    require (is_number bytes size) ("Package differs from qualified evidence: " <> path_name path)
    pure (current, (path, digest))

  unfoldable pub load_rest :
      String → Option Json → List (String × String) → Exec World (Option Json × List Checked)
  load_rest root identity [] = pure (identity, [])
  load_rest root identity (format ∷ formats) = do
    (current, package') ← load_package root identity format
    (last, more) ← load_rest root (some current) formats
    pure (last, package' ∷ more)

  unfoldable pub load_packages : String → Exec World (Option Json × List Checked)
  load_packages root = load_rest root none package_extensions

  -- a fresh database that holds the public key alone accepts the signature
  unfoldable pub verify_rpm : String → String → String → Environment → Exec World (Unit {0})
  verify_rpm package' public_key database env = do
    mkdir database
    run (gpg env ("rpm" ∷ "--dbpath" ∷ database ∷ "--initdb" ∷ []))
    run (gpg env ("rpmkeys" ∷ "--dbpath" ∷ database ∷ "--import" ∷ public_key ∷ []))
    result ←
        run
          (gpg env ("rpmkeys" ∷ "--dbpath" ∷ database ∷ "--checksig" ∷ "--verbose" ∷ package' ∷ []))
    require (has_verdict (splitlines (lower result))) "RPM has no verified OpenPGP signature"

  abbrev pub payload_command : String → List String
  payload_command target = "rpm" ∷ "-qp" ∷ "--qf" ∷ "%{PAYLOADDIGEST}" ∷ target ∷ []

  abbrev pub rpmsign_command : LinuxSigningKey → String → List String
  rpmsign_command key target =
      "rpmsign"
      ∷ "--define"
      ∷ "_openpgp_sign gpg"
      ∷ "--define"
      ∷ ("_openpgp_sign_id " <> key.fingerprint)
      ∷ "--define"
      ∷ ("_gpg_path " <> key.home)
      ∷ "--define"
      ∷ "_gpg_digest_algo sha256"
      ∷ "--define"
      ∷ ("_gpg_sign_cmd_extra_args --batch --pinentry-mode loopback --passphrase-file "
          <> key.password)
      ∷ "--addsign"
      ∷ target
      ∷ []

  -- an RPM carries its signature, which may not change the payload
  unfoldable pub sign_rpm : LinuxSigningKey → String → String → Exec World (Unit {0})
  sign_rpm key work target = do
    before ← run (gpg key.env (payload_command target))
    run (gpg key.env (rpmsign_command key target))
    after ← run (gpg key.env (payload_command target))
    require (after == before) "RPM signing changed the package payload digest"
    verify_rpm target key.public_key (work <> "/rpmdb") key.env

  -- one round of the loop of `sign_packages`
  unfoldable pub sign_package : LinuxSigningKey → String → String → Checked → Exec World Signed
  sign_package key work output (source, unsigned_digest) = do
    let target = output <> ("/" <> path_name source)
    copyfile source target
    if ends_with target ".rpm" then sign_rpm key work target else pure tt
    digest ← ask (digest_of H target)
    size ← ask (size_of H target)
    pure (record {
      name = path_name source;
      sha256 = digest;
      bytes = size;
      unsigned_sha256 = unsigned_digest;
    })

  -- what stands under `with signing_key(…) as key`
  unfoldable pub sign_all :
      String → List Checked → LinuxSigningKey → Exec World (String × List Signed)
  sign_all output packages key = do
    artifacts ← collect (sign_package key (directory_of key.home) output) packages
    let checksums = output <> ("/" <> checksums_name)
    write_text checksums (checksum_lines artifacts)
    sign_detached H key checksums (checksums <> ".asc")
    pure (key.fingerprint, artifacts)

  unfoldable pub report_of : Option Json → String → List Signed → Json
  report_of identity fingerprint artifacts = object (
      fields_from (
        ("schemaVersion", count_of 1)
        ∷ ("identity", elim identity [ some i ↦ i | none ↦ null ])
        ∷ ("signerFingerprint", string fingerprint)
        ∷ ("artifacts", array (items_from (List.map signed_json artifacts)))
        ∷ ("checksumFile", string checksums_name)
        ∷ ("publicKeyFile", string public_key_name)
        ∷ (
          "proofBoundary",
          string (
              "RPM OpenPGP signature and detached signed checksums for DEB/RPM/AppImage; "
              <> "not APT/RPM repository publication, desktop-session or upgrade qualification"),
        )
        ∷ []))

  -- the paths are resolved before; the report is written once the key is gone
  unfoldable pub sign_packages : Environment → String → String → String → Exec World Json
  sign_packages environ root output fingerprint = do
    (identity, packages) ← load_packages root
    (signer, artifacts) ← signing_key H environ output fingerprint (sign_all output packages)
    let report = report_of identity signer artifacts
    write_text (output <> "/signing.json") (dumps report <> "\n")
    pure report
