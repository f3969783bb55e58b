-- ===== src/Signing/Archives.antt =====
-- sign_bridge_linux.py: detached signatures of the two archives of the Bridge.
use mathlib.Core.List
use sesori_apps_monorepo.Prelude.{ℕ, not, String, ◌<>◌, List, [], ◌∷◌, ◌==◌, nat_eq}
use sesori_apps_monorepo.Prelude.Exec.{Exec, pure, require, ◌>>=◌, ◌>>◌, collect, for_each}
use sesori_apps_monorepo.Prelude.Read.{ask, test}
use sesori_apps_monorepo.ReleaseAssets.{path_name}
use sesori_apps_monorepo.Json.{Json, string, array, object, count_of, items_from, fields_from}
use sesori_apps_monorepo.Host.{Host, digest_of, size_of}
use sesori_apps_monorepo.Signing.Keys.{
  Environment, LinuxSigningKey, public_key_name, sign_detached, signing_key,
}

abbrev pub archives : List String
archives = "sesori-bridge-linux-x64.tar.gz" ∷ "sesori-bridge-linux-arm64.tar.gz" ∷ []

pub record SignedArchive : Type 0 where
  pub name : String
  pub sha256 : String
  pub bytes : ℕ
  pub signature : String

unfoldable pub archive_json : SignedArchive → Json
archive_json signed = object (
    fields_from (
      ("name", string signed.name)
      ∷ ("sha256", string signed.sha256)
      ∷ ("bytes", count_of signed.bytes)
      ∷ ("signature", string signed.signature)
      ∷ []))

unfoldable pub report_of : String → List SignedArchive → Json
report_of fingerprint artifacts = object (
    fields_from (
      ("schemaVersion", count_of 1)
      ∷ ("signerFingerprint", string fingerprint)
      ∷ ("artifacts", array (items_from (List.map archive_json artifacts)))
      ∷ ("publicKeyFile", string public_key_name)
      ∷ (
        "proofBoundary",
        string (
            "Detached OpenPGP signatures for unchanged CLI archives; "
            <> "not desktop packages or automatic updater signature enforcement"),
      )
      ∷ []))

module _ (H : Host) where
  open H use {World, is_file, dumps, write_text}

  unfoldable pub check_archive : String → Exec World (Unit {0})
  check_archive source = do
    there ← ask (test (is_file source))
    require there ("Missing or empty Linux Bridge archive: " <> path_name source)
    size ← ask (size_of H source)
    require (not (size == 0)) ("Missing or empty Linux Bridge archive: " <> path_name source)

  unfoldable pub sign_archive : LinuxSigningKey → String → String → Exec World SignedArchive
  sign_archive key output source = do
    let signature = output <> ("/" <> (path_name source <> ".asc"))
    sign_detached H key source signature
    digest ← ask (digest_of H source)
    size ← ask (size_of H source)
    pure (record {
      name = path_name source;
      sha256 = digest;
      bytes = size;
      signature = path_name signature;
    })

  -- what stands under `with signing_key(…) as key`
  unfoldable pub sign_all :
      String → List String → LinuxSigningKey → Exec World (String × List SignedArchive)
  sign_all output sources key = do
    artifacts ← collect (sign_archive key output) sources
    pure (key.fingerprint, artifacts)

  unfoldable pub sign_archives : Environment → String → String → String → Exec World Json
  sign_archives environ root output fingerprint = do
    let sources = List.map (λ name. root <> ("/" <> name)) archives
    for_each check_archive sources
    (signer, artifacts) ← signing_key H environ output fingerprint (sign_all output sources)
    let report = report_of signer artifacts
    write_text (output <> "/signing.json") (dumps report <> "\n")
    pure report
