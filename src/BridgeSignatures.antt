-- ===== src/BridgeSignatures.antt =====
-- publish_bridge_linux_signatures.py: the download of the public archives before they are signed, and
-- the delivery of the signatures to the release on GitHub.
pub mod Laws
use mathlib.Core.List
use sesori_apps_monorepo.Prelude.{
  Bool, true, false, ◌||◌, not, String, ◌<>◌, Option, none, some, List, [], ◌∷◌, contains, ◌==◌,
  string_eq, nat_eq, if◌then◌else◌,
}
use sesori_apps_monorepo.Prelude.Text
use sesori_apps_monorepo.Prelude.Text.Lines.{splitlines, words}
use sesori_apps_monorepo.Prelude.Exec.{
  Result, ok, err, value_error, key_error, Exec, pure, lift, require, ◌>>=◌, ◌>>◌, collect,
  for_each,
}
use sesori_apps_monorepo.Prelude.Read.{ask}
use sesori_apps_monorepo.ReleaseAssets.{path_name, asset_url, upload_arguments}
use sesori_apps_monorepo.Json.{Json}
use sesori_apps_monorepo.Host.{
  Host, command, subscript, text_of, items_of, truthy, digest_of, size_of,
}
use sesori_apps_monorepo.Desktop.Producer.{is_text, is_number}
use sesori_apps_monorepo.Desktop.Identity.{define}
use sesori_apps_monorepo.Signing.Keys.{public_key_name}
use sesori_apps_monorepo.Signing.Archives.{archives}

abbrev pub signing_assets : List String
signing_assets = public_key_name ∷ List.map (λ archive. archive <> ".asc") archives

-- behind `v\d+\.\d+\.\d+`: nothing, or `-internal\.\d+`
unfoldable pub is_suffix : String → Bool
is_suffix s = s == "" || (elim (Text.◌>>=◌ (Text.literal "-internal." s) Text.number) [
  | some (n, rest) ↦ rest == ""
  | none ↦ false
])

-- `re.fullmatch(r"v\d+\.\d+\.\d+(-internal\.\d+)?", tag)`
unfoldable pub is_release_tag : String → Bool
unfolding is_suffix
is_release_tag tag =
    elim (Text.◌>>=◌ (Text.literal "v" tag) λ s. Text.◌>>=◌ (Text.number s) λ (major, s).
      Text.◌>>=◌ (Text.literal "." s)
        λ s. Text.◌>>=◌ (Text.number s) λ (minor, s). Text.◌>>=◌ (Text.literal "." s) Text.number) [
          | some (patch, rest) ↦ is_suffix rest
          | none ↦ false
        ]

-- `{asset["name"]: asset for asset in assets}`: the last asset of a name counts
unfoldable pub named : List Json → Result (List (String × Json))
named [] = ok []
named (asset ∷ rest) =
    let more = named rest in
    elim (subscript asset "name") [
      | ok name ↦ elim (text_of name) [
        | ok n ↦ elim more [ ok m ↦ ok ((n, asset) ∷ m) | err e ↦ err e ]
        | err e ↦ err e
      ]
      | err e ↦ err e
    ]

unfoldable pub asset_named : String → List (String × Json) → Option Json
asset_named name [] = none
asset_named name ((n, asset) ∷ rest) = elim (asset_named name rest) [
  | some found ↦ some found
  | none ↦ if n == name then some asset else none
]

unfoldable pub asset_at : List (String × Json) → String → Result Json
unfolding asset_named
asset_at assets name = elim (asset_named name assets) [
  | some asset ↦ ok asset
  | none ↦ err (key_error name)
]

-- `digest, name = line.split()`, as the entry of the name
unfoldable pub checksum_entry : String → Result (String × String)
checksum_entry line = elim (words line) [
  | digest ∷ name ∷ [] ↦ ok (name, digest)
  | _ ↦ err (value_error "not enough values to unpack")
]

-- `xs` without one `x`, where it has one
unfoldable pub drop_one : String → List String → Option (List String)
drop_one x [] = none
drop_one x (y ∷ ys) =
    if y == x then some ys else elim (drop_one x ys) [ some rest ↦ some (y ∷ rest) | none ↦ none ]

-- `sorted(xs) == sorted(ys)`
unfoldable pub is_permutation : List String → List String → Bool
unfolding drop_one
is_permutation [] [] = true
is_permutation [] (y ∷ ys) = false
is_permutation (x ∷ xs) ys = elim (drop_one x ys) [
  | some rest ↦ is_permutation xs rest
  | none ↦ false
]

module _ (H : Host) where
  open H use {World, Bytes, read_text, loads, write_bytes, mkdir, run, urlopen, sha256}

  unfoldable pub github : List String → Exec World String
  github arguments = run (command ("gh" ∷ arguments))

  unfoldable pub public_sha256 : String → Exec World String
  public_sha256 url = do body ← urlopen url; pure (sha256 body)

  unfoldable pub public_release : String → String → Exec World Json
  public_release repository tag = do
    require (is_release_tag tag) "Expected an existing shared stable or internal release tag"
    answer ← github ("api" ∷ ("repos/" <> (repository <> ("/releases/tags/" <> tag))) ∷ [])
    release ← lift (loads answer)
    draft ← lift (subscript release "draft")
    require (not (truthy draft)) "Linux signatures require an existing public release"
    tag_name ← lift (subscript release "tag_name")
    require (is_text tag_name tag) "Linux signatures require an existing public release"
    pure release

  -- the assets of a release
  unfoldable pub assets_of : Json → Exec World (List (String × Json))
  assets_of release = do
    field ← lift (subscript release "assets")
    assets ← lift (items_of field)
    lift (named assets)

  -- one round of the first loop of `download`
  unfoldable pub download_asset :
      String → String → String → List (String × Json) → String → Exec World (Unit {0})
  download_asset repository tag root assets name = do
    asset ← lift (asset_at assets name)
    let path = root <> ("/" <> name)
    body ← urlopen (asset_url repository tag name)
    write_bytes path body
    bytes ← ask (size_of H path)
    size ← lift (subscript asset "size")
    require (is_number size bytes) ("Public archive/index digest mismatch: " <> name)
    actual ← ask (digest_of H path)
    digest ← lift (subscript asset "digest")
    require (is_text digest ("sha256:" <> actual))
        ("Public archive/index digest mismatch: " <> name)

  -- one round of the last loop of `download`
  unfoldable pub check_archive : String → List (String × String) → String → Exec World (Unit {0})
  check_archive root checksums name = do
    stated ← lift (define checksums name)
    actual ← ask (digest_of H (root <> ("/" <> name)))
    require (stated == actual) ("Archive differs from the published Bridge checksums: " <> name)

  unfoldable pub download : String → String → String → Exec World (Unit {0})
  download repository tag root = do
    release ← public_release repository tag
    assets ← assets_of release
    mkdir root
    for_each (download_asset repository tag root assets) ("checksums.txt" ∷ archives)
    text ← ask (read_text (root <> "/checksums.txt"))
    checksums ← collect (λ line. lift (checksum_entry line)) (splitlines text)
    for_each (check_archive root checksums) archives

  -- a record of a signed archive: the public archive still has the digest
  unfoldable pub verify_record : String → String → Json → Exec World (Unit {0})
  verify_record repository tag row = do
    name ← lift (subscript row "name")
    name ← lift (text_of name)
    actual ← public_sha256 (asset_url repository tag name)
    stated ← lift (subscript row "sha256")
    require (is_text stated actual) ("Public archive changed after signing: " <> name)

  unfoldable pub name_in : Json → Exec World String
  name_in row = do name ← lift (subscript row "name"); lift (text_of name)

  unfoldable pub verify_archive_bytes : String → String → String → Exec World (Unit {0})
  verify_archive_bytes repository tag root = do
    text ← ask (read_text (root <> "/signing.json"))
    report ← lift (loads text)
    field ← lift (subscript report "artifacts")
    rows ← lift (items_of field)
    names ← collect name_in rows
    require (is_permutation names archives) "Expected the two Linux Bridge archive signing records"
    key ← lift (subscript report "publicKeyFile")
    require (is_text key public_key_name) "Expected the two Linux Bridge archive signing records"
    for_each (verify_record repository tag) rows

  unfoldable pub verify_signing_asset : String → String → String → Exec World (Unit {0})
  verify_signing_asset repository tag path = do
    actual ← public_sha256 (asset_url repository tag (path_name path))
    expected ← ask (digest_of H path)
    require (actual == expected)
        ("Conflicting public signing asset; refusing replacement: " <> path_name path)

  unfoldable pub verify : String → String → String → Exec World (Unit {0})
  verify repository tag root = do
    public_release repository tag
    verify_archive_bytes repository tag root
    for_each (λ name. verify_signing_asset repository tag (root <> ("/" <> name))) signing_assets

  unfoldable pub upload_missing : String → String → List String → String → Exec World (Unit {0})
  upload_missing repository tag existing path =
      if contains existing (path_name path)
      then pure tt
      else (do github (upload_arguments repository tag path); pure tt)

  -- one round of the loop of `publish`
  unfoldable pub publish_asset :
      String → String → String → List String → String → Exec World (Unit {0})
  publish_asset repository tag root existing name = do
    upload_missing repository tag existing (root <> ("/" <> name))
    verify_signing_asset repository tag (root <> ("/" <> name))

  unfoldable pub publish : String → String → String → Exec World (Unit {0})
  publish repository tag root = do
    release ← public_release repository tag
    verify_archive_bytes repository tag root
    assets ← assets_of release
    for_each (publish_asset repository tag root (List.map (λ asset. asset.0) assets)) signing_assets
