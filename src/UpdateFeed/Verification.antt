-- ===== src/UpdateFeed/Verification.antt =====
-- `velopack_package` and `verify` of publish_desktop_update_feed.py. What the scripts ask of the
-- file system, the XML and JSON libraries and openssl are the fields of `Tree`, for one tree of
-- files: the scripts only read it.
pub mod Guard
use Prim.Native.Char.{code}
use mathlib.Core.List
use Prim.Native.String.{[], ◌∷◌}
use sesori_apps_monorepo.Prelude.{
  ℕ, Bool, true, false, ◌&&◌, ◌||◌, not, String, ◌<>◌, Option, none, some, List, [], ◌∷◌, contains,
  ◌==◌, string_eq, nat_eq, option_eq, if◌then◌else◌, is_some, starts_with,
}
use sesori_apps_monorepo.Prelude.Lists.{all, select, sort}
use sesori_apps_monorepo.Prelude.Text.{text_lt, literal}
use sesori_apps_monorepo.Prelude.Exec.{
  Result, Exec, runtime_error, value_error, pure, lift, raise, require, ◌>>=◌, ◌>>◌, for_each,
}
use sesori_apps_monorepo.LinuxRepository.Versions.{Channel}
use sesori_apps_monorepo.LinuxRepository.Publication.{channel_value}
use sesori_apps_monorepo.UpdateFeed.Names.{is_hosted}

-- A path that `root.rglob("*")` lists
pub record Entry : Type 0 where
  pub name : String
  pub is_symlink : Bool
  pub is_dir : Bool

-- An entry of a Velopack feed; `none` is a missing field.
pub record Asset : Type 0 where
  pub package_id : Option String
  pub kind : Option String
  pub file_name : Option String
  pub version : Option String
  pub sha256 : Option String
  pub size : Option ℕ

-- An `enclosure` element: the attributes `url` and `sparkle:edSignature`
pub record Enclosure : Type 0 where
  pub url : Option String
  pub ed_signature : Option String

-- the exit of `openssl pkeyutl -verify`: whether the status is 0, and the output
pub record Openssl : Type 0 where
  pub success : Bool
  pub stdout : String

pub record Tree (Bytes : Type 0) : Type 0 where
  -- `sorted(root.rglob("*"))`
  pub entries : List Entry
  pub is_file : String → Bool
  pub is_symlink : String → Bool
  pub content : String → Bytes
  pub size : Bytes → ℕ
  pub read_text : String → Result String
  -- `read_json(path).get("Assets")`, where it is a list
  pub assets : String → Result (Option (List Asset))
  -- `ET.parse(path).getroot().findall("channel/item/enclosure")`
  pub enclosures : String → Result (List Enclosure)
  -- `base64.b64decode(text, validate=True)`, and the length of what it gives
  pub b64decode : String → Result Bytes
  -- the check of openssl: the raw key, the payload and the signature
  pub openssl_verify : Bytes → Bytes → Bytes → Openssl
  -- Python's `str.lower` and `str.strip`
  pub lower : String → String
  pub strip : String → String

-- `name.rsplit("/", 1)`: nothing where the name has no separator
unfoldable pub last_slash : String → Option (String × String)
last_slash [] = none
last_slash (c ∷ s) = elim (last_slash s) [
  | some (before, after) ↦ some (c ∷ before, after)
  | none ↦ if code c == 47 then some ([], s) else none
]

unfoldable pub directory_of : String → String
unfolding last_slash
directory_of name = elim (last_slash name) [ some (before, _) ↦ before | none ↦ name ]

-- Hosted names have a separator; of another one the source takes a part that is not there.
unfoldable pub file_of : String → String
unfolding last_slash
file_of name = elim (last_slash name) [ some (_, after) ↦ after | none ↦ "" ]

-- `part in text`
unfoldable pub includes : String → String → Bool
includes part [] = part == ""
includes part (c ∷ s) = is_some (literal part (c ∷ s)) || includes part s

-- a set of texts: each once
unfoldable pub distinct : List String → List String
distinct [] = []
distinct (x ∷ xs) = let rest = distinct xs in if contains rest x then rest else x ∷ rest

abbrev pub is_empty : List String → Bool
is_empty [] = true
is_empty _ = false

-- `==` on sets
unfoldable pub same_set : List String → List String → Bool
same_set xs ys = all (contains ys) xs && all (contains xs) ys

-- `f"{value}"` of a field that may be missing
unfoldable pub shown : Option String → String
shown none = "None"
shown (some s) = s

abbrev pub public_key : String
public_key = "fX8esm5FEY71sv0tGsx2Wdb0DB5IECuPdtdYHd5Wun4="

abbrev pub release_downloads : String
release_downloads = "https://github.com/sesori-ai/sesori_apps_monorepo/releases/download/"

abbrev pub release_feed : Channel → String
release_feed channel = "releases." <> (channel_value channel <> ".json")

abbrev pub refusal : Channel → String → String
refusal channel name =
    "Refusing an unexpected object; only desktop-updates/k1/"
    <> (channel_value channel <> ("/ feeds are hosted: " <> name))

-- the one release of a feed
unfoldable pub single_asset : Option (List Asset) → Option Asset
single_asset (some (asset ∷ [])) = some asset
single_asset _ = none

unfoldable pub is_appcast : List Enclosure → Bool
is_appcast (enclosure ∷ []) =
    starts_with (elim enclosure.url [ some url ↦ url | none ↦ "" ]) release_downloads
    && not (elim enclosure.ed_signature [ some signature ↦ signature == "" | none ↦ true ])
is_appcast _ = false

module _ {World Bytes : Type 0} (digest : Bytes → String) (tree : Tree Bytes) where
  open tree use {
    entries, is_file, is_symlink, content, size, read_text, assets, enclosures, b64decode,
    openssl_verify, lower, strip,
  }

  unfoldable pub package_of : Channel → String → Asset → Exec World String
  package_of channel directory asset = do
    let name =
        "sesori-desktop-"
        <> (shown asset.version <> ("-" <> (channel_value channel <> "-full.nupkg")))
    require
        (asset.package_id == some "sesori-desktop"
          && asset.kind == some "Full"
          && asset.file_name == some name)
        "Unexpected Velopack release package"
    let path = directory <> ("/" <> name)
    require
        (is_file path
          && not (is_symlink path)
          && lower (shown asset.sha256) == digest (content path)
          && asset.size == some (size (content path)))
        ("Velopack package differs from its feed: " <> name)
    pure name

  unfoldable pub package_found : Channel → String → Option Asset → Exec World String
  unfolding package_of
  package_found channel directory none =
      raise (value_error "Expected exactly one release in the Velopack feed")
  package_found channel directory (some asset) = package_of channel directory asset

  -- The name of the package; the version beside it is what the feed says.
  unfoldable pub velopack_package : Channel → String → Exec World String
  velopack_package channel directory = do
    listed ← lift (assets (directory <> ("/" <> release_feed channel)))
    package_found channel directory (single_asset listed)

  -- `verify` of sign_desktop_update.py
  unfoldable pub verify_signature : String → Bytes → String → Exec World Bool
  verify_signature public_key_b64 payload signature_b64 = do
    raw_key ← lift (b64decode public_key_b64)
    require (size raw_key == 32) "An Ed25519 public key is 32 bytes"
    signature ← lift (b64decode signature_b64)
    let result = openssl_verify raw_key payload signature
    if result.success
        then pure true
        else if includes "Signature Verification Failure" result.stdout
        then pure false
        else raise (runtime_error "openssl could not check the update signature")

  unfoldable pub check_appcast : String → List String → Exec World (Unit {0})
  check_appcast directory files = do
    require (same_set files ("appcast.xml" ∷ [])) ("Unexpected appcast files: " <> directory)
    found ← lift (enclosures (directory <> "/appcast.xml"))
    require (is_appcast found) ("Unexpected appcast: " <> directory)

  unfoldable pub check_velopack : Channel → String → List String → Exec World (Unit {0})
  check_velopack channel directory files = do
    let feed = release_feed channel
    name ← velopack_package channel directory
    require (same_set files (feed ∷ (feed <> ".sig") ∷ name ∷ []))
        ("Unexpected Velopack feed files: " <> directory)
    signature ← lift (read_text (directory <> ("/" <> (feed <> ".sig"))))
    valid ← verify_signature public_key (content (directory <> ("/" <> feed))) (strip signature)
    require valid ("Feed signature does not match the compiled update key: " <> directory)

  unfoldable pub check_directory : Channel → List String → String → Exec World (Unit {0})
  check_directory channel names directory =
      let files = List.map file_of (select (λ name. directory_of name == directory) names) in
      if includes "/macos-" directory
      then check_appcast directory files
      else check_velopack channel directory files

  -- the first loop of `verify`
  unfoldable pub hosted_names : Channel → List Entry → Exec World (List String)
  hosted_names channel [] = pure []
  hosted_names channel (entry ∷ rest) =
      let more = hosted_names channel rest in
      do
        require (not entry.is_symlink) ("Refusing a symlinked feed object: " <> entry.name)
        if entry.is_dir then more else (do
          require (is_hosted channel entry.name) (refusal channel entry.name)
          names ← more
          pure (entry.name ∷ names))

  unfoldable pub verify : Channel → Exec World (List String)
  verify channel = do
    names ← hosted_names channel entries
    require (not (is_empty names)) "No feed objects to publish"
    for_each (check_directory channel names) (sort text_lt (distinct (List.map directory_of names)))
    pure names
