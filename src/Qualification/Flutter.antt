-- ===== src/Qualification/Flutter.antt =====
-- `resolve_flutter` and `bootstrap` of qualify_desktop.py. The paths of the repository, `ROOT`, are
-- relative; `output_path` is `OUTPUT`.
use Prim.Native.Char.{code}
use Prim.Native.String.{[], ◌∷◌}
use sesori_apps_monorepo.Prelude.{
  Bool, false, String, ◌<>◌, Option, none, some, List, [], ◌∷◌, starts_with, ◌==◌, string_eq,
  nat_eq, option_eq, if◌then◌else◌,
}
use sesori_apps_monorepo.Prelude.Text.Lines.{splitlines, words, strip}
use sesori_apps_monorepo.Prelude.Exec.{
  Result, ok, err, value_error, type_error, key_error, Exec, pure, lift, require, ◌>>=◌, ◌>>◌,
  collect,
}
use sesori_apps_monorepo.Prelude.Read.{ask}
use sesori_apps_monorepo.UpdateFeed.Verification.{distinct}
use sesori_apps_monorepo.Json.{Json, string, object, fields_from}
use sesori_apps_monorepo.Host.{Host, command, command_in, subscript, text_of, items_of}
use sesori_apps_monorepo.Signing.Keys.{Environment, nth}
use sesori_apps_monorepo.Desktop.Producer.{is_text}
use sesori_apps_monorepo.Desktop.Linux.Evidence.{value_at}
use sesori_apps_monorepo.Packaging.Native.{Native, native_arch}

abbrev pub output_path : String
output_path = "build/desktop-qualification"

-- `text.rsplit(separator, 1)` at a dash, into two parts
unfoldable pub last_dash : String → Option (String × String)
last_dash [] = none
last_dash (c ∷ s) = elim (last_dash s) [
  | some (before, after) ↦ some (c ∷ before, after)
  | none ↦ if code c == 45 then some ([], s) else none
]

-- the second word of the first line of Flutter
unfoldable pub flutter_spec : List String → Result String
flutter_spec [] = err (value_error "StopIteration")
flutter_spec (line ∷ lines) =
    if starts_with line "flutter " then nth (words line) 1 else flutter_spec lines

abbrev pub flutter_version : Option (String × String) → Result (String × String)
flutter_version none = err (value_error "not enough values to unpack")
flutter_version (some parts) = ok parts

-- A release of Flutter
pub record FlutterRelease : Type 0 where
  pub version : String
  pub channel : String
  pub revision : String
  pub manifest : String

unfoldable pub release_json : FlutterRelease → Json
release_json release = object (
    fields_from (
      ("version", string release.version)
      ∷ ("channel", string release.channel)
      ∷ ("revision", string release.revision)
      ∷ ("manifest", string release.manifest)
      ∷ []))

unfoldable pub hash_of : Json → Result String
hash_of release = elim (subscript release "hash") [ ok value ↦ text_of value | err e ↦ err e ]

unfoldable pub some_text : Result String → Result (Option String)
some_text (ok s) = ok (some s)
some_text (err e) = err e

-- `os.environ[name]`
unfoldable pub named_value : Environment → String → Result String
named_value environ name = elim (value_at environ name) [
  | some value ↦ ok value
  | none ↦ err (key_error name)
]

-- the hash of a release, where its version and channel are the wanted ones
unfoldable pub matching_hash : String → String → Json → Result (Option String)
matching_hash version channel release = elim (subscript release "version") [
  | ok v ↦
      if is_text v version
      then elim (subscript release "channel") [
        | ok c ↦ if is_text c channel then some_text (hash_of release) else ok none
        | err e ↦ err e
      ]
      else ok none
  | err e ↦ err e
]

unfoldable pub present : List (Option String) → List String
present [] = []
present (none ∷ rest) = present rest
present (some x ∷ rest) = x ∷ present rest

-- the revision, where there is one
unfoldable pub single_revision : List String → Result String
single_revision (revision ∷ []) = ok revision
single_revision _ = err (value_error "No unambiguous official Flutter revision")

module _ (H : Host) where
  open H use {World, Bytes, read_text, decode, loads, dumps, write_text, append_text, run, urlopen}

  unfoldable pub pinned_flutter : Exec World String
  pinned_flutter = do text ← ask (read_text ".tool-versions"); lift (flutter_spec (splitlines text))

  unfoldable pub resolve_flutter : String → Exec World FlutterRelease
  resolve_flutter target_os = do
    spec ← pinned_flutter
    (version, channel) ← lift (flutter_version (last_dash spec))
    let url =
        "https://storage.googleapis.com/flutter_infra_release/releases/releases_"
        <> (target_os <> ".json")
    body ← urlopen url
    text ← lift (decode body)
    value ← lift (loads text)
    field ← lift (subscript value "releases")
    releases ← lift (items_of field)
    found ← collect (λ release. lift (matching_hash version channel release)) releases
    revision ← lift (single_revision (distinct (present found)))
    pure (record { version = version; channel = channel; revision = revision; manifest = url })

  -- `native_arch(path=path)[1] == [arch]`
  unfoldable pub is_single : String → Option Native → Result Bool
  is_single arch none = err type_error
  is_single arch (some (format, a ∷ [])) = ok (a == arch)
  is_single arch (some (format, _)) = ok false

  unfoldable pub bootstrap : Environment → String → String → String → Exec World (Unit {0})
  bootstrap environ sdk target_os arch = do
    require (value_at environ "GITHUB_ACTIONS" == some "true")
        "Bootstrap is CI-only; use the repository-pinned local SDK for local inspection"
    release ← resolve_flutter target_os
    run (
        command (
          "git" ∷ "-c" ∷ "core.longpaths=true" ∷ "clone" ∷ "--depth=1" ∷ "--branch"
          ∷ release.version ∷ "https://github.com/flutter/flutter.git" ∷ sdk ∷ []))
    head ← run (command_in sdk ("git" ∷ "rev-parse" ∷ "HEAD" ∷ []))
    let revision = strip head
    require (revision == release.revision)
        ("Flutter tag differs from official release manifest: " <> revision)
    let flutter = sdk <> ("/bin/" <> (if target_os == "windows" then "flutter.bat" else "flutter"))
    chatter ← run (command (flutter ∷ "--version" ∷ []))
    write_text (output_path <> "/flutter-bootstrap.log") chatter
    answer ← run (command (flutter ∷ "--version" ∷ "--machine" ∷ []))
    version ← lift (loads answer)
    let dart =
        sdk
        <> ("/bin/cache/dart-sdk/bin/" <> (if target_os == "windows" then "dart.exe" else "dart"))
    installed ← lift (subscript version "frameworkRevision")
    require (is_text installed revision)
        "Flutter revision or bootstrapped Dart architecture does not match the native job"
    native ← native_arch H dart
    same ← lift (is_single arch native)
    require same "Flutter revision or bootstrapped Dart architecture does not match the native job"
    write_text (output_path <> "/sdk.json") (
        dumps
          (object (fields_from (("release", release_json release) ∷ ("installed", version) ∷ [])))
        <> "\n")
    path ← lift (named_value environ "GITHUB_PATH")
    append_text path (sdk <> "/bin\n")
