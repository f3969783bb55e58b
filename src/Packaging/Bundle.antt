-- ===== src/Packaging/Bundle.antt =====
-- The staged bundle of package_desktop_linux.py: its checks, the repository files of a channel, the
-- inventory of a tree, and the payload that the native packages install.
use sesori_apps_monorepo.Prelude.{
  ℕ, Bool, true, false, ◌&&◌, not, String, ◌<>◌, Option, none, some, List, [], ◌∷◌, contains, ◌==◌,
  string_eq, nat_eq, if◌then◌else◌,
}
use sesori_apps_monorepo.Prelude.Text
use sesori_apps_monorepo.Prelude.Lists.{take, length}
use sesori_apps_monorepo.Prelude.Exec.{Exec, pure, lift, require, ◌>>=◌, ◌>>◌, for_each}
use sesori_apps_monorepo.Prelude.Read.{ask, test}
use sesori_apps_monorepo.UpdateFeed.Verification.{directory_of}
use sesori_apps_monorepo.LinuxRepository.Retention.Prune.{removeprefix}
use sesori_apps_monorepo.Json.{Json, string, Fields, get}
use sesori_apps_monorepo.Host.{Host, fields_of, digest_of, size_of}
use sesori_apps_monorepo.Desktop.Producer.{is_text}
use sesori_apps_monorepo.Desktop.Identity.{required, last_define, read_defines, positive_int}
use sesori_apps_monorepo.Desktop.Macos.{channels}
use sesori_apps_monorepo.Packaging.Octets.{slice, octet, same_octets, from_big}
use sesori_apps_monorepo.Packaging.Native.{Binary, inventory}
use sesori_apps_monorepo.Packaging.Ownership.{
  apt_key, apt_source, apt_unattended, rpm_key, rpm_repository,
}

-- the paths are relative to the root of the repository, `ROOT`
abbrev pub icon_source : String
icon_source = "client/app/android/app/src/main/ic_launcher-playstore.png"

abbrev pub repository_key_source : String
repository_key_source = "client/desktop/linux/packaging/sesori-linux-public.asc"

abbrev pub linux_repository : String
linux_repository = "https://storage.googleapis.com/sesori-ai-linux-packages"

abbrev pub install_path : String
install_path = "opt/sesori-desktop"

abbrev pub launcher_path : String
launcher_path = "usr/bin/sesori-desktop"

abbrev pub desktop_entry_path : String
desktop_entry_path = "usr/share/applications/sesori-desktop.desktop"

abbrev pub icon_path : String
icon_path = "usr/share/icons/hicolor/512x512/apps/sesori-desktop.png"

-- `DESKTOP_ENTRY_TEXT.format(exec=…)`
abbrev pub desktop_entry_text : String → String
desktop_entry_text exec =
    "[Desktop Entry]\nType=Application\nName=Sesori\nComment=AI coding cockpit\nExec="
    <> (exec <> "\nIcon=sesori-desktop\nTerminal=false\nCategories=Development;Utility;\n")

abbrev pub png_signature : List ℕ
png_signature = 137 ∷ 80 ∷ 78 ∷ 71 ∷ 13 ∷ 10 ∷ 26 ∷ 10 ∷ []

-- `re.fullmatch(r"\d+\.\d+\.\d+", text)`
unfoldable pub is_version : String → Bool
is_version s =
    elim (Text.◌>>=◌ (Text.number s) λ (major, s).
      Text.◌>>=◌ (Text.literal "." s)
        λ s. Text.◌>>=◌ (Text.number s) λ (minor, s). Text.◌>>=◌ (Text.literal "." s) Text.number) [
          | some (patch, rest) ↦ rest == ""
          | none ↦ false
        ]

unfoldable pub is_version_value : Json → Bool
unfolding is_version
is_version_value (string s) = is_version s
is_version_value _ = false

-- a text that is not empty
unfoldable pub is_filled : Json → Bool
is_filled (string s) = not (s == "")
is_filled _ = false

-- The evidence of a bundle: its identity and its native binaries
pub record Evidence : Type 0 where
  pub identity : Fields
  pub binaries : List Binary

-- What a package installs at a path
pub data Row : Type 0 where
  symlink : String → String → Row
  file : String → String → ℕ → Row

module _ (H : Host) where
  open H use {
    World, exists, is_file, is_dir, is_symlink, read_text, read_bytes, readlink, rglob, octets,
    loads, write_text, copyfile, copytree, symlink_to, mkdir, mkdir_missing, chmod,
  }

  -- an RGBA image in PNG of 512 by 512
  unfoldable pub verify_icon : String → Exec World (Unit {0})
  verify_icon path = do
    body ← ask (read_bytes path)
    let header = take 26 (octets body)
    require (same_octets (take 8 header) png_signature && length header == 26)
        ("Application icon is not PNG: " <> path)
    color_type ← lift (octet header 25)
    require
        (from_big (slice 16 20 header) == 512
          && (from_big (slice 20 24 header) == 512 && color_type == 6))
        ("Application icon must be 512x512 RGBA PNG: " <> path)

  -- an entry that the bundle must have, and no link
  unfoldable pub check_entry : Bool → String → Exec World (Unit {0})
  check_entry is_directory path = do
    directory ← ask (test (is_dir path))
    file' ← ask (test (is_file path))
    link ← ask (test (is_symlink path))
    require (not link && (if is_directory then directory else file'))
        ("Required staged entry missing or wrong type: " <> path)

  unfoldable pub check_bundle_identity : String → Fields → Exec World (Unit {0})
  check_bundle_identity arch identity = do
    require (is_version_value (get identity "version"))
        "Bundle version must be semantic major.minor.patch"
    lift (
        required "Bundle buildNumber must be a positive integer"
          (positive_int (get identity "buildNumber")))
    require (is_filled (get identity "sourceSha")) "Bundle sourceSha must be non-empty"
    require (is_text (get identity "os") "linux" && is_text (get identity "architecture") arch)
        "Bundle identity mismatch"

  unfoldable pub verify_bundle : String → String → Exec World Evidence
  verify_bundle bundle arch = do
    let manifest_path = bundle <> "/bridge/desktop-bundle.json"
    check_entry false (bundle <> "/sesori_desktop")
    check_entry false (bundle <> "/bridge/bin/bridge")
    check_entry true (bundle <> "/bridge/lib")
    check_entry false manifest_path
    text ← ask (read_text manifest_path)
    value ← lift (loads text)
    identity ← lift (fields_of value)
    check_bundle_identity arch identity
    binaries ← inventory H bundle "linux" arch []
    pure (record { identity = identity; binaries = binaries })

  -- the channel that the bundle was compiled for
  unfoldable pub compiled_channel : String → Exec World String
  compiled_channel bundle = do
    defines ← ask (read_defines H (directory_of bundle <> "/dart-defines.env"))
    channel ← lift (
        required "Bundle has no compiled release channel"
          (last_define "SESORI_DESKTOP_RELEASE_CHANNEL" defines))
    require (contains channels channel) "Bundle has no compiled release channel"
    pure channel

  -- the files that register the repository of a channel, with their texts
  unfoldable pub repository_files : String → String → Exec World (List (String × String))
  repository_files package_format channel = do
    key ← ask (read_text repository_key_source)
    pure (
        if package_format == "deb"
        then (apt_key, key)
          ∷ (
            apt_source,
            "deb [signed-by=/"
                <> (apt_key <> ("] " <> (linux_repository <> ("/apt " <> (channel <> " main\n"))))),
          )
          ∷ (apt_unattended, "Unattended-Upgrade::Origins-Pattern { \"origin=Sesori\"; };\n")
          ∷ []
        else (rpm_key, key)
          ∷ (
            rpm_repository,
            "[sesori-"
                <> (channel
                    <> ("]\nname="
                        <> ((if channel == "internal" then "Sesori internal previews" else "Sesori")
                            <> ("\nbaseurl="
                                <> (linux_repository
                                    <> ("/rpm/"
                                        <> (channel
                                            <> ("/$basearch\nenabled=1\ngpgcheck=1\nrepo_gpgcheck=1\ngpgkey=file:///"
                                                <> (rpm_key <> "\nskip_if_unavailable=1\n"))))))))),
          )
          ∷ [])

  -- what the inventory says of a path: nothing where it is a directory
  unfoldable pub inventory_row : String → String → Exec World (Option Row)
  inventory_row root path = do
    let relative = removeprefix (root <> "/") path
    link ← ask (test (is_symlink path))
    there ← ask (test (is_file path))
    if link
        then (do target ← ask (readlink path); pure (some (symlink relative target)))
        else if there
        then (do
          digest ← ask (digest_of H path)
          size ← ask (size_of H path)
          pure (some (file relative digest size)))
        else pure none

  unfoldable pub inventory_rows : String → List String → Exec World (List Row)
  inventory_rows root [] = pure []
  inventory_rows root (path ∷ paths) = do
    row ← inventory_row root path
    rows ← inventory_rows root paths
    pure (elim row [ some r ↦ r ∷ rows | none ↦ rows ])

  unfoldable pub payload_inventory : String → Exec World (List Row)
  payload_inventory root = do paths ← ask (rglob root); inventory_rows root paths

  -- a file of the repository, readable by all
  unfoldable pub write_repository_file : String → String × String → Exec World (Unit {0})
  write_repository_file root (path, contents) = do
    mkdir_missing (directory_of (root <> ("/" <> path)))
    write_text (root <> ("/" <> path)) contents
    chmod (root <> ("/" <> path)) 420

  unfoldable pub assemble_payload : String → String → String → Exec World (Unit {0})
  assemble_payload bundle root package_format = do
    copytree bundle (root <> ("/" <> install_path))
    mkdir (directory_of (root <> ("/" <> launcher_path)))
    symlink_to (root <> ("/" <> launcher_path)) "/opt/sesori-desktop/sesori_desktop"
    mkdir (directory_of (root <> ("/" <> desktop_entry_path)))
    write_text (root <> ("/" <> desktop_entry_path)) (desktop_entry_text "/usr/bin/sesori-desktop")
    verify_icon icon_source
    mkdir (directory_of (root <> ("/" <> icon_path)))
    copyfile icon_source (root <> ("/" <> icon_path))
    channel ← compiled_channel bundle
    files ← repository_files package_format channel
    for_each (write_repository_file root) files
