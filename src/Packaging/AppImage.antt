-- ===== src/Packaging/AppImage.antt =====
-- The AppImage of package_desktop_linux.py: the pinned tools of Velopack, the tree that they pack,
-- and the check of the image.
use sesori_apps_monorepo.Prelude.{
  ℕ, ◌+◌, ◌*◌, Bool, true, false, ◌&&◌, String, ◌<>◌, Option, some, List, [], ◌∷◌, contains, ◌==◌,
  string_eq, nat_eq, if◌then◌else◌,
}
use sesori_apps_monorepo.Prelude.Lists.{take, sort}
use sesori_apps_monorepo.Prelude.Text.{str, text_lt}
use sesori_apps_monorepo.Prelude.Text.Lines.{splitlines}
use sesori_apps_monorepo.Prelude.Exec.{
  Result, ok, err, key_error, Exec, pure, lift, require, ◌>>=◌, ◌>>◌, for_each, collect,
}
use sesori_apps_monorepo.Prelude.Read.{ask, test}
use sesori_apps_monorepo.ReleaseAssets.{path_name}
use sesori_apps_monorepo.Json.{
  Json, string, array, object, Fields, count_of, items_from, fields_from,
}
use sesori_apps_monorepo.Host.{Host, command_in, index, shown, digest_of, size_of}
use sesori_apps_monorepo.Packaging.Octets.{slice, from_little}
use sesori_apps_monorepo.Packaging.Native.{Native, native_arch, strings_json}
use sesori_apps_monorepo.Packaging.Bundle.{
  Row, symlink, file, icon_source, verify_icon, compiled_channel, payload_inventory,
}
use sesori_apps_monorepo.Packaging.Formats.{Built, desktop_package, package_path}

abbrev pub vpk_version : String
vpk_version = "1.2.161"

abbrev pub vpk_package_url : String
vpk_package_url =
    "https://github.com/velopack/velopack/releases/download/"
    <> (vpk_version <> ("/vpk." <> (vpk_version <> ".nupkg")))

abbrev pub vpk_package_sha256 : String
vpk_package_sha256 = "2b56ce117f803fc70c103cb423bd040e395e40370f6ff6e10818e9ff9c26a323"

abbrev pub velopack_added_files : List String
velopack_added_files = "UpdateNix" ∷ "sq.version" ∷ []

abbrev pub velopack_library_url : String
velopack_library_url =
    "https://github.com/velopack/velopack/releases/download/"
    <> (vpk_version <> ("/velopack_libc_" <> (vpk_version <> ".zip")))

abbrev pub velopack_library_sha256 : String
velopack_library_sha256 = "31de8f2cf05a47bd5328a9f98b0c41aec1582156f6075f1058b26941f7f17c20"

abbrev pub host_requirements : List String
host_requirements =
    "glibc >= 2.39" ∷ "GTK 3" ∷ "libsecret" ∷ "libEGL.so.1" ∷ "libGLESv2.so.2" ∷ "FUSE" ∷ []

-- `VELOPACK_LIBRARIES[(target_os, arch)]`: the member of the archive, and its place in the bundle
unfoldable pub velopack_library : String → String → Result (String × String)
velopack_library target_os arch =
    if target_os == "linux" && arch == "x64"
    then ok ("lib/velopack_libc_linux_x64_gnu.so", "lib/libvelopack_libc.so")
    else if target_os == "linux" && arch == "arm64"
    then ok ("lib/velopack_libc_linux_arm64_gnu.so", "lib/libvelopack_libc.so")
    else if target_os == "windows" && arch == "x64"
    then ok ("lib/velopack_libc_win_x64_msvc.dll", "velopack_libc.dll")
    else if target_os == "windows" && arch == "arm64"
    then ok ("lib/velopack_libc_win_arm64_msvc.dll", "velopack_libc.dll")
    else err (key_error (target_os <> arch))

-- `{"linux": "ELF", "windows": "PE"}[target_os]`
unfoldable pub library_format : String → Result String
library_format target_os =
    if target_os == "linux"
    then ok "ELF"
    else if target_os == "windows"
    then ok "PE"
    else err (key_error target_os)

-- `native == (format, [arch])`
unfoldable pub is_native : String → String → Option Native → Bool
is_native format arch (some (f, a ∷ [])) = f == format && a == arch
is_native format arch _ = false

-- where the section headers of the runtime end
unfoldable pub squashfs_start : List ℕ → ℕ
squashfs_start header =
    from_little (slice 40 48 header)
    + from_little (slice 58 60 header) * from_little (slice 60 62 header)

unfoldable pub same_row : Row → Row → Bool
same_row (symlink p t) (symlink p' t') = p == p' && t == t'
same_row (file p d n) (file p' d' n') = p == p' && (d == d' && n == n')
same_row _ _ = false

unfoldable pub same_rows : List Row → List Row → Bool
unfolding same_row
same_rows [] [] = true
same_rows (x ∷ xs) (y ∷ ys) = same_row x y && same_rows xs ys
same_rows _ _ = false

abbrev pub row_path : Row → String
row_path (symlink path target) = path
row_path (file path digest size) = path

-- the rows without the files that vpk adds
unfoldable pub bundled_rows : List Row → List Row
bundled_rows [] = []
bundled_rows (row ∷ rows) =
    let more = bundled_rows rows in
    if contains velopack_added_files (row_path row) then more else row ∷ more

module _ (H : Host) where
  open H use {
    World, Bytes, is_file, glob, read_bytes, octets, sha256_octets, zip_member, write_bytes,
    copyfile, copytree, move, mkdir, run, urlopen,
  }

  unfoldable pub download_pinned : String → String → String → String → Exec World String
  download_pinned url digest destination name = do
    body ← urlopen url
    write_bytes destination body
    actual ← ask (digest_of H destination)
    require (actual == digest)
        (name <> (" digest mismatch: " <> (actual <> ("; expected " <> digest))))
    pure destination

  unfoldable pub install_vpk : String → Exec World String
  install_vpk work = do
    let feed = work <> "/vpk-feed"
    mkdir feed
    download_pinned vpk_package_url vpk_package_sha256
        (feed <> ("/vpk." <> (vpk_version <> ".nupkg"))) "vpk package"
    let tools = work <> "/vpk-tool"
    run (
        command_in work (
          "dotnet" ∷ "tool" ∷ "install" ∷ "vpk" ∷ "--version" ∷ vpk_version ∷ "--tool-path" ∷ tools
          ∷ "--source" ∷ feed ∷ []))
    pure (tools <> "/vpk")

  unfoldable pub velopack_pack_dir : String → String → String → String → Exec World String
  velopack_pack_dir bundle work target_os arch = do
    archive ←
        download_pinned velopack_library_url velopack_library_sha256
          (work <> ("/velopack_libc_" <> (vpk_version <> ".zip"))) "Velopack library archive"
    (member, relative) ← lift (velopack_library target_os arch)
    let pack_dir = work <> "/pack"
    copytree bundle pack_dir
    let library = pack_dir <> ("/" <> relative)
    packed ← ask (read_bytes archive)
    source ← lift (zip_member packed member)
    write_bytes library source
    format ← lift (library_format target_os)
    native ← native_arch H library
    require (is_native format arch native) ("Wrong native target: " <> library)
    pure pack_dir

  unfoldable pub velopack_version : Fields → String → Exec World String
  velopack_version identity channel = do
    version ← lift (index identity "version")
    if channel == "stable" then pure (shown H version) else (do
      build ← lift (index identity "buildNumber")
      pure (shown H version <> ("-internal." <> shown H build)))

  unfoldable pub squashfs_offset : String → Exec World ℕ
  squashfs_offset image = do
    body ← ask (read_bytes image)
    pure (squashfs_start (take 64 (octets body)))

  -- the image holds exactly the tree that was packed, with what vpk adds, and the icon
  unfoldable pub check_image : String → String → Exec World (Unit {0})
  check_image extracted pack_dir = do
    let contents = extracted <> "/usr/bin"
    rows ← payload_inventory H contents
    first ← ask (test (is_file (contents <> "/UpdateNix")))
    second ← ask (test (is_file (contents <> "/sq.version")))
    expected ← payload_inventory H pack_dir
    require (same_rows (bundled_rows rows) expected && (first && second))
        "AppImage does not contain the exact staged bundle"
    icon ← ask (digest_of H (extracted <> ("/" <> (desktop_package <> ".png"))))
    source ← ask (digest_of H icon_source)
    require (icon == source) "AppImage icon differs from the application icon"

  unfoldable pub release_file : String → Exec World Json
  release_file path = do
    digest ← ask (digest_of H path)
    size ← ask (size_of H path)
    pure (
        object (
          fields_from (
            ("name", string (path_name path))
            ∷ ("sha256", string digest)
            ∷ ("bytes", count_of size)
            ∷ [])))

  abbrev pub pack_command : String → String → String → String → String → List String
  pack_command vpk version pack_dir channel releases =
      vpk ∷ "pack" ∷ "--packId" ∷ desktop_package ∷ "--packVersion" ∷ version ∷ "--packDir"
      ∷ pack_dir ∷ "--mainExe" ∷ "sesori_desktop" ∷ "--packTitle" ∷ "Sesori" ∷ "--icon"
      ∷ icon_source ∷ "--categories" ∷ "Development;Utility" ∷ "--channel" ∷ channel ∷ "--outputDir"
      ∷ releases ∷ []

  unfoldable pub build_appimage : String → String → String → String → Fields → Exec World Built
  build_appimage bundle work output arch identity = do
    channel ← compiled_channel H bundle
    version ← velopack_version identity channel
    vpk ← install_vpk work
    pack_dir ← velopack_pack_dir bundle work "linux" arch
    verify_icon H icon_source
    let releases = work <> "/velopack"
    let arguments = pack_command vpk version pack_dir channel releases
    run (command_in work arguments)
    stated ← lift (index identity "version")
    build ← lift (index identity "buildNumber")
    let package' = package_path H output arch stated build "AppImage"
    move (releases <> ("/" <> (desktop_package <> ("-" <> (channel <> ".AppImage"))))) package'
    let velopack = output <> "/velopack"
    mkdir velopack
    for_each (λ name. copyfile (releases <> ("/" <> name)) (velopack <> ("/" <> name)))
        ((desktop_package <> ("-" <> (version <> ("-" <> (channel <> "-full.nupkg")))))
          ∷ ("releases." <> (channel <> ".json"))
          ∷ [])
    offset ← squashfs_offset package'
    let extracted = work <> "/extracted"
    run (
        command_in work (
          "unsquashfs"
          ∷ "-offset"
          ∷ str offset
          ∷ "-no-progress"
          ∷ "-d"
          ∷ extracted
          ∷ package'
          ∷ []))
    check_image extracted pack_dir
    image ← ask (read_bytes package')
    paths ← ask (glob velopack "*")
    files ← collect release_file (sort text_lt paths)
    contents ←
        run (command_in work ("unsquashfs" ∷ "-offset" ∷ str offset ∷ "-lls" ∷ package' ∷ []))
    let runtime = object (
        fields_from (
          ("sha256", string (sha256_octets (take offset (octets image))))
          ∷ ("bytes", count_of offset)
          ∷ []))
    pure (
      package',
      ("dependencies", array (items_from []))
          ∷ ("dependencyCommand", array (items_from (strings_json arguments)))
          ∷ ("hostRequirements", array (items_from (strings_json host_requirements)))
          ∷ (
            "velopack",
            object (
                fields_from (
                  ("vpkVersion", string vpk_version)
                  ∷ ("vpkPackageSha256", string vpk_package_sha256)
                  ∷ ("libraryArchiveSha256", string velopack_library_sha256)
                  ∷ ("packVersion", string version)
                  ∷ ("channel", string channel)
                  ∷ ("runtime", runtime)
                  ∷ ("releaseFiles", array (items_from files))
                  ∷ [])),
          )
          ∷ ("packageFiles", array (items_from (strings_json (splitlines contents))))
          ∷ [],
    )
