-- ===== src/Tests/Packaging.antt =====
-- The inventory of a small bundle, and the ownership of a package on concrete paths.
use sesori_apps_monorepo.Prelude.{
  ◌≡◌, ◌≢◌, refl, ◌↔◌, List, [], ◌∷◌, ◌++◌, String, none, true, ℕ, ◌<◌, ◌+◌, ◌*◌, ◌^◌, arith,
}
use sesori_apps_monorepo.Prelude.Lists.{All, In, length}
use sesori_apps_monorepo.Prelude.Exec.{ok, Result, err}
use sesori_apps_monorepo.Prelude.Exec.{os_error}
use sesori_apps_monorepo.Json.{no_fields}
use sesori_apps_monorepo.Host.{Host}
use sesori_apps_monorepo.Tests.Machine.{Files, machine}
use sesori_apps_monorepo.Packaging.Native.{Binary, inventory, has_entries}
use sesori_apps_monorepo.Packaging.Native.Laws.{inventory-Inventory, Inventory}
use sesori_apps_monorepo.Packaging.AppImage.{squashfs_start}
use sesori_apps_monorepo.Packaging.Octets.ElfHeader.{ElfHeader, encode, squashfs_start-encode}
use sesori_apps_monorepo.Packaging.Ownership.{
  verify_owned_paths, repository_paths, owned_of, rooted, system_integration_paths, install_root,
  rpm_key, rpm_repository,
}
use sesori_apps_monorepo.Packaging.Ownership.Laws.{verify_owned_paths_iff, Allowed}

abbrev paths : List String
paths =
    "/opt/sesori-desktop" ∷ "/opt/sesori-desktop/lib/libapp.so" ∷ "/usr/bin/sesori-desktop"
    ∷ "/usr/bin" ∷ "/usr/share/applications/sesori-desktop.desktop"
    ∷ "/usr/share/icons/hicolor/512x512/apps/sesori-desktop.png"
    ∷ "/etc/pki/rpm-gpg/RPM-GPG-KEY-sesori" ∷ "/etc/yum.repos.d/sesori.repo" ∷ "" ∷ []

rpm_paths : repository_paths "rpm" ≡ ok (rpm_key ∷ rpm_repository ∷ [])
unfolding repository_paths sesori_apps_monorepo.Prelude.string_eq
rpm_paths = refl

accepted : verify_owned_paths paths "rpm" ≡ ok 8
unfolding verify_owned_paths repository_paths sesori_apps_monorepo.Prelude.string_eq
    sesori_apps_monorepo.Packaging.Ownership.verify_owned owned_of
    sesori_apps_monorepo.Prelude.Text.Lines.strip sesori_apps_monorepo.Prelude.Text.Lines.is_blank
    sesori_apps_monorepo.Prelude.nat_eq sesori_apps_monorepo.Packaging.Ownership.has_path
    sesori_apps_monorepo.Packaging.Ownership.same_path
    sesori_apps_monorepo.Packaging.Ownership.pure_path sesori_apps_monorepo.Prelude.Text.Lines.split
    sesori_apps_monorepo.Packaging.Ownership.is_allowed rooted
    sesori_apps_monorepo.Packaging.Ownership.is_inside
accepted = refl

verify_owned_paths_iff_example : (verify_owned_paths paths "rpm" ≡ ok (length (owned_of paths))) ↔ (
    All
      (Allowed (rooted (system_integration_paths ++ rpm_key ∷ rpm_repository ∷ [])))
      (owned_of paths)
    × All
        (λ p. In p (owned_of paths))
        (rooted (system_integration_paths ++ rpm_key ∷ rpm_repository ∷ []) ++ install_root ∷ []))
verify_owned_paths_iff_example =
    verify_owned_paths_iff paths "rpm" (rpm_key ∷ rpm_repository ∷ []) rpm_paths

abbrev host : Host
host = machine no_fields (λ command w. err os_error) (λ url. none)

abbrev bundle : Files
bundle =
    ("app/sesori_desktop", "elf") ∷ ("app/data/icon.png", "png") ∷ ("app/lib/libapp.so", "elf") ∷ []

abbrev binaries : List Binary
binaries =
    record {
      path = "sesori_desktop";
      format = "ELF";
      architectures = "x64" ∷ [];
      sha256 = "elf";
      bytes = 3;
    }
    ∷ record {
      path = "lib/libapp.so";
      format = "ELF";
      architectures = "x64" ∷ [];
      sha256 = "elf";
      bytes = 3;
    }
    ∷ []

listed : (inventory host "app" "linux" "x64" [] bundle).0 ≡ ok binaries
unfolding inventory sesori_apps_monorepo.Prelude.Exec.◌>>=◌
    sesori_apps_monorepo.Packaging.Native.platform_format sesori_apps_monorepo.Prelude.string_eq
    sesori_apps_monorepo.Prelude.Read.ask sesori_apps_monorepo.Packaging.Native.inspect_paths
    sesori_apps_monorepo.Packaging.Native.inspect_path sesori_apps_monorepo.Prelude.Read.test
    sesori_apps_monorepo.Tests.Machine.file_at sesori_apps_monorepo.Packaging.Native.native_arch
    sesori_apps_monorepo.Tests.Machine.read_file sesori_apps_monorepo.Packaging.Native.arch_of
    sesori_apps_monorepo.Prelude.nat_eq sesori_apps_monorepo.Packaging.Native.elf_arch
    sesori_apps_monorepo.Packaging.Octets.octet sesori_apps_monorepo.Packaging.Native.single
    sesori_apps_monorepo.Packaging.Octets.unpack sesori_apps_monorepo.Packaging.Native.entry
    sesori_apps_monorepo.Packaging.Native.expected_format sesori_apps_monorepo.Host.digest_of
    sesori_apps_monorepo.Host.size_of sesori_apps_monorepo.Packaging.Native.skip
    sesori_apps_monorepo.Packaging.Native.has_native_suffix
    sesori_apps_monorepo.LinuxRepository.Retention.Prune.removeprefix
    sesori_apps_monorepo.Packaging.Native.last_dot sesori_apps_monorepo.Packaging.Native.name_for
    sesori_apps_monorepo.Packaging.Native.pe_arch sesori_apps_monorepo.Packaging.Native.slices
    sesori_apps_monorepo.Packaging.Native.suffix_of
    sesori_apps_monorepo.Packaging.Native.universal_arch
    sesori_apps_monorepo.Packaging.Octets.from_big
    sesori_apps_monorepo.Packaging.Octets.from_big_after
    sesori_apps_monorepo.Packaging.Octets.from_little sesori_apps_monorepo.Prelude.Exec.lift
    sesori_apps_monorepo.Prelude.Exec.pure sesori_apps_monorepo.Prelude.Exec.raise
    sesori_apps_monorepo.Prelude.Exec.require sesori_apps_monorepo.Prelude.Lists.insert
    sesori_apps_monorepo.Prelude.Lists.sort sesori_apps_monorepo.Prelude.Text.literal
    sesori_apps_monorepo.Prelude.Text.str sesori_apps_monorepo.ReleaseAssets.path_name
    sesori_apps_monorepo.UpdateFeed.Verification.last_slash
listed = refl

inventory-Inventory_example :
    (paths : List String) × (host.rglob "app" bundle ≡ ok paths)
    × Inventory host "app" "linux" "x64" [] bundle paths binaries
    × (binaries ≢ [])
inventory-Inventory_example = inventory-Inventory host "app" "linux" "x64" [] bundle binaries listed

-- the runtime of an AppImage for x64, with 29 sections of 64 octets from 1000 on
abbrev image_header : ElfHeader
image_header = record {
  ident = 282584257676671;
  kind = 2;
  machine = 62;
  version = 1;
  entry = 4096;
  program_offset = 64;
  section_offset = 1000;
  flags = 0;
  header_size = 64;
  program_size = 56;
  program_count = 9;
  section_size = 64;
  section_count = 29;
  names_index = 28;
}

squashfs_start-encode_example :
    squashfs_start (encode image_header ++ 104 ∷ 115 ∷ []) ≡ 1000 + 64 * 29
squashfs_start-encode_example =
    squashfs_start-encode image_header (104 ∷ 115 ∷ []) (omega arith) (omega arith) (omega arith)
