-- ===== src/Packaging/Formats.antt =====
-- `deb_dependencies`, `build_deb` and `build_rpm` of package_desktop_linux.py. `Built` is a package
-- with what its report says of it.
use mathlib.Core.List
use sesori_apps_monorepo.Prelude.{
  Bool, true, false, ◌&&◌, not, String, ◌<>◌, Option, none, some, List, [], ◌∷◌, ◌++◌, starts_with,
  string_eq, nat_eq, if◌then◌else◌,
}
use sesori_apps_monorepo.Prelude.Lists.{sort}
use sesori_apps_monorepo.Prelude.Text.{text_lt}
use sesori_apps_monorepo.Prelude.Text.Lines.{splitlines}
use sesori_apps_monorepo.Prelude.Exec.{
  Result, ok, err, runtime_error, key_error, Exec, pure, lift, ◌>>=◌, ◌>>◌, for_each,
}
use sesori_apps_monorepo.Prelude.Read.{ask, test}
use sesori_apps_monorepo.UpdateFeed.Verification.{directory_of, includes, distinct}
use sesori_apps_monorepo.LinuxRepository.Retention.Prune.{removeprefix}
use sesori_apps_monorepo.ReleaseAssets.{path_name}
use sesori_apps_monorepo.Json.{Json, string, array, Fields, items_from}
use sesori_apps_monorepo.Host.{Host, command_in, index, shown}
use sesori_apps_monorepo.Signing.Keys.{Environment, with_value}
use sesori_apps_monorepo.Desktop.Linux.Evidence.{value_at}
use sesori_apps_monorepo.Packaging.Native.{native_arch, strings_json}
use sesori_apps_monorepo.Packaging.Bundle.{install_path}
use sesori_apps_monorepo.Packaging.Ownership.{rpm_key, rpm_repository}

abbrev pub desktop_package : String
desktop_package = "sesori-desktop"

abbrev pub dlopen_deb_dependencies : String
dlopen_deb_dependencies = "libegl1, libgles2"

abbrev pub dlopen_rpm_requires : List String
dlopen_rpm_requires = "libEGL.so.1()(64bit)" ∷ "libGLESv2.so.2()(64bit)" ∷ []

abbrev pub voice_deb_recommends : String
voice_deb_recommends = "pulseaudio-utils, ffmpeg"

abbrev pub voice_rpm_recommends : List String
voice_rpm_recommends = "/usr/bin/parecord" ∷ "/usr/bin/ffmpeg" ∷ []

-- The path of the package, and the fields that it adds to the report
abbrev pub Built : Type 0
Built = String × List (String × Json)

-- `separator.join(texts)`
unfoldable pub join : String → List String → String
join separator [] = ""
join separator (x ∷ []) = x
join separator (x ∷ y ∷ ys) = x <> (separator <> join separator (y ∷ ys))

unfoldable pub library_option : List String → List String
unfolding join
library_option [] = []
library_option (d ∷ ds) = ("-l" <> join ":" (d ∷ ds)) ∷ []

-- a line for each text
unfoldable pub lines_with : String → List String → String
lines_with prefix [] = ""
lines_with prefix (x ∷ xs) = prefix <> (x <> ("\n" <> lines_with prefix xs))

-- `{"x64": …, "arm64": …}[arch]`
unfoldable pub arch_name : List (String × String) → String → Result String
arch_name names arch = elim (value_at names arch) [
  | some name ↦ ok name
  | none ↦ err (key_error arch)
]

abbrev pub debian_architectures : List (String × String)
debian_architectures = ("x64", "amd64") ∷ ("arm64", "arm64") ∷ []

abbrev pub rpm_architectures : List (String × String)
rpm_architectures = ("x64", "x86_64") ∷ ("arm64", "aarch64") ∷ []

-- the first line of the dependencies
unfoldable pub depends_line : List String → Option String
depends_line [] = none
depends_line (line ∷ lines) =
    if starts_with line "shlibs:Depends=" then some line else depends_line lines

unfoldable pub depends_of : String → Option String → Result String
depends_of output none =
    err (runtime_error ("dpkg-shlibdeps emitted no dependency manifest: " <> output))
depends_of output (some line) =
    ok (removeprefix "shlibs:Depends=" line <> (", " <> dlopen_deb_dependencies))

-- `".so" in path.name`
unfoldable pub select_libraries : List String → List String
select_libraries [] = []
select_libraries (path ∷ paths) =
    let more = select_libraries paths in
    if includes ".so" (path_name path) then path ∷ more else more

-- the directories of the shared libraries, each once and sorted
unfoldable pub library_directories : List String → List String
library_directories binaries =
    sort text_lt (distinct (List.map directory_of (select_libraries binaries)))

module _ (H : Host) where
  open H use {World, is_file, is_symlink, rglob, glob, write_text, mkdir, copyfile, copytree, run}

  abbrev pub package_path : String → String → Json → Json → String → String
  package_path output arch version build extension =
      output
      <> ("/Sesori-linux-"
          <> (arch <> ("-" <> (shown H version <> ("-" <> (shown H build <> ("." <> extension)))))))

  -- one path of `elf_files`, which keeps the files with a native header
  unfoldable pub is_elf_file : String → Exec World Bool
  is_elf_file path = do
    there ← ask (test (is_file path))
    link ← ask (test (is_symlink path))
    if there && not link
        then (do
          native ← native_arch H path
          pure (elim native [ some found ↦ true | none ↦ false ]))
        else pure false

  unfoldable pub elf_among : List String → Exec World (List String)
  elf_among [] = pure []
  elf_among (path ∷ paths) = do
    native ← is_elf_file path
    more ← elf_among paths
    pure (if native then path ∷ more else more)

  unfoldable pub elf_files : String → Exec World (List String)
  elf_files root = do paths ← ask (rglob root); elf_among paths

  abbrev pub shlibdeps_command : List String → List String → List String
  shlibdeps_command library_dirs binaries =
      ("dpkg-shlibdeps" ∷ "-O" ∷ [])
      ++ (library_option library_dirs ++ List.map (λ path. "-e" <> path) binaries)

  unfoldable pub deb_dependencies :
      Environment → String → String → Exec World (String × List String)
  deb_dependencies environ root work = do
    mkdir (work <> "/debian")
    write_text (work <> "/debian/control") (
        "Source: "
        <> (desktop_package
            <> ("\nSection: devel\nPriority: optional\nMaintainer: Sesori <support@sesori.com>\n\nPackage: "
                <> (desktop_package
                    <> "\nArchitecture: any\nDescription: Sesori desktop cockpit\n"))))
    binaries ← elf_files (root <> ("/" <> install_path))
    let library_dirs = library_directories binaries
    let arguments = shlibdeps_command library_dirs binaries
    output ← run (record {
      arguments = arguments;
      env = some (with_value "LD_LIBRARY_PATH" (join ":" library_dirs) environ);
      input = none;
      cwd = some work;
    })
    dependencies ← lift (depends_of output (depends_line (splitlines output)))
    pure (dependencies, arguments)

  abbrev pub deb_control : Json → Json → String → String → String
  deb_control version build debian_arch dependencies =
      "Package: "
      <> (desktop_package
          <> ("\nVersion: "
              <> (shown H version
                  <> ("-"
                      <> (shown H build
                          <> ("\nArchitecture: "
                              <> (debian_arch
                                  <> ("\nMaintainer: Sesori <support@sesori.com>\nSection: devel\nPriority: optional\nDepends: "
                                      <> (dependencies
                                          <> ("\nRecommends: "
                                              <> (voice_deb_recommends
                                                  <> "\nDescription: Sesori desktop cockpit\n")))))))))))

  unfoldable pub build_deb :
      Environment → String → String → String → String → Fields → Exec World Built
  build_deb environ root work output arch identity = do
    (dependencies, dependency_command) ← deb_dependencies environ root work
    debian_arch ← lift (arch_name debian_architectures arch)
    mkdir (root <> "/DEBIAN")
    version ← lift (index identity "version")
    build ← lift (index identity "buildNumber")
    write_text (root <> "/DEBIAN/control") (deb_control version build debian_arch dependencies)
    let package' = package_path output arch version build "deb"
    run (command_in work ("dpkg-deb" ∷ "--root-owner-group" ∷ "--build" ∷ root ∷ package' ∷ []))
    metadata ← run (command_in work ("dpkg-deb" ∷ "--field" ∷ package' ∷ []))
    contents ← run (command_in work ("dpkg-deb" ∷ "--contents" ∷ package' ∷ []))
    pure (
      package',
      ("dependencies", string dependencies)
          ∷ ("dependencyCommand", array (items_from (strings_json dependency_command)))
          ∷ ("metadata", string metadata)
          ∷ ("packageFiles", array (items_from (strings_json (splitlines contents))))
          ∷ [],
    )

  abbrev pub rpm_spec : Json → Json → String → String
  rpm_spec version build rpm_arch =
      "%global __strip /bin/true\n%global debug_package %{nil}\nName: "
      <> (desktop_package
          <> ("\nVersion: "
              <> (shown H version
                  <> ("\nRelease: "
                      <> (shown H build
                          <> ("%{?dist}\nSummary: Sesori desktop cockpit\nLicense: Proprietary\nBuildArch: "
                              <> (rpm_arch
                                  <> ("\nAutoReqProv: yes\n"
                                      <> (lines_with "Requires: " dlopen_rpm_requires
                                          <> (lines_with "Recommends: " voice_rpm_recommends
                                              <> ("\n%description\nSesori desktop cockpit\n\n%prep\n\n%build\n\n%install\nmkdir -p %{buildroot}\ncp -a %{_sourcedir}/payload/. %{buildroot}/\n\n%files\n/opt/sesori-desktop\n/usr/bin/sesori-desktop\n/usr/share/applications/sesori-desktop.desktop\n/usr/share/icons/hicolor/512x512/apps/sesori-desktop.png\n"
                                                  <> ("/"
                                                      <> (rpm_key
                                                          <> ("\n%config(noreplace) /"
                                                            <> (rpm_repository
                                                            <> "\n")))))))))))))))

  -- the one package that rpmbuild wrote
  unfoldable pub single_rpm : List String → Result String
  single_rpm (built ∷ []) = ok built
  single_rpm _ = err (runtime_error "rpmbuild produced no or several binary packages")

  unfoldable pub build_rpm : String → String → String → String → Fields → Exec World Built
  build_rpm root work output arch identity = do
    let top = work <> "/rpmbuild"
    for_each (λ directory. mkdir (top <> ("/" <> directory)))
        ("BUILD" ∷ "BUILDROOT" ∷ "RPMS" ∷ "SOURCES" ∷ "SPECS" ∷ "SRPMS" ∷ [])
    copytree root (top <> "/SOURCES/payload")
    rpm_arch ← lift (arch_name rpm_architectures arch)
    let spec = top <> "/SPECS/sesori-desktop.spec"
    version ← lift (index identity "version")
    build ← lift (index identity "buildNumber")
    write_text spec (rpm_spec version build rpm_arch)
    let arguments = "rpmbuild" ∷ "-bb" ∷ "--define" ∷ ("_topdir " <> top) ∷ spec ∷ []
    run (command_in work arguments)
    found ← ask (glob (top <> ("/RPMS/" <> rpm_arch)) "*.rpm")
    built ← lift (single_rpm found)
    let package' = package_path output arch version build "rpm"
    copyfile built package'
    dependencies ← run (command_in work ("rpm" ∷ "-qp" ∷ "--requires" ∷ package' ∷ []))
    metadata ← run (command_in work ("rpm" ∷ "-qip" ∷ package' ∷ []))
    contents ← run (command_in work ("rpm" ∷ "-qlp" ∷ package' ∷ []))
    pure (
      package',
      ("dependencies", array (items_from (strings_json (splitlines dependencies))))
          ∷ ("dependencyCommand", array (items_from (strings_json arguments)))
          ∷ ("metadata", string metadata)
          ∷ ("packageFiles", array (items_from (strings_json (splitlines contents))))
          ∷ [],
    )
