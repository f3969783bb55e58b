-- ===== src/Qualification/Inspection.antt =====
-- `require_macos_build_architecture`, `inspect_gui` and `inspect` of qualify_desktop.py: the evidence
-- of a build that was not started.
use mathlib.Core.List
use sesori_apps_monorepo.Prelude.{
  ◌&&◌, not, String, ◌<>◌, none, some, List, [], ◌∷◌, ◌++◌, ◌==◌, string_eq, if◌then◌else◌,
}
use sesori_apps_monorepo.Prelude.Text.Lines.{strip}
use sesori_apps_monorepo.Prelude.Exec.{
  Result, ok, err, key_error, Exec, pure, lift, require, ◌>>=◌, ◌>>◌, for_each,
}
use sesori_apps_monorepo.Prelude.Read.{ask, test}
use sesori_apps_monorepo.UpdateFeed.Verification.{directory_of, includes}
use sesori_apps_monorepo.Json.{Json, null, boolean, string, array, object, fields_from, items_from}
use sesori_apps_monorepo.Host.{Host, command, command_in, subscript}
use sesori_apps_monorepo.Signing.Keys.{Environment}
use sesori_apps_monorepo.Desktop.Producer.{is_text}
use sesori_apps_monorepo.Desktop.Identity.{required}
use sesori_apps_monorepo.Desktop.Linux.Evidence.{cpu_names, value_at}
use sesori_apps_monorepo.Packaging.Native.{Binary, binary_json, native_arch, inventory}
use sesori_apps_monorepo.Packaging.Formats.{join}
use sesori_apps_monorepo.Packaging.AppImage.{is_native}
use sesori_apps_monorepo.Qualification.Flutter.{
  output_path, flutter_version, last_dash, pinned_flutter, named_value,
}

-- `{"macos": …, "windows": …, "linux": …}[target_os]`
unfoldable pub for_os : String → String → String → String → Result String
for_os macos windows linux target_os =
    if target_os == "macos"
    then ok macos
    else if target_os == "windows"
    then ok windows
    else if target_os == "linux"
    then ok linux
    else err (key_error target_os)

-- `os.environ.get(name)`
unfoldable pub environment_value : Environment → String → Json
environment_value environ name = elim (value_at environ name) [ some v ↦ string v | none ↦ null ]

unfoldable pub runner_image : Environment → Json
unfolding environment_value
runner_image environ = object (
    fields_from (
      ("ImageOS", environment_value environ "ImageOS")
      ∷ ("ImageVersion", environment_value environ "ImageVersion")
      ∷ ("RUNNER_ARCH", environment_value environ "RUNNER_ARCH")
      ∷ []))

abbrev pub binaries_json : List Binary → Json
binaries_json binaries = array (items_from (List.map binary_json binaries))

abbrev pub last_word : List String → String
last_word [] = ""
last_word (x ∷ []) = x
last_word (x ∷ y ∷ ys) = last_word (y ∷ ys)

abbrev pub first_word : List String → String
first_word [] = ""
first_word (x ∷ xs) = x

unfoldable pub ldd_commands : String → List Binary → List (List String)
ldd_commands root binaries = List.map (λ b. "ldd" ∷ (root <> ("/" <> b.path)) ∷ []) binaries

-- the commands that record the toolchain
unfoldable pub toolchain_commands :
    String → String → String → String → List Binary → List Binary → List (List String)
unfolding ldd_commands
toolchain_commands target_os gui helper entry of_gui of_helper =
    if target_os == "macos"
    then ("xcodebuild" ∷ "-version" ∷ [])
      ∷ ("xcrun" ∷ "--show-sdk-version" ∷ [])
      ∷ ("xcrun" ∷ "vtool" ∷ "-show-build" ∷ (gui <> ("/" <> entry)) ∷ [])
      ∷ []
    else if target_os == "linux"
    then ("cmake" ∷ "--version" ∷ [])
      ∷ ("clang" ∷ "--version" ∷ [])
      ∷ (ldd_commands gui of_gui ++ ldd_commands helper of_helper)
    else []

module _ (H : Host) where
  open H use {
    World, exists, which, machine, platform, read_text, loads, dumps, write_text, append_text,
    copytree, run,
  }

  -- one compiled product, which has the one architecture
  unfoldable pub check_product : String → String → String → Exec World (Unit {0})
  check_product gui arch relative = do
    let binary = gui <> ("/" <> relative)
    native ← native_arch H binary
    require (is_native "Mach-O" arch native)
        ("Expected single-architecture macos/" <> (arch <> (" build at " <> binary)))

  unfoldable pub require_macos_build_architecture : String → String → Exec World (Unit {0})
  require_macos_build_architecture gui arch =
      for_each (check_product gui arch)
        ("Contents/MacOS/Sesori" ∷ "Contents/Frameworks/App.framework/App" ∷ [])

  unfoldable pub pinned_sdk : Exec World String
  pinned_sdk = do
    found ← ask (λ w. ok (which "flutter" w))
    lift (required "Pinned Flutter must be on PATH" found)

  -- the command in the repository, without its surrounding blanks
  unfoldable pub stripped : List String → Exec World String
  stripped arguments = do output ← run (command arguments); pure (strip output)

  unfoldable pub inspect_gui : Environment → String → String → String → Exec World (Unit {0})
  inspect_gui environ gui arch source = do
    require_macos_build_architecture gui arch
    sdk ← pinned_sdk
    of_source ← run (command_in source ("git" ∷ "rev-parse" ∷ "HEAD" ∷ []))
    of_tooling ← stripped ("git" ∷ "rev-parse" ∷ "HEAD" ∷ [])
    host_cpu ← lift (named_value cpu_names machine)
    answer ← run (command (sdk ∷ "--version" ∷ "--machine" ∷ []))
    flutter ← lift (loads answer)
    xcode ← stripped ("xcodebuild" ∷ "-version" ∷ [])
    binaries ← inventory H gui "macos" arch []
    let report = object (
        fields_from (
          ("sourceSha", string (strip of_source))
          ∷ ("toolingSourceSha", string of_tooling)
          ∷ ("targetOs", string "macos")
          ∷ ("targetCpu", string arch)
          ∷ ("buildHostCpu", string host_cpu)
          ∷ ("runnerImage", runner_image environ)
          ∷ ("flutter", flutter)
          ∷ ("xcode", string xcode)
          ∷ ("binaries", binaries_json binaries)
          ∷ (
            "proofBoundary",
            string
                "Unsigned GUI compile and headers; not target execution, helper, signing or installed QA",
          )
          ∷ []))
    write_text (directory_of gui <> "/gui-inventory.json") (dumps report <> "\n")

  unfoldable pub check_required : String → Exec World (Unit {0})
  check_required path = do
    there ← ask (test (exists path))
    require there ("Required bundle entry missing: " <> path)

  -- the helper runs from a copy of the bundle, whose path has a space
  unfoldable pub relocated : Environment → String → String → String → Exec World String
  relocated environ helper staged bridge_name = do
    there ← ask (test (exists staged))
    require (not there)
        ("Previous layout probe exists; remove only this probe before rerunning: " <> staged)
    copytree helper staged
    answer ← run (command_in output_path ((staged <> ("/bin/" <> bridge_name)) ∷ "--version" ∷ []))
    let version = strip answer
    require (not (version == "")) "Relocated helper did not report a version"
    elim (value_at environ "GITHUB_ENV") [
      | some path ↦
          append_text path
            ("SESORI_DESKTOP_BRIDGE_PATH=" <> (staged <> ("/bin/" <> (bridge_name <> "\n"))))
      | none ↦ pure tt
    ]
    pure version

  -- one command of the toolchain, with its output in the log; `ldd` may leave nothing unresolved
  unfoldable pub log_command : List String → Exec World (Unit {0})
  log_command arguments = do
    result ← run (command arguments)
    append_text (output_path <> "/native-toolchain.log")
        ("$ " <> (join " " arguments <> ("\n" <> (result <> "\n"))))
    require (not (first_word arguments == "ldd" && includes "not found" result))
        ("Unresolved shared library: " <> (last_word arguments <> "; see native-toolchain.log"))

  unfoldable pub check_sdk : Exec World (String × Json)
  check_sdk = do
    sdk ← pinned_sdk
    answer ← run (command (sdk ∷ "--version" ∷ "--machine" ∷ []))
    version ← lift (loads answer)
    spec ← pinned_flutter H
    (pin, channel) ← lift (flutter_version (last_dash spec))
    installed ← lift (subscript version "frameworkVersion")
    require (is_text installed pin) ("Expected pinned Flutter " <> pin)
    pure (sdk, version)

  unfoldable pub inspect : Environment → String → String → String → Exec World (Unit {0})
  inspect environ target_os arch gui = do
    let helper =
        gui <> ("/" <> (if target_os == "macos" then "Contents/Helpers/bridge" else "bridge"))
    entry ← lift (for_os "Contents/MacOS/Sesori" "sesori_desktop.exe" "sesori_desktop" target_os)
    let bridge_name = if target_os == "windows" then "bridge.exe" else "bridge"
    for_each check_required
        ((gui <> ("/" <> entry)) ∷ (helper <> ("/bin/" <> bridge_name)) ∷ (helper <> "/lib") ∷ [])
    if target_os == "macos" then require_macos_build_architecture gui arch else pure tt
    of_gui ← inventory H gui target_os arch []
    of_helper ← inventory H helper target_os arch []
    layout ← lift (
        for_os "Sesori.app/Contents/Helpers/bridge" "Sesori Desktop/bridge"
          "opt/sesori-desktop/bridge" target_os)
    let staged = output_path <> ("/layout probe/" <> layout)
    relocated_version ← relocated environ helper staged bridge_name
    (sdk, version) ← check_sdk
    status ← stripped ("git" ∷ "diff" ∷ "--name-status" ∷ "HEAD" ∷ [])
    source_sha ← stripped ("git" ∷ "rev-parse" ∷ "HEAD" ∷ [])
    let report = object (
        fields_from (
          ("sourceSha", string source_sha)
          ∷ ("trackedSourceDirty", boolean (not (status == "")))
          ∷ ("trackedSourceStatus", string status)
          ∷ ("targetOs", string target_os)
          ∷ ("nativeHostCpu", string arch)
          ∷ ("hostOs", string platform)
          ∷ ("runnerImage", runner_image environ)
          ∷ ("flutter", version)
          ∷ (
            "binaries",
            object (
                fields_from
                  (("gui", binaries_json of_gui) ∷ ("helper", binaries_json of_helper) ∷ [])),
          )
          ∷ ("relocatedHelperVersion", string relocated_version)
          ∷ (
            "proofBoundary",
            string
                "Unsigned build + native headers + relocated helper --version, not GUI or release QA",
          )
          ∷ []))
    write_text (output_path <> "/inventory.json") (dumps report <> "\n")
    doctor ← run (command (sdk ∷ "doctor" ∷ "-v" ∷ []))
    write_text (output_path <> "/flutter-doctor.log") doctor
    write_text (output_path <> "/native-toolchain.log") ""
    for_each log_command (toolchain_commands target_os gui helper entry of_gui of_helper)
