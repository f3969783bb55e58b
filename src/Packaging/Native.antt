-- ===== src/Packaging/Native.antt =====
-- `native_arch` and `inventory` of qualify_desktop.py: the architectures that the header of a binary
-- states, and the native binaries of a bundle.
pub mod Headers
pub mod Laws
use Prim.Native.Char.{code}
use Prim.Native.String.{[], ◌∷◌}
use sesori_apps_monorepo.Prelude.{
  ℕ, zero, suc, Bool, true, false, ◌&&◌, ◌||◌, not, String, ◌<>◌, Option, none, some, List, [], ◌∷◌,
  contains, ◌==◌, string_eq, nat_eq, if◌then◌else◌,
}
use sesori_apps_monorepo.Prelude.Text.{str, text_lt}
use sesori_apps_monorepo.Prelude.Lists.{take, drop, sort}
use sesori_apps_monorepo.Prelude.Exec.{
  Result, ok, err, value_error, key_error, Exec, pure, lift, require, ◌>>=◌, ◌>>◌,
}
use sesori_apps_monorepo.Prelude.Read.{ask, test}
use sesori_apps_monorepo.LinuxRepository.Retention.Prune.{removeprefix}
use sesori_apps_monorepo.ReleaseAssets.{path_name}
use sesori_apps_monorepo.Json.{Json, string, array, object, count_of, items_from, fields_from}
use sesori_apps_monorepo.Host.{Host, digest_of, size_of}
use sesori_apps_monorepo.Packaging.Octets.{octet, same_octets, unpack}

-- the format of a binary and the architectures of its parts
abbrev pub Native : Type 0
Native = String × List String

unfoldable pub name_for : List (ℕ × String) → ℕ → String
name_for [] machine = "unknown-" <> str machine
name_for ((m, name) ∷ rest) machine = if m == machine then name else name_for rest machine

abbrev pub elf_machines : List (ℕ × String)
elf_machines = (62, "x64") ∷ (183, "arm64") ∷ []

abbrev pub pe_machines : List (ℕ × String)
pe_machines = (34404, "x64") ∷ (43620, "arm64") ∷ []

-- `MACH_CPUS`
abbrev pub mach_cpus : List (ℕ × String)
mach_cpus = (16777223, "x64") ∷ (16777228, "arm64") ∷ []

-- one architecture in a format
unfoldable pub single : String → List (ℕ × String) → Result ℕ → Result (Option Native)
unfolding name_for
single format names (ok machine) = ok (some (format, name_for names machine ∷ []))
single format names (err e) = err e

abbrev pub with_number : {A : Type 0} → Result ℕ → (ℕ → Result A) → Result A
with_number (ok n) f = f n
with_number (err e) f = err e

-- `header[5] == 1` says that numbers are little-endian
unfoldable pub elf_arch : List ℕ → Result (Option Native)
elf_arch header =
    with_number (octet header 5)
      (λ class. single "ELF" elf_machines (unpack (class == 1) 2 header 18))

-- the header of PE, where the word at 60 points to
unfoldable pub pe_arch : String → List ℕ → List ℕ → Result (Option Native)
pe_arch path octets header = with_number (unpack true 4 header 60) λ offset.
    let pe = take 6 (drop offset octets) in
    if same_octets (take 4 pe) (80 ∷ 69 ∷ 0 ∷ 0 ∷ [])
    then single "PE" pe_machines (unpack true 2 pe 4)
    else err (value_error ("Invalid PE header: " <> path))

-- the slices of a universal binary, of `size` octets each; as many as the header says
unfoldable pub slices : ℕ → ℕ → List ℕ → Result (List String)
unfolding name_for
slices zero size octets = ok []
slices (suc count) size octets =
    let rest = slices count size (drop size octets) in
    with_number (unpack false 4 (take size octets) 0)
      λ machine. elim rest [ ok names ↦ ok (name_for mach_cpus machine ∷ names) | err e ↦ err e ]

unfoldable pub universal_arch : List ℕ → List ℕ → ℕ → Result (Option Native)
universal_arch octets header size = with_number (unpack false 4 header 4) λ count.
    elim (slices count size (drop 8 octets)) [
      | ok names ↦ ok (some ("Mach-O", sort text_lt names))
      | err e ↦ err e
    ]

-- `native_arch` of the bytes of a file
unfoldable pub arch_of : String → List ℕ → Result (Option Native)
arch_of path octets =
    let header = take 64 octets in
    let magic = take 4 header in
    if same_octets magic (127 ∷ 69 ∷ 76 ∷ 70 ∷ [])
    then elf_arch header
    else if same_octets (take 2 header) (77 ∷ 90 ∷ [])
    then pe_arch path octets header
    else if same_octets magic (207 ∷ 250 ∷ 237 ∷ 254 ∷ [])
    then single "Mach-O" mach_cpus (unpack true 4 header 4)
    else if same_octets magic (202 ∷ 254 ∷ 186 ∷ 190 ∷ [])
    then universal_arch octets header 20
    else if same_octets magic (202 ∷ 254 ∷ 186 ∷ 191 ∷ [])
    then universal_arch octets header 32
    else ok none

-- A file of the inventory
pub record Binary : Type 0 where
  pub path : String
  pub format : String
  pub architectures : List String
  pub sha256 : String
  pub bytes : ℕ

unfoldable pub strings_json : List String → List Json
strings_json [] = []
strings_json (x ∷ xs) = string x ∷ strings_json xs

unfoldable pub binary_json : Binary → Json
unfolding strings_json
binary_json binary = object (
    fields_from (
      ("path", string binary.path)
      ∷ ("format", string binary.format)
      ∷ ("architectures", array (items_from (strings_json binary.architectures)))
      ∷ ("sha256", string binary.sha256)
      ∷ ("bytes", count_of binary.bytes)
      ∷ []))

-- `{"macos": "Mach-O", …}[target_os]`
unfoldable pub platform_format : String → Result String
platform_format target_os =
    if target_os == "macos"
    then ok "Mach-O"
    else if target_os == "windows"
    then ok "PE"
    else if target_os == "linux"
    then ok "ELF"
    else err (key_error target_os)

-- Flutter's snapshot is ELF on Windows too.
unfoldable pub expected_format : String → String → String → String
expected_format target_os relative_path format =
    if target_os == "windows" && relative_path == "data/app.so" then "ELF" else format

-- the text behind the last dot, with the text before it
unfoldable pub last_dot : String → Option (String × String)
last_dot [] = none
last_dot (c ∷ s) = elim (last_dot s) [
  | some (before, after) ↦ some (c ∷ before, after)
  | none ↦ if code c == 46 then some ([], s) else none
]

-- `path.suffix`: nothing where the only dot begins or ends the name
unfoldable pub suffix_of : String → String
suffix_of path = elim (last_dot (path_name path)) [
  | some (before, after) ↦ if before == "" || after == "" then "" else "." <> after
  | none ↦ ""
]

-- `path.suffix in (".exe", ".dll", ".dylib", ".so")`
unfoldable pub has_native_suffix : String → Bool
has_native_suffix path = contains (".exe" ∷ ".dll" ∷ ".dylib" ∷ ".so" ∷ []) (suffix_of path)

abbrev pub has_entries : List Binary → Bool
has_entries [] = false
has_entries (x ∷ xs) = true

module _ (H : Host) where
  open H use {World, read_bytes, rglob, is_file, is_symlink, octets}

  unfoldable pub native_arch : String → Exec World (Option Native)
  native_arch path = do body ← ask (read_bytes path); lift (arch_of path (octets body))

  -- a file whose header is no native one, and which is not named like a library
  unfoldable pub skip : String → Exec World (Option Binary)
  skip path = do
    require (not (has_native_suffix path)) ("Unrecognized native library/executable: " <> path)
    pure none

  unfoldable pub entry :
      String → String → String → String → Option Native → Exec World (Option Binary)
  entry target_os arch path relative_path none = skip path
  entry target_os arch path relative_path (some (format, arches)) = do
    platform ← lift (platform_format target_os)
    require (format == expected_format target_os relative_path platform && contains arches arch)
        ("Wrong native target: " <> path)
    digest ← ask (digest_of H path)
    size ← ask (size_of H path)
    pure (
        some (record {
          path = relative_path;
          format = format;
          architectures = arches;
          sha256 = digest;
          bytes = size;
        }))

  -- one round of the loop: nothing for a path that is no file, is a link or is ignored
  unfoldable pub inspect_path :
      String → String → String → List String → String → Exec World (Option Binary)
  inspect_path root target_os arch ignored path = do
    there ← ask (test (is_file path))
    link ← ask (test (is_symlink path))
    let relative_path = removeprefix (root <> "/") path
    if not there || link || contains ignored relative_path
        then pure none
        else (do native ← native_arch path; entry target_os arch path relative_path native)

  unfoldable pub inspect_paths :
      String → String → String → List String → List String → Exec World (List Binary)
  inspect_paths root target_os arch ignored [] = pure []
  inspect_paths root target_os arch ignored (path ∷ paths) = do
    found ← inspect_path root target_os arch ignored path
    rest ← inspect_paths root target_os arch ignored paths
    pure (elim found [ some binary ↦ binary ∷ rest | none ↦ rest ])

  unfoldable pub inventory : String → String → String → List String → Exec World (List Binary)
  inventory root target_os arch ignored = do
    format ← lift (platform_format target_os)
    paths ← ask (rglob root)
    entries ← inspect_paths root target_os arch ignored paths
    require (has_entries entries) ("No native binaries found in " <> root)
    pure entries
