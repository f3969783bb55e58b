-- ===== src/Packaging/Audit.antt =====
-- `linux_plugin_packages` and `audit_dynamic_loading` of package_desktop_linux.py: no plugin of the
-- app may load a library by hand, since no scanner of dependencies would see it.
use Prim.Native.String.{[], ◌∷◌}
use sesori_apps_monorepo.Prelude.{
  ℕ, Bool, true, false, ◌&&◌, ◌||◌, not, String, ◌<>◌, Option, none, some, List, [], ◌∷◌, ◌++◌,
  contains, leb, ◌==◌, string_eq, nat_eq, if◌then◌else◌,
}
use sesori_apps_monorepo.Prelude.Text.{literal}
use sesori_apps_monorepo.Prelude.Text.Lines.{words, is_blank, split_once}
use sesori_apps_monorepo.Prelude.Lists.{select}
use sesori_apps_monorepo.Prelude.Exec.{
  Result, ok, err, value_error, Exec, pure, lift, require, ◌>>=◌, ◌>>◌,
}
use sesori_apps_monorepo.Prelude.Read.{ask, test}
use sesori_apps_monorepo.LinuxRepository.Retention.Prune.{removeprefix}
use sesori_apps_monorepo.BridgeSignatures.{named, asset_named}
use sesori_apps_monorepo.Json.{Json, array, object, items_from, fields_from}
use sesori_apps_monorepo.Host.{Host, subscript, text_of, items_of}
use sesori_apps_monorepo.Packaging.Native.{suffix_of, strings_json}

abbrev pub linux_plugins : String
linux_plugins = "client/desktop/linux/flutter/generated_plugins.cmake"

-- blanks, and then the text up to the next closing parenthesis
unfoldable pub list_body : String → Option String
list_body [] = none
list_body (c ∷ s) =
    if is_blank c
    then elim (split_once ")" s) [ some (body, rest) ↦ some body | none ↦ none ]
    else none

-- `re.search(r"list\(APPEND FLUTTER_PLUGIN_LIST\s+(.*?)\)", contents, re.DOTALL)`; the group may
-- begin with blanks, which `split` drops
unfoldable pub plugin_list : String → Option String
unfolding list_body
plugin_list [] = none
plugin_list (c ∷ s) =
    let more = plugin_list s in
    elim (literal "list(APPEND FLUTTER_PLUGIN_LIST" (c ∷ s)) [
      | some rest ↦ elim (list_body rest) [ some body ↦ some body | none ↦ more ]
      | none ↦ more
    ]

unfoldable pub plugin_names : Option String → Result (List String)
plugin_names none = err (value_error ("Could not read FLUTTER_PLUGIN_LIST from " <> linux_plugins))
plugin_names (some body) = elim (words body) [
  | [] ↦ err (value_error ("FLUTTER_PLUGIN_LIST is empty in " <> linux_plugins))
  | name ∷ names ↦ ok (name ∷ names)
]

-- `\w` and `\s` on octets
unfoldable pub is_word : ℕ → Bool
is_word n =
    (leb 48 n && leb n 57) || ((leb 65 n && leb n 90) || (n == 95 || (leb 97 n && leb n 122)))

unfoldable pub is_space : ℕ → Bool
is_space n = n == 32 || (leb 9 n && leb n 13)

-- `\s*\(`
unfoldable pub opens : List ℕ → Bool
unfolding is_space
opens [] = false
opens (n ∷ ns) = let more = opens ns in n == 40 || (is_space n && more)

-- an octet sequence that the expression asks for, with what must follow
unfoldable pub calls : List ℕ → List ℕ → Bool
unfolding opens
calls [] octets = opens octets
calls (a ∷ name) [] = false
calls (a ∷ name) (n ∷ ns) = a == n && calls name ns

abbrev pub dlopen_octets : List ℕ
dlopen_octets = 100 ∷ 108 ∷ 111 ∷ 112 ∷ 101 ∷ 110 ∷ []

abbrev pub dynamic_library_octets : List ℕ
dynamic_library_octets =
    68 ∷ 121 ∷ 110 ∷ 97 ∷ 109 ∷ 105 ∷ 99 ∷ 76 ∷ 105 ∷ 98 ∷ 114 ∷ 97 ∷ 114 ∷ 121 ∷ 46 ∷ 111 ∷ 112
    ∷ 101 ∷ 110 ∷ []

-- `DYNAMIC_LOAD_PATTERN.search(octets)`; `inside` says whether a word character stands before
unfoldable pub loads_dynamically : Bool → List ℕ → Bool
unfolding calls is_word
loads_dynamically inside [] = false
loads_dynamically inside (n ∷ ns) =
    (not inside && (calls dlopen_octets (n ∷ ns) || calls dynamic_library_octets (n ∷ ns)))
    || loads_dynamically (is_word n) ns

abbrev pub source_suffixes : List String
source_suffixes = ".c" ∷ ".cc" ∷ ".cpp" ∷ ".h" ∷ ".hpp" ∷ ".dart" ∷ []

unfoldable pub is_source : String → Bool
is_source path = contains source_suffixes (suffix_of path)

-- The files that were scanned, and those that load a library by hand
abbrev pub Scan : Type 0
Scan = List String × List String

module _ (H : Host) where
  open H use {World, is_dir, read_text, read_bytes, rglob, octets, loads, urlparse, unquote}

  unfoldable pub linux_plugin_packages : Exec World (List String)
  linux_plugin_packages = do
    contents ← ask (read_text linux_plugins)
    lift (plugin_names (plugin_list contents))

  unfoldable pub scan_sources : String → String → List String → Exec World Scan
  scan_sources name root [] = pure ([], [])
  scan_sources name root (source ∷ sources) = do
    body ← ask (read_bytes source)
    let shown = name <> ("/" <> removeprefix (root <> "/") source)
    (scanned, findings) ← scan_sources name root sources
    pure (
      shown ∷ scanned,
      (if loads_dynamically false (octets body) then shown ∷ findings else findings),
    )

  -- the root of the sources of a plugin, which must be on this machine
  unfoldable pub plugin_root : String → Json → Exec World String
  plugin_root name package' = do
    field ← lift (subscript package' "rootUri")
    uri ← lift (text_of field)
    let (scheme, path) = urlparse uri
    require (scheme == "file")
        ("Linux plugin source is not local file URI: " <> (name <> (": " <> uri)))
    pure (unquote path)

  unfoldable pub scan_plugin : List (String × Json) → String → Exec World Scan
  scan_plugin packages name = do
    package' ← lift (elim (asset_named name packages) [
      | some found ↦ ok found
      | none ↦ err (value_error ("Required Linux plugin missing from package config: " <> name))
    ])
    root ← plugin_root name package'
    there ← ask (test (is_dir (root <> "/linux")))
    require there ("Linux plugin source missing: " <> (root <> "/linux"))
    paths ← ask (rglob (root <> "/linux"))
    scan_sources name root (select is_source paths)

  unfoldable pub scan_plugins : List (String × Json) → List String → Exec World Scan
  scan_plugins packages [] = pure ([], [])
  scan_plugins packages (name ∷ names) = do
    (scanned, findings) ← scan_plugin packages name
    (more, others) ← scan_plugins packages names
    pure (scanned ++ more, findings ++ others)

  abbrev pub no_findings : List String → Bool
  no_findings [] = true
  no_findings (x ∷ xs) = false

  unfoldable pub audit_dynamic_loading : String → Exec World Json
  audit_dynamic_loading package_config = do
    text ← ask (read_text package_config)
    config ← lift (loads text)
    field ← lift (subscript config "packages")
    items ← lift (items_of field)
    packages ← lift (named items)
    audited ← linux_plugin_packages
    (scanned, findings) ← scan_plugins packages audited
    require (no_findings findings)
        "Explicit dynamic loading requires a source-derived package dependency"
    pure (
        object (
          fields_from (
            ("packages", array (items_from (strings_json audited)))
            ∷ ("files", array (items_from (strings_json scanned)))
            ∷ ("explicitDependencies", array (items_from []))
            ∷ [])))
