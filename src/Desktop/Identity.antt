-- ===== src/Desktop/Identity.antt =====
-- What both preparations ask of a bundle: its version and build number, the defines that it was
-- compiled with, and the evidence of a clean source.
use sesori_apps_monorepo.Prelude.{
  ℕ, false, ◌&&◌, String, ◌<>◌, Option, none, some, List, [], ◌∷◌, ltb, ◌==◌, string_eq, nat_eq,
  if◌then◌else◌,
}
use sesori_apps_monorepo.Prelude.Text.{is_clean_version, str}
use sesori_apps_monorepo.Prelude.Text.Lines.{splitlines, split_once}
use sesori_apps_monorepo.Prelude.Exec.{Result, ok, err, value_error, key_error}
use sesori_apps_monorepo.Prelude.Read.{Read, test, lift, require, ◌>>=◌, ◌>>◌, collect}
use sesori_apps_monorepo.Json.{Json, number, string, object, Fields}
use sesori_apps_monorepo.Json.Equality.{json_eq}
use sesori_apps_monorepo.Host.{Host, size_of}

-- `isinstance(value, str) and re.fullmatch(…, value)`
unfoldable pub clean_version : Json → Option String
clean_version (string s) = if is_clean_version s then some s else none
clean_version _ = none

-- `type(value) is int and value > 0`
unfoldable pub positive_int : Json → Option ℕ
positive_int (number false n f) = if f == "" && ltb 0 n then some n else none
positive_int _ = none

unfoldable pub required : {A : Type 0} → String → Option A → Result A
required message none = err (value_error message)
required message (some a) = ok a

-- `dict(line.split("=", 1) for line in …)`: a line without the sign raises
unfoldable pub define_line : {World : Type 0} → String → Read World (String × String)
define_line line = lift (required "dictionary update sequence element" (split_once "=" line))

-- `defines[key]`: the last line of a key counts
unfoldable pub last_define : String → List (String × String) → Option String
last_define key [] = none
last_define key ((k, v) ∷ rest) = elim (last_define key rest) [
  | some w ↦ some w
  | none ↦ if k == key then some v else none
]

unfoldable pub define : List (String × String) → String → Result String
define defines key = elim (last_define key defines) [ some v ↦ ok v | none ↦ err (key_error key) ]

abbrev pub release_tag : String → String → ℕ → String
release_tag channel version build_number =
    if channel == "internal"
    then "v" <> (version <> ("-internal." <> str build_number))
    else "v" <> version

module _ (H : Host) where
  open H use {World, exists, read_text, loads}

  unfoldable pub read_defines : String → Read World (List (String × String))
  read_defines path = do text ← read_text path; collect define_line (splitlines text)

  -- the bundle was compiled as it is sealed, for the channel
  unfoldable pub check_compiled : String → Fields → String → Read World (Unit {0})
  check_compiled bundle identity channel = do
    defines ← read_defines (bundle <> "/dart-defines.env")
    text ← lift (define defines "SESORI_DESKTOP_BUNDLE_IDENTITY")
    compiled ← lift (loads text)
    require (json_eq compiled (object identity)) "Compiled identity differs from sealed bundle"
    built ← lift (define defines "SESORI_DESKTOP_RELEASE_CHANNEL")
    require (built == channel) "Cannot relabel compiled channel"

  -- the patch of the source is there, and empty
  unfoldable pub check_clean : String → Read World (Unit {0})
  check_clean bundle = do
    there ← test (exists (bundle <> "/build-source-changes.patch"))
    require there "Missing clean-source evidence or modified source"
    size ← size_of H (bundle <> "/build-source-changes.patch")
    require (size == 0) "Missing clean-source evidence or modified source"
