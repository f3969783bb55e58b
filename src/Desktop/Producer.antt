-- ===== src/Desktop/Producer.antt =====
-- `require_producer` of prepare_desktop_release.py: which workflow runs may supply packages.
-- `current_run_id` is `none` outside of a run.
pub mod Laws
use Prim.Native.Char.{Char, code}
use Prim.Native.String.{[], ◌∷◌}
use sesori_apps_monorepo.Prelude.{
  ℕ, suc, Bool, true, false, ◌&&◌, ◌||◌, not, String, ◌<>◌, Option, none, some, List, [], ◌∷◌,
  contains, ltb, leb, ◌==◌, string_eq, nat_eq, option_eq, if◌then◌else◌,
}
use sesori_apps_monorepo.Prelude.Text.{is_digit, all_chars, char_count}
use sesori_apps_monorepo.Prelude.Exec.{Result, ok}
use sesori_apps_monorepo.Prelude.Read.{Read, pure, lift, require, ◌>>=◌, ◌>>◌}
use sesori_apps_monorepo.Json.{Json, null, number, string, object, Fields, no_fields, find, get}
use sesori_apps_monorepo.Json.Equality.{json_eq}
use sesori_apps_monorepo.Host.{Host, read_json, fields_of}

-- `[0-9a-f]`
unfoldable pub is_hex : Char → Bool
is_hex c = is_digit c || (leb 97 (code c) && leb (code c) 102)

-- `re.fullmatch(r"[0-9a-f]{40}", text)`
unfoldable pub is_sha : String → Bool
is_sha s = all_chars is_hex s && char_count s == 40

-- `isinstance(value, str) and re.fullmatch(…)`
unfoldable pub is_sha_value : Json → Bool
is_sha_value (string s) = is_sha s
is_sha_value _ = false

abbrev pub qualification_workflow : String
qualification_workflow = ".github/workflows/desktop-qualification.yml"

abbrev pub release_workflow : String
release_workflow = ".github/workflows/release-all-platforms.yml"

abbrev pub producer_workflows : List String
producer_workflows =
    qualification_workflow ∷ release_workflow ∷ ".github/workflows/submit-release.yml" ∷ []

-- `value == text`
unfoldable pub is_text : Json → String → Bool
is_text value text = json_eq value (string text)

-- `value in (texts)`
unfoldable pub is_one_of : Json → List String → Bool
is_one_of value [] = false
is_one_of value (text ∷ texts) = is_text value text || is_one_of value texts

-- `value == number` and `value is None`
unfoldable pub is_number : Json → ℕ → Bool
is_number value n = json_eq value (number false n "")

unfoldable pub is_none : Json → Bool
is_none null = true
is_none _ = false

-- `d.get(key, {})`
unfoldable pub get_fields : Fields → String → Result Fields
get_fields d key = elim (find d key) [ some v ↦ fields_of v | none ↦ ok no_fields ]

abbrev pub repository_name : String
repository_name = "sesori-ai/sesori_apps_monorepo"

-- The shared finalizer of the run itself, which is still going
unfoldable pub own_finalizer : Fields → String → ℕ → Option ℕ → Bool
own_finalizer run tooling_sha run_id current_run_id =
    some run_id == current_run_id
    && (is_text (get run "head_sha") tooling_sha
        && (not (is_text (get run "path") qualification_workflow)
            && (not (is_text (get run "status") "completed") && is_none (get run "conclusion"))))

-- the checks of the record of the run
unfoldable pub check_run :
    {World : Type 0} → Fields → String → String → String → ℕ → Option ℕ → Read World (Unit {0})
check_run run source_sha tooling_sha repository run_id current_run_id = do
  require (is_number (get run "id") run_id && ltb 0 run_id) "Wrong packaging run"
  owner ← lift (get_fields run "repository")
  require (is_text (get owner "full_name") repository) "Wrong run repository"
  require (is_one_of (get run "path") producer_workflows) "Wrong producer workflow"
  require (is_text (get run "event") "workflow_dispatch" && is_text (get run "head_branch") "main")
      "Select a main-only manually dispatched producer"
  require (is_sha_value (get run "head_sha")) "Expected immutable producer workflow SHA"
  require
      (is_text (get run "conclusion") "success"
        || own_finalizer run tooling_sha run_id current_run_id)
      "Select a successful producer or its own finalizer"
  require
      (not (is_text (get run "path") release_workflow) || is_text (get run "head_sha") source_sha)
      "Run source differs from selected source"

unfoldable pub require_producer :
    (H : Host) → String → String → String → String → ℕ → Option ℕ → Read H.World Fields
require_producer H root source_sha tooling_sha repository run_id current_run_id = do
  require (is_sha source_sha) "Expected immutable source SHA"
  require (is_sha tooling_sha) "Expected immutable tooling SHA"
  require (repository == repository_name) "Unexpected producer repository"
  run ← read_json H (root <> "/run.json")
  check_run run source_sha tooling_sha repository run_id current_run_id
  pure run
