-- ===== src/RemoteConfig/Template.antt =====
-- `_read_existing_build` and `_updated_template` of publish_firebase_analytics_release_cutoff.py.
pub mod Laws
use sesori_apps_monorepo.Prelude.{
  ℕ, Bool, ◌||◌, String, ◌<>◌, Option, none, some, ◌==◌, nat_eq, if◌then◌else◌,
}
use sesori_apps_monorepo.Prelude.Text.{str}
use sesori_apps_monorepo.Prelude.Exec.{Result, ok, err, publication_error}
use sesori_apps_monorepo.Json.{
  Json, null, string, object, Fields, no_fields, field, find, get, set, pop, int,
}

abbrev pub parameter_key : String
parameter_key = "android_latest_production_submission_build"

abbrev pub parameter_description : String
parameter_description =
    "Latest Android build successfully submitted to the Google Play production track."

unfoldable pub read_build : Option (Bool × ℕ) → Result (Option ℕ)
read_build none =
    err (publication_error ("Remote Config parameter " <> parameter_key <> " is not an integer"))
read_build (some (negative, build_number)) =
    if negative || build_number == 0
    then err (
        publication_error (
          "Remote Config parameter "
          <> parameter_key
          <> " must be positive, got "
          <> (if negative then "-" else "")
          <> str build_number))
    else ok (some build_number)

unfoldable pub read_value : Option Json → Result (Option ℕ)
unfolding read_build
read_value none =
    err (publication_error ("Remote Config parameter " <> parameter_key <> " has no default value"))
read_value (some value) = read_build (int value)

unfoldable pub read_default : Json → Result (Option ℕ)
unfolding read_value
read_default (object default_value) = read_value (find default_value "value")
read_default _ =
    err (publication_error ("Remote Config parameter " <> parameter_key <> " has no default value"))

unfoldable pub read_parameter : Json → Result (Option ℕ)
unfolding read_default
read_parameter null = ok none
read_parameter (object parameter) = read_default (get parameter "defaultValue")
read_parameter _ =
    err (publication_error ("Remote Config parameter " <> parameter_key <> " must be an object"))

unfoldable pub read_parameters : Json → Result (Option ℕ)
unfolding read_parameter
read_parameters null = ok none
read_parameters (object parameters) = read_parameter (get parameters parameter_key)
read_parameters _ = err (publication_error "Remote Config template parameters must be an object")

unfoldable pub read_existing_build : Fields → Result (Option ℕ)
unfolding read_parameters
read_existing_build template = read_parameters (get template "parameters")

-- the value that `d.setdefault(key, {})` gives
unfoldable pub or_empty : Option Json → Json
or_empty none = object no_fields
or_empty (some v) = v

unfoldable pub updated_parameter : ℕ → Json → Result Json
updated_parameter build_number (object parameter) = ok (
    object (
      set
        (set parameter "defaultValue"
          (object (field "value" (string (str build_number)) no_fields)))
        "description" (string parameter_description)))
updated_parameter build_number _ =
    err (publication_error ("Remote Config parameter " <> parameter_key <> " must be an object"))

unfoldable pub updated_parameters : ℕ → Json → Result Json
updated_parameters build_number (object parameters) =
    elim (updated_parameter build_number (or_empty (find parameters parameter_key))) [
      | ok parameter ↦ ok (object (set parameters parameter_key parameter))
      | err e ↦ err e
    ]
updated_parameters build_number _ =
    err (publication_error "Remote Config template parameters must be an object")

unfoldable pub updated_template : Fields → ℕ → Result Fields
updated_template template build_number =
    let updated = pop template "version" in
    elim (updated_parameters build_number (or_empty (find updated "parameters"))) [
      | ok parameters ↦ ok (set updated "parameters" parameters)
      | err e ↦ err e
    ]
