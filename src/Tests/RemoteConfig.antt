-- ===== src/Tests/RemoteConfig.antt =====
-- Publications of the analytics cutoff against a server in memory that lets one write through.
use text.Mathlib.TextEquality.{eq_iff}
use sesori_apps_monorepo.Prelude.{
  ◌≡◌, ◌⊎◌, refl, ap, sym, ◌∙◌, true, false, String, some, none, ◌==◌, string_eq, nat_eq,
  if◌then◌else◌, Bool, arith, ◌↔◌, ◌<◌, ℕ,
}
use sesori_apps_monorepo.Prelude.Text.{str, is_digit}
use sesori_apps_monorepo.Prelude.Exec.{Result, ok, err, http_error, Exec, ◌>>=◌}
use sesori_apps_monorepo.Json.{
  Json, Fields, no_fields, field, object, string, find, get, set, pop, int, is_space,
}
use sesori_apps_monorepo.RemoteConfig.Template.{
  parameter_key, parameter_description, read_existing_build, updated_template, updated_parameters,
  updated_parameter, or_empty,
}
use sesori_apps_monorepo.RemoteConfig.Template.Laws.{
  read_existing_build-updated_template, updated_template-parameters, updated_template-fields,
}
use sesori_apps_monorepo.RemoteConfig.Cutoff.{
  RemoteConfigTemplate, RemoteConfigClient, publish_cutoff, publish_over, publish_update,
}
use sesori_apps_monorepo.RemoteConfig.Cutoff.Laws.{IsServer, publish_cutoff-Raised}
use sesori_apps_monorepo.RemoteConfig.Cutoff.Refusal.{publish_cutoff-kept}

abbrev build : String → Json
build number =
    object (field "defaultValue" (object (field "value" (string number) no_fields)) no_fields)

abbrev parameters : Fields
parameters = field "theme" (string "dark") (field parameter_key (build " 1_41\n") no_fields)

abbrev first : RemoteConfigTemplate
first = record {
  body = field "version" (string "7") (field "parameters" (object parameters) no_fields);
  etag = "etag-7";
}

data Server : Type 0 where
  initial : Server
  replaced : Fields → Server

abbrev fetch : Exec Server RemoteConfigTemplate
fetch initial = (ok first, initial)
fetch (replaced body) = (err (http_error 503), replaced body)

unfoldable write : Fields → String → Exec Server (Unit {0})
write body etag initial =
    if etag == "etag-7" then (ok tt, replaced body) else (err (http_error 412), initial)
write body etag (replaced b) = (err (http_error 412), replaced b)

abbrev client : RemoteConfigClient Server
client = record {
  fetch_template = fetch;
  validate_template = λ _ _ w. (ok tt, w);
  publish_template = write;
}

abbrev live : Server → RemoteConfigTemplate
live initial = first
live (replaced b) = record { body = b; etag = "etag-8" }

fetched : (w : Server) (t : RemoteConfigTemplate) → (fetch w).0 ≡ ok t → t ≡ first
fetched initial t h = cc
fetched (replaced b) t h = cc

written :
    (body : Fields) (etag : String) (w : Server)
    → (write body etag w).0 ≡ ok tt
    → ("etag-7" ≡ etag) × ((live (write body etag w).1).body ≡ body)
unfolding write
written body etag initial h = ground arith
written body etag (replaced b) h = cc

abbrev client-IsServer : IsServer client
client-IsServer = record {
  live = live;
  met = λ _. first;
  Served = λ t. t ≡ first;
  served-etag = λ a b ha hb _. ap (λ (t : RemoteConfigTemplate). t.body) (ha ∙ sym hb);
  fetch-served = fetched;
  met-served = λ _. refl;
  publish-if_match = λ body etag w h.
      ((written body etag w h).0, λ key _. ap (λ d. find d key) (written body etag w h).1);
}

run : ℕ → Result Bool × Server
unfolding publish_cutoff publish_over publish_update write read_existing_build updated_template
    updated_parameters updated_parameter or_empty find get set pop int is_space is_digit str nat_eq
    string_eq ◌>>=◌
run b = publish_cutoff client b initial

run_changed : (run 150).0 ≡ ok true
unfolding run
run_changed = refl

run_same : (run 141).0 ≡ ok false
unfolding run
run_same = refl

publish_cutoff-Raised_example :
    (read_existing_build (live (publish_cutoff client 150 initial).1).body ≡ ok (some 150))
    × ((read_existing_build first.body ≡ ok none)
        ⊎ ((n : ℕ) × (read_existing_build first.body ≡ ok (some n)) × (n < 150)))
unfolding run
publish_cutoff-Raised_example = publish_cutoff-Raised client client-IsServer 150 initial refl

publish_cutoff-kept_example :
    ((publish_cutoff client 140 initial).1 ≡ initial)
    × (((publish_cutoff client 140 initial).0 ≡ ok false) ↔ (◌≡◌ {A = ℕ} 140 141))
unfolding run
publish_cutoff-kept_example =
    publish_cutoff-kept client 140 141 first initial (omega arith) (omega arith) refl refl

updated : Fields
unfolding run
updated =
    field "parameters"
      (object (
        field "theme" (string "dark") (
          field parameter_key
            (object (
              field "defaultValue" (object (field "value" (string "150") no_fields))
                (field "description" (string parameter_description) no_fields)))
            no_fields)))
      no_fields

read_existing_build-updated_template_example : read_existing_build updated ≡ ok (some 150)
unfolding run updated
read_existing_build-updated_template_example =
    read_existing_build-updated_template first.body 150 updated (λ e. omega arith) refl

updated_template-parameters_example :
    (ps : Fields) × (find updated "parameters" ≡ some (object ps))
    × (find ps "theme" ≡ find parameters "theme")
unfolding run updated
updated_template-parameters_example =
    updated_template-parameters first.body 150 updated parameters "theme" refl refl
      (ground (arith, eq_iff "theme" parameter_key))

updated_template-fields_example : find updated "conditions" ≡ find first.body "conditions"
unfolding run updated
updated_template-fields_example =
    updated_template-fields first.body 150 updated "conditions" refl
      (ground (arith, eq_iff "conditions" "version"))
      (ground (arith, eq_iff "conditions" "parameters"))
