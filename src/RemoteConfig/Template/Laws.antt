-- ===== src/RemoteConfig/Template/Laws.antt =====
-- What `_updated_template` writes, and that `_read_existing_build` reads it back.
use text.Mathlib.TextEquality.{eq_iff}
use sesori_apps_monorepo.Prelude.{
  ℕ, ◌≡◌, ◌≢◌, refl, sym, ap, ◌∙◌, String, some, arith, nat_eq, string_eq,
}
use sesori_apps_monorepo.Prelude.Text.{str}
use sesori_apps_monorepo.Prelude.Exec.{Result, ok, err}
use sesori_apps_monorepo.Json.{
  Json, null, boolean, number, string, array, object, Fields, no_fields, field, find, get, set, pop,
}
use sesori_apps_monorepo.Json.FieldLaws.{find-set, find-set_other, find-pop_other, get-find}
use sesori_apps_monorepo.Json.Integers.{int-str}
use sesori_apps_monorepo.RemoteConfig.Template.{
  parameter_key, parameter_description, read_build, read_value, read_default, read_parameter,
  read_parameters, read_existing_build, or_empty, updated_parameter, updated_parameters,
  updated_template,
}

abbrev pub default_value : ℕ → Json
default_value b = object (field "value" (string (str b)) no_fields)

-- The parameter, the parameters and the template with the build number written
abbrev pub with_build : Fields → ℕ → Fields
with_build parameter b =
    set (set parameter "defaultValue" (default_value b)) "description"
      (string parameter_description)

abbrev pub with_parameter : Fields → Fields → ℕ → Fields
with_parameter parameters parameter b =
    set parameters parameter_key (object (with_build parameter b))

abbrev pub with_parameters : Fields → Fields → Fields → ℕ → Fields
with_parameters template parameters parameter b =
    set (pop template "version") "parameters" (object (with_parameter parameters parameter b))

-- What an update that returns was given and has written
pub record IsUpdate (template : Fields) (b : ℕ) (updated : Fields) : Type 0 where
  pub parameters : Fields
  pub parameter : Fields
  pub parameters_are : or_empty (find (pop template "version") "parameters") ≡ object parameters
  pub parameter_is : or_empty (find parameters parameter_key) ≡ object parameter
  pub written : updated ≡ with_parameters template parameters parameter b

parameter_written :
    (b : ℕ) (j out : Json)
    → updated_parameter b j ≡ ok out
    → (p : Fields) × (j ≡ object p) × (out ≡ object (with_build p b))
unfolding updated_parameter
parameter_written b (object p) out h = (p, refl, ground arith)
parameter_written b null out h = cc
parameter_written b (boolean _) out h = cc
parameter_written b (number _ _ _) out h = cc
parameter_written b (string _) out h = cc
parameter_written b (array _) out h = cc

parameters_written :
    (b : ℕ) (j out : Json)
    → updated_parameters b j ≡ ok out
    → (ps : Fields) × (p : Fields) × (j ≡ object ps)
      × (or_empty (find ps parameter_key) ≡ object p)
      × (out ≡ object (with_parameter ps p b))
unfolding updated_parameters
parameters_written b (object ps) out h =
    inner (updated_parameter b (or_empty (find ps parameter_key))) refl h
  where
    inner :
        (r : Result Json)
        → updated_parameter b (or_empty (find ps parameter_key)) ≡ r
        → (elim r [ ok parameter ↦ ok (object (set ps parameter_key parameter)) | err e ↦ err e ])
          ≡ ok out
        → (ps' : Fields) × (p : Fields) × (object ps ≡ object ps')
          × (or_empty (find ps' parameter_key) ≡ object p)
          × (out ≡ object (with_parameter ps' p b))
    inner (ok q) e k =
        let (p, is, out_is) = parameter_written b _ q e in
        let same : out ≡ object (set ps parameter_key q) = cc in
        (ps, p, refl, is, same ∙ ap (λ x. object (set ps parameter_key x)) out_is)
    inner (err _) e k = cc
parameters_written b null out h = cc
parameters_written b (boolean _) out h = cc
parameters_written b (number _ _ _) out h = cc
parameters_written b (string _) out h = cc
parameters_written b (array _) out h = cc

pub updated_template-IsUpdate :
    (template : Fields) (b : ℕ) (u : Fields)
    → updated_template template b ≡ ok u
    → IsUpdate template b u
unfolding updated_template
updated_template-IsUpdate template b u h =
    inner (updated_parameters b (or_empty (find (pop template "version") "parameters"))) refl h
  where
    inner :
        (r : Result Json)
        → updated_parameters b (or_empty (find (pop template "version") "parameters")) ≡ r
        → (elim r [
          | ok parameters ↦ ok (set (pop template "version") "parameters" parameters)
          | err e ↦ err e
        ])
          ≡ ok u
        → IsUpdate template b u
    inner (ok q) e k =
        let (ps, p, are, is, out) = parameters_written b _ q e in
        let same : u ≡ set (pop template "version") "parameters" q = cc in
        record {
          parameters = ps;
          parameter = p;
          parameters_are = are;
          parameter_is = is;
          written = same ∙ ap (λ x. set (pop template "version") "parameters" x) out;
        }
    inner (err _) e k = cc

object-injective : {a b : Fields} → object a ≡ object b → a ≡ b
object-injective h = cc

-- The parameters that were written, read one level after the other
read_default_value : (b : ℕ) → b ≢ 0 → read_default (default_value b) ≡ ok (some b)
unfolding read_default read_value find read_build string_eq
read_default_value b positive = ap read_build (int-str b) ∙ ground (arith, positive)

read_with_build :
    (p : Fields) (b : ℕ) → b ≢ 0 → read_parameter (object (with_build p b)) ≡ ok (some b)
unfolding read_parameter
read_with_build p b positive =
    ap read_default (
      get-find (with_build p b) "defaultValue" (default_value b) (
        find-set_other (set p "defaultValue" (default_value b)) "description"
          (string parameter_description) "defaultValue"
          (ground (arith, eq_iff "defaultValue" "description"))
        ∙ find-set p "defaultValue" (default_value b)))
    ∙ read_default_value b positive

read_with_parameter :
    (ps p : Fields) (b : ℕ) → b ≢ 0 → read_parameters (object (with_parameter ps p b)) ≡ ok (some b)
unfolding read_parameters
read_with_parameter ps p b positive =
    ap read_parameter (
      get-find (with_parameter ps p b) parameter_key (object (with_build p b))
        (find-set ps parameter_key (object (with_build p b))))
    ∙ read_with_build p b positive

-- A template that was updated to a positive build number is read back as that number.
pub read_existing_build-updated_template :
    (template : Fields) (b : ℕ) (u : Fields)
    → b ≢ 0
    → updated_template template b ≡ ok u
    → read_existing_build u ≡ ok (some b)
unfolding read_existing_build
read_existing_build-updated_template template b u positive h =
    let up = updated_template-IsUpdate template b u h in
    ap (λ t. read_parameters (get t "parameters")) up.written
    ∙ ap read_parameters (
        get-find (with_parameters template up.parameters up.parameter b) "parameters"
          (object (with_parameter up.parameters up.parameter b))
          (find-set (pop template "version") "parameters"
            (object (with_parameter up.parameters up.parameter b))))
    ∙ read_with_parameter up.parameters up.parameter b positive

-- An update that returns keeps the fields of the template other than `version` and `parameters`.
pub updated_template-fields :
    (template : Fields) (b : ℕ) (u : Fields) (key : String)
    → updated_template template b ≡ ok u
    → key ≢ "version"
    → key ≢ "parameters"
    → find u key ≡ find template key
updated_template-fields template b u key h version parameters =
    let up = updated_template-IsUpdate template b u h in
    ap (λ t. find t key) up.written
    ∙ (find-set_other (pop template "version") "parameters" _ key parameters
        ∙ find-pop_other template "version" key version)

-- An update that returns keeps the other parameters.
pub updated_template-parameters :
    (template : Fields) (b : ℕ) (u ps : Fields) (key : String)
    → updated_template template b ≡ ok u
    → find template "parameters" ≡ some (object ps)
    → key ≢ parameter_key
    → (ps' : Fields) × (find u "parameters" ≡ some (object ps')) × (find ps' key ≡ find ps key)
unfolding or_empty
updated_template-parameters template b u ps key h are other =
    let up = updated_template-IsUpdate template b u h in
    let popped =
      find-pop_other template "version" "parameters"
        (ground (arith, eq_iff "parameters" "version")) in
    let same : up.parameters ≡ ps =
      object-injective (sym up.parameters_are ∙ ap or_empty (popped ∙ are)) in
    (
      with_parameter up.parameters up.parameter b,
      ap (λ t. find t "parameters") up.written ∙ find-set (pop template "version") "parameters" _,
      find-set_other up.parameters parameter_key _ key other ∙ ap (λ d. find d key) same,
    )
