-- ===== src/Json/Equality/Laws.antt =====
-- A value equals a text exactly if it is that text.
use sesori_apps_monorepo.Prelude.{◌≡◌, ◌↔◌, ap, true, String, ==→≡, ≡→==, string_eq}
use sesori_apps_monorepo.Json.{Json, null, boolean, number, string, array, object}
use sesori_apps_monorepo.Json.Equality.{json_eq}

pub json_eq_string_iff :
    (value : Json) (text : String) → (json_eq value (string text) ≡ true) ↔ (value ≡ string text)
unfolding json_eq
json_eq_string_iff null text = (λ h. cc, λ h. cc)
json_eq_string_iff (boolean b) text = (λ h. cc, λ h. cc)
json_eq_string_iff (number s n f) text = (λ h. cc, λ h. cc)
json_eq_string_iff (string s) text =
    (λ h. ap string (==→≡ s text h), λ h. ≡→== s text (let e : s ≡ text = cc in e))
json_eq_string_iff (array xs) text = (λ h. cc, λ h. cc)
json_eq_string_iff (object d) text = (λ h. cc, λ h. cc)
