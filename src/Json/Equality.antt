-- ===== src/Json/Equality.antt =====
-- Python's `==` on JSON values: dictionaries are equal whatever the order of their keys, `True` is 1,
-- and a number with a fraction of zeros is its whole part.

pub mod Laws
use Prim.Native.Char.{code}
use Prim.Native.String.{[], ◌∷◌}
use sesori_apps_monorepo.Prelude.{
  ℕ, suc, Bool, true, false, ◌&&◌, ◌||◌, String, Option, none, some, ◌==◌, string_eq, nat_eq,
  if◌then◌else◌,
}
use sesori_apps_monorepo.Json.{
  Json, null, boolean, number, string, array, object, Items, no_items, item, Fields, no_fields,
  field, find,
}

abbrev zeros : String → Bool
zeros [] = true
zeros (c ∷ s) = code c == 48 && zeros s

bool_eq : Bool → Bool → Bool
bool_eq true b = b
bool_eq false true = false
bool_eq false false = true

abbrev count : Fields → ℕ
count no_fields = 0
count (field _ _ rest) = suc (count rest)

number_eq : Bool → ℕ → String → Bool → ℕ → String → Bool
unfolding bool_eq
number_eq s n f s' n' f' =
    n == n' && (f == f' || (zeros f && zeros f')) && (bool_eq s s' || (n == 0 && zeros f))

abbrev one_if : Bool → ℕ
one_if b = if b then 1 else 0

unfoldable mutual
  unfolding number_eq bool_eq

  pub json_eq : Json → Json → Bool
  json_eq null null = true
  json_eq (boolean b) (boolean b') = bool_eq b b'
  json_eq (boolean b) (number s n f) = number_eq false (one_if b) "" s n f
  json_eq (number s n f) (boolean b) = number_eq s n f false (one_if b) ""
  json_eq (number s n f) (number s' n' f') = number_eq s n f s' n' f'
  json_eq (string s) (string t) = s == t
  json_eq (array xs) (array ys) = items_eq xs ys
  json_eq (object xs) (object ys) = count xs == count ys && fields_in xs ys
  json_eq _ _ = false

  pub items_eq : Items → Items → Bool
  items_eq no_items no_items = true
  items_eq (item x xs) (item y ys) = json_eq x y && items_eq xs ys
  items_eq _ _ = false

  -- every field of the first dictionary is one of the second
  pub fields_in : Fields → Fields → Bool
  fields_in no_fields ys = true
  fields_in (field k v rest) ys =
      (elim (find ys k) [ some w ↦ json_eq v w | none ↦ false ]) && fields_in rest ys
