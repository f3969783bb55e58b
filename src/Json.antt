-- ===== src/Json.antt =====
-- The values of Python's json library, its dictionaries as lists of fields in order, and `int` of a
-- value. A number is its sign, its whole part and the text of its fraction.
pub mod Equality
pub mod FieldLaws
pub mod Integers
use Prim.Native.Char.{Char, code}
use Prim.Native.String.{[], ◌∷◌}
use sesori_apps_monorepo.Prelude.{
  ℕ, ◌+◌, ◌*◌, ◌-◌, Bool, true, false, ◌&&◌, ◌||◌, String, Option, List, [], ◌∷◌, none, some, ◌==◌,
  string_eq, nat_eq, if◌then◌else◌,
}
use sesori_apps_monorepo.Prelude.Text.{is_digit}

mutual
  pub data Json : Type 0 where
    null : Json
    boolean : Bool → Json
    number : Bool → ℕ → String → Json
    string : String → Json
    array : Items → Json
    object : Fields → Json

  pub data Items : Type 0 where
    no_items : Items
    item : Json → Items → Items

  pub data Fields : Type 0 where
    no_fields : Fields
    field : String → Json → Fields → Fields

-- `d[key]`, where it is there
unfoldable pub find : Fields → String → Option Json
find no_fields key = none
find (field k v rest) key = if k == key then some v else find rest key

-- `d.get(key)`
unfoldable pub get : Fields → String → Json
get d key = elim (find d key) [ some v ↦ v | none ↦ null ]

-- `d[key] = value`: in its place where it is there, and else at the end
unfoldable pub set : Fields → String → Json → Fields
set no_fields key value = field key value no_fields
set (field k v rest) key value =
    let more = set rest key value in if k == key then field k value rest else field k v more

-- `d.pop(key, None)`: a key is there once
unfoldable pub pop : Fields → String → Fields
pop no_fields key = no_fields
pop (field k v rest) key = let more = pop rest key in if k == key then rest else field k v more

unfoldable pub is_space : Char → Bool
is_space c =
    code c == 32 || code c == 9 || code c == 10 || code c == 11 || code c == 12 || code c == 13

unfoldable pub all_space : String → Bool
unfolding is_space
all_space [] = true
all_space (c ∷ s) = is_space c && all_space s

-- The digits behind a sign: underscores stand between digits, white space at the end. The flag says
-- that the last character was a digit.
unfoldable pub digits : ℕ → Bool → String → Option ℕ
unfolding all_space
digits n last [] = if last then some n else none
digits n last (c ∷ s) =
    let next = digits (n * 10 + (code c - 48)) true s in
    let joined = digits n false s in
    if is_digit c
    then next
    else if code c == 95 && last
    then joined
    else if last && all_space (c ∷ s)
    then some n
    else none

-- `int(text)`: whether it is negative, and its absolute value
unfoldable pub int_text : String → Option (Bool × ℕ)
unfolding digits
int_text [] = none
int_text (c ∷ s) =
    let rest = int_text s in
    if is_space c
    then rest
    else if code c == 45
    then elim (digits 0 false s) [ some n ↦ some (true, n) | none ↦ none ]
    else elim (digits 0 false (if code c == 43 then s else c ∷ s)) [
      | some n ↦ some (false, n)
      | none ↦ none
    ]

-- `int(value)`, nothing where it raises
unfoldable pub int : Json → Option (Bool × ℕ)
unfolding int_text
int null = none
int (boolean b) = some (false, if b then 1 else 0)
int (number negative whole fraction) = some (negative, whole)
int (string s) = int_text s
int (array _) = none
int (object _) = none

-- values written in the code: a number, a list and a dictionary
abbrev pub count_of : ℕ → Json
count_of n = number false n ""

abbrev pub items_from : List Json → Items
items_from [] = no_items
items_from (j ∷ js) = item j (items_from js)

abbrev pub fields_from : List (String × Json) → Fields
fields_from [] = no_fields
fields_from ((key, value) ∷ rest) = field key value (fields_from rest)
