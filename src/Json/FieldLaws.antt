-- ===== src/Json/FieldLaws.antt =====
-- Reading a dictionary that was written.
use sesori_apps_monorepo.Prelude.{◌≡◌, ◌≢◌, refl, String, some, string_eq, arith}
use sesori_apps_monorepo.Json.{Json, Fields, no_fields, field, find, get, set, pop}

pub find-set : (d : Fields) (key : String) (value : Json) → find (set d key value) key ≡ some value
unfolding find set
find-set no_fields key value = ground arith
find-set (field k v rest) key value = ground (arith, find-set rest key value)

pub find-set_other :
    (d : Fields) (key : String) (value : Json) (other : String)
    → other ≢ key
    → find (set d key value) other ≡ find d other
unfolding find set
find-set_other no_fields key value other h = ground arith
find-set_other (field k v rest) key value other h =
    ground (arith, find-set_other rest key value other h)

pub find-pop_other :
    (d : Fields) (key other : String) → other ≢ key → find (pop d key) other ≡ find d other
unfolding find pop
find-pop_other no_fields key other h = refl
find-pop_other (field k v rest) key other h = ground (arith, find-pop_other rest key other h)

pub get-find :
    (d : Fields) (key : String) (value : Json) → find d key ≡ some value → get d key ≡ value
unfolding get
get-find d key value h = ground arith
