-- ===== src/LinuxRepository/Versions/Order.antt =====
-- The order of version tuples, and `version_order` as the inverse of the spelling of a version.
use mathlib.Core.Bool.{false≢true}
use sesori_apps_monorepo.Prelude.{Bool-cases, inl, inr}
use sesori_apps_monorepo.Prelude.{
  ℕ, ◌≡◌, refl, sym, ◌∙◌, true, false, String, ◌<>◌, List, [], ◌∷◌, some, arith, nat_eq, string_eq,
}
use sesori_apps_monorepo.Prelude.Text.{str, is_digit, stops}
use sesori_apps_monorepo.Prelude.Text.Decimal.{
  number-str, number-str_self, literal-append, stops-cons,
}
use sesori_apps_monorepo.Prelude.Exec.{ok}
use sesori_apps_monorepo.LinuxRepository.Versions.{
  tuple_lt, three_parts, version_groups, version_order,
}

pub tuple_lt_trans :
    (a b c : List ℕ) → tuple_lt a b ≡ true → tuple_lt b c ≡ true → tuple_lt a c ≡ true
tuple_lt_trans [] [] c h k = cc
tuple_lt_trans [] (y ∷ b) [] h k = cc
tuple_lt_trans [] (y ∷ b) (z ∷ c) h k = refl
tuple_lt_trans (x ∷ a) [] c h k = cc
tuple_lt_trans (x ∷ a) (y ∷ b) [] h k = cc
tuple_lt_trans (x ∷ a) (y ∷ b) (z ∷ c) h k = ground (arith, tuple_lt_trans a b c)

pub tuple_lt_irrefl : (a : List ℕ) → tuple_lt a a ≡ false
tuple_lt_irrefl [] = refl
tuple_lt_irrefl (x ∷ a) = ground (arith, tuple_lt_irrefl a)

pub tuple_lt_neg_trans :
    (a b c : List ℕ) → tuple_lt a b ≡ false → tuple_lt b c ≡ false → tuple_lt a c ≡ false
tuple_lt_neg_trans [] [] c h k = k
tuple_lt_neg_trans [] (y ∷ b) c h k = cc
tuple_lt_neg_trans (x ∷ a) b [] h k = refl
tuple_lt_neg_trans (x ∷ a) [] (z ∷ c) h k = cc
tuple_lt_neg_trans (x ∷ a) (y ∷ b) (z ∷ c) h k = ground (arith, tuple_lt_neg_trans a b c)

pub tuple_lt_asymm : (a b : List ℕ) → tuple_lt a b ≡ true → tuple_lt b a ≡ false
tuple_lt_asymm a b h = elim (Bool-cases (tuple_lt b a)) [
  | inl e ↦ absurd (false≢true (sym (tuple_lt_irrefl a) ∙ tuple_lt_trans a b a h e))
  | inr e ↦ e
]

-- `f"{major}.{minor}.{patch}"` before the rest
abbrev pub spell : ℕ → ℕ → ℕ → String → String
spell major minor patch rest = str major <> ("." <> (str minor <> ("." <> (str patch <> rest))))

stops_dot : (rest : String) → stops ("." <> rest) ≡ true
unfolding is_digit
stops_dot rest = stops-cons "." "" rest refl

stops_dash : (rest : String) → stops ("-" <> rest) ≡ true
unfolding is_digit
stops_dash rest = stops-cons "-" "" rest refl

pub three_parts-spell :
    (major minor patch : ℕ) (rest : String)
    → stops rest ≡ true
    → three_parts (spell major minor patch rest) ≡ some (major ∷ minor ∷ patch ∷ [], rest)
unfolding three_parts
three_parts-spell major minor patch rest h = rw (
  number-str major ("." <> (str minor <> ("." <> (str patch <> rest)))) (stops_dot _),
  literal-append,
  number-str minor ("." <> (str patch <> rest)) (stops_dot _),
  literal-append,
  number-str patch rest h,
)

version_groups-spell :
    (major minor patch build : ℕ)
    → version_groups (spell major minor patch ("-" <> str build))
      ≡ some (major ∷ minor ∷ patch ∷ build ∷ [])
unfolding version_groups string_eq
version_groups-spell major minor patch build = rw (
  three_parts-spell major minor patch ("-" <> str build) (stops_dash _),
  literal-append,
  number-str_self build,
)

-- The order of a version as the publisher writes it is the tuple of its numbers.
pub version_order-spell :
    (major minor patch build : ℕ)
    → version_order (spell major minor patch ("-" <> str build))
      ≡ ok (major ∷ minor ∷ patch ∷ build ∷ [])
unfolding version_order
version_order-spell major minor patch build =
    rw (version_groups-spell major minor patch build, version_order)
