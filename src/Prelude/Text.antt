-- ===== src/Prelude/Text.antt =====
-- Python's `str.endswith`, `str(n)` and the digit runs `\d+` of the regular expressions. Texts that
-- reach a digit run are ASCII (release tags, versions, object names), so `\d` is `0` to `9`.
pub mod Decimal
pub mod Lines
use Prim.Native.Nat.{ℕ, zero, suc, ◌+◌, ◌-◌, ◌*◌, ◌/◌, ◌%◌}
use Prim.Native.Char.{Char, code}
use Prim.Native.Nat.{Ordering}
use Prim.Native.String.{String, [], ◌∷◌, compare}
use mathlib.Core.Bool.{Bool, true, false, not, ◌&&◌, ◌||◌}
use mathlib.Core.Option.{Option, none, some}
use sesori_apps_monorepo.Prelude.Equality.{if◌then◌else◌, ◌==◌, string_eq, nat_eq, leb, ltb}

unfoldable pub ends_with : String → String → Bool
ends_with [] t = [] == t
ends_with (c ∷ s) t = (c ∷ s) == t || ends_with s t

unfoldable pub is_digit : Char → Bool
is_digit c = leb 48 (code c) && leb (code c) 57

digit : ℕ → Char
digit zero = "0"
digit (suc zero) = "1"
digit (suc (suc zero)) = "2"
digit (suc (suc (suc zero))) = "3"
digit (suc (suc (suc (suc zero)))) = "4"
digit (suc (suc (suc (suc (suc zero))))) = "5"
digit (suc (suc (suc (suc (suc (suc zero)))))) = "6"
digit (suc (suc (suc (suc (suc (suc (suc zero))))))) = "7"
digit (suc (suc (suc (suc (suc (suc (suc (suc zero)))))))) = "8"
digit _ = "9"

-- The digits of `n` before those already written; `n` rounds of fuel are enough.
write : ℕ → ℕ → String → String
write zero n out = out
write (suc f) n out =
    let out' = digit (n % 10) ∷ out in
    let rest = write f (n / 10) out' in if ltb n 10 then out' else rest

-- `str(n)` of a number that is not negative
unfoldable pub str : ℕ → String
unfolding write digit
str n = write (suc n) n []

-- `\d+` with the `int` of what it matched, and the rest of the text
unfoldable pub read : ℕ → String → ℕ × String
read n [] = (n, [])
read n (c ∷ s) =
    let more = read (n * 10 + (code c - 48)) s in if is_digit c then more else (n, c ∷ s)

unfoldable pub number : String → Option (ℕ × String)
unfolding read is_digit
number [] = none
number (c ∷ s) = if is_digit c then some (read 0 (c ∷ s)) else none

-- A text that the expression asks for literally, and the rest behind it
unfoldable pub literal : String → String → Option String
literal [] s = some s
literal (a ∷ t) [] = none
literal (a ∷ t) (c ∷ s) = if code a == code c then literal t s else none

-- Where a digit run ends: at the end of the text, or before a character that is no digit
abbrev pub stops : String → Bool
stops [] = true
stops (c ∷ s) = not (is_digit c)

-- A chain of parts of an expression; `none` where one does not match.
infixl 10 ◌>>=◌
abbrev pub ◌>>=◌ : {A B : Type 0} → Option A → (A → Option B) → Option B
none >>= f = none
some a >>= f = f a

-- Python's `<` on texts, by code points
abbrev pub text_lt : String → String → Bool
text_lt s t = elim (compare s t) [ Ordering.lt ↦ true | _ ↦ false ]

abbrev pub all_chars : (Char → Bool) → String → Bool
all_chars p [] = true
all_chars p (c ∷ s) = p c && all_chars p s

abbrev pub char_count : String → ℕ
char_count [] = 0
char_count (c ∷ s) = suc (char_count s)

-- `0|[1-9]\d*`, and the rest of the text
unfoldable pub plain_number : String → Option String
plain_number s = elim (literal "0" s) [
  | some rest ↦ some rest
  | none ↦ elim (number s) [ some (_, rest) ↦ some rest | none ↦ none ]
]

-- `re.fullmatch(r"(0|[1-9]\d*)\.(0|[1-9]\d*)\.(0|[1-9]\d*)", text)`
unfoldable pub is_clean_version : String → Bool
is_clean_version s =
    elim (plain_number s >>= λ s.
    literal "." s >>= λ s. plain_number s >>= λ s. literal "." s >>= λ s. plain_number s) [
      | some rest ↦ rest == ""
      | none ↦ false
    ]
