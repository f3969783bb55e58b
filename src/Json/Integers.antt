-- ===== src/Json/Integers.antt =====
-- `int` reads back what `str` wrote.
use Prim.Native.Char.{Char, code}
use Prim.Native.String.{[], ◌∷◌}
use text.Mathlib.TextLemmas.{nil≢cons}
use sesori_apps_monorepo.Prelude.{
  ℕ, ◌+◌, ◌*◌, ◌-◌, ◌≡◌, refl, sym, ap, true, false, String, some, nat_eq, arith, ◌==◌, Bool-cases,
  inl, inr,
}
use sesori_apps_monorepo.Prelude.Text.{is_digit, read, number, str}
use sesori_apps_monorepo.Prelude.Text.Decimal.{number-str_self, number-read}
use sesori_apps_monorepo.Json.{is_space, digits, int_text, int, string}

digits-read : (s : String) (n m : ℕ) → read n s ≡ (m, "") → digits n true s ≡ some m
unfolding read digits
digits-read [] n m h = ground arith
digits-read (c ∷ s) n m h = elim (Bool-cases (is_digit c)) [
  | inl e ↦ rw e (digits-read s (n * 10 + (code c - 48)) m (rw e at h))
  | inr e ↦ let k : (n, c ∷ s) ≡ (m, "") = rw e at h in absurd (nil≢cons (sym (ap (λ q. q.1) k)))
]

-- A digit is no white space and no sign.
digit-space : (c : Char) → is_digit c ≡ true → is_space c ≡ false
unfolding is_digit is_space
digit-space c h = ground arith

digit-minus : (c : Char) → is_digit c ≡ true → (code c == 45) ≡ false
unfolding is_digit
digit-minus c h = ground arith

digit-plus : (c : Char) → is_digit c ≡ true → (code c == 43) ≡ false
unfolding is_digit
digit-plus c h = ground arith

digits-number :
    (c : Char) (s : String) (n : ℕ)
    → is_digit c ≡ true
    → read 0 (c ∷ s) ≡ (n, "")
    → digits 0 false (c ∷ s) ≡ some n
unfolding digits read
digits-number c s n e h = rw e (digits-read s (0 * 10 + (code c - 48)) n (rw e at h))

int_text-number : (s : String) (n : ℕ) → number s ≡ some (n, "") → int_text s ≡ some (false, n)
unfolding int_text number
int_text-number [] n h = cc
int_text-number (c ∷ s) n h =
    let (e, k) = number-read c s (n, "") h in
    rw (digit-space c e, digit-minus c e, digit-plus c e, digits-number c s n e k) refl

pub int-str : (n : ℕ) → int (string (str n)) ≡ some (false, n)
unfolding int
int-str n = int_text-number (str n) n (number-str_self n)
