-- ===== src/Prelude/Text/Decimal.antt =====
-- `\d+` reads back what `str` wrote.
use Prim.Native.String.append
use Prim.Native.Char.{Char, code}
use Prim.Native.String.{[], ◌∷◌}
use sesori_apps_monorepo.Prelude.Text.{digit, write, str, read, number, literal, is_digit, stops}
use sesori_apps_monorepo.Prelude.Equality.{◌==◌, nat_eq}
use Prim.Native.Nat.{◌≤◌, ℕ, zero, suc, ◌+◌, ◌*◌, ◌/◌, ◌%◌, ◌<◌}
use Prim.Native.String.{String, ◌++◌ as ◌<>◌}
use mathlib.Core.Path.{◌≡◌, refl, ◌∙◌, ap}
use mathlib.Core.Bool.{true, false}
use mathlib.Core.Logic.{inl, inr}
use mathlib.Core.Option.{some, none, some-injective}
use mathlib.Core.Path.{sym}
use text.Mathlib.TextLemmas.{append-nil}
use native.Mathlib.Omega.{arith}
use sesori_apps_monorepo.Prelude.Equality.{ltb, Bool-cases, if◌then◌else◌}

code-digit : (d : ℕ) → d < 10 → code (digit d) ≡ 48 + d
unfolding digit
code-digit zero h = refl
code-digit (suc zero) h = refl
code-digit (suc (suc zero)) h = refl
code-digit (suc (suc (suc zero))) h = refl
code-digit (suc (suc (suc (suc zero)))) h = refl
code-digit (suc (suc (suc (suc (suc zero))))) h = refl
code-digit (suc (suc (suc (suc (suc (suc zero)))))) h = refl
code-digit (suc (suc (suc (suc (suc (suc (suc zero))))))) h = refl
code-digit (suc (suc (suc (suc (suc (suc (suc (suc zero)))))))) h = refl
code-digit (suc (suc (suc (suc (suc (suc (suc (suc (suc zero))))))))) h = refl
code-digit (suc (suc (suc (suc (suc (suc (suc (suc (suc (suc n)))))))))) h = absurd (omega arith)

is_digit-digit : (d : ℕ) → d < 10 → is_digit (digit d) ≡ true
unfolding is_digit
is_digit-digit d h = ground (arith, code-digit d h)

read-digit : (n d : ℕ) (s : String) → d < 10 → read n (digit d ∷ s) ≡ read (n * 10 + d) s
unfolding read
read-digit n d s h = rw (is_digit-digit d h, code-digit d h) (ap (λ k. read k s) (omega arith))

read-write :
    (f n : ℕ) (out rest : String) → n < f → read 0 (write f n out <> rest) ≡ read n (out <> rest)
unfolding write
read-write zero n out rest h = absurd (omega arith)
read-write (suc f) n out rest h = elim (Bool-cases (ltb n 10)) [
  | inl e ↦
      rw (e, append.cons)
        (read-digit 0 (n % 10) (out <> rest) (omega arith)
          ∙ ap (λ k. read k (out <> rest)) (ground arith))
  | inr e ↦
      rw (e, read-write f (n / 10) (digit (n % 10) ∷ out) rest (ground arith), append.cons)
        (read-digit (n / 10) (n % 10) (out <> rest) (omega arith)
          ∙ ap (λ k. read k (out <> rest)) (omega arith))
]

write_first :
    (f n : ℕ) (out : String)
    → (c : Char) × (s : String) × (write (suc f) n out ≡ c ∷ s) × (is_digit c ≡ true)
unfolding write
write_first zero n out = (digit (n % 10), out, ground arith, is_digit-digit (n % 10) (omega arith))
write_first (suc f) n out = elim (Bool-cases (ltb n 10)) [
  | inl e ↦ (digit (n % 10), out, rw e, is_digit-digit (n % 10) (omega arith))
  | inr e ↦
      let (c, s, starts, is) = write_first f (n / 10) (digit (n % 10) ∷ out) in
      (c, s, rw e starts, is)
]

read-stops : (n : ℕ) (rest : String) → stops rest ≡ true → read n rest ≡ (n, rest)
unfolding read
read-stops n [] h = refl
read-stops n (c ∷ s) h = ground arith

number_starts : (c : Char) (s : String) → is_digit c ≡ true → number (c ∷ s) ≡ some (read 0 (c ∷ s))
unfolding number
number_starts c s h = ap (λ b. if b then some (read 0 (c ∷ s)) else none) h

number-none : (c : Char) (s : String) → is_digit c ≡ false → number (c ∷ s) ≡ none
unfolding number
number-none c s h = ap (λ b. if b then some (read 0 (c ∷ s)) else none) h

-- A digit run begins with a digit and is read by `read`.
pub number-read :
    (c : Char) (s : String) (r : ℕ × String)
    → number (c ∷ s) ≡ some r
    → (is_digit c ≡ true) × (read 0 (c ∷ s) ≡ r)
number-read c s r h = elim (Bool-cases (is_digit c)) [
  | inl e ↦ (e, some-injective _ _ (sym (number_starts c s e) ∙ h))
  | inr e ↦ let k = number-none c s e in cc
]

-- A number that is written and followed by something else than a digit is read back.
pub number-str :
    (n : ℕ) (rest : String) → stops rest ≡ true → number (str n <> rest) ≡ some (n, rest)
unfolding str
number-str n rest h =
    let (c, s, starts, is) = write_first n n [] in
    let whole = read-write (suc n) n [] rest (omega arith) in
    rw (starts, append.cons)
      (number_starts c (s <> rest) is
        ∙ ap some (rw (starts, append.cons) at whole ∙ rw append.nil (read-stops n rest h)))

pub literal-append : (t s : String) → literal t (t <> s) ≡ some s
unfolding literal
literal-append [] s = rw append.nil
literal-append (c ∷ t) s = rw append.cons (ground (arith, literal-append t s))

-- A separator ends a digit run.
pub stops-cons : (c : Char) (s rest : String) → is_digit c ≡ false → stops ((c ∷ s) <> rest) ≡ true
stops-cons c s rest h = rw (append.cons, h)

-- A whole text that `str` wrote
pub number-str_self : (n : ℕ) → number (str n) ≡ some (n, "")
number-str_self n = ap number (sym (append-nil (str n))) ∙ number-str n "" refl

code-digit_pos : (d : ℕ) → 0 < d → d < 10 → (48 == code (digit d)) ≡ false
code-digit_pos d h k = ground (arith, code-digit d k)

-- A number that is not zero is written without a zero in front.
write_starts :
    (f n : ℕ) (out : String)
    → 0 < n
    → n ≤ f
    → (c : Char) × (s : String) × (write (suc f) n out ≡ c ∷ s) × ((48 == code c) ≡ false)
unfolding write
write_starts zero n out h k = absurd (omega arith)
write_starts (suc f) n out h k = elim (Bool-cases (ltb n 10)) [
  | inl e ↦ (digit (n % 10), out, rw e refl, code-digit_pos (n % 10) (ground arith) (omega arith))
  | inr e ↦
      let (c, s, starts, is) =
        write_starts f (n / 10) (digit (n % 10) ∷ out) (ground arith) (ground arith) in
      (c, s, rw e starts, is)
]

literal_first :
    (c : Char) (s rest : String) → (48 == code c) ≡ false → literal "0" ((c ∷ s) <> rest) ≡ none
unfolding literal
literal_first c s rest e = rw append.cons (ap (λ b. if b then literal "" (s <> rest) else none) e)

pub literal_zero : (n : ℕ) (rest : String) → 0 < n → literal "0" (str n <> rest) ≡ none
unfolding str
literal_zero n rest h =
    let (c, s, starts, is) = write_starts n n [] h (omega arith) in
    ap (λ t. literal "0" (t <> rest)) starts ∙ literal_first c s rest is
