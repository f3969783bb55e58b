-- ===== src/Packaging/Native/Headers.antt =====
-- What `native_arch` reads from the first octets of a file, against the magic numbers of the formats.
use Prim.Native.String.append
use sesori_apps_monorepo.Prelude.{ap, string_eq, ≡→==}
use sesori_apps_monorepo.Prelude.Text.{literal, str}
use sesori_apps_monorepo.Packaging.Octets.{octet}
use sesori_apps_monorepo.Packaging.Native.{name_for}
use sesori_apps_monorepo.Prelude.{
  ℕ, ◌≡◌, refl, sym, ◌∙◌, Bool, true, false, ◌==◌, nat_eq, String, ◌<>◌, Option, none, some, List,
  [], ◌∷◌, if◌then◌else◌,
}
use sesori_apps_monorepo.Prelude.Lists.{take, drop, sort}
use sesori_apps_monorepo.Prelude.Text.{text_lt}
use sesori_apps_monorepo.Prelude.Reflect.{Says, and_says, eq_says}
use sesori_apps_monorepo.Prelude.Exec.{Result, ok, err, value_error}
use sesori_apps_monorepo.Packaging.Octets.{same_octets, unpack}
use sesori_apps_monorepo.Packaging.Native.{
  Native, single, with_number, elf_arch, pe_arch, slices, universal_arch, arch_of, pe_machines,
}

-- The octets begin as a file of the format does: as ELF, with the MZ of a PE, or as a Mach-O, of one
-- architecture or universal.
pub data Magic (octets : List ℕ) : String → Type 0 where
  elf : take 4 octets ≡ 127 ∷ 69 ∷ 76 ∷ 70 ∷ [] → Magic octets "ELF"
  pe : take 2 octets ≡ 77 ∷ 90 ∷ [] → Magic octets "PE"
  mach : take 4 octets ≡ 207 ∷ 250 ∷ 237 ∷ 254 ∷ [] → Magic octets "Mach-O"
  universal : take 4 octets ≡ 202 ∷ 254 ∷ 186 ∷ 190 ∷ [] → Magic octets "Mach-O"
  universal_64 : take 4 octets ≡ 202 ∷ 254 ∷ 186 ∷ 191 ∷ [] → Magic octets "Mach-O"

same_octets_says : (xs ys : List ℕ) → Says (same_octets xs ys) (xs ≡ ys)
same_octets_says [] [] = (λ _. refl, λ _. refl)
same_octets_says [] (y ∷ ys) = (λ h. cc, λ k. cc)
same_octets_says (x ∷ xs) [] = (λ h. cc, λ k. cc)
same_octets_says (x ∷ xs) (y ∷ ys) =
    let (f, g) = and_says (x == y) (same_octets xs ys) (eq_says x y) (same_octets_says xs ys) in
    (λ h. let (e, k) = f h in cc, λ k. g (cc, cc))

take_4 : (xs : List ℕ) → take 4 (take 64 xs) ≡ take 4 xs
take_4 [] = refl
take_4 (a ∷ []) = refl
take_4 (a ∷ b ∷ []) = refl
take_4 (a ∷ b ∷ c ∷ []) = refl
take_4 (a ∷ b ∷ c ∷ d ∷ xs) = refl

take_2 : (xs : List ℕ) → take 2 (take 64 xs) ≡ take 2 xs
take_2 [] = refl
take_2 (a ∷ []) = refl
take_2 (a ∷ b ∷ xs) = refl

-- The name says of the number of a processor that it is this one on x64, and that one on arm64.
abbrev pub Names : ℕ → ℕ → ℕ → String → Type 0
Names x64 arm64 machine name = (name ≡ "x64" → machine ≡ x64) × (name ≡ "arm64" → machine ≡ arm64)

-- The processors that the header states, by the numbers of the formats: EM_X86_64 and EM_AARCH64,
-- IMAGE_FILE_MACHINE_AMD64 and _ARM64, CPU_TYPE_X86_64 and _ARM64; of a universal binary nothing is
-- said.
pub data Machine (octets : List ℕ) : String → List String → Type 0 where
  elf_machine :
      (class machine : ℕ) (name : String)
      → octet (take 64 octets) 5 ≡ ok class
      → unpack (class == 1) 2 (take 64 octets) 18 ≡ ok machine
      → Names 62 183 machine name
      → Machine octets "ELF" (name ∷ [])
  pe_machine :
      (offset machine : ℕ) (name : String)
      → unpack true 4 (take 64 octets) 60 ≡ ok offset
      → unpack true 2 (take 6 (drop offset octets)) 4 ≡ ok machine
      → Names 34404 43620 machine name
      → Machine octets "PE" (name ∷ [])
  mach_machine :
      (machine : ℕ) (name : String)
      → unpack true 4 (take 64 octets) 4 ≡ ok machine
      → Names 16777223 16777228 machine name
      → Machine octets "Mach-O" (name ∷ [])
  universal_machines : (names : List String) → Machine octets "Mach-O" names

begins_with_u : (s : String) → literal "u" ("unknown-" <> s) ≡ some ("nknown-" <> s)
unfolding literal nat_eq
begins_with_u s = rw append.cons refl

unknown-x64 : (s : String) → "unknown-" <> s ≡ "x64" → ⊥
unfolding literal nat_eq
unknown-x64 s h = let e = sym (begins_with_u s) ∙ ap (literal "u") h in cc

unknown-arm64 : (s : String) → "unknown-" <> s ≡ "arm64" → ⊥
unfolding literal nat_eq
unknown-arm64 s h = let e = sym (begins_with_u s) ∙ ap (literal "u") h in cc

x64≢arm64 : ◌≡◌ {A = String} "x64" "arm64" → ⊥
unfolding string_eq
x64≢arm64 h = let e = ≡→== "x64" "arm64" h in cc

name_for-Names :
    (x64 arm64 machine : ℕ)
    → Names x64 arm64 machine (name_for ((x64, "x64") ∷ (arm64, "arm64") ∷ []) machine)
unfolding name_for string_eq
name_for-Names x64 arm64 machine =
    by (x64 == machine) (arm64 == machine) (eq_says x64 machine) (eq_says arm64 machine)
  where
    by :
        (a b : Bool)
        → Says a (x64 ≡ machine)
        → Says b (arm64 ≡ machine)
        → Names x64 arm64 machine
            (if a then "x64" else if b then "arm64" else "unknown-" <> str machine)
    by true b (f, _) _ = (λ _. sym (f refl), λ h. absurd (x64≢arm64 h))
    by false true _ (f, _) = (λ h. absurd (x64≢arm64 (sym h)), λ _. sym (f refl))
    by false false _ _ = (λ h. absurd (unknown-x64 _ h), λ h. absurd (unknown-arm64 _ h))

-- What an answer says of the octets: the format it names is theirs, and where it names none they begin
-- as no format does.
abbrev pub Answers : List ℕ → Result (Option Native) → Type 0
Answers octets (err e) = Unit
Answers octets (ok none) = (format : String) → Magic octets format → ⊥
Answers octets (ok (some (format, arches))) = Magic octets format × Machine octets format arches

single-Answers :
    (octets : List ℕ) (format : String) (x64 arm64 : ℕ) (machine : Result ℕ)
    → Magic octets format
    → ((k : ℕ) (name : String)
        → machine ≡ ok k
        → Names x64 arm64 k name
        → Machine octets format (name ∷ []))
    → Answers octets (single format ((x64, "x64") ∷ (arm64, "arm64") ∷ []) machine)
unfolding single
single-Answers octets format x64 arm64 (ok machine) m is =
    (m, is machine _ refl (name_for-Names x64 arm64 machine))
single-Answers octets format x64 arm64 (err e) m is = tt

with_number-Answers :
    (octets : List ℕ) (n : Result ℕ) (f : ℕ → Result (Option Native))
    → ((k : ℕ) → n ≡ ok k → Answers octets (f k))
    → Answers octets (with_number n f)
with_number-Answers octets (ok k) f each = each k refl
with_number-Answers octets (err e) f each = tt

-- a test on the octets
if-Answers :
    (octets xs ys : List ℕ) (x y : Result (Option Native))
    → (xs ≡ ys → Answers octets x)
    → ((xs ≡ ys → ⊥) → Answers octets y)
    → Answers octets (if same_octets xs ys then x else y)
if-Answers octets xs ys x y yes' no' = by (same_octets xs ys) (same_octets_says xs ys)
  where
    by : (b : Bool) → Says b (xs ≡ ys) → Answers octets (if b then x else y)
    by true (f, g) = yes' (f refl)
    by false (f, g) = no' (λ e. let k = g e in cc)

universal_arch-Answers :
    (octets header : List ℕ) (size : ℕ)
    → Magic octets "Mach-O"
    → Answers octets (universal_arch octets header size)
unfolding universal_arch
universal_arch-Answers octets header size m =
    with_number-Answers octets _ _ (λ count _. by (slices count size (drop 8 octets)))
  where
    by :
        (r : Result (List String))
        → Answers octets (elim r as (λ _. Result (Option Native)) [
          | ok names ↦ ok (some ("Mach-O", sort text_lt names))
          | err e ↦ err e
        ])
    by (ok names) = (m, universal_machines _)
    by (err e) = tt

-- the header of a PE at its offset
abbrev pe_part : List ℕ → ℕ → List ℕ
pe_part octets offset = take 6 (drop offset octets)

abbrev pe_at : String → List ℕ → ℕ → Result (Option Native)
pe_at path octets offset =
    if same_octets (take 4 (pe_part octets offset)) (80 ∷ 69 ∷ 0 ∷ 0 ∷ [])
    then single "PE" pe_machines (unpack true 2 (pe_part octets offset) 4)
    else err (value_error ("Invalid PE header: " <> path))

pe_arch-Answers :
    (path : String) (octets : List ℕ)
    → Magic octets "PE"
    → Answers octets (pe_arch path octets (take 64 octets))
unfolding pe_arch
pe_arch-Answers path octets m =
    with_number-Answers octets (unpack true 4 (take 64 octets) 60) (pe_at path octets) (λ offset o.
      by (pe_part octets offset)
        (same_octets (take 4 (pe_part octets offset)) (80 ∷ 69 ∷ 0 ∷ 0 ∷ []))
        (λ k name e n. pe_machine offset k name o e n))
  where
    by :
        (part : List ℕ) (b : Bool)
        → ((k : ℕ) (name : String)
            → unpack true 2 part 4 ≡ ok k
            → Names 34404 43620 k name
            → Machine octets "PE" (name ∷ []))
        → Answers octets (
            if b
            then single "PE" pe_machines (unpack true 2 part 4)
            else err (value_error ("Invalid PE header: " <> path)))
    by part true is = single-Answers octets "PE" 34404 43620 (unpack true 2 part 4) m is
    by part false is = tt

no_format :
    (octets : List ℕ)
    → (take 4 octets ≡ 127 ∷ 69 ∷ 76 ∷ 70 ∷ [] → ⊥)
    → (take 2 octets ≡ 77 ∷ 90 ∷ [] → ⊥)
    → (take 4 octets ≡ 207 ∷ 250 ∷ 237 ∷ 254 ∷ [] → ⊥)
    → (take 4 octets ≡ 202 ∷ 254 ∷ 186 ∷ 190 ∷ [] → ⊥)
    → (take 4 octets ≡ 202 ∷ 254 ∷ 186 ∷ 191 ∷ [] → ⊥)
    → (format : String) → Magic octets format
    → ⊥
no_format octets a b c d e _ (elf h) = a h
no_format octets a b c d e _ (pe h) = b h
no_format octets a b c d e _ (mach h) = c h
no_format octets a b c d e _ (universal h) = d h
no_format octets a b c d e _ (universal_64 h) = e h

-- The format that `native_arch` names is the one whose magic number the file begins with, and it names
-- none only for a file that begins with no such number. The names x64 and arm64 stand for the numbers
-- of the processors.
pub arch_of-Answers : (path : String) (octets : List ℕ) → Answers octets (arch_of path octets)
unfolding arch_of elf_arch
arch_of-Answers path octets =
    let four = take_4 octets in
    let two = take_2 octets in
    if-Answers octets _ _ _ _
      (λ e. with_number-Answers octets _ _ (λ class c.
        single-Answers octets "ELF" 62 183 _ (elf (sym four ∙ e))
          (λ k name u n. elf_machine class k name c u n)))
      (λ a.
        if-Answers octets _ _ _ _ (λ e. pe_arch-Answers path octets (pe (sym two ∙ e)))
          (λ b.
            if-Answers octets _ _ _ _
              (λ e.
                single-Answers octets "Mach-O" 16777223 16777228 _ (mach (sym four ∙ e))
                  (λ k name u n. mach_machine k name u n))
              (λ c.
                if-Answers octets _ _ _ _
                  (λ e. universal_arch-Answers octets _ 20 (universal (sym four ∙ e)))
                  (λ d.
                    if-Answers octets _ _ _ _
                      (λ e. universal_arch-Answers octets _ 32 (universal_64 (sym four ∙ e)))
                      (λ e.
                        no_format octets (λ h. a (four ∙ h)) (λ h. b (two ∙ h)) (λ h. c (four ∙ h))
                          (λ h. d (four ∙ h)) (λ h. e (four ∙ h)))))))
