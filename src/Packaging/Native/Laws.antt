-- ===== src/Packaging/Native/Laws.antt =====
-- What an inventory says of the binaries that it lists.
use mathlib.Core.Path.{subst}
use sesori_apps_monorepo.Prelude.{
  ℕ, ◌≡◌, ◌≢◌, ◌⊎◌, ◌↔◌, inl, inr, refl, sym, ap, ◌∙◌, Bool, false, ◌==◌, ◌&&◌, if◌then◌else◌, true,
  ◌||◌, not, String, ◌<>◌, Option, none, some, List, [], ◌∷◌, contains, ==→≡, ≡→==, string_eq,
}
use sesori_apps_monorepo.Prelude.Reflect.{Says, and_says, eq_says}
use sesori_apps_monorepo.Prelude.Exec.{Result, Error, ok, err, pure, lift, ◌>>=◌}
use sesori_apps_monorepo.Prelude.Read.{ask, test}
use sesori_apps_monorepo.Prelude.Exec.Keeps.{
  Keeps, Keeps-bind, Keeps-pure, Keeps-if, Keeps-lift, Keeps-require, Keeps-ask,
}
use sesori_apps_monorepo.Prelude.Exec.Inversion.{
  bind-run, require-inv, lift-inv, pure-inv, branch_on, ok-injective,
}
use sesori_apps_monorepo.Packaging.Native.Headers.{Magic, Machine, Answers, arch_of-Answers}
use sesori_apps_monorepo.Host.{Host, digest_of, size_of}
use sesori_apps_monorepo.LinuxRepository.Retention.Prune.{removeprefix}
use sesori_apps_monorepo.Packaging.Native.{
  Binary, Native, platform_format, expected_format, entry, skip, inspect_path, inspect_paths,
  inventory, has_entries, native_arch,
}

-- The format that a platform has at a path of its bundle: Flutter's snapshot is ELF on Windows too.
abbrev pub Expected : String → String → String → Type 0
Expected target_os path format =
    ((target_os ≡ "linux") × (format ≡ "ELF"))
    ⊎ ((target_os ≡ "macos") × (format ≡ "Mach-O"))
    ⊎ ((target_os ≡ "windows") × (path ≢ "data/app.so") × (format ≡ "PE"))
    ⊎ ((target_os ≡ "windows") × (path ≡ "data/app.so") × (format ≡ "ELF"))

if_test :
    {A : Type 0} {P : Type 0} {a : A} (s t : String) (x y : A)
    → (if s == t then x else y) ≡ a
    → (s ≡ t → x ≡ a → P)
    → (s ≢ t → y ≡ a → P)
    → P
if_test {A} {P} {a} s t x y h same other = by (s == t) (eq_says s t) h
  where
    by : (b : Bool) → Says b (s ≡ t) → (if b then x else y) ≡ a → P
    by true (f, g) h = same (f refl) h
    by false (f, g) h = other (λ e. let k = g e in cc) h

snapshot_test :
    (target_os path : String)
    → Says
        (target_os == "windows" && path == "data/app.so")
        ((target_os ≡ "windows") × (path ≡ "data/app.so"))
snapshot_test target_os path =
    and_says _ _ (eq_says target_os "windows") (eq_says path "data/app.so")

expected_format-at :
    (target_os path platform format : String)
    → format ≡ expected_format target_os path platform
    → ((target_os ≡ "windows") × (path ≡ "data/app.so") × (format ≡ "ELF"))
      ⊎ ((((target_os ≡ "windows") × (path ≡ "data/app.so")) → ⊥) × (format ≡ platform))
unfolding expected_format
expected_format-at target_os path platform format h =
    by (target_os == "windows" && path == "data/app.so") (snapshot_test target_os path) h
  where
    by :
        (b : Bool)
        → Says b ((target_os ≡ "windows") × (path ≡ "data/app.so"))
        → format ≡ (if b then "ELF" else platform)
        → ((target_os ≡ "windows") × (path ≡ "data/app.so") × (format ≡ "ELF"))
          ⊎ ((((target_os ≡ "windows") × (path ≡ "data/app.so")) → ⊥) × (format ≡ platform))
    by true (f, g) h = let (w, p) = f refl in inl (w, p, h)
    by false (f, g) h = inr (λ k. let e = g k in cc, h)

expected_format-Expected :
    (target_os path platform format : String)
    → platform_format target_os ≡ ok platform
    → format ≡ expected_format target_os path platform
    → Expected target_os path format
unfolding platform_format
expected_format-Expected target_os path platform format p h =
    elim (expected_format-at target_os path platform format h) [
      | inl snapshot ↦ inr (inr (inr snapshot))
      | inr (other, e) ↦
          if_test target_os "macos" _ _ p (λ m k. inr (inl (m, e ∙ sym (ok-injective k))))
            (λ _ p.
              if_test target_os "windows" _ _ p
                (λ w k. inr (inr (inl (w, (λ s. other (w, s)), e ∙ sym (ok-injective k)))))
                (λ _ p.
                  if_test target_os "linux" _ _ p (λ l k. inl (l, e ∙ sym (ok-injective k)))
                    (λ _ k. absurd (no k))))
    ]
  where
    no : {A : Type 0} {x : A} {e : Error} → ◌≡◌ {A = Result A} (err e) (ok x) → ⊥
    no k = cc

inspected_says :
    (a b c : Bool) → ((not a || b || c) ≡ false) ↔ ((a ≡ true) × (b ≡ false) × (c ≡ false))
inspected_says true true c = (λ h. cc, λ k. cc)
inspected_says true false true = (λ h. cc, λ k. cc)
inspected_says true false false = (λ _. (refl, refl, refl), λ _. refl)
inspected_says false b c = (λ h. cc, λ k. cc)

entries_lem : (found : List Binary) → has_entries found ≡ true → found ≢ []
entries_lem [] h = cc
entries_lem (x ∷ found) h = λ k. cc

module _ (H : Host) (root target_os arch : String) (ignored : List String) (w : H.World) where
  open H use {World}

  -- In `w` the path is a file, no link, and not ignored.
  abbrev pub IsInspected : String → Type 0
  IsInspected path =
      (H.is_file path w ≡ true)
      × (H.is_symlink path w ≡ false)
      × (contains ignored (removeprefix (root <> "/") path) ≡ false)

  -- The binary is the file at the path as it is in `w`: of its digest and its size, of the format
  -- whose magic number it begins with, which is that of the platform, and for the architectures of
  -- its header, among them the one asked for.
  abbrev pub IsTarget : String → Binary → Type 0
  IsTarget path binary =
      (binary.path ≡ removeprefix (root <> "/") path)
      × IsInspected path
      × ((body : H.Bytes) × (H.read_bytes path w ≡ ok body)
          × (binary.sha256 ≡ H.sha256 body)
          × (binary.bytes ≡ H.length body)
          × Magic (H.octets body) binary.format
          × Machine (H.octets body) binary.format binary.architectures)
      × Expected target_os binary.path binary.format
      × (contains binary.architectures arch ≡ true)

  -- No format has its magic number at the beginning of the file.
  abbrev pub IsForeign : String → Type 0
  IsForeign path =
      IsInspected path
      → (body : H.Bytes) (format : String) → H.read_bytes path w ≡ ok body
      → Magic (H.octets body) format
      → ⊥

  -- What a round of the loop over the paths finds
  abbrev Found : String → Option Binary → Type 0
  Found path none = IsForeign path
  Found path (some binary) = IsTarget path binary

  -- The binaries are those of the paths, in their order.
  abbrev pub Inventory : List String → List Binary → Type 0
  Inventory [] found = found ≡ []
  Inventory (path ∷ paths) found =
      (IsForeign path × Inventory paths found)
      ⊎ ((binary : Binary) × (rest : List Binary) × (found ≡ binary ∷ rest)
          × IsTarget path binary
          × Inventory paths rest)

  added :
      (path : String) (paths : List String) (first : Option Binary) (rest found : List Binary)
      → Found path first
      → Inventory paths rest
      → (elim first [ some binary ↦ binary ∷ rest | none ↦ rest ]) ≡ found
      → Inventory (path ∷ paths) found
  added path paths none rest found here more e = inl (here, subst (Inventory paths) e more)
  added path paths (some binary) rest found here more e = inr (binary, rest, sym e, here, more)

  Keeps-entry :
      (path relative_path : String) (native : Option Native)
      → Keeps (λ u. u ≡ w) (entry H target_os arch path relative_path native)
  unfolding entry skip
  Keeps-entry path relative_path none = Keeps-bind _ _ (Keeps-require _ _) (λ _. Keeps-pure none)
  Keeps-entry path relative_path (some (format, arches)) =
      Keeps-bind _ _ (Keeps-lift _) (λ platform. Keeps-bind _ _ (Keeps-require _ _) (λ _.
        Keeps-bind _ _ (Keeps-ask _)
          (λ digest. Keeps-bind _ _ (Keeps-ask _) (λ size. Keeps-pure _))))

  Keeps-native_arch : (path : String) → Keeps (λ u. u ≡ w) (native_arch H path)
  unfolding native_arch
  Keeps-native_arch path = Keeps-bind _ _ (Keeps-ask _) (λ body. Keeps-lift _)

  Keeps-inspect_path :
      (path : String) → Keeps (λ u. u ≡ w) (inspect_path H root target_os arch ignored path)
  unfolding inspect_path
  Keeps-inspect_path path = Keeps-bind _ _ (Keeps-ask _) (λ there.
      Keeps-bind _ _ (Keeps-ask _) (λ link.
        Keeps-if (not there || link || contains ignored (removeprefix (root <> "/") path)) _ _
          (λ _. Keeps-pure none)
          (λ _. Keeps-bind _ _ (Keeps-native_arch path) (λ native. Keeps-entry path _ native))))

  digest_of-inv :
      (path digest : String) (body : H.Bytes)
      → H.read_bytes path w ≡ ok body
      → digest_of H path w ≡ ok digest
      → digest ≡ H.sha256 body
  unfolding digest_of
  digest_of-inv path digest body r h =
      ok-injective (sym h ∙ ap (λ x. elim x [ ok b ↦ ok (H.sha256 b) | err e ↦ err e ]) r)

  size_of-inv :
      (path : String) (size : ℕ) (body : H.Bytes)
      → H.read_bytes path w ≡ ok body
      → size_of H path w ≡ ok size
      → size ≡ H.length body
  unfolding size_of
  size_of-inv path size body r h =
      ok-injective (sym h ∙ ap (λ x. elim x [ ok b ↦ ok (H.length b) | err e ↦ err e ]) r)

  entry-Found :
      (path : String) (body : H.Bytes) (native : Option Native) (found : Option Binary)
      → IsInspected path
      → H.read_bytes path w ≡ ok body
      → Answers (H.octets body) (ok native)
      → (entry H target_os arch path (removeprefix (root <> "/") path) native w).0 ≡ ok found
      → Found path found
  unfolding entry skip ask
  entry-Found path body none found i r a h =
      let (_, k) = require-inv _ _ _ w found h in
      subst (Found path) (pure-inv none found w k) (λ _ body' format r'.
        subst (λ b. Magic (H.octets b) format → ⊥) (ok-injective (sym r ∙ r')) (a format))
  entry-Found path body (some (format, arches)) found i r a h =
      let (platform, p, h) = lift-inv _ _ w found h in
      let (c, h) = require-inv _ _ _ w found h in
      let (digest, d, _, h) = bind-run _ _ w found h in
      let (size, s, _, h) = bind-run _ _ _ found h in
      let (f, k) = (and_says _ _ (==→≡ _ _, ≡→== _ _) (λ k. k, λ k. k)).0 c in
      subst (Found path) (pure-inv _ found w h) (
        refl,
        i,
        (body, r, digest_of-inv path digest body r d, size_of-inv path size body r s, a.0, a.1),
        expected_format-Expected target_os _ platform format p f,
        k,
      )

  -- the file at a path that is looked into
  native-Found :
      (path : String) (found : Option Binary)
      → IsInspected path
      → ((native_arch H path >>= λ native.
            entry H target_os arch path (removeprefix (root <> "/") path) native)
          w).0
        ≡ ok found
      → Found path found
  unfolding native_arch ask lift
  native-Found path found i h =
      let (native, n, _, h) = bind-run _ _ w found h in
      let (body, r, _, n) = bind-run _ _ w native n in
      let rest = entry H target_os arch path (removeprefix (root <> "/") path) native in
      entry-Found path body native found i r
        (subst (Answers (H.octets body)) n (arch_of-Answers path (H.octets body)))
        (subst (λ u. (rest u).0 ≡ ok found) ((Keeps-native_arch path).at w refl) h)

  -- the test of the loop, where the questions have these answers
  round-Found :
      (path : String) (found : Option Binary) (there link : Bool)
      → H.is_file path w ≡ there
      → H.is_symlink path w ≡ link
      → ((if not there || link || contains ignored (removeprefix (root <> "/") path)
            then pure none
            else (native_arch H path >>= λ native.
                entry H target_os arch path (removeprefix (root <> "/") path) native))
          w).0
        ≡ ok found
      → Found path found
  round-Found path found there link t l h =
      let skipped = contains ignored (removeprefix (root <> "/") path) in
      let (f, g) = inspected_says there link skipped in
      branch_on (not there || link || skipped) _ _ h
        (λ c k.
          subst (Found path) (pure-inv none found w k)
            (λ (a, b, d) _ _ _ _. let e = g (sym t ∙ a, sym l ∙ b, d) in cc))
        (λ c k. let (a, b, d) = f c in native-Found path found (t ∙ a, l ∙ b, d) k)

  inspect_path-Found :
      (path : String) (found : Option Binary)
      → (inspect_path H root target_os arch ignored path w).0 ≡ ok found
      → Found path found
  unfolding inspect_path ask test
  inspect_path-Found path found h =
      let (there, t, _, h) = bind-run _ _ w found h in
      let (link, l, _, h) = bind-run _ _ _ found h in
      round-Found path found there link (ok-injective t) (ok-injective l) h

  inspect_paths-Inventory :
      (paths : List String) (found : List Binary) (u : World)
      → u ≡ w
      → (inspect_paths H root target_os arch ignored paths u).0 ≡ ok found
      → Inventory paths found
  unfolding inspect_paths pure
  inspect_paths-Inventory [] found u same h = sym (pure-inv [] found u h)
  inspect_paths-Inventory (path ∷ paths) found u same h =
      let (first, f, _, h) = bind-run _ _ u found h in
      let (rest, r, _, h) = bind-run _ _ _ found h in
      let here =
        inspect_path-Found path first
          (subst (λ v. (inspect_path H root target_os arch ignored path v).0 ≡ ok first) same f) in
      let more = inspect_paths-Inventory paths rest _ ((Keeps-inspect_path path).at u same) r in
      added path paths first rest found here more (pure-inv _ found u h)

  pub inventory-Inventory :
      (found : List Binary)
      → (inventory H root target_os arch ignored w).0 ≡ ok found
      → (paths : List String) × (H.rglob root w ≡ ok paths) × Inventory paths found × (found ≢ [])
  unfolding inventory ask pure
  inventory-Inventory found h =
      let (platform, p, h) = lift-inv _ _ w found h in
      let (paths, is, _, h) = bind-run _ _ w found h in
      let (entries, e, _, h) = bind-run _ _ _ found h in
      let (c, h) = require-inv _ _ _ _ found h in
      let same = pure-inv entries found w h in
      (
        paths,
        is,
        subst (Inventory paths) same (inspect_paths-Inventory paths entries _ refl e),
        subst (λ l. l ≢ []) same (entries_lem entries c),
      )
