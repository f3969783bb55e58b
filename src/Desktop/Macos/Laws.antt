-- ===== src/Desktop/Macos/Laws.antt =====
-- What the metadata of a prepared macOS release says of the packages.
use mathlib.Core.List
use mathlib.Core.Path.{subst}
use mathlib.Core.Option.{some-injective}
use sesori_apps_monorepo.Prelude.{
  contains, ℕ, ◌≡◌, refl, sym, ap, ◌∙◌, true, String, Bool, ◌==◌, ==→≡, ≡→==, nat_eq, ◌<>◌, Option,
  none, some, List, [], ◌++◌, string_eq,
}
use sesori_apps_monorepo.Prelude.Lists.{All}
use sesori_apps_monorepo.Prelude.Exec.{ok}
use sesori_apps_monorepo.Prelude.Read.Inversion.{
  require-inv, lift-inv, bind-inv, pure-inv, collect-All, collect-map,
}
use sesori_apps_monorepo.LinuxRepository.Retention.Groups.{All-append}
use sesori_apps_monorepo.Json.{Fields, get}
use sesori_apps_monorepo.Host.{Host, digest_of, read_json}
use sesori_apps_monorepo.Prelude.Reflect.{Says, and_says}
use sesori_apps_monorepo.Prelude.Exec.Inversion.{ok-injective}
use sesori_apps_monorepo.Desktop.Producer.{is_text}
use sesori_apps_monorepo.Desktop.Identity.{clean_version, positive_int, required, release_tag}
use sesori_apps_monorepo.Desktop.Macos.{
  Package, Release, packages_of, package_names, check_package, check_identity, prepare_architecture,
  prepare_architectures, check_release, evidence_of, same_identity, channels, architectures,
}

required-inv :
    {A : Type 0} (message : String) (o : Option A) (a : A) → required message o ≡ ok a → o ≡ some a
unfolding required
required-inv message none a h = cc
required-inv message (some b) a h = ap some (ok-injective h)

same_says : {b : Bool} → Says b (b ≡ true)
same_says = (λ h. h, λ h. h)

same_identity_lem :
    (found : String × ℕ) (version : String) (build : ℕ)
    → same_identity (some found) version build ≡ true
    → found ≡ (version, build)
unfolding same_identity
same_identity_lem (v, b) version build h =
    let (e, k) =
      (and_says (v == version) (b == build) (==→≡ v version, ≡→== v version)
          (==→≡ b build, ≡→== b build)).0
        h in
    ap (λ x. (x, b)) e ∙ ap (λ y. (version, y)) k

module _ (H : Host) (root : String) (w : H.World) where
  -- A package is recorded as it is in the packages of its architecture.
  abbrev pub Recorded : Package → Type 0
  Recorded p = digest_of H (packages_of root p.architecture <> ("/" <> p.name)) w ≡ ok p.sha256

  abbrev package_name : Package → String
  package_name p = p.name

  check_package-Recorded :
      (arch : String) (artifacts : Fields) (name : String) (p : Package)
      → check_package H root arch artifacts name w ≡ ok p
      → Recorded p × (p.name ≡ name)
  unfolding check_package
  check_package-Recorded arch artifacts name p h =
      let (digest, is, h) = bind-inv _ _ w p h in
      let (stated, s, h) = lift-inv _ _ w p h in
      let (c, h) = require-inv _ _ _ w p h in
      let e = pure-inv _ p w h in (subst Recorded e is, sym (ap package_name e))

  -- What a round of the loop gives: the packages of its architecture, as they are.
  prepare_architecture-Recorded :
      (source_sha channel : String) (common : Option (String × ℕ)) (arch : String)
      (found : (String × ℕ) × List Package)
      → prepare_architecture H root source_sha channel common arch w ≡ ok found
      → All Recorded found.1 × (List.map package_name found.1 ≡ package_names arch)
  unfolding prepare_architecture
  prepare_architecture-Recorded source_sha channel common arch found h =
      let (i, _, h) = bind-inv _ _ w found h in
      let (same, _, h) = bind-inv _ _ w found h in
      let (_, _, h) = bind-inv _ _ w found h in
      let (_, _, h) = bind-inv _ _ w found h in
      let (report, _, h) = bind-inv _ _ w found h in
      let (artifacts, _, h) = bind-inv _ _ w found h in
      let (packages, is, h) = bind-inv _ _ w found h in
      let e = pure-inv _ found w h in
      let each = check_package-Recorded arch artifacts in
      let all =
        collect-All (check_package H root arch artifacts) w Recorded (λ n p k. (each n p k).0) _ _
          is in
      let names =
        collect-map (check_package H root arch artifacts) w package_name (λ n p k. (each n p k).1) _
          _ is in
      (subst (λ f. All Recorded f.1) e all, ap (λ f. List.map package_name f.1) (sym e) ∙ names)

  -- The bundle of an architecture is sealed for this source, as this version and build.
  abbrev pub Sealed : String → String → String × ℕ → Type 0
  Sealed source_sha arch found =
      (identity : Fields) × (read_json H
          ((evidence_of root arch <> "/desktop-macos-packaging") <> "/desktop-bundle.json") w
        ≡ ok identity)
      × (is_text (get identity "architecture") arch ≡ true)
      × (is_text (get identity "sourceSha") source_sha ≡ true)
      × (clean_version (get identity "version") ≡ some found.0)
      × (positive_int (get identity "buildNumber") ≡ some found.1)

  prepare_architecture-Sealed :
      (source_sha channel : String) (common : Option (String × ℕ)) (arch : String)
      (found : (String × ℕ) × List Package)
      → prepare_architecture H root source_sha channel common arch w ≡ ok found
      → Sealed source_sha arch found.0 × (same_identity common found.0.0 found.0.1 ≡ true)
  unfolding prepare_architecture check_identity
  prepare_architecture-Sealed source_sha channel common arch found h =
      let (identity, is, h) = bind-inv _ _ w found h in
      let (same, k, h) = bind-inv _ _ w found h in
      let (_, _, h) = bind-inv _ _ w found h in
      let (_, _, h) = bind-inv _ _ w found h in
      let (_, _, h) = bind-inv _ _ w found h in
      let (_, _, h) = bind-inv _ _ w found h in
      let (packages, _, h) = bind-inv _ _ w found h in
      let e = pure-inv _ found w h in
      let (target, k) = require-inv _ _ _ w same k in
      let (source, k) = require-inv _ _ _ w same k in
      let (version, v, k) = lift-inv _ _ w same k in
      let (build, b, k) = lift-inv _ _ w same k in
      let (shared, k) = require-inv _ _ _ w same k in
      let i = pure-inv _ same w k in
      let (_, t) = (and_says _ _ same_says same_says).0 target in
      let v = required-inv _ _ version v ∙ ap (λ f. some f.0) i in
      let b = required-inv _ _ build b ∙ ap (λ f. some f.1) i in
      (
        subst (λ f. Sealed source_sha arch f.0) e (identity, is, t, source, v, b),
        subst (λ f. same_identity common f.0.0 f.0.1 ≡ true) e
            (subst (λ f. same_identity common f.0 f.1 ≡ true) i shared),
      )

  pair_Sealed :
      (source_sha : String) (found found' : String × ℕ)
      → same_identity (some found) found'.0 found'.1 ≡ true
      → Sealed source_sha "x64" found'
      → Sealed source_sha "arm64" found
      → All (λ arch. Sealed source_sha arch found') architectures
  pair_Sealed source_sha found found' same x a =
      let e = same_identity_lem found found'.0 found'.1 same in
      (subst (Sealed source_sha "arm64") e a, (x, tt))

  -- What the loop over the architectures gives, from what its rounds give.
  abbrev Prepared : String → (Option (String × ℕ) × List Package) → Type 0
  Prepared source_sha loop =
      (found : String × ℕ) × (loop.0 ≡ some found)
      × All (λ arch. Sealed source_sha arch found) architectures
      × All Recorded loop.1
      × (List.map package_name loop.1 ≡ package_names "arm64" ++ package_names "x64")

  rounds-Prepared :
      (source_sha channel : String) (arm x64 : (String × ℕ) × List Package)
      → prepare_architecture H root source_sha channel none "arm64" w ≡ ok arm
      → prepare_architecture H root source_sha channel (some arm.0) "x64" w ≡ ok x64
      → Prepared source_sha (some x64.0, arm.1 ++ (x64.1 ++ []))
  rounds-Prepared source_sha channel arm x64 a x =
      let (arm_all, arm_names) =
        prepare_architecture-Recorded source_sha channel none "arm64" arm a in
      let (x64_all, x64_names) =
        prepare_architecture-Recorded source_sha channel (some arm.0) "x64" x64 x in
      let (arm_sealed, _) = prepare_architecture-Sealed source_sha channel none "arm64" arm a in
      let (x64_sealed, same) =
        prepare_architecture-Sealed source_sha channel (some arm.0) "x64" x64 x in
      (
        x64.0,
        refl,
        pair_Sealed source_sha arm.0 x64.0 same x64_sealed arm_sealed,
        All-append Recorded arm.1 (x64.1 ++ []) arm_all (All-append Recorded x64.1 [] x64_all tt),
        rw
            (
              List.map-append package_name arm.1 (x64.1 ++ []),
              List.map-append package_name x64.1 [],
              arm_names,
              x64_names,
            )
            refl,
      )

  prepare_architectures-Prepared :
      (source_sha channel : String) (loop : Option (String × ℕ) × List Package)
      → prepare_architectures H root source_sha channel none architectures w ≡ ok loop
      → Prepared source_sha loop
  unfolding prepare_architectures
  prepare_architectures-Prepared source_sha channel loop h =
      let (arm, a, h) = bind-inv _ _ w loop h in
      let (last, m, h) = bind-inv _ _ w loop h in
      let (x64, x, m) = bind-inv _ _ w last m in
      let (done, d, m) = bind-inv _ _ w last m in
      let end = pure-inv _ done w d in
      let step = pure-inv _ last w m in
      let first = pure-inv _ loop w h in
      let e = ap (λ l. (l.0, arm.1 ++ l.1)) (ap (λ n. (n.0, x64.1 ++ n.1)) end ∙ step) ∙ first in
      subst (Prepared source_sha) e (rounds-Prepared source_sha channel arm x64 a x)

  abbrev pub Checked : String → String → Release → Type 0
  Checked source_sha channel release =
      (contains channels channel ≡ true)
      × (release.tag ≡ release_tag channel release.version release.build_number)
      × All (λ arch. Sealed source_sha arch (release.version, release.build_number)) architectures
      × All Recorded release.artifacts
      × (List.map package_name release.artifacts ≡ package_names "arm64" ++ package_names "x64")

  pub check_release-Recorded :
      (source_sha channel tooling_sha repository : String) (run_id : ℕ) (current_run_id : Option ℕ)
      (release : Release)
      → check_release H root source_sha channel tooling_sha repository run_id current_run_id w
        ≡ ok release
      → Checked source_sha channel release
  unfolding check_release prepare_architectures
  check_release-Recorded source_sha channel tooling_sha repository run_id current_run_id release h =
      let (known, h) = require-inv _ _ _ w release h in
      let (run, _, h) = bind-inv _ _ w release h in
      let (loop, l, h) = bind-inv _ _ w release h in
      let (found, one, sealed, all, names) =
        prepare_architectures-Prepared source_sha channel loop l in
      let (own, o, h) = lift-inv _ _ w release h in
      let same : found ≡ own = some-injective _ _ (sym one ∙ required-inv _ _ own o) in
      let (_, _, h) = lift-inv _ _ w release h in
      let e = pure-inv _ release w h in
      subst (Checked source_sha channel) e (
        known,
        refl,
        subst (λ f. All (λ arch. Sealed source_sha arch f) architectures) same sealed,
        all,
        names,
      )
