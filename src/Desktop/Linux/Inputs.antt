-- ===== src/Desktop/Linux/Inputs.antt =====
-- The preparation of Linux packages leaves the packages that it was given as they are.
use sesori_apps_monorepo.Prelude.{ℕ, ◌≡◌, ◌∙◌, String, ◌<>◌, List, [], ◌∷◌}
use sesori_apps_monorepo.Prelude.Lists.{In}
use sesori_apps_monorepo.Prelude.Exec.{ok, Exec, bind-elim}
use sesori_apps_monorepo.Prelude.Exec.Keeps.{
  Keeps, Keeps-bind, Keeps-pure, Keeps-if, Keeps-lift, Keeps-require, Keeps-for_each, Keeps-ask,
  Keeps-lift_bind, Keeps-collect, Keeps-raising, Keeps-finally,
}
use sesori_apps_monorepo.LinuxRepository.Versions.{Channel}
use sesori_apps_monorepo.Json.{Json, Fields}
use sesori_apps_monorepo.Host.{Host, command, in_temporary}
use sesori_apps_monorepo.Desktop.Macos.{architectures}
use sesori_apps_monorepo.Desktop.Linux.Evidence.{formats}
use sesori_apps_monorepo.Desktop.Linux.{
  public_desktop_key, format_at, checked_status, verify_checksums, prepare_package, copy_companion,
  copy_key, prepare_architecture,
}

-- The names under which files are copied into the output directory
pub data IsCopied (version : String) (build : ℕ) : String → Type 0 where
  signed_package :
      (arch name kind : String)
      → In arch architectures
      → format_at (formats arch version build) name ≡ ok kind
      → IsCopied version build name
  verification_file :
      (arch suffix : String)
      → In arch architectures
      → In suffix ("" ∷ ".asc" ∷ [])
      → IsCopied version build ("desktop-linux-" <> (arch <> ("-checksums.txt" <> suffix)))
  public_key : IsCopied version build public_desktop_key

abbrev pub package_path : String → String → String → String
package_path root arch name = (root <> ("/desktop-linux-packages-" <> arch)) <> ("/" <> name)

-- What is at the places of the packages is the same in both worlds.
abbrev pub Unchanged : (H : Host) → String → H.World → H.World → Type 0
Unchanged H root w u =
    (arch name : String)
    → H.read_bytes (package_path root arch name) u ≡ H.read_bytes (package_path root arch name) w

-- The output directory and the temporary directories lie apart from the packages under `root`, and
-- gpg writes nothing but its key ring.
pub record LiesApart (H : Host) (root output version : String) (build : ℕ) : Type 0 where
  pub mkdir : (w : H.World) → Unchanged H root w (H.mkdir output w).1
  pub copyfile :
      (source name : String) (w : H.World)
      → IsCopied version build name
      → Unchanged H root w (H.copyfile source (output <> ("/" <> name)) w).1
  pub mkdtemp : (w : H.World) → Unchanged H root w (H.mkdtemp "gpg-" w).1
  pub rmtree :
      (directory : String) (u w : H.World)
      → (H.mkdtemp "gpg-" u).0 ≡ ok directory
      → Unchanged H root w (H.rmtree directory w).1
  pub dearmor :
      (home source : String) (w : H.World)
      → Unchanged H root w
          (H.run
            (command (
              "gpg"
              ∷ "--homedir"
              ∷ home
              ∷ "--batch"
              ∷ "--dearmor"
              ∷ "--output"
              ∷ (home <> "/public.gpg")
              ∷ source
              ∷ []))
            w).1
  pub gpgv :
      (home keyring signature source : String) (w : H.World)
      → Unchanged H root w
          (H.run
            (command (
              "gpgv" ∷ "--homedir" ∷ home ∷ "--keyring" ∷ keyring ∷ "--status-fd" ∷ "1" ∷ signature
              ∷ source ∷ []))
            w).1

module _ (H : Host) (root output version : String) (build : ℕ)
    (apart : LiesApart H root output version build) (w : H.World) where
  open H use {World}

  abbrev Same : World → Type 0
  Same = Unchanged H root w

  step : {A : Type 0} (m : Exec World A) → ((u : World) → Unchanged H root u (m u).1) → Keeps Same m
  step m left = record { at = λ u h arch name. left u arch name ∙ h arch name }

  Keeps-copyfile :
      (source name : String)
      → IsCopied version build name
      → Keeps Same (H.copyfile source (output <> ("/" <> name)))
  Keeps-copyfile source name is = step _ (λ u. apart.copyfile source name u is)

  Keeps-verify_checksums :
      (packages fingerprint : String) → Keeps Same (verify_checksums H packages fingerprint)
  unfolding verify_checksums checked_status in_temporary
  Keeps-verify_checksums packages fingerprint = record {
    at = λ u same.
        bind-elim (λ q. Same q.1) (H.mkdtemp "gpg-") _ u
          (λ _ _. (step (H.mkdtemp "gpg-") apart.mkdtemp).at u same)
          (λ home e.
            (Keeps-finally _ _
                (Keeps-bind _ _
                  (Keeps-raising _ _ (
                    Keeps-bind _ _ (step _ (apart.dearmor home _))
                      (λ _. step _ (apart.gpgv home _ _ _))))
                  (λ status. Keeps-bind _ _ (Keeps-lift _) (λ signed. Keeps-require _ _)))
                (step _ (λ v. apart.rmtree home u v e))).at
              _ ((step (H.mkdtemp "gpg-") apart.mkdtemp).at u same));
  }

  pub Keeps-prepare_package :
      (packages packaging arch source_sha : String) (identity : Fields)
      (checksums : List (String × String)) (row : Json)
      → In arch architectures
      → Keeps (Unchanged H root w) (
          prepare_package H packages packaging output arch identity source_sha
            (formats arch version build)
            checksums
            row)
  unfolding prepare_package
  Keeps-prepare_package packages packaging arch source_sha identity checksums row known =
      Keeps-bind _ _ (Keeps-ask _) (λ name. Keeps-lift_bind _ _ (λ kind is.
        Keeps-bind _ _ (Keeps-ask _) (λ _. Keeps-bind _ _ (Keeps-ask _) (λ _.
          Keeps-bind _ _ (Keeps-ask _) (λ size. Keeps-bind _ _ (Keeps-lift _) (λ bytes.
            Keeps-bind _ _ (Keeps-require _ _) (λ _. Keeps-bind _ _ (Keeps-ask _) (λ digest.
              Keeps-bind _ _ (Keeps-lift _) (λ sha256. Keeps-bind _ _ (Keeps-require _ _) (λ _.
                Keeps-bind _ _ (Keeps-lift _) (λ listed. Keeps-bind _ _ (Keeps-require _ _) (λ _.
                  Keeps-bind _ _ (Keeps-copyfile _ _ (signed_package arch name kind known is))
                    (λ _. Keeps-pure _)))))))))))))

  Keeps-copy_companion :
      (packages arch suffix : String)
      → In arch architectures
      → In suffix ("" ∷ ".asc" ∷ [])
      → Keeps Same (copy_companion H packages output arch suffix)
  unfolding copy_companion
  Keeps-copy_companion packages arch suffix known listed =
      Keeps-bind _ _ (Keeps-copyfile _ _ (verification_file arch suffix known listed))
        (λ _. Keeps-bind _ _ (Keeps-ask _) (λ _. Keeps-bind _ _ (Keeps-ask _) (λ _. Keeps-pure _)))

  Keeps-copy_key :
      (packages : String) → Keeps Same (copy_key H packages (output <> ("/" <> public_desktop_key)))
  unfolding copy_key
  Keeps-copy_key packages = Keeps-bind _ _ (Keeps-ask _) (λ there.
      Keeps-if there _ _
        (λ _.
          Keeps-bind _ _ (Keeps-ask _) (λ _. Keeps-bind _ _ (Keeps-ask _) (λ _. Keeps-require _ _)))
        (λ _. Keeps-copyfile _ _ public_key))

  -- A round of the loop over the architectures leaves all packages as they are.
  pub Keeps-prepare_architecture :
      (source_sha arch : String) (channel : Channel)
      → In arch architectures
      → Keeps
          (Unchanged H root w)
          (prepare_architecture H root output source_sha version build channel arch)
  unfolding prepare_architecture
  Keeps-prepare_architecture source_sha arch channel known = Keeps-bind _ _ (Keeps-ask _) (λ signed.
      Keeps-bind _ _ (Keeps-ask _) (λ identity. Keeps-bind _ _ (Keeps-ask _) (λ _.
        Keeps-bind _ _ (Keeps-ask _) (λ _. Keeps-bind _ _ (Keeps-ask _) (λ rows.
          Keeps-bind _ _ (Keeps-ask _) (λ checksums.
            Keeps-bind _ _
              (Keeps-collect _ rows
                (λ row _. Keeps-prepare_package _ _ arch source_sha identity checksums row known))
              (λ artifacts. Keeps-bind _ _ (Keeps-for_each _ _ (λ fixture. Keeps-ask _)) (λ _.
                Keeps-bind _ _ (Keeps-verify_checksums _ _) (λ _.
                  Keeps-bind _ _
                    (Keeps-collect _ ("" ∷ ".asc" ∷ [])
                      (λ suffix m. Keeps-copy_companion _ arch suffix known m))
                    (λ companions. Keeps-bind _ _ (Keeps-copy_key _) (λ _. Keeps-pure _)))))))))))
