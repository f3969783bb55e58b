-- ===== src/UpdateFeed/Verification/Guard.antt =====
-- What `verify` hands to the publication: the files of the tree, every one a feed object of the
-- channel.
use sesori_apps_monorepo.Prelude.{
  ◌≡◌, refl, ap, true, false, String, List, [], ◌∷◌, Option, none, some, if◌then◌else◌,
}
use sesori_apps_monorepo.Prelude.Lists.{All}
use sesori_apps_monorepo.Prelude.Exec.Keeps.{
  Keeps, Keeps-bind, Keeps-if, Keeps-pure, Keeps-lift, Keeps-require, Keeps-raise, Keeps-for_each,
}
use sesori_apps_monorepo.Prelude.Exec.Ensures.{
  Ensures, Ensures-bind, Ensures-require, Ensures-if, Ensures-pure,
}
use sesori_apps_monorepo.LinuxRepository.Versions.{Channel}
use sesori_apps_monorepo.UpdateFeed.Names.{is_hosted}
use sesori_apps_monorepo.UpdateFeed.Verification.{
  Entry, Asset, Tree, hosted_names, verify, check_directory, check_appcast, check_velopack,
  velopack_package, package_found, verify_signature, includes, single_asset,
}

-- the names of the files among the listed paths
abbrev pub file_names : List Entry → List String
file_names [] = []
file_names (entry ∷ rest) =
    let more = file_names rest in if entry.is_dir then more else entry.name ∷ more

-- The names that the guard lets through are those of the files, each a feed object of the channel.
abbrev pub Guarded : Channel → List Entry → List String → Type 0
Guarded channel entries names =
    (names ≡ file_names entries) × All (λ n. is_hosted channel n ≡ true) names

module _ {World Bytes : Type 0} (digest : Bytes → String) (tree : Tree Bytes) where
  hosted_names-Guarded :
      (channel : Channel) (entries : List Entry) (w : World)
      → Ensures
          (λ names _. Guarded channel entries names)
          (hosted_names digest tree channel entries)
          w
  unfolding hosted_names
  hosted_names-Guarded channel [] w =
      Ensures-pure (λ names _. Guarded channel [] names) [] w (refl, tt)
  hosted_names-Guarded channel (entry ∷ rest) w =
      Ensures-bind (λ _ _. Unit) _ _ w (Ensures-require _ _ w (λ _. tt))
        (λ _ w' _.
          Ensures-if entry.is_dir _ _ w'
            (λ dir. record {
              at = λ names e.
                  let (same, hosted) = (hosted_names-Guarded channel rest w').at names e in
                  (rw dir same, hosted);
            })
            (λ file.
              Ensures-bind (λ _ _. is_hosted channel entry.name ≡ true) _ _ w'
                (Ensures-require _ _ w' (λ is. is))
                (λ _ u is.
                  Ensures-bind (λ names _. Guarded channel rest names) _ _ u
                    (hosted_names-Guarded channel rest u)
                    (λ names v (same, hosted).
                      Ensures-pure (λ ns _. Guarded channel (entry ∷ rest) ns) (entry.name ∷ names)
                        v (rw file (ap (λ ns. entry.name ∷ ns) same), (is, hosted))))))

  Keeps-verify_signature :
      (P : World → Type 0) (key : String) (payload : Bytes) (signature : String)
      → Keeps P (verify_signature digest tree key payload signature)
  unfolding verify_signature
  Keeps-verify_signature P key payload signature = Keeps-bind _ _ (Keeps-lift _) (λ raw.
      Keeps-bind _ _ (Keeps-require _ _) (λ _. Keeps-bind _ _ (Keeps-lift _) (λ s.
        let result = tree.openssl_verify raw payload s in
        Keeps-if result.success _ _ (λ _. Keeps-pure true)
          (λ _.
            Keeps-if (includes "Signature Verification Failure" result.stdout) _ _
              (λ _. Keeps-pure false) (λ _. Keeps-raise _)))))

  Keeps-velopack_package :
      (P : World → Type 0) (channel : Channel) (directory : String)
      → Keeps P (velopack_package digest tree channel directory)
  unfolding velopack_package package_found
  Keeps-velopack_package P channel directory =
      Keeps-bind _ _ (Keeps-lift _) (λ listed. found (single_asset listed))
    where
      found : (o : Option Asset) → Keeps P (package_found digest tree channel directory o)
      found none = Keeps-raise _
      found (some asset) =
          Keeps-bind _ _ (Keeps-require _ _)
            (λ _. Keeps-bind _ _ (Keeps-require _ _) (λ _. Keeps-pure _))

  Keeps-check_directory :
      (P : World → Type 0) (channel : Channel) (names : List String) (directory : String)
      → Keeps P (check_directory digest tree channel names directory)
  unfolding check_directory check_appcast check_velopack
  Keeps-check_directory P channel names directory =
      Keeps-if (includes "/macos-" directory) _ _
        (λ _.
          Keeps-bind _ _ (Keeps-require _ _)
            (λ _. Keeps-bind _ _ (Keeps-lift _) (λ found. Keeps-require _ _)))
        (λ _. Keeps-bind _ _ (Keeps-velopack_package P channel directory) (λ name.
          Keeps-bind _ _ (Keeps-require _ _) (λ _. Keeps-bind _ _ (Keeps-lift _) (λ signature.
            Keeps-bind _ _ (Keeps-verify_signature P _ _ _) (λ valid. Keeps-require _ _)))))

  -- Verification changes nothing outside the process.
  Keeps-hosted_names :
      (P : World → Type 0) (channel : Channel) (entries : List Entry)
      → Keeps P (hosted_names digest tree channel entries)
  unfolding hosted_names
  Keeps-hosted_names P channel [] = Keeps-pure []
  Keeps-hosted_names P channel (entry ∷ rest) = Keeps-bind _ _ (Keeps-require _ _) (λ _.
      Keeps-if entry.is_dir _ _ (λ _. Keeps-hosted_names P channel rest)
        (λ _.
          Keeps-bind _ _ (Keeps-require _ _)
            (λ _. Keeps-bind _ _ (Keeps-hosted_names P channel rest) (λ names. Keeps-pure _))))

  pub Keeps-verify : (P : World → Type 0) (channel : Channel) → Keeps P (verify digest tree channel)
  unfolding verify
  Keeps-verify P channel = Keeps-bind _ _ (Keeps-hosted_names P channel tree.entries) (λ names.
      Keeps-bind _ _ (Keeps-require _ _) (λ _.
        Keeps-bind _ _ (Keeps-for_each _ _ (Keeps-check_directory P channel names))
          (λ _. Keeps-pure names)))

  pub verify-Guarded :
      (channel : Channel) (w : World)
      → Ensures (λ names _. Guarded channel tree.entries names) (verify digest tree channel) w
  unfolding verify
  verify-Guarded channel w =
      Ensures-bind (λ names _. Guarded channel tree.entries names) _ _ w
        (hosted_names-Guarded channel tree.entries w)
        (λ names w' guarded.
          Ensures-bind (λ _ _. Unit) _ _ w' (Ensures-require _ _ w' (λ _. tt))
            (λ _ u _.
              Ensures-bind (λ _ _. Unit) _ _ u (record { at = λ _ _. tt })
                (λ _ v _. Ensures-pure (λ ns _. Guarded channel tree.entries ns) names v guarded)))
