-- ===== src/LinuxRepository/Retention/Prune.antt =====
-- `prune_internal_packages` of publish_linux_repository.py.
use mathlib.Core.List
use Prim.Native.String.{[], ◌∷◌}
use sesori_apps_monorepo.Prelude.{String, ◌<>◌, none, some, List, [], ◌∷◌, nat_eq}
use sesori_apps_monorepo.Prelude.Text.{literal}
use sesori_apps_monorepo.Prelude.Text.Lines.{splitlines}
use sesori_apps_monorepo.Prelude.Exec.{Exec, pure, ◌>>=◌, ◌>>◌}
use sesori_apps_monorepo.Storage.{Storage, bucket}
use sesori_apps_monorepo.LinuxRepository.Retention.{stale_internal_packages}

unfoldable pub removeprefix : String → String → String
removeprefix prefix s = elim (literal prefix s) [ some rest ↦ rest | none ↦ s ]

abbrev pub bucket_url : String
bucket_url = "gs://" <> (bucket <> "/")

abbrev pub list_command : List String
list_command = "gcloud" ∷ "storage" ∷ "ls" ∷ (bucket_url <> "**") ∷ []

abbrev pub remove_command : List String → List String
remove_command names = "gcloud" ∷ "storage" ∷ "rm" ∷ List.map (λ name. bucket_url <> name) names

module _ (S : Storage) where
  open S use {World, run}

  unfoldable pub remove : List String → Exec World (Unit {0})
  remove [] = pure tt
  remove (name ∷ names) = do run (remove_command (name ∷ names)); pure tt

  unfoldable pub prune_internal_packages : Exec World (Unit {0})
  prune_internal_packages = do
    listing ← run list_command
    remove (stale_internal_packages (List.map (removeprefix bucket_url) (splitlines listing)))
