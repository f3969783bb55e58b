-- ===== src/Tests/ReleaseAssets.antt =====
-- Publications of desktop assets at concrete data.
use text.Mathlib.TextEquality.{eq_iff}
use mathlib.Core.Option.{some-ne-none}
use sesori_apps_monorepo.Prelude.{◌≡◌, refl, none, some, [], ◌∷◌, inl, string_eq, nat_eq, arith}
use sesori_apps_monorepo.Prelude.Exec.{Result, ok, ◌>>=◌, for_each}
use sesori_apps_monorepo.Prelude.Text.{literal}
use sesori_apps_monorepo.Delivery.{Distinct}
use sesori_apps_monorepo.LinuxRepository.Versions.{stable}
use sesori_apps_monorepo.UpdateFeed.Verification.{last_slash}
use sesori_apps_monorepo.ReleaseAssets.{
  Upload, Metadata, path_name, name_of, public_sha256, upload_missing, publish_asset,
  public_release, shared_release, check_commit, publish_release, publish_linux,
}
use sesori_apps_monorepo.ReleaseAssets.Round.{view}
use sesori_apps_monorepo.ReleaseAssets.Laws.{
  publish_release_complete, publish_release-manifest_last, publish_release-kept,
  publish_linux_complete, publish_linux-manifest_last, publish_linux-kept,
}
use sesori_apps_monorepo.Tests.Hub.{Objects, repository, hub, hub-IsHub, read_url, add, gh, name_in}

abbrev installer : Upload
installer = record { path = "root/Sesori.zip"; sha256 = "root/Sesori.zip" }

abbrev checksums : Upload
checksums = record { path = "out/desktop-checksums.txt"; sha256 = "out/desktop-checksums.txt" }

abbrev manifest : Upload
manifest = record { path = "out/desktop-release.json"; sha256 = "out/desktop-release.json" }

abbrev metadata : Metadata
metadata = record {
  version = "1.2.0";
  build_number = 7;
  tag = "v1.2.0";
  artifacts = installer ∷ [];
}

abbrev empty : Objects
empty n = none

run : Objects → Result Unit × Objects
unfolding publish_release shared_release public_release publish_asset upload_missing public_sha256
    path_name last_slash read_url add gh name_in literal nat_eq string_eq ◌>>=◌ for_each
run w = publish_release hub stable repository "1.2.0" 7 metadata checksums manifest w

run_linux : Objects → Result Unit × Objects
unfolding run publish_linux check_commit
run_linux w = publish_linux hub stable repository "abc" metadata (checksums ∷ []) manifest w

run_done : (run empty).0 ≡ ok tt
unfolding run
run_done = refl

assets_distinct : Distinct name_of (installer ∷ checksums ∷ manifest ∷ [])
unfolding run
assets_distinct = (
  (
    λ e. ground (arith, eq_iff "Sesori.zip" "desktop-checksums.txt"),
    (λ e. ground (arith, eq_iff "Sesori.zip" "desktop-release.json"), tt),
  ),
  ((λ e. ground (arith, eq_iff "desktop-checksums.txt" "desktop-release.json"), tt), (tt, tt)),
)

publish_release_complete_example :
    view hub repository "v1.2.0" hub-IsHub
      (publish_release hub stable repository "1.2.0" 7 metadata checksums manifest empty).1
      "Sesori.zip"
    ≡ some "root/Sesori.zip"
unfolding run
publish_release_complete_example =
    publish_release_complete hub repository metadata hub-IsHub stable "1.2.0" 7 checksums manifest
      empty installer assets_distinct refl (inl refl)

publish_release-manifest_last_example :
    view hub repository "v1.2.0" hub-IsHub
      (publish_release hub stable repository "1.2.0" 7 metadata checksums manifest empty).1
      "Sesori.zip"
    ≡ some "root/Sesori.zip"
unfolding run view
publish_release-manifest_last_example =
    publish_release-manifest_last hub repository metadata hub-IsHub stable "1.2.0" 7 checksums
      manifest empty installer assets_distinct (inl refl) (λ e. some-ne-none _ e)

publish_release-kept_example :
    (publish_release hub stable repository "1.2.0" 7 metadata checksums manifest
        (λ n. some "old")).1
      "Sesori.zip"
    ≡ some "old"
unfolding run
publish_release-kept_example =
    publish_release-kept hub repository metadata hub-IsHub stable "1.2.0" 7 checksums manifest
      (λ n. some "old") "Sesori.zip" "old" refl

publish_linux_complete_example :
    view hub repository "v1.2.0" hub-IsHub
      (publish_linux hub stable repository "abc" metadata (checksums ∷ []) manifest empty).1
      "Sesori.zip"
    ≡ some "root/Sesori.zip"
unfolding run_linux
publish_linux_complete_example =
    publish_linux_complete hub repository metadata hub-IsHub stable "abc" (checksums ∷ []) manifest
      empty installer assets_distinct refl (inl refl)

publish_linux-manifest_last_example :
    view hub repository "v1.2.0" hub-IsHub
      (publish_linux hub stable repository "abc" metadata (checksums ∷ []) manifest empty).1
      "Sesori.zip"
    ≡ some "root/Sesori.zip"
unfolding run_linux view
publish_linux-manifest_last_example =
    publish_linux-manifest_last hub repository metadata hub-IsHub stable "abc" (checksums ∷ [])
      manifest empty installer assets_distinct (inl refl) (λ e. some-ne-none _ e)

publish_linux-kept_example :
    (publish_linux hub stable repository "abc" metadata
        (checksums ∷ [])
        manifest
        (λ n. some "old")).1
      "Sesori.zip"
    ≡ some "old"
unfolding run_linux
publish_linux-kept_example =
    publish_linux-kept hub repository metadata hub-IsHub stable "abc" (checksums ∷ []) manifest
      (λ n. some "old") "Sesori.zip" "old" refl
