-- ===== src/Tests/UpdateFeed.antt =====
-- Publications of publish_desktop_update_feed.py at concrete data.
use mathlib.Core.Option.{some-ne-none}
use text.Mathlib.TextEquality.{eq_iff}
use sesori_apps_monorepo.Prelude.{
  ◌≡◌, ◌≢◌, refl, String, ◌<>◌, none, some, [], ◌∷◌, inl, inr, true, false, string_eq, nat_eq,
  option_eq, ◌==◌, if◌then◌else◌, arith,
}
use sesori_apps_monorepo.Prelude.Exec.{Result, ok, ◌>>=◌, for_each}
use sesori_apps_monorepo.Prelude.Text.{literal, ends_with, is_digit}
use sesori_apps_monorepo.Prelude.Lists.{sort}
use sesori_apps_monorepo.Delivery.{Distinct}
use sesori_apps_monorepo.Storage.{public_bytes, public_digest, upload_command, found, served}
use sesori_apps_monorepo.Storage.Upload.{upload_verified}
use sesori_apps_monorepo.LinuxRepository.Versions.{internal}
use sesori_apps_monorepo.UpdateFeed.Names.{
  feed_object, feed_target, feed_file, one_of, is_package_rest, is_hosted, publication_order,
}
use sesori_apps_monorepo.UpdateFeed.Verification.{
  Tree, verify, hosted_names, check_directory, check_appcast, check_velopack, velopack_package,
  package_found, single_asset, verify_signature, is_appcast, directory_of, file_of, includes,
  distinct, same_set, shown,
}
use sesori_apps_monorepo.UpdateFeed.Verification.Guard.{file_names}
use sesori_apps_monorepo.UpdateFeed.Publication.{name_lt, publish, publish_name, publish_object}
use sesori_apps_monorepo.UpdateFeed.Publication.Laws.{
  publish-all_delivered, publish-staged, publish-packages_kept, publish-inside,
}
use sesori_apps_monorepo.Tests.Bucket.{
  Objects, memory, memory-IsBucket, read_url, execute, url_name, target_name, answer, write_file,
  put,
}

abbrev feed_name : String
feed_name = "desktop-updates/k1/internal/linux-x64/releases.internal.json"

abbrev signature_name : String
signature_name = "desktop-updates/k1/internal/linux-x64/releases.internal.json.sig"

abbrev package_name : String
package_name =
    "desktop-updates/k1/internal/linux-x64/sesori-desktop-1.2.0-internal.7-internal-full.nupkg"

abbrev tree : Tree String
tree = record {
  entries =
      record { name = "desktop-updates"; is_symlink = false; is_dir = true }
      ∷ record { name = feed_name; is_symlink = false; is_dir = false }
      ∷ record { name = signature_name; is_symlink = false; is_dir = false }
      ∷ record { name = package_name; is_symlink = false; is_dir = false }
      ∷ [];
  is_file = λ _. true;
  is_symlink = λ _. false;
  content = λ name. "out/" <> name;
  size = λ _. 32;
  read_text = λ name. ok name;
  assets = λ _. ok (
      some (
        record {
          package_id = some "sesori-desktop";
          kind = some "Full";
          file_name = some "sesori-desktop-1.2.0-internal.7-internal-full.nupkg";
          version = some "1.2.0-internal.7";
          sha256 = some ("out/" <> package_name);
          size = some 32;
        }
        ∷ []));
  enclosures = λ _. ok [];
  b64decode = λ text. ok text;
  openssl_verify = λ _ _ _. record { success = true; stdout = "" };
  lower = λ s. s;
  strip = λ s. s;
}

abbrev empty : Objects
empty n = none

abbrev conflicting : Objects
conflicting n = if n == package_name then some "other" else none

run : Objects → Result Unit × Objects
unfolding publish publish_name publish_object name_lt publication_order verify hosted_names
    is_hosted feed_object feed_target feed_file one_of is_package_rest check_directory check_appcast
    check_velopack velopack_package package_found single_asset verify_signature is_appcast
    directory_of file_of includes distinct same_set shown upload_verified public_digest public_bytes
    found upload_command read_url execute url_name target_name answer write_file put literal
    ends_with is_digit nat_eq string_eq option_eq ◌>>=◌ for_each sort
run w = publish memory "out" tree internal w

run_done : (run empty).0 ≡ ok tt
unfolding run
run_done = refl

paths_distinct : Distinct (λ n. n) (file_names tree.entries)
paths_distinct =
    ((λ e. feed_signature e, (λ e. feed_package e, tt)), ((λ e. signature_package e, tt), (tt, tt)))
  where
    feed_signature : feed_name ≢ signature_name
    feed_signature = ground (arith, eq_iff feed_name signature_name)

    feed_package : feed_name ≢ package_name
    feed_package = ground (arith, eq_iff feed_name package_name)

    signature_package : signature_name ≢ package_name
    signature_package = ground (arith, eq_iff signature_name package_name)

publish-all_delivered_example :
    served memory memory-IsBucket (publish memory "out" tree internal empty).1 signature_name
    ≡ some ("out/" <> signature_name)
unfolding run
publish-all_delivered_example =
    publish-all_delivered memory memory-IsBucket "out" tree internal empty signature_name
      paths_distinct refl (inr (inl refl))

publish-staged_example :
    served memory memory-IsBucket (publish memory "out" tree internal empty).1 package_name
    ≡ some ("out/" <> package_name)
unfolding run
publish-staged_example =
    publish-staged memory memory-IsBucket "out" tree internal empty package_name feed_name
      paths_distinct (inr (inr (inl refl))) (inl refl) (omega arith) (λ e. some-ne-none _ e)

-- The package is hosted already with other bytes, so this publication raises.
publish-packages_kept_example :
    served memory memory-IsBucket (publish memory "out" tree internal conflicting).1 package_name
    ≡ some "other"
unfolding run
publish-packages_kept_example =
    publish-packages_kept memory memory-IsBucket "out" tree internal conflicting package_name
      "other" refl refl

publish-inside_example :
    served memory memory-IsBucket
      (publish memory "out" tree internal empty).1
      "apt/dists/stable/InRelease"
    ≡ none
unfolding run
publish-inside_example =
    publish-inside memory memory-IsBucket "out" tree internal empty "apt/dists/stable/InRelease"
      refl
