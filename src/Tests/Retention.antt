-- ===== src/Tests/Retention.antt =====
-- Pruning at concrete data, in a bucket in memory that lists and removes.
use mathlib.Core.List
use text.Mathlib.TextLemmas.{append_cancel_left}
use sesori_apps_monorepo.Prelude.{
  ◌≡◌, ◌≢◌, refl, ap, not, ◌&&◌, String, ◌<>◌, none, some, List, [], ◌∷◌, inl, ◌==◌, contains,
  string_eq, nat_eq, if◌then◌else◌, arith, false, true, Bool,
}
use sesori_apps_monorepo.Prelude.Exec.{ok, Exec}
use sesori_apps_monorepo.Prelude.Text.{literal, number}
use sesori_apps_monorepo.Prelude.Lists.{All, Pairwise, sort}
use sesori_apps_monorepo.Storage.{Storage, IsBucket, upload_command}
use sesori_apps_monorepo.LinuxRepository.Versions.{three_parts}
use sesori_apps_monorepo.LinuxRepository.Retention.{
  internal_package, apt_directory, rpm_directory, feed_directory_of, package_prefix, package_suffix,
  run_of, build_gt, collect, stale_of, stale_internal_packages,
}
use sesori_apps_monorepo.LinuxRepository.Retention.Laws.{
  IsSuperseded, stale_internal_packages-IsSuperseded,
}
use sesori_apps_monorepo.LinuxRepository.Retention.Prune.{
  bucket_url, list_command, remove_command, prune_internal_packages,
}
use sesori_apps_monorepo.LinuxRepository.Retention.Kept.{IsPrunable, prune_internal_packages-others}
use sesori_apps_monorepo.Tests.Bucket.{Objects, memory-IsBucket, execute, read_url}

abbrev names : List String
names =
    "apt/pool/internal/x64/Sesori-linux-x64-1.9.0-internal.3.deb"
    ∷ "apt/pool/internal/x64/Sesori-linux-x64-1.10.0-internal.9.deb"
    ∷ "apt/pool/internal/x64/Sesori-linux-x64-1.9.0-internal.2.deb"
    ∷ "apt/pool/stable/x64/Sesori-linux-x64-1.0.0-1.deb"
    ∷ "apt/pool/internal/x64/Sesori-linux-x64-1.9.0-internal.4.deb"
    ∷ "apt/pool/internal/x64/Sesori-linux-x64-1.9.0-internal.5.deb"
    ∷ "apt/pool/internal/x64/Sesori-linux-x64-1.9.0-internal.10.deb" ∷ []

abbrev oldest : String
oldest = "apt/pool/internal/x64/Sesori-linux-x64-1.9.0-internal.2.deb"

stale : List String → List String
unfolding stale_internal_packages stale_of collect build_gt internal_package apt_directory
    rpm_directory feed_directory_of package_prefix package_suffix run_of three_parts literal number
    sort string_eq nat_eq
stale listing = stale_internal_packages listing

stale_example : stale names ≡ oldest ∷ []
unfolding stale
stale_example = refl

contains-differ : (xs : List String) (x : String) → contains xs x ≡ false → All (λ y. x ≢ y) xs
contains-differ [] x h = tt
contains-differ (y ∷ ys) x h = (λ e. ground arith, contains-differ ys x (ground arith))

unfoldable no_repetition : List String → Bool
no_repetition [] = true
no_repetition (x ∷ xs) = not (contains xs x) && no_repetition xs

no_repetition-Pairwise : (xs : List String) → no_repetition xs ≡ true → Pairwise (λ a b. a ≢ b) xs
unfolding no_repetition
no_repetition-Pairwise [] h = tt
no_repetition-Pairwise (x ∷ xs) h =
    (contains-differ xs x (ground arith), no_repetition-Pairwise xs (ground arith))

names_once : no_repetition names ≡ true
unfolding no_repetition string_eq
names_once = refl

names_distinct : Pairwise (λ a b. a ≢ b) names
names_distinct = no_repetition-Pairwise names names_once

stale_internal_packages-IsSuperseded_example : IsSuperseded names oldest
unfolding stale
stale_internal_packages-IsSuperseded_example =
    stale_internal_packages-IsSuperseded names oldest names_distinct (inl refl)

unfoldable delete : List String → Objects → Objects
delete urls w n = if contains urls (bucket_url <> n) then none else w n

unfoldable manage : List String → Exec Objects String
manage (gcloud ∷ storage ∷ verb ∷ args) w =
    let uploaded = execute (gcloud ∷ storage ∷ verb ∷ args) w in
    if verb == "ls"
    then (ok ((bucket_url <> oldest) <> "\n"), w)
    else if verb == "rm"
    then (ok "", delete args w)
    else uploaded
manage _ w = (ok "", w)

abbrev managed : Storage
managed = record {
  World = Objects;
  Bytes = String;
  urlopen = read_url;
  run = manage;
  sha256 = λ body. body;
}

manage-upload :
    (path name : String) (immutable : Bool) (w : Objects)
    → manage (upload_command path name immutable) w ≡ execute (upload_command path name immutable) w
unfolding manage upload_command string_eq
manage-upload path name immutable w = refl

contains-url :
    (names : List String) (n : String)
    → All (λ m. n ≢ m) names
    → contains (List.map (λ m. bucket_url <> m) names) (bucket_url <> n) ≡ false
contains-url [] n h = refl
contains-url (m ∷ names) n h =
    let apart : (bucket_url <> n) ≢ (bucket_url <> m) =
      λ e. h.0 (append_cancel_left bucket_url n m e) in
    ground (arith, contains-url names n h.1, apart)

delete-other :
    (names : List String) (w : Objects) (n : String)
    → All (λ m. n ≢ m) names
    → delete (List.map (λ m. bucket_url <> m) names) w n ≡ w n
unfolding delete
delete-other names w n h = ap (λ c. if c then none else w n) (contains-url names n h)

abbrev managed-IsBucket : IsBucket managed
managed-IsBucket = record {
  objects = λ w n. w n;
  urlopen-ok = memory-IsBucket.urlopen-ok;
  urlopen-missing = memory-IsBucket.urlopen-missing;
  objects-urlopen = memory-IsBucket.objects-urlopen;
  objects-upload = λ path name immutable w n h.
      rw (manage-upload path name immutable w)
        (memory-IsBucket.objects-upload path name immutable w n h);
  objects-upload_immutable = λ path name w b h.
      rw (manage-upload path name true w)
        (memory-IsBucket.objects-upload_immutable path name w b h);
}

manage-list : (w : Objects) (n : String) → (manage list_command w).1 n ≡ w n
unfolding manage string_eq
manage-list w n = refl

manage-remove :
    (names : List String) (w : Objects) (n : String)
    → All (λ m. n ≢ m) names
    → (manage (remove_command names) w).1 n ≡ w n
unfolding manage string_eq
manage-remove names w n h = delete-other names w n h

managed-IsPrunable : IsPrunable managed managed-IsBucket
managed-IsPrunable = record { objects-list = manage-list; objects-remove = manage-remove }

prune_internal_packages-others_example :
    (prune_internal_packages managed (λ n. some n)).1 "apt/dists/stable/InRelease"
    ≡ some "apt/dists/stable/InRelease"
unfolding stale
prune_internal_packages-others_example =
    prune_internal_packages-others managed managed-IsBucket managed-IsPrunable (λ n. some n)
      "apt/dists/stable/InRelease" refl
