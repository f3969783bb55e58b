-- ===== src/Tests/LinuxRepository.antt =====
-- Publications and version orders of publish_linux_repository.py at concrete data.
use sesori_apps_monorepo.Prelude.{
  ◌≡◌, refl, String, none, some, List, [], ◌∷◌, inl, inr, false, string_eq, nat_eq, option_eq, ◌==◌,
  if◌then◌else◌, arith, ◌≢◌,
}
use sesori_apps_monorepo.Prelude.Exec.{Result, ok, ◌>>=◌, for_each}
use sesori_apps_monorepo.Prelude.Text.{literal, number, str}
use sesori_apps_monorepo.Prelude.Lists.{sort}
use sesori_apps_monorepo.Storage.{public_bytes, public_digest, upload_command, found, served}
use sesori_apps_monorepo.Storage.Upload.{upload_verified}
use sesori_apps_monorepo.LinuxRepository.Versions.{
  stable, tuple_lt, version_order, version_groups, three_parts,
}
use sesori_apps_monorepo.LinuxRepository.Publication.{
  Row, Report, publication_order, row_lt, publish_row, publish_found, check_live, check_revision,
  publish,
}
use sesori_apps_monorepo.LinuxRepository.Publication.Laws.{
  publish-delivered, publish-Ordered, publish-immutable, publish-not_older,
}
use sesori_apps_monorepo.Tests.Bucket.{
  Objects, memory, memory-IsBucket, read_url, execute, url_name, target_name, answer, write_file,
  put,
}
use sesori_apps_monorepo.Delivery.{Distinct}
use mathlib.Core.Option.{some-ne-none}
use text.Mathlib.TextEquality.{eq_iff}

version_example : version_order "1.12.3-40" ≡ ok (1 ∷ 12 ∷ 3 ∷ 40 ∷ [])
unfolding version_order version_groups three_parts number literal nat_eq string_eq
version_example = refl

order_example : publication_order "apt/dists/stable/InRelease" ≡ 5
unfolding publication_order string_eq
order_example = refl

abbrev files : List Row
files =
    record {
      name = "apt/dists/stable/InRelease";
      sha256 = "out/apt/dists/stable/InRelease";
      bytes = 9;
    }
    ∷ record { name = "apt/pool/a.deb"; sha256 = "out/apt/pool/a.deb"; bytes = 5 }
    ∷ []

abbrev report : Report
report = record { version = "1.2.0"; build_number = 7; files = files }

abbrev live : Objects
live n = if n == "rpm/stable/x86_64/repodata/repomd.xml" then some "1.1.9-80" else none

distinct : Distinct (λ (r : Row). r.name) files
distinct = ((λ e. differ e, tt), (tt, tt))
  where
    differ : ◌≢◌ {A = String} "apt/dists/stable/InRelease" "apt/pool/a.deb"
    differ = ground (arith, eq_iff "apt/dists/stable/InRelease" "apt/pool/a.deb")

run : Result Unit × Objects
unfolding publish check_revision check_live publish_row publish_found upload_verified
    publication_order row_lt public_digest public_bytes found upload_command read_url execute
    url_name target_name answer write_file put version_order version_groups three_parts number
    literal nat_eq string_eq option_eq str ◌>>=◌ for_each sort
run = publish memory (λ body. ok body) "out" stable report live

run_done : run.0 ≡ ok tt
unfolding run
run_done = refl

-- The package is hosted already, and with other bytes than the report's.
abbrev conflicting : Objects
conflicting n = if n == "apt/pool/a.deb" then some "other" else live n

abbrev revision : String → Result String
revision body = ok body

abbrev package_row : Row
package_row = record { name = "apt/pool/a.deb"; sha256 = "out/apt/pool/a.deb"; bytes = 5 }

abbrev entry_row : Row
entry_row = record {
  name = "apt/dists/stable/InRelease";
  sha256 = "out/apt/dists/stable/InRelease";
  bytes = 9;
}

publish-delivered_example :
    served memory memory-IsBucket
      (publish memory revision "out" stable report live).1
      "apt/pool/a.deb"
    ≡ some "out/apt/pool/a.deb"
unfolding run
publish-delivered_example =
    publish-delivered memory memory-IsBucket revision "out" stable report live distinct refl
      package_row (inr (inl refl))

publish-Ordered_example :
    served memory memory-IsBucket
      (publish memory revision "out" stable report live).1
      "apt/pool/a.deb"
    ≡ some "out/apt/pool/a.deb"
unfolding run
publish-Ordered_example =
    publish-Ordered memory memory-IsBucket revision "out" stable report live distinct package_row
      entry_row (inr (inl refl)) (inl refl) (omega arith) (λ e. some-ne-none _ e)

publish-immutable_example :
    served memory memory-IsBucket
      (publish memory revision "out" stable report conflicting).1
      "apt/pool/a.deb"
    ≡ some "other"
unfolding run
publish-immutable_example =
    publish-immutable memory memory-IsBucket revision "out" stable report conflicting
      "apt/pool/a.deb" "other" refl refl

publish-not_older_example : tuple_lt (1 ∷ 2 ∷ 0 ∷ 7 ∷ []) (1 ∷ 1 ∷ 9 ∷ 80 ∷ []) ≡ false
unfolding run
publish-not_older_example =
    publish-not_older memory memory-IsBucket revision "out" stable report live "apt/pool/a.deb"
      "x86_64" (1 ∷ 2 ∷ 0 ∷ 7 ∷ []) (1 ∷ 1 ∷ 9 ∷ 80 ∷ []) "1.1.9-80" "1.1.9-80"
      (λ e. some-ne-none _ e) (inl refl) refl refl refl refl
