-- ===== src/LinuxRepository/Publication/Laws.antt =====
-- What a publication of a repository promises to those who read the bucket.
use sesori_apps_monorepo.Prelude.{
  ℕ, ◌≡◌, ◌∙◌, ◌≢◌, ◌<◌, String, ◌<>◌, some, List, sym, false, arith,
}
use sesori_apps_monorepo.Prelude.Lists.{In, sort}
use sesori_apps_monorepo.Prelude.Sorting.{All-In, In-sort, Pairwise-sort}
use sesori_apps_monorepo.Prelude.Text.{str}
use sesori_apps_monorepo.Prelude.Exec.{Result, ok}
use sesori_apps_monorepo.Prelude.Exec.Keeps.{Keeps-for_each}
use sesori_apps_monorepo.Delivery.{Distinct, for_each-delivered, for_each-Ordered}
use sesori_apps_monorepo.Storage.{Storage, IsBucket, served}
use sesori_apps_monorepo.LinuxRepository.Versions.{Channel, version_order, tuple_lt}
use sesori_apps_monorepo.LinuxRepository.Publication.{
  Row, Report, publication_order, row_lt, publish_row, rpm_architectures, repomd, publish,
}
use sesori_apps_monorepo.LinuxRepository.Publication.Round.{
  publish_row-IsDelivery, publish_row-immutable,
}
use sesori_apps_monorepo.LinuxRepository.Publication.Stages.{
  order_of, sort-Ordered, Untouched-served, NotNewer, publish-elim, uploads,
}

abbrev name_of : Row → String
name_of row = row.name

sort-Distinct : (rows : List Row) → Distinct name_of rows → Distinct name_of (sort row_lt rows)
sort-Distinct rows distinct =
    Pairwise-sort row_lt {R = λ a c. a.name ≢ c.name} (λ a c h e. h (sym e)) rows distinct

module _ (S : Storage) (b : IsBucket S) (revision : S.Bytes → Result String) (root : String)
    (channel : Channel) (report : Report) (w : S.World) where
  -- If `publish` returns, anonymous readers get every file of the report under the digest that the
  -- report states, for a report that names each file once.
  pub publish-delivered :
      Distinct name_of report.files
      → (publish S revision root channel report w).0 ≡ ok tt
      → (row : Row) → In row report.files
      → served S b (publish S revision root channel report w).1 row.name ≡ some row.sha256
  publish-delivered distinct returned row m =
      publish-elim S b revision (λ q. q.0 ≡ ok tt → served S b q.1 row.name ≡ some row.sha256) root
        channel report w (λ e w' _ h. cc)
        (λ incoming w' _ _ _ h.
          All-In (λ r. served S b (uploads S b revision root report w').1 r.name ≡ some r.sha256)
            (sort row_lt report.files)
            (for_each-delivered (served S b) name_of (λ r. r.sha256) (publish_row S root)
              (publish_row-IsDelivery S b root) (sort row_lt report.files) w'
              (sort-Distinct report.files distinct) h)
            (In-sort row_lt report.files row m))
        returned

  -- Whether `publish` returns or raises: where the public object of a file differs from the one
  -- before, every file that comes earlier in the order of publication is served under the digest
  -- that the report states. The report names each file once.
  pub publish-Ordered :
      Distinct name_of report.files
      → (first later : Row) → In first report.files
      → In later report.files
      → publication_order first.name < publication_order later.name
      → served S b (publish S revision root channel report w).1 later.name ≢ served S b w later.name
      → served S b (publish S revision root channel report w).1 first.name ≡ some first.sha256
  publish-Ordered distinct first later mf ml lt =
      publish-elim S b revision
        (λ q.
          served S b q.1 later.name ≢ served S b w later.name
          → served S b q.1 first.name ≡ some first.sha256)
        root channel report w
        (λ e w' same changed. absurd (changed (Untouched-served S b revision w w' later.name same)))
        (λ incoming w' _ _ same changed.
          for_each-Ordered (served S b) name_of (λ r. r.sha256) (publish_row S root)
            (publish_row-IsDelivery S b root) order_of (sort row_lt report.files) w'
            (sort-Distinct report.files distinct) (sort-Ordered report.files) first later
            (In-sort row_lt report.files first mf) (In-sort row_lt report.files later ml) lt
            (λ e. changed (e ∙ Untouched-served S b revision w w' later.name same)))

  -- Whether `publish` returns or raises, an immutable object that was in the bucket is still there
  -- with the same content.
  pub publish-immutable :
      (name digest : String)
      → publication_order name ≡ 1
      → served S b w name ≡ some digest
      → served S b (publish S revision root channel report w).1 name ≡ some digest
  publish-immutable name digest kept there =
      publish-elim S b revision (λ q. served S b q.1 name ≡ some digest) root channel report w
        (λ e w' same. Untouched-served S b revision w w' name same ∙ there)
        (λ incoming w' _ _ same.
          (Keeps-for_each (publish_row S root) (sort row_lt report.files)
              (λ row. publish_row-immutable S b root row name digest kept)).at
            w' (Untouched-served S b revision w w' name same ∙ there))

  -- `publish` changes an object only if the release is not older than the live RPM repository of
  -- either architecture.
  pub publish-not_older :
      (name : String) (rpm_arch : String) (incoming order : List ℕ) (current : S.Bytes)
      (previous : String)
      → served S b (publish S revision root channel report w).1 name ≢ served S b w name
      → In rpm_arch rpm_architectures
      → b.objects w (repomd channel rpm_arch) ≡ some current
      → revision current ≡ ok previous
      → version_order previous ≡ ok order
      → version_order (report.version <> ("-" <> str report.build_number)) ≡ ok incoming
      → tuple_lt incoming order ≡ false
  publish-not_older name rpm_arch incoming order current previous changed m live named is new =
      publish-elim S b revision
        (λ q. served S b q.1 name ≢ served S b w name → tuple_lt incoming order ≡ false) root
        channel report w
        (λ e w' same changed. absurd (changed (Untouched-served S b revision w w' name same)))
        (λ incoming' w' new' passed same changed.
          let older =
            All-In (NotNewer S b revision w channel incoming') rpm_architectures passed m current
              previous order live named is in
          ground arith)
        changed
