-- ===== src/LinuxRepository/Publication/Stages.antt =====
-- The stages of `publish`: the checks of the live revisions, which change nothing, and the uploads.
use mathlib.Core.Option
use sesori_apps_monorepo.Prelude.{
  ℕ, ◌≡◌, refl, sym, ap, ◌∙◌, ◌≤◌, false, String, ◌<>◌, Option, none, some, List, string_eq, nat_eq,
  arith,
}
use sesori_apps_monorepo.Prelude.Lists.{All, sort}
use sesori_apps_monorepo.Prelude.Sorting.{sort-IsSorted}
use sesori_apps_monorepo.Prelude.Text.{str}
use sesori_apps_monorepo.Prelude.Exec.{Error, Result, ok, err, Exec, lift, for_each, bind-elim}
use sesori_apps_monorepo.Prelude.Exec.Keeps.{
  Keeps, Keeps-bind, Keeps-lift, Keeps-pure, Keeps-require, Keeps-for_each,
}
use sesori_apps_monorepo.Prelude.Exec.Ensures.{
  Ensures, Ensures-bind, Ensures-for_each, Ensures-lift, Ensures-require, Ensures-pure,
}
use sesori_apps_monorepo.Delivery.{Ordered}
use sesori_apps_monorepo.Storage.{Storage, public_bytes, IsBucket, served}
use sesori_apps_monorepo.Storage.Upload.{public_bytes-objects}
use sesori_apps_monorepo.LinuxRepository.Versions.{Channel, version_order, tuple_lt}
use sesori_apps_monorepo.LinuxRepository.Publication.{
  Row, Report, publication_order, row_lt, publish_row, check_live, check_revision,
  rpm_architectures, repomd, publish,
}

abbrev pub order_of : Row → ℕ
order_of row = publication_order row.name

-- The upload loop runs over the rows in the order of publication.
pub sort-Ordered : (rows : List Row) → Ordered order_of (sort row_lt rows)
unfolding row_lt
sort-Ordered rows =
    sort-IsSorted row_lt {R = λ a c. order_of a ≤ order_of c} (λ a c d h k. omega arith)
      (λ a c h. ground arith) (λ a c h. ground arith) rows

module _ (S : Storage) (b : IsBucket S) (revision : S.Bytes → Result String) where
  open S use {World, Bytes}

  -- Nothing in the bucket differs from what was there in `w`.
  pub Untouched : World → World → Type 0
  Untouched w w' = (n : String) → b.objects w' n ≡ b.objects w n

  Untouched-refl : (w : World) → Untouched w w
  unfolding Untouched
  Untouched-refl w n = refl

  pub Untouched-served :
      (w w' : World) (n : String) → Untouched w w' → served S b w' n ≡ served S b w n
  unfolding Untouched
  Untouched-served w w' n h = ap (Option.map S.sha256) (h n)

  -- What the check of one architecture is for: its live repository is not newer.
  abbrev pub NotNewer : World → Channel → List ℕ → String → Type 0
  NotNewer w channel incoming rpm_arch =
      (current : Bytes) (previous : String) (order : List ℕ)
      → b.objects w (repomd channel rpm_arch) ≡ some current
      → revision current ≡ ok previous
      → version_order previous ≡ ok order
      → tuple_lt incoming order ≡ false

  Keeps-check_live :
      (P : World → Type 0) (incoming : List ℕ) (o : Option Bytes)
      → Keeps P (check_live S revision incoming o)
  unfolding check_live
  Keeps-check_live P incoming none = Keeps-pure tt
  Keeps-check_live P incoming (some current) =
      Keeps-bind _ _ (Keeps-lift (revision current)) (λ previous.
        Keeps-bind _ _ (Keeps-lift (version_order previous)) (λ order. Keeps-require _ _))

  module _ (w : World) (channel : Channel) (incoming : List ℕ) (rpm_arch : String) where
    -- Reading a live revision changes nothing.
    Keeps-check_revision : Keeps (Untouched w) (check_revision S revision channel incoming rpm_arch)
    unfolding check_revision public_bytes Untouched
    Keeps-check_revision =
        Keeps-bind _ _ (record { at = λ w' h n. b.objects-urlopen _ w' n ∙ h n })
          (Keeps-check_live (Untouched w) incoming)

    live-NotNewer :
        (o : Option Bytes) (w' : World)
        → b.objects w (repomd channel rpm_arch) ≡ o
        → Ensures
            (λ _ _. NotNewer w channel incoming rpm_arch)
            (check_live S revision incoming o)
            w'
    unfolding check_live
    live-NotNewer none w' is =
        Ensures-pure (λ _ _. NotNewer w channel incoming rpm_arch) tt w' (λ c p o s r v. cc)
    live-NotNewer (some current) w' is =
        Ensures-bind (λ previous _. revision current ≡ ok previous) _ _ w'
          (Ensures-lift _ _ w' (λ previous e. e))
          (λ previous w'' e.
            Ensures-bind (λ order _. version_order previous ≡ ok order) _ _ w''
              (Ensures-lift _ _ w'' (λ order e'. e'))
              (λ order u e'. Ensures-require _ _ u (λ t c p o s r v. ground arith)))

    check_revision-NotNewer :
        (w' : World)
        → Untouched w w'
        → Ensures
            (λ _ _. NotNewer w channel incoming rpm_arch)
            (check_revision S revision channel incoming rpm_arch)
            w'
    unfolding check_revision Untouched
    check_revision-NotNewer w' h =
        Ensures-bind (λ o _. b.objects w (repomd channel rpm_arch) ≡ o) _ _ w'
          (record { at = λ o e. sym (h _) ∙ public_bytes-objects S b _ w' o e }) live-NotNewer

  abbrev pub uploads : String → Report → Exec World (Unit {0})
  uploads root report = for_each (publish_row S root) (sort row_lt report.files)

  -- A publication raises with the bucket untouched, or has found that neither live repository is
  -- newer, with the bucket still untouched, and uploads.
  pub publish-elim :
      (P : Result (Unit {0}) × World → Type 0) (root : String) (channel : Channel) (report : Report)
      (w : World)
      → ((e : Error) (w' : World) → Untouched w w' → P (err e, w'))
      → ((incoming : List ℕ) (w' : World)
          → version_order (report.version <> ("-" <> str report.build_number)) ≡ ok incoming
          → All (NotNewer w channel incoming) rpm_architectures
          → Untouched w w'
          → P (uploads root report w'))
      → P (publish S revision root channel report w)
  unfolding publish lift
  publish-elim P root channel report w refused uploaded =
      bind-elim P (lift (version_order (report.version <> ("-" <> str report.build_number)))) _ w
        (λ e _. refused e w same)
        (λ incoming is.
          bind-elim P (checks incoming) (λ _. uploads root report) w
            (λ e _. refused e _ ((kept incoming).at w same))
            (λ t done.
              uploaded incoming _ is ((passed incoming).at t done) ((kept incoming).at w same)))
    where
      same : Untouched w w
      same = Untouched-refl w

      checks : List ℕ → Exec World (Unit {0})
      checks incoming = for_each (check_revision S revision channel incoming) rpm_architectures

      kept : (incoming : List ℕ) → Keeps (Untouched w) (checks incoming)
      kept incoming = Keeps-for_each _ rpm_architectures (Keeps-check_revision w channel incoming)

      passed :
          (incoming : List ℕ)
          → Ensures (λ _ _. All (NotNewer w channel incoming) rpm_architectures) (checks incoming) w
      passed incoming =
          Ensures-for_each (Untouched w) (NotNewer w channel incoming)
            (check_revision S revision channel incoming) (Keeps-check_revision w channel incoming)
            (check_revision-NotNewer w channel incoming) rpm_architectures w same
