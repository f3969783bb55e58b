-- ===== src/LinuxRepository/Publication.antt =====
-- `publication_order` and `publish` of publish_linux_repository.py, from the report that `verify`
-- returns. `revision` is the read of `{*}revision` by the XML library.
pub mod Round
pub mod Stages
pub mod Laws
use sesori_apps_monorepo.Prelude.{
  ℕ, Bool, true, false, ◌&&◌, ◌||◌, not, String, ◌<>◌, Option, none, some, List, [], ◌∷◌, ltb, ◌==◌,
  string_eq, nat_eq, if◌then◌else◌,
}
use sesori_apps_monorepo.Prelude.Lists.{sort}
use sesori_apps_monorepo.Prelude.Text.{str, text_lt, ends_with}
use sesori_apps_monorepo.Prelude.Exec.{Result, Exec, lift, pure, require, ◌>>=◌, ◌>>◌, for_each}
use sesori_apps_monorepo.Storage.{Storage, public_bytes, public_digest}
use sesori_apps_monorepo.Storage.Upload.{upload_verified}
use sesori_apps_monorepo.LinuxRepository.Versions.{
  Channel, stable, internal, version_order, tuple_lt,
}

unfoldable pub publication_order : String → ℕ
unfolding ends_with
publication_order name =
    if ends_with name "/InRelease"
    then 5
    else if ends_with name "/Release.gpg" || ends_with name "/repomd.xml.asc"
    then 4
    else if ends_with name "/Release" || ends_with name "/repomd.xml"
    then 3
    else if ends_with name "/Packages" || ends_with name "/Packages.gz"
    then 2
    else 1

-- A file of the repository's report
pub record Row : Type 0 where
  pub name : String
  pub sha256 : String
  pub bytes : ℕ

pub record Report : Type 0 where
  pub version : String
  pub build_number : ℕ
  pub files : List Row

abbrev pub channel_value : Channel → String
channel_value stable = "stable"
channel_value internal = "internal"

abbrev pub rpm_architectures : List String
rpm_architectures = "x86_64" ∷ "aarch64" ∷ []

-- Python's `<` on the keys `(publication_order(name), name)`
unfoldable pub row_lt : Row → Row → Bool
row_lt a b =
    ltb (publication_order a.name) (publication_order b.name)
    || (publication_order a.name == publication_order b.name && text_lt a.name b.name)

abbrev pub repomd : Channel → String → String
repomd channel rpm_arch =
    "rpm/" <> (channel_value channel <> ("/" <> (rpm_arch <> "/repodata/repomd.xml")))

module _ (S : Storage) where
  open S use {World}

  -- what a round does with a row, by the public object that it found
  unfoldable pub publish_found : String → Row → Bool → Option String → Exec World (Unit {0})
  publish_found root row immutable none = upload_verified S root row.name row.sha256 immutable
  publish_found root row immutable (some existing) = do
    require (not immutable || existing == row.sha256)
        ("Conflicting immutable repository object: " <> row.name)
    if existing == row.sha256 then pure tt else upload_verified S root row.name row.sha256 immutable

  unfoldable pub publish_row : String → Row → Exec World (Unit {0})
  publish_row root row = do
    existing ← public_digest S row.name
    publish_found root row (publication_order row.name == 1) existing

module _ (S : Storage) (revision : S.Bytes → Result String) where
  open S use {World, Bytes}

  unfoldable pub check_live : List ℕ → Option Bytes → Exec World (Unit {0})
  check_live incoming none = pure tt
  check_live incoming (some current) = do
    previous ← lift (revision current)
    order ← lift (version_order previous)
    require (not (tuple_lt incoming order)) "Refusing to downgrade an already-published repository"

  unfoldable pub check_revision : Channel → List ℕ → String → Exec World (Unit {0})
  check_revision channel incoming rpm_arch = do
    current ← public_bytes S (repomd channel rpm_arch)
    check_live incoming current

  unfoldable pub publish : String → Channel → Report → Exec World (Unit {0})
  publish root channel report = do
    incoming ← lift (version_order (report.version <> ("-" <> str report.build_number)))
    for_each (check_revision channel incoming) rpm_architectures
    for_each (publish_row S root) (sort row_lt report.files)
