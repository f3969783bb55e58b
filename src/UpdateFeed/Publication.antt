-- ===== src/UpdateFeed/Publication.antt =====
-- `publish` of publish_desktop_update_feed.py.
pub mod Round
pub mod Laws
use sesori_apps_monorepo.Prelude.{
  Bool, ◌&&◌, ◌||◌, not, String, ◌<>◌, Option, some, ltb, ◌==◌, string_eq, nat_eq, option_eq,
  if◌then◌else◌, is_some,
}
use sesori_apps_monorepo.Prelude.Lists.{sort}
use sesori_apps_monorepo.Prelude.Text.{text_lt, ends_with}
use sesori_apps_monorepo.Prelude.Exec.{Exec, pure, require, ◌>>=◌, ◌>>◌, for_each}
use sesori_apps_monorepo.Storage.{Storage, public_digest}
use sesori_apps_monorepo.Storage.Upload.{upload_verified}
use sesori_apps_monorepo.LinuxRepository.Versions.{Channel}
use sesori_apps_monorepo.UpdateFeed.Names.{publication_order}
use sesori_apps_monorepo.UpdateFeed.Verification.{Tree, verify}

-- Python's `<` on the keys `(publication_order(name), name)`
unfoldable pub name_lt : String → String → Bool
name_lt a b =
    ltb (publication_order a) (publication_order b)
    || (publication_order a == publication_order b && text_lt a b)

module _ (S : Storage) where
  open S use {World}

  -- what a round does by the public object that it found
  unfoldable pub publish_object :
      String → String → String → Bool → Option String → Exec World (Unit {0})
  publish_object root name digest immutable existing =
      if existing == some digest then pure tt else (do
        require (not (is_some existing) || not immutable)
            ("Conflicting immutable feed package: " <> name)
        upload_verified S root name digest immutable)

  unfoldable pub publish_name : String → Tree S.Bytes → String → Exec World (Unit {0})
  publish_name root tree name = do
    existing ← public_digest S name
    publish_object root name (S.sha256 (tree.content name)) (ends_with name ".nupkg") existing

  unfoldable pub publish : String → Tree S.Bytes → Channel → Exec World (Unit {0})
  publish root tree channel = do
    names ← verify S.sha256 tree channel
    for_each (publish_name root tree) (sort name_lt names)
