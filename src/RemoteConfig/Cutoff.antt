-- ===== src/RemoteConfig/Cutoff.antt =====
-- `publish_cutoff` of publish_firebase_analytics_release_cutoff.py over the interface of its client.
-- Build numbers are natural: a negative one is refused as 0 is.
pub mod Laws
pub mod Refusal
use sesori_apps_monorepo.Prelude.{
  ℕ, ltb, Bool, true, false, String, ◌<>◌, Option, none, some, ◌==◌, nat_eq, if◌then◌else◌,
}
use sesori_apps_monorepo.Prelude.Text.{str}
use sesori_apps_monorepo.Prelude.Exec.{Exec, publication_error, pure, raise, lift, ◌>>=◌, ◌>>◌}
use sesori_apps_monorepo.Json.{Fields}
use sesori_apps_monorepo.RemoteConfig.Template.{
  parameter_key, read_existing_build, updated_template,
}

pub record RemoteConfigTemplate : Type 0 where
  pub body : Fields
  pub etag : String

pub record RemoteConfigClient (World : Type 0) : Type 0 where
  pub fetch_template : Exec World RemoteConfigTemplate
  pub validate_template : Fields → String → Exec World (Unit {0})
  pub publish_template : Fields → String → Exec World (Unit {0})

module _ {World : Type 0} (client : RemoteConfigClient World) where
  open client use {fetch_template, validate_template, publish_template}

  unfoldable pub publish_update : RemoteConfigTemplate → ℕ → Exec World Bool
  publish_update current build_number = do
    updated ← lift (updated_template current.body build_number)
    validate_template updated current.etag
    publish_template updated current.etag
    pure true

  unfoldable pub publish_over : RemoteConfigTemplate → ℕ → Option ℕ → Exec World Bool
  publish_over current build_number none = publish_update current build_number
  publish_over current build_number (some existing_build) =
      if ltb build_number existing_build
      then raise (
          publication_error (
            "Refusing to move "
            <> (parameter_key
                <> (" backwards from " <> (str existing_build <> (" to " <> str build_number))))))
      else if build_number == existing_build
      then pure false
      else publish_update current build_number

  unfoldable pub publish_cutoff : ℕ → Exec World Bool
  publish_cutoff build_number =
      if build_number == 0
      then raise (publication_error ("Build number must be positive, got " <> str build_number))
      else (do
        current ← fetch_template
        existing_build ← lift (read_existing_build current.body)
        publish_over current build_number existing_build)
