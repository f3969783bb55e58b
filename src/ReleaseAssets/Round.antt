-- ===== src/ReleaseAssets/Round.antt =====
-- One round of the upload of release assets.
use mathlib.Core.Option
use sesori_apps_monorepo.Prelude.{
  ◌≡◌, ◌≢◌, refl, ap, ◌∙◌, String, List, [], ◌∷◌, Option, some, contains, true, false, starts_with,
  ==→≡, string_eq,
}
use sesori_apps_monorepo.Prelude.Exec.{ok}
use sesori_apps_monorepo.Prelude.Exec.Keeps.{Keeps, Keeps-bind, Keeps-pure, Keeps-if, Keeps-require}
use sesori_apps_monorepo.Prelude.Exec.Ensures.{Ensures, Ensures-bind, Ensures-require, Ensures-pure}
use sesori_apps_monorepo.Prelude.Lists.{All}
use sesori_apps_monorepo.Delivery.{IsDelivery}
use sesori_apps_monorepo.ReleaseAssets.{
  Hub, Upload, path_name, name_of, asset_url, release_arguments, commit_arguments, public_sha256,
  upload_missing, publish_asset,
}

-- Flags of `gh release upload` that take no value
abbrev pub IsFlag : String → Type 0
IsFlag flag = starts_with flag "--" ≡ true

-- the words of an upload of one file with such flags
abbrev pub upload_words : String → String → String → List String → List String
upload_words repository tag path flags =
    "release" ∷ "upload" ∷ tag ∷ path ∷ "--repo" ∷ repository ∷ flags

-- What the code relies on of the releases of GitHub, for one repository and tag.
pub record IsHub (H : Hub) (repository tag : String) : Type 0 where
  pub assets : H.World → String → Option H.Bytes
  -- a public read answers with the asset as it is, and changes none
  pub urlopen-asset :
      (name : String) (w : H.World) (body : H.Bytes)
      → (H.urlopen (asset_url repository tag name) w).0 ≡ ok body
      → assets w name ≡ some body
  pub assets-urlopen :
      (url : String) (w : H.World) (n : String) → assets (H.urlopen url w).1 n ≡ assets w n
  -- `gh release upload TAG FILE --repo REPOSITORY FLAG…`, done or failed, with flags that take no
  -- value, changes at most the asset of that name
  pub assets-upload :
      (path : String) (flags : List String) (w : H.World) (n : String)
      → All IsFlag flags
      → n ≢ path_name path
      → assets (H.gh (upload_words repository tag path flags) w).1 n ≡ assets w n
  -- and replaces one that is there only where it is told to
  pub assets-upload_again :
      (path : String) (flags : List String) (w : H.World) (body : H.Bytes)
      → All IsFlag flags
      → contains flags "--clobber" ≡ false
      → assets w (path_name path) ≡ some body
      → assets (H.gh (upload_words repository tag path flags) w).1 (path_name path) ≡ some body
  -- the queries change nothing
  pub assets-release :
      (w : H.World) (n : String)
      → assets (H.gh (release_arguments H repository tag) w).1 n ≡ assets w n
  pub assets-commit :
      (w : H.World) (n : String)
      → assets (H.gh (commit_arguments H repository tag) w).1 n ≡ assets w n

module _ (H : Hub) (repository tag : String) (h : IsHub H repository tag) where
  open H use {World, Bytes}

  -- The digest under which the public sees an asset
  unfoldable pub view : World → String → Option String
  view w n = Option.map H.sha256 (h.assets w n)

  Keeps-public_sha256 :
      (n : String) (v : Option String) (url : String)
      → Keeps (λ w. view w n ≡ v) (public_sha256 H url)
  unfolding public_sha256 view
  Keeps-public_sha256 n v url =
      Keeps-bind _ _
        (record { at = λ w e. ap (Option.map H.sha256) (h.assets-urlopen url w n) ∙ e })
        (λ body. Keeps-pure (H.sha256 body))

  public_sha256-view :
      (name : String) (w : World)
      → Ensures (λ d w'. view w' name ≡ some d) (public_sha256 H (asset_url repository tag name)) w
  unfolding public_sha256 view
  public_sha256-view name w =
      Ensures-bind (λ body w'. h.assets w' name ≡ some body) _ _ w
        (record { at = λ body e. h.assets-urlopen _ w name ∙ h.urlopen-asset name w body e })
        (λ body w' is.
          Ensures-pure (λ d u. Option.map H.sha256 (h.assets u name) ≡ some d) (H.sha256 body) w'
            (ap (Option.map H.sha256) is))

  module _ (existing : List String) where
    asset-delivered :
        (a : Upload) (w : World)
        → Ensures
            (λ _ w'. view w' (name_of a) ≡ some a.sha256)
            (publish_asset H repository tag existing a)
            w
    unfolding publish_asset
    asset-delivered a w =
        Ensures-bind (λ _ _. Unit) _ _ w (record { at = λ _ _. tt })
          (λ _ u _.
            Ensures-bind (λ d w'. view w' (name_of a) ≡ some d) _ _ u
              (public_sha256-view (name_of a) u)
              (λ d w' is. Ensures-require _ _ w' (λ e. is ∙ ap some (==→≡ d a.sha256 e))))

    asset-frame :
        (a : Upload) (n : String) (v : Option String)
        → n ≢ (name_of a)
        → Keeps (λ w. view w n ≡ v) (publish_asset H repository tag existing a)
    unfolding publish_asset upload_missing view
    asset-frame a n v other =
        Keeps-bind _ _
          (Keeps-if (contains existing (name_of a)) _ _ (λ _. Keeps-pure tt)
            (λ _.
              Keeps-bind _ _
                (record {
                  at = λ w e. ap (Option.map H.sha256) (h.assets-upload a.path [] w n tt other) ∙ e;
                })
                (λ _. Keeps-pure tt)))
          (λ _. Keeps-bind _ _ (Keeps-public_sha256 n v _) (λ d. Keeps-require _ _))

    pub publish_asset-IsDelivery :
        IsDelivery view name_of (λ (a : Upload). a.sha256) (publish_asset H repository tag existing)
    publish_asset-IsDelivery = record {
      delivered = λ a w e. (asset-delivered a w).at tt e;
      frame = λ a w n other. (asset-frame a n (view w n) other).at w refl;
    }
