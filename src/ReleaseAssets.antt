-- ===== src/ReleaseAssets.antt =====
-- The uploads of release assets: github_release_assets.py, and `publish` of
-- publish_desktop_release.py and publish_desktop_linux.py, from the metadata that `prepare` returns.
-- `gh`, HTTP, SHA-256 and the reader of GitHub's JSON are the fields of `Hub`.
pub mod Round
pub mod Laws
use sesori_apps_monorepo.Prelude.{
  ℕ, Bool, true, ◌&&◌, not, String, ◌<>◌, List, [], ◌∷◌, ◌++◌, contains, none, some, ◌==◌,
  string_eq, nat_eq, if◌then◌else◌,
}
use sesori_apps_monorepo.Prelude.Exec.{Result, Exec, pure, lift, require, ◌>>=◌, ◌>>◌, for_each}
use sesori_apps_monorepo.UpdateFeed.Verification.{last_slash}
use sesori_apps_monorepo.LinuxRepository.Versions.{Channel, stable, internal, Release}

pub record Hub : Type 1 where
  pub World : Type 0
  pub Bytes : Type 0
  -- `subprocess.run(["gh", *arguments], check=True)` and its output
  pub gh : List String → Exec World String
  -- `urlopen(url).read()`
  pub urlopen : String → Exec World Bytes
  pub sha256 : Bytes → String
  -- `json.loads` of a release and of the `sha` of a commit
  pub read_release : String → Result Release
  pub read_commit : String → Result String

-- A file to upload, and its digest
pub record Upload : Type 0 where
  pub path : String
  pub sha256 : String

-- `path.name`
unfoldable pub path_name : String → String
path_name path = elim (last_slash path) [ some (_, after) ↦ after | none ↦ path ]

abbrev pub name_of : Upload → String
name_of asset = path_name asset.path

-- What `prepare` returns of the release, with the packages beside it
pub record Metadata : Type 0 where
  pub version : String
  pub build_number : ℕ
  pub tag : String
  pub artifacts : List Upload

abbrev pub asset_url : String → String → String → String
asset_url repository tag name =
    "https://github.com/" <> (repository <> ("/releases/download/" <> (tag <> ("/" <> name))))

abbrev pub upload_arguments : String → String → String → List String
upload_arguments repository tag path =
    "release" ∷ "upload" ∷ tag ∷ path ∷ "--repo" ∷ repository ∷ []

module _ (H : Hub) where
  open H use {World, Bytes, gh, urlopen, sha256, read_release, read_commit}

  unfoldable pub public_sha256 : String → Exec World String
  public_sha256 url = do body ← urlopen url; pure (sha256 body)

  unfoldable pub upload_missing : String → String → List String → Upload → Exec World (Unit {0})
  upload_missing repository tag existing asset =
      if contains existing (name_of asset)
      then pure tt
      else (do gh (upload_arguments repository tag asset.path); pure tt)

  -- one round of the upload loop
  unfoldable pub publish_asset : String → String → List String → Upload → Exec World (Unit {0})
  publish_asset repository tag existing asset = do
    upload_missing repository tag existing asset
    actual ← public_sha256 (asset_url repository tag (name_of asset))
    require (actual == asset.sha256)
        ("Public asset digest mismatch; refusing replacement: " <> (name_of asset))

  unfoldable pub public_release : Channel → Release → Exec World (Unit {0})
  public_release channel release = do
    require (not release.draft) "Shared release must already be public"
    elim channel [
      | stable ↦ pure tt
      | internal ↦
          require release.prerelease "Internal desktop packages require an internal pre-release"
    ]

  abbrev pub release_arguments : String → String → List String
  release_arguments repository tag =
      "api" ∷ ("repos/" <> (repository <> ("/releases/tags/" <> tag))) ∷ []

  abbrev pub commit_arguments : String → String → List String
  commit_arguments repository tag = "api" ∷ ("repos/" <> (repository <> ("/commits/" <> tag))) ∷ []

  -- the release of the tag, which must be public
  unfoldable pub shared_release : Channel → String → String → Exec World Release
  shared_release channel repository tag = do
    answer ← gh (release_arguments repository tag)
    release ← lift (read_release answer)
    public_release channel release
    pure release

  unfoldable pub check_commit : String → String → String → Exec World (Unit {0})
  check_commit repository tag source_sha = do
    answer ← gh (commit_arguments repository tag)
    sha ← lift (read_commit answer)
    require (sha == source_sha) "Shared release tag source differs from desktop source"

  -- `publish` of publish_desktop_release.py; `checksums` and `manifest` are the two files that it
  -- writes, with their digests.
  unfoldable pub publish_release :
      Channel → String → String → ℕ → Metadata → Upload → Upload → Exec World (Unit {0})
  publish_release channel repository version build_number metadata checksums manifest = do
    require (metadata.version == version && metadata.build_number == build_number)
        "Desktop identity differs from the shared release"
    release ← shared_release channel repository metadata.tag
    for_each (publish_asset repository metadata.tag release.assets)
        ((metadata.artifacts ++ checksums ∷ []) ++ manifest ∷ [])

  -- `publish` of publish_desktop_linux.py; the artifacts are followed by the verification files.
  unfoldable pub publish_linux :
      Channel → String → String → Metadata → List Upload → Upload → Exec World (Unit {0})
  publish_linux channel repository source_sha metadata verification_files manifest = do
    release ← shared_release channel repository metadata.tag
    check_commit repository metadata.tag source_sha
    for_each (publish_asset repository metadata.tag release.assets)
        ((metadata.artifacts ++ verification_files) ++ manifest ∷ [])
