-- ===== src/Storage.antt =====
-- The public bucket that hosts the Linux repositories and the desktop update feeds:
-- `public_bytes`, `public_digest` and the upload of .github/scripts/publish_linux_repository.py.
-- HTTP, `gcloud` and SHA-256 are not the repository's code: they are the fields of `Storage`, and
-- `IsBucket` says what the code relies on of them.
pub mod Upload
use mathlib.Core.Option
use sesori_apps_monorepo.Prelude.{
  ◌≡◌, ◌≢◌, Bool, true, String, ◌<>◌, Option, none, some, List, [], ◌∷◌, ◌++◌, ◌==◌, nat_eq,
  if◌then◌else◌,
}
use sesori_apps_monorepo.Prelude.Exec.{Error, Result, ok, err, http_error, Exec, ◌>>=◌, lift, pure}

pub record Storage : Type 1 where
  -- everything outside the process
  pub World : Type 0
  pub Bytes : Type 0
  -- `urlopen(url).read()`; an answer with an error status raises `http_error`
  pub urlopen : String → Exec World Bytes
  -- `subprocess.run(command, check=True)` and its output
  pub run : List String → Exec World String
  pub sha256 : Bytes → String

abbrev pub bucket : String
bucket = "sesori-ai-linux-packages"

abbrev pub public_root : String
public_root = "https://storage.googleapis.com/" <> bucket

-- the `try` around a public read: only a missing object is no error
unfoldable pub found : {B : Type 0} → Result B → Result (Option B)
found (ok body) = ok (some body)
found (err (http_error code)) = if code == 404 then ok none else err (http_error code)
found (err e) = err e

-- The command that uploads a file; `--if-generation-match=0` makes it fail on an existing object.
unfoldable pub upload_command : String → String → Bool → List String
upload_command path name immutable =
    "gcloud"
    ∷ "storage"
    ∷ "cp"
    ∷ path
    ∷ ("gs://" <> bucket <> "/" <> name)
    ∷ ("--cache-control="
        <> (if immutable then "public,max-age=31536000,immutable" else "no-store"))
    ∷ (if immutable then "--if-generation-match=0" ∷ [] else [])

module _ (S : Storage) where
  open S use {World, Bytes, urlopen, run, sha256}

  unfoldable pub public_bytes : String → Exec World (Option Bytes)
  unfolding found
  public_bytes name w = let r = urlopen (public_root <> "/" <> name) w in (found r.0, r.1)

  unfoldable pub public_digest : String → Exec World (Option String)
  unfolding public_bytes
  public_digest name = do body ← public_bytes name; pure (Option.map sha256 body)

  -- What the code relies on of Google Cloud Storage. `objects` is the content of the bucket.
  pub record IsBucket : Type 0 where
    pub objects : World → String → Option Bytes
    -- a read answers with the object as it is, and changes none
    pub urlopen-ok :
        (name : String) (w : World) (b : Bytes)
        → (urlopen (public_root <> "/" <> name) w).0 ≡ ok b
        → objects w name ≡ some b
    pub urlopen-missing :
        (name : String) (w : World)
        → (urlopen (public_root <> "/" <> name) w).0 ≡ err (http_error 404)
        → objects w name ≡ none
    pub objects-urlopen :
        (url : String) (w : World) (n : String) → objects (urlopen url w).1 n ≡ objects w n
    -- an upload, done or failed, changes at most the object that it names
    pub objects-upload :
        (path name : String) (immutable : Bool) (w : World) (n : String)
        → n ≢ name
        → objects (run (upload_command path name immutable) w).1 n ≡ objects w n
    -- and a conditional one changes no object that exists
    pub objects-upload_immutable :
        (path name : String) (w : World) (b : Bytes)
        → objects w name ≡ some b
        → objects (run (upload_command path name true) w).1 name ≡ some b

  -- The digest under which the public sees an object
  abbrev pub served : IsBucket → World → String → Option String
  served bucket w n = Option.map sha256 (bucket.objects w n)
