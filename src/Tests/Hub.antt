-- ===== src/Tests/Hub.antt =====
-- A release on GitHub in memory, which meets the assumptions of `Hub`. An uploaded file contains its
-- own path, and every text is its own digest.
use sesori_apps_monorepo.Prelude.{
  ◌≡◌, ◌≢◌, refl, String, ◌<>◌, Option, none, some, List, [], ◌∷◌, ◌==◌, string_eq, nat_eq,
  if◌then◌else◌, arith, false, is_some, Bool, not, ◌&&◌, contains,
}
use sesori_apps_monorepo.Prelude.Exec.{Result, ok, err, http_error, Exec}
use sesori_apps_monorepo.Prelude.Text.{literal, ◌>>=◌}
use sesori_apps_monorepo.Prelude.Text.Decimal.{literal-append}
use sesori_apps_monorepo.ReleaseAssets.{
  Hub, release_arguments, commit_arguments, path_name, asset_url,
}
use sesori_apps_monorepo.ReleaseAssets.Round.{IsHub, IsFlag, upload_words}
use sesori_apps_monorepo.Prelude.Lists.{All}

abbrev pub Objects : Type 0
Objects = String → Option String

abbrev pub repository : String
repository = "sesori-ai/sesori_apps_monorepo"

-- the name of an asset in its URL
unfoldable pub name_in : String → Option String
name_in url = do
  rest ← literal "https://github.com/" url
  rest ← literal repository rest
  rest ← literal "/releases/download/" rest
  rest ← literal "v1.2.0" rest
  literal "/" rest

abbrev pub answer : Option String → Result String
answer none = err (http_error 404)
answer (some body) = ok body

abbrev pub lookup : Option String → Objects → Option String
lookup none w = none
lookup (some name) w = w name

-- a URL of the release, by the name behind its directory
unfoldable pub read_url : String → Exec Objects String
read_url url w = (answer (lookup (name_in url) w), w)

-- an asset that is there is replaced where `--clobber` is given
unfoldable pub add : Bool → String → Objects → Objects
add clobber path w n =
    if n == path_name path then (if is_some (w n) && not clobber then w n else some path) else w n

unfoldable pub gh : List String → Exec Objects String
gh (command ∷ upload ∷ tag ∷ path ∷ repo ∷ _ ∷ flags) w =
    (ok "", add (contains flags "--clobber") path w)
gh _ w = (ok "", w)

abbrev pub hub : Hub
hub = record {
  World = Objects;
  Bytes = String;
  gh = gh;
  urlopen = read_url;
  sha256 = λ body. body;
  read_release =
      λ _. ok (record { tag_name = "v1.2.0"; draft = false; prerelease = false; assets = [] });
  read_commit = λ _. ok "abc";
}

answer-ok : (o : Option String) (body : String) → answer o ≡ ok body → o ≡ some body
answer-ok none body h = cc
answer-ok (some b) body h = cc

url_name : (name : String) → name_in (asset_url repository "v1.2.0" name) ≡ some name
unfolding name_in
url_name name =
    rw
      (
        literal-append "https://github.com/"
            (repository <> ("/releases/download/" <> ("v1.2.0" <> ("/" <> name)))),
        literal-append repository ("/releases/download/" <> ("v1.2.0" <> ("/" <> name))),
        literal-append "/releases/download/" ("v1.2.0" <> ("/" <> name)),
        literal-append "v1.2.0" ("/" <> name),
      )
      (literal-append "/" name)

pub hub-asset :
    (name : String) (w : Objects) (body : String)
    → (read_url (asset_url repository "v1.2.0" name) w).0 ≡ ok body
    → w name ≡ some body
unfolding read_url
hub-asset name w body h = answer-ok (w name) body (rw (url_name name) at h)

add-other :
    (clobber : Bool) (path : String) (w : Objects) (n : String)
    → n ≢ path_name path
    → add clobber path w n ≡ w n
unfolding add
add-other clobber path w n h = ground arith

add-again :
    (clobber : Bool) (path : String) (w : Objects) (body : String)
    → clobber ≡ false
    → w (path_name path) ≡ some body
    → add clobber path w (path_name path) ≡ some body
unfolding add
add-again clobber path w body c h = ground arith

pub hub-read : (url : String) (w : Objects) (n : String) → (read_url url w).1 n ≡ w n
unfolding read_url
hub-read url w n = refl

pub hub-upload :
    (path : String) (flags : List String) (w : Objects) (n : String)
    → All IsFlag flags
    → n ≢ path_name path
    → (gh (upload_words repository "v1.2.0" path flags) w).1 n ≡ w n
unfolding gh
hub-upload path flags w n _ h = add-other (contains flags "--clobber") path w n h

pub hub-upload_again :
    (path : String) (flags : List String) (w : Objects) (body : String)
    → All IsFlag flags
    → contains flags "--clobber" ≡ false
    → w (path_name path) ≡ some body
    → (gh (upload_words repository "v1.2.0" path flags) w).1 (path_name path) ≡ some body
unfolding gh
hub-upload_again path flags w body _ c h = add-again (contains flags "--clobber") path w body c h

pub hub-release :
    (w : Objects) (n : String) → (gh (release_arguments hub repository "v1.2.0") w).1 n ≡ w n
unfolding gh
hub-release w n = refl

pub hub-commit :
    (w : Objects) (n : String) → (gh (commit_arguments hub repository "v1.2.0") w).1 n ≡ w n
unfolding gh
hub-commit w n = refl

abbrev pub hub-IsHub : IsHub hub repository "v1.2.0"
hub-IsHub = record {
  assets = λ w n. w n;
  urlopen-asset = hub-asset;
  assets-urlopen = hub-read;
  assets-upload = hub-upload;
  assets-upload_again = hub-upload_again;
  assets-release = hub-release;
  assets-commit = hub-commit;
}
