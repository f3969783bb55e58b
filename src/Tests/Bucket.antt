-- ===== src/Tests/Bucket.antt =====
-- A bucket in memory, which meets the assumptions of `Storage`. Uploaded files contain their own
-- path, and every text is its own digest.
use sesori_apps_monorepo.Prelude.{
  ◌≡◌, ◌≢◌, String, ◌<>◌, Option, none, some, List, [], ◌∷◌, ◌==◌, string_eq, arith, Bool, true,
  if◌then◌else◌, is_some,
}
use sesori_apps_monorepo.Prelude.Text.{literal, ◌>>=◌}
use sesori_apps_monorepo.Prelude.Text.Decimal.{literal-append}
use sesori_apps_monorepo.Prelude.Exec.{Result, ok, err, http_error, called_process_error, Exec}
use sesori_apps_monorepo.Storage.{Storage, IsBucket, upload_command, bucket, public_root}

abbrev pub Objects : Type 0
Objects = String → Option String

unfoldable pub put : Objects → String → String → Objects
put w name body n = if n == name then some body else w n

unfoldable pub answer : Option String → Result String
answer none = err (http_error 404)
answer (some body) = ok body

-- the object's name in a URL, and in the target of an upload
unfoldable pub url_name : String → Option String
url_name url = do rest ← literal public_root url; literal "/" rest

unfoldable pub target_name : String → Option String
target_name target = do rest ← literal "gs://" target; rest ← literal bucket rest; literal "/" rest

url_name-append : (name : String) → url_name (public_root <> "/" <> name) ≡ some name
unfolding url_name
url_name-append name = rw (literal-append public_root ("/" <> name)) (literal-append "/" name)

target_name-append : (name : String) → target_name ("gs://" <> bucket <> "/" <> name) ≡ some name
unfolding target_name
target_name-append name =
    rw (literal-append "gs://" (bucket <> "/" <> name), literal-append bucket ("/" <> name))
      (literal-append "/" name)

unfoldable pub read_url : String → Exec Objects String
read_url url w = elim (url_name url) [
  | none ↦ (err (http_error 404), w)
  | some name ↦ (answer (w name), w)
]

unfoldable pub write_file : String → String → List String → Exec Objects String
write_file name path [] w = (ok "", put w name path)
write_file name path (_ ∷ _) w =
    if is_some (w name) then (err (called_process_error 1), w) else (ok "", put w name path)

unfoldable pub execute : List String → Exec Objects String
execute (gcloud ∷ storage ∷ cp ∷ path ∷ target ∷ cache ∷ flags) w = elim (target_name target) [
  | none ↦ (err (called_process_error 1), w)
  | some name ↦ write_file name path flags w
]
execute _ w = (ok "", w)

abbrev pub memory : Storage
memory = record {
  World = Objects;
  Bytes = String;
  urlopen = read_url;
  run = execute;
  sha256 = λ body. body;
}

pub read_url-name :
    (name : String) (w : Objects) → read_url (public_root <> "/" <> name) w ≡ (answer (w name), w)
unfolding read_url
read_url-name name w = rw (url_name-append name, read_url)

pub execute-upload :
    (path name : String) (immutable : Bool) (w : Objects)
    → execute (upload_command path name immutable) w
      ≡ write_file name path (if immutable then "--if-generation-match=0" ∷ [] else []) w
unfolding execute upload_command
execute-upload path name immutable w = rw (target_name-append name, execute)

pub read_other : (url : String) (w : Objects) → (read_url url w).1 ≡ w
unfolding read_url
read_other url w = ground arith

pub answer-ok : (o : Option String) (b : String) → answer o ≡ ok b → o ≡ some b
unfolding answer
answer-ok o b h = ground arith

pub answer-missing : (o : Option String) → answer o ≡ err (http_error 404) → o ≡ none
unfolding answer
answer-missing o h = ground arith

pub write_file-other :
    (path name : String) (flags : List String) (w : Objects) (n : String)
    → n ≢ name
    → (write_file name path flags w).1 n ≡ w n
unfolding write_file put
write_file-other path name [] w n h = ground arith
write_file-other path name (f ∷ flags) w n h = ground arith

pub write_file-conditional :
    (path name : String) (w : Objects) (b : String)
    → w name ≡ some b
    → (write_file name path ("--if-generation-match=0" ∷ []) w).1 name ≡ some b
unfolding write_file put
write_file-conditional path name w b h = ground arith

abbrev pub memory-IsBucket : IsBucket memory
memory-IsBucket = record {
  objects = λ w n. w n;
  urlopen-ok = λ name w b h. answer-ok (w name) b (rw read_url-name at h);
  urlopen-missing = λ name w h. answer-missing (w name) (rw read_url-name at h);
  objects-urlopen = λ url w n. rw (read_other url w);
  objects-upload = λ path name immutable w n h.
      rw (execute-upload path name immutable w) (
        write_file-other path name (if immutable then "--if-generation-match=0" ∷ [] else []) w n
          h);
  objects-upload_immutable = λ path name w b h.
      rw (execute-upload path name true w) (write_file-conditional path name w b h);
}
