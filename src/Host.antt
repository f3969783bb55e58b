-- ===== src/Host.antt =====
-- The machine that a script runs on: files, commands, HTTP, digests and the json library, as the
-- fields of a record; and what the scripts share of it: `read_json` and `sha256` of
-- prepare_desktop_release.py, and access to dictionaries.
use sesori_apps_monorepo.Prelude.{
  ℕ, Bool, true, false, ◌&&◌, not, String, ◌<>◌, Option, if◌then◌else◌, none, some, List, [], ◌∷◌,
  ◌==◌, string_eq, nat_eq,
}
use sesori_apps_monorepo.Prelude.Exec.{
  Result, ok, err, key_error, type_error, value_error, Exec, finally,
}
use sesori_apps_monorepo.Prelude.Text.{str}
use sesori_apps_monorepo.Prelude.Exec
use sesori_apps_monorepo.Prelude.Read.{Read, lift, ◌>>=◌}
use sesori_apps_monorepo.Json.{
  Json, null, boolean, number, string, array, object, Items, no_items, item, Fields, no_fields,
  find,
}

-- A call of `subprocess`; `none` is inherited.
pub record Command : Type 0 where
  pub arguments : List String
  pub env : Option (List (String × String))
  pub input : Option String
  pub cwd : Option String

abbrev pub command : List String → Command
command arguments = record { arguments = arguments; env = none; input = none; cwd = none }

abbrev pub command_in : String → List String → Command
command_in cwd arguments = record {
  arguments = arguments;
  env = none;
  input = none;
  cwd = some cwd;
}

pub record Host : Type 1 where
  pub World : Type 0
  pub Bytes : Type 0
  -- questions to the file system, which change nothing
  pub exists : String → World → Bool
  pub is_file : String → World → Bool
  pub is_dir : String → World → Bool
  pub is_symlink : String → World → Bool
  pub read_text : String → Read World String
  pub read_bytes : String → Read World Bytes
  pub sha256 : Bytes → String
  pub length : Bytes → ℕ
  pub decode : Bytes → Result String
  -- `shutil.which(name)`
  pub which : String → World → Option String
  -- `platform.platform()`
  pub platform : String
  -- `json.loads(text)` and `json.dumps(value, indent=2)`
  pub loads : String → Result Json
  pub dumps : Json → String
  -- `sorted(path.rglob("*"))`, `os.readlink`, and the user and group of `path.lstat()`
  pub rglob : String → Read World (List String)
  -- `list(path.glob(pattern))`
  pub glob : String → String → Read World (List String)
  pub readlink : String → Read World String
  pub owner : String → Read World (ℕ × ℕ)
  pub octets : Bytes → List ℕ
  pub sha256_octets : List ℕ → String
  -- Python's `str.upper`, `str.lower`, `str(value)` of lists and dictionaries, and the path of a URL
  -- with its scheme, `urlparse` and `unquote`
  pub upper : String → String
  pub lower : String → String
  pub repr : Json → String
  pub urlparse : String → String × String
  pub unquote : String → String
  -- `platform.machine()`
  pub machine : String
  -- `gzip.compress(body, mtime=0)`
  pub gzip : Bytes → Bytes
  -- `format_datetime(datetime.now(UTC))`, and of a moment 30 days later
  pub issued_at : World → String × String
  -- the member of a zip archive
  pub zip_member : Bytes → String → Result Bytes
  pub write_text : String → String → Exec World (Unit {0})
  -- `open("a").write(text)`
  pub append_text : String → String → Exec World (Unit {0})
  pub write_bytes : String → Bytes → Exec World (Unit {0})
  -- `open("x")`, `chmod(0o600)` and the text
  pub write_private : String → String → Exec World (Unit {0})
  pub copyfile : String → String → Exec World (Unit {0})
  pub copytree : String → String → Exec World (Unit {0})
  pub move : String → String → Exec World (Unit {0})
  -- `link.symlink_to(target)`
  pub symlink_to : String → String → Exec World (Unit {0})
  pub chmod : String → ℕ → Exec World (Unit {0})
  -- `path.mkdir(parents=True)`, with `exist_ok=True`, and with mode 0o700
  pub mkdir : String → Exec World (Unit {0})
  pub mkdir_missing : String → Exec World (Unit {0})
  pub mkdir_private : String → Exec World (Unit {0})
  -- the two ends of `tempfile.TemporaryDirectory(prefix=…)`
  pub mkdtemp : String → Exec World String
  pub rmtree : String → Exec World (Unit {0})
  -- `subprocess.run(command, check=True)`; its output
  pub run : Command → Exec World String
  -- `urlopen(url).read()`
  pub urlopen : String → Exec World Bytes

-- `d[key]`
unfoldable pub index : Fields → String → Result Json
index d key = elim (find d key) [ some v ↦ ok v | none ↦ err (key_error key) ]

unfoldable pub fields_of : Json → Result Fields
fields_of (object d) = ok d
fields_of _ = err type_error

unfoldable pub text_of : Json → Result String
text_of (string s) = ok s
text_of _ = err type_error

-- `value[key]`, and `value[key][key']…`
unfoldable pub subscript : Json → String → Result Json
unfolding index
subscript (object d) key = index d key
subscript _ _ = err type_error

unfoldable pub subscripts : Json → List String → Result Json
subscripts value [] = ok value
subscripts value (key ∷ keys) = elim (subscript value key) [
  | ok inner ↦ subscripts inner keys
  | err e ↦ err e
]

abbrev pub listed : Items → List Json
listed no_items = []
listed (item x xs) = x ∷ listed xs

unfoldable pub items_of : Json → Result (List Json)
items_of (array xs) = ok (listed xs)
items_of _ = err type_error

abbrev pub no_items_in : Items → Bool
no_items_in no_items = true
no_items_in _ = false

abbrev pub no_fields_in : Fields → Bool
no_fields_in no_fields = true
no_fields_in _ = false

-- `bool(value)`
unfoldable pub truthy : Json → Bool
truthy null = false
truthy (boolean b) = b
truthy (number s n f) = not (n == 0 && f == "")
truthy (string s) = not (s == "")
truthy (array xs) = not (no_items_in xs)
truthy (object d) = not (no_fields_in d)

module _ (H : Host) where
  open H use {World, Bytes, read_text, read_bytes, sha256, length, loads}

  -- `sha256(path)`
  unfoldable pub digest_of : String → Read World String
  digest_of path w = elim (read_bytes path w) [ ok b ↦ ok (sha256 b) | err e ↦ err e ]

  -- `path.stat().st_size`
  unfoldable pub size_of : String → Read World ℕ
  size_of path w = elim (read_bytes path w) [ ok b ↦ ok (length b) | err e ↦ err e ]

  unfoldable pub json_object : String → Json → Result Fields
  json_object path (object d) = ok d
  json_object path _ = err (value_error ("Expected JSON object: " <> path))

  unfoldable pub read_json : String → Read World Fields
  read_json path = do
    text ← read_text path
    value ← lift (loads text)
    lift (json_object path value)

  -- a value in an f-string
  unfoldable pub shown : Json → String
  shown (string s) = s
  shown (number s n f) =
      if f == "" then (if s then "-" <> str n else str n) else H.repr (number s n f)
  shown null = "None"
  shown (boolean true) = "True"
  shown (boolean false) = "False"
  shown value = H.repr value

  -- `with tempfile.TemporaryDirectory(prefix=prefix) as directory: body`
  unfoldable pub in_temporary : {A : Type 0} → String → (String → Exec World A) → Exec World A
  in_temporary prefix body =
      Exec.◌>>=◌ (H.mkdtemp prefix) (λ directory. finally (body directory) (H.rmtree directory))
