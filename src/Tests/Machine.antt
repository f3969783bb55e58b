-- ===== src/Tests/Machine.antt =====
-- A machine in memory: a file system of texts, where every text is its own digest, with a table of
-- the documents that the texts stand for.
use sesori_apps_monorepo.Prelude.{
  false, String, ◌<>◌, Option, none, some, List, [], ◌∷◌, ◌==◌, string_eq, if◌then◌else◌, is_some,
  starts_with, ℕ,
}
use sesori_apps_monorepo.Prelude.Text.{char_count}
use sesori_apps_monorepo.Prelude.Exec.{Result, ok, err, os_error, http_error, Exec}
use sesori_apps_monorepo.Prelude.Read.{Read}
use sesori_apps_monorepo.Json.{Fields}
use sesori_apps_monorepo.Host.{Host, index}

abbrev pub Files : Type 0
Files = List (String × String)

unfoldable pub file_at : String → Files → Option String
file_at path [] = none
file_at path ((p, text) ∷ rest) = if path == p then some text else file_at path rest

unfoldable pub read_file : String → Read Files String
unfolding file_at
read_file path w = elim (file_at path w) [ some text ↦ ok text | none ↦ err os_error ]

unfoldable pub write_file : String → String → Exec Files (Unit {0})
write_file path text w = (ok tt, (path, text) ∷ w)

unfoldable pub copy_file : String → String → Exec Files (Unit {0})
unfolding read_file write_file
copy_file source target w = elim (read_file source w) [
  | ok text ↦ write_file target text w
  | err e ↦ (err e, w)
]

abbrev pub paths_in : String → Files → List String
paths_in path [] = []
paths_in path ((p, text) ∷ rest) =
    let more = paths_in path rest in if starts_with p (path <> "/") then p ∷ more else more

-- an ELF header for x64, little-endian
abbrev elf_header : List ℕ
elf_header =
    127 ∷ 69 ∷ 76 ∷ 70 ∷ 2 ∷ 1 ∷ 1 ∷ 0 ∷ 0 ∷ 0 ∷ 0 ∷ 0 ∷ 0 ∷ 0 ∷ 0 ∷ 0 ∷ 3 ∷ 0 ∷ 62 ∷ 0 ∷ []

-- `documents` are the values of the texts, `programs` answers commands and `pages` URLs
abbrev pub machine :
    Fields → (List String → Files → Result String) → (String → Option String) → Host
machine documents programs pages = record {
  World = Files;
  Bytes = String;
  exists = λ path w. is_some (file_at path w);
  is_file = λ path w. is_some (file_at path w);
  is_dir = λ path w. false;
  is_symlink = λ path w. false;
  read_text = read_file;
  read_bytes = read_file;
  sha256 = λ text. text;
  length = char_count;
  loads = index documents;
  dumps = λ value. "json";
  rglob = λ path w. ok (paths_in path w);
  glob = λ path pattern w. ok [];
  readlink = λ path w. err os_error;
  owner = λ path w. ok (0, 0);
  octets = λ text. if text == "elf" then elf_header else [];
  sha256_octets = λ octets. "";
  upper = λ text. text;
  lower = λ text. text;
  repr = λ value. "json";
  urlparse = λ url. ("file", url);
  unquote = λ url. url;
  machine = "x86_64";
  gzip = λ text. text;
  issued_at = λ w. ("now", "later");
  zip_member = λ archive member. err os_error;
  write_text = write_file;
  append_text = write_file;
  decode = λ text. ok text;
  which = λ name w. none;
  platform = "linux";
  write_bytes = write_file;
  write_private = write_file;
  copyfile = copy_file;
  copytree = copy_file;
  move = copy_file;
  symlink_to = write_file;
  chmod = λ path mode w. (ok tt, w);
  mkdir = λ path w. (ok tt, w);
  mkdir_missing = λ path w. (ok tt, w);
  mkdir_private = λ path w. (ok tt, w);
  mkdtemp = λ prefix w. (ok ("/tmp/" <> prefix), w);
  rmtree = λ path w. (ok tt, w);
  run = λ c w. (programs c.arguments w, w);
  urlopen = λ url w. (elim (pages url) [ some text ↦ ok text | none ↦ err (http_error 404) ], w);
}
