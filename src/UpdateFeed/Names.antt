-- ===== src/UpdateFeed/Names.antt =====
-- The names of publish_desktop_update_feed.py: `feed_directory`, `release_tag`, the expression
-- `FEED_OBJECT` and `publication_order`. Names are ASCII, as those of the feeds are.
pub mod Prefix
use Prim.Native.Char.{Char, code}
use Prim.Native.String.{[], ◌∷◌}
use sesori_apps_monorepo.Prelude.{
  ℕ, Bool, true, false, ◌&&◌, ◌||◌, String, ◌<>◌, Option, none, some, List, [], ◌∷◌, leb, ◌==◌,
  string_eq, nat_eq, option_eq, if◌then◌else◌,
}
use sesori_apps_monorepo.Prelude.Text.{str, literal, ends_with, is_digit, ◌>>=◌}
use sesori_apps_monorepo.LinuxRepository.Versions.{Channel, stable, internal}
use sesori_apps_monorepo.LinuxRepository.Publication.{channel_value}

abbrev pub key_id : String
key_id = "k1"

unfoldable pub feed_directory : Channel → String → String
feed_directory channel target =
    "desktop-updates/" <> (key_id <> ("/" <> (channel_value channel <> ("/" <> target))))

unfoldable pub release_tag : Channel → String → ℕ → String
release_tag stable version build_number = "v" <> version
release_tag internal version build_number = "v" <> (version <> ("-internal." <> str build_number))

-- `(a|b|…)`: no alternative here is a prefix of another one.
unfoldable pub one_of : List String → String → Option (String × String)
one_of [] s = none
one_of (t ∷ ts) s = elim (literal t s) [ some rest ↦ some (t, rest) | none ↦ one_of ts s ]

-- `[0-9A-Za-z.+-]`
unfoldable pub is_version_char : Char → Bool
is_version_char c =
    is_digit c
    || (leb 65 (code c) && leb (code c) 90)
    || (leb 97 (code c) && leb (code c) 122)
    || (code c == 46 || code c == 43 || code c == 45)

unfoldable pub all_version_chars : String → Bool
unfolding is_version_char
all_version_chars [] = true
all_version_chars (c ∷ s) = is_version_char c && all_version_chars s

-- `[0-9A-Za-z.+-]+-full\.nupkg` to the end: the class holds the characters of the ending too, so
-- the name fits where all its characters are of the class and the ending is behind the first.
unfoldable pub is_package_rest : String → Bool
unfolding all_version_chars
is_package_rest [] = false
is_package_rest (c ∷ s) = all_version_chars (c ∷ s) && ends_with s "-full.nupkg"

-- what is behind the directory in `FEED_OBJECT`, with its group `feed`
unfoldable pub feed_file : String → Option (Option String)
feed_file s = elim (literal "releases." s) [
  | some s ↦ (do
    (feed, s) ← one_of ("stable" ∷ "internal" ∷ []) s
    s ← literal ".json" s
    if s == "" || s == ".sig" then some (some feed) else none)
  | none ↦
      if s == "appcast.xml"
      then some none
      else (do s ← literal "sesori-desktop-" s; if is_package_rest s then some none else none)
]

unfoldable pub feed_target : String → Option (Option String)
feed_target s = do
  (_, s) ← one_of ("linux-" ∷ "macos-" ∷ []) s
  (_, s) ← one_of ("x64" ∷ "arm64" ∷ []) s
  s ← literal "/" s
  feed_file s

-- `FEED_OBJECT.fullmatch(name)` and its groups `channel` and `feed`
unfoldable pub feed_object : String → Option (String × Option String)
feed_object name = do
  s ← literal "desktop-updates/k1/" name
  (channel, s) ← one_of ("stable" ∷ "internal" ∷ []) s
  s ← literal "/" s
  feed ← feed_target s
  some (channel, feed)

-- the guard of `verify` on the name of an object
unfoldable pub is_hosted : Channel → String → Bool
is_hosted channel name = elim (feed_object name) [
  | none ↦ false
  | some (c, feed) ↦
      c == channel_value channel && (feed == none || feed == some (channel_value channel))
]

unfoldable pub publication_order : String → ℕ
publication_order name =
    if ends_with name ".nupkg" then 0 else if ends_with name ".sig" then 2 else 1
