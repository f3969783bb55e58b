-- ===== src/Prelude/Text/Lines.antt =====
-- Python's ways to cut a text into parts. Texts are ASCII, and lines end in a line feed.
use Prim.Native.Char.{Char, code}
use Prim.Native.String.{String, [], ◌∷◌}
use mathlib.Core.Bool.{Bool, ◌||◌, ◌&&◌}
use mathlib.Core.Option.{Option, none, some}
use mathlib.Core.List.{List, [], ◌∷◌}
use sesori_apps_monorepo.Prelude.Equality.{if◌then◌else◌, ◌==◌, nat_eq, string_eq}

-- `str.splitlines` of text with line feeds
unfoldable pub splitlines : String → List String
splitlines [] = []
splitlines (c ∷ s) =
    let rest = splitlines s in
    if code c == 10
    then "" ∷ rest
    else elim rest [ [] ↦ (c ∷ "") ∷ [] | line ∷ lines ↦ (c ∷ line) ∷ lines ]

-- white space in the sense of `str.split` and `str.strip`
unfoldable pub is_blank : Char → Bool
is_blank c =
    code c == 32 || code c == 9 || code c == 10 || code c == 11 || code c == 12 || code c == 13

-- the rest of the word that a text begins with, and the words behind it
unfoldable pub words_from : String → String × List String
unfolding is_blank
words_from [] = ("", [])
words_from (c ∷ s) =
    let (word, more) = words_from s in
    if is_blank c then ("", (if word == "" then more else word ∷ more)) else (c ∷ word, more)

-- `text.split()`
unfoldable pub words : String → List String
unfolding words_from
words s = let (word, more) = words_from s in if word == "" then more else word ∷ more

-- `text.split(separator)` for one character: the first part, and the others
unfoldable pub parts_from : Char → String → String × List String
parts_from separator [] = ("", [])
parts_from separator (c ∷ s) =
    let (part, more) = parts_from separator s in
    if code c == code separator then ("", part ∷ more) else (c ∷ part, more)

unfoldable pub split : Char → String → List String
unfolding parts_from
split separator s = let (part, more) = parts_from separator s in part ∷ more

-- `text.split(separator, 1)` into two parts
unfoldable pub split_once : Char → String → Option (String × String)
split_once separator [] = none
split_once separator (c ∷ s) =
    let rest = split_once separator s in
    if code c == code separator
    then some ("", s)
    else elim rest [ some (a, b) ↦ some (c ∷ a, b) | none ↦ none ]

-- `text.lstrip()`, `text.strip()`
unfoldable pub lstrip : String → String
lstrip [] = ""
lstrip (c ∷ s) = let rest = lstrip s in if is_blank c then rest else c ∷ s

unfoldable pub rstrip : String → String
rstrip [] = ""
rstrip (c ∷ s) = let rest = rstrip s in if is_blank c && rest == "" then "" else c ∷ rest

unfoldable pub strip : String → String
unfolding lstrip rstrip
strip s = lstrip (rstrip s)
