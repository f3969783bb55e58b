-- ===== src/LinuxRepository/Versions/Tags.antt =====
-- The tags that the preparation of a desktop release gives, as `newest_release` reads them.
use text.Mathlib.TextLemmas.{append_assoc, append-nil}
use sesori_apps_monorepo.Prelude.{
  ℕ, ◌<◌, ◌≡◌, refl, sym, ap, ◌∙◌, String, ◌<>◌, List, [], ◌∷◌, some, none, true, string_eq, nat_eq,
}
use sesori_apps_monorepo.Prelude.Text.{number, literal, str, is_digit, stops}
use sesori_apps_monorepo.Prelude.Text.Decimal.{
  number-str_self, literal-append, literal_zero, stops-cons,
}
use sesori_apps_monorepo.LinuxRepository.Versions.{
  Channel, stable, internal, positive_number, tag_groups,
}
use sesori_apps_monorepo.LinuxRepository.Versions.Order.{spell, three_parts-spell}
use sesori_apps_monorepo.LinuxRepository.Publication.{channel_value}
use sesori_apps_monorepo.Desktop.Identity.{release_tag}

-- `f"{major}.{minor}.{patch}"`
abbrev pub version_text : ℕ → ℕ → ℕ → String
version_text major minor patch = str major <> ("." <> (str minor <> ("." <> str patch)))

-- The numbers of a tag: those of the version, and on the internal channel the build number
abbrev pub numbers : Channel → ℕ → ℕ → ℕ → ℕ → List ℕ
numbers stable major minor patch build = major ∷ minor ∷ patch ∷ []
numbers internal major minor patch build = major ∷ minor ∷ patch ∷ build ∷ []

version_text-spell :
    (major minor patch : ℕ) (rest : String)
    → version_text major minor patch <> rest ≡ spell major minor patch rest
version_text-spell major minor patch rest = simp (append_assoc)

positive_number-str : (n : ℕ) → 0 < n → positive_number (str n) ≡ some (n, "")
unfolding positive_number
positive_number-str n h =
    ap (λ o. elim o [ some _ ↦ none | none ↦ number (str n) ])
      (ap (literal "0") (sym (append-nil (str n))) ∙ literal_zero n "" h)
    ∙ number-str_self n

stops_internal : (rest : String) → stops ("-internal." <> rest) ≡ true
unfolding is_digit
stops_internal rest = stops-cons "-" "internal." rest refl

-- The tag of a desktop release of a version and a positive build number is one of its channel, with
-- these numbers.
pub tag_groups-release_tag :
    (channel : Channel) (major minor patch build : ℕ)
    → 0 < build
    → tag_groups channel
        (release_tag (channel_value channel) (version_text major minor patch) build)
      ≡ some (numbers channel major minor patch build)
unfolding tag_groups string_eq
tag_groups-release_tag stable major minor patch build h =
    rw
      (
        literal-append,
        sym (append-nil (version_text major minor patch)),
        version_text-spell major minor patch "",
        three_parts-spell major minor patch "" refl,
      )
      refl
tag_groups-release_tag internal major minor patch build h =
    rw
      (
        literal-append,
        version_text-spell major minor patch ("-internal." <> str build),
        three_parts-spell major minor patch ("-internal." <> str build) (stops_internal _),
        literal-append,
        positive_number-str build h,
      )
      refl
