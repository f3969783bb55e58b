-- ===== src/LinuxRepository/Versions/Completed.antt =====
-- Completed public releases of a channel, described apart from the test in `newest_release`.
use sesori_apps_monorepo.Prelude.{
  ℕ, ◌≡◌, ◌↔◌, refl, [], ◌∷◌, ◌==◌, Bool, true, false, ◌&&◌, not, none, some, Option, String, List,
  contains, string_eq, if◌then◌else◌,
}
use sesori_apps_monorepo.Prelude.Lists.{In}
use sesori_apps_monorepo.Prelude.Reflect.{Says, and_says, or_says, eq_says}
use sesori_apps_monorepo.Prelude.Text.{◌>>=◌}
use sesori_apps_monorepo.LinuxRepository.Versions.{
  Channel, stable, internal, Release, manifest, candidate, tag_groups,
}

-- A stable release may be marked as a pre-release, an internal one must be.
abbrev pub IsMarked : Channel → Release → Type 0
IsMarked stable release = Unit
IsMarked internal release = release.prerelease ≡ true

-- The tag has the form of the channel, with the numbers of the key; the release is public, is marked
-- for the channel, and has the manifest among its assets, which is uploaded last.
pub record IsCompleted (channel : Channel) (release : Release) (key : List ℕ) : Type 0 where
  pub tagged : tag_groups channel release.tag_name ≡ some key
  pub published : release.draft ≡ false
  pub marked : IsMarked channel release
  pub manifested : In manifest release.assets

contains_says : (xs : List String) (a : String) → Says (contains xs a) (In a xs)
contains_says [] a = (λ h. cc, λ k. absurd k)
contains_says (x ∷ xs) a = or_says (a == x) (contains xs a) (eq_says a x) (contains_says xs a)

-- the part of the test that is about the channel
abbrev allowed : Channel → Release → Bool
allowed channel release = elim channel [ stable ↦ true | internal ↦ release.prerelease ]

allowed_says :
    (channel : Channel) (release : Release)
    → Says (allowed channel release) (IsMarked channel release)
allowed_says stable release = (λ _. tt, λ _. refl)
allowed_says internal release = (λ h. h, λ k. k)

undrafted_says : (b : Bool) → Says (not b) (b ≡ false)
undrafted_says true = (λ h. cc, λ k. cc)
undrafted_says false = (λ _. refl, λ _. refl)

guarded_iff :
    {A : Type 0} (o : Option A) (b : Bool) (a : A)
    → ((o >>= λ x. if b then some x else none) ≡ some a) ↔ ((o ≡ some a) × (b ≡ true))
guarded_iff none b a = (λ h. cc, λ k. cc)
guarded_iff (some x) true a = (λ h. (h, refl), λ k. k.0)
guarded_iff (some x) false a = (λ h. cc, λ k. cc)

-- The test passes exactly the completed releases, with the numbers of their tags.
pub candidate_iff :
    (channel : Channel) (release : Release) (key : List ℕ)
    → (candidate channel release ≡ some key) ↔ IsCompleted channel release key
unfolding candidate
candidate_iff channel release key =
    let test =
      guarded_iff (tag_groups channel release.tag_name)
        (not release.draft && allowed channel release && contains release.assets manifest) key in
    let complete =
      and_says (not release.draft && allowed channel release) (contains release.assets manifest)
        (and_says (not release.draft) (allowed channel release) (undrafted_says release.draft)
          (allowed_says channel release))
        (contains_says release.assets manifest) in
    (
      λ h.
          let (tag, b) = test.0 h in
          let ((d, m), c) = complete.0 b in
          record { tagged = tag; published = d; marked = m; manifested = c },
      λ k. test.1 (k.tagged, complete.1 ((k.published, k.marked), k.manifested)),
    )
