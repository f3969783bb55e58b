-- ===== src/LinuxRepository/Versions/Newest.antt =====
-- What `newest_release` and `select_channels` choose.
use mathlib.Core.Path.{subst}
use mathlib.Core.Option.{some-injective}
use sesori_apps_monorepo.Prelude.{◌↔◌, ◌⊎◌, is_some}
use sesori_apps_monorepo.LinuxRepository.Versions.Completed.{IsCompleted, candidate_iff}
use sesori_apps_monorepo.Prelude.{
  ℕ, ◌≡◌, refl, sym, ap, Bool, true, false, none, some, List, [], ◌∷◌, inl, inr, arith, Bool-cases,
  if◌then◌else◌,
}
use sesori_apps_monorepo.Prelude.Lists.{All, In}
use sesori_apps_monorepo.Prelude.Sorting.{All-In}
use sesori_apps_monorepo.LinuxRepository.Versions.{
  tuple_lt, Channel, Release, candidate, candidates, largest, choose, newest_release,
  select_channels, stable, internal,
}
use sesori_apps_monorepo.LinuxRepository.Versions.Order.{
  tuple_lt_irrefl, tuple_lt_asymm, tuple_lt_neg_trans,
}

-- No candidate of the list is newer than the key.
abbrev NoneNewer : List ℕ → List (List ℕ × Release) → Type 0
NoneNewer key = All (λ c. tuple_lt key c.0 ≡ false)

skip : {A : Type 0} (a x y : A) (l : List A) → In a (x ∷ l) → In a (x ∷ y ∷ l)
skip a x y l (inl p) = inl p
skip a x y l (inr m) = inr (inr m)

largest-nil : (best : List ℕ × Release) → largest best [] ≡ best
unfolding largest
largest-nil best = refl

largest-cons :
    (best next : List ℕ × Release) (rest : List (List ℕ × Release)) (b : Bool)
    → tuple_lt best.0 next.0 ≡ b
    → largest best (next ∷ rest) ≡ largest (if b then next else best) rest
unfolding largest
largest-cons best next rest b e = ap (λ c. largest (if c then next else best) rest) e

-- One of the candidates, and none of them is newer.
abbrev IsLargest : List (List ℕ × Release) → List ℕ × Release → Type 0
IsLargest l c = In c l × NoneNewer c.0 l

largest-IsLargest :
    (best : List ℕ × Release) (rest : List (List ℕ × Release))
    → IsLargest (best ∷ rest) (largest best rest)
largest-IsLargest best [] = rw largest-nil (inl refl, (tuple_lt_irrefl best.0, tt))
largest-IsLargest best (next ∷ rest) = elim (Bool-cases (tuple_lt best.0 next.0)) [
  | inl e ↦
      let c = largest next rest in
      let (found, newest) = largest-IsLargest next rest in
      subst (IsLargest (best ∷ next ∷ rest)) (sym (largest-cons best next rest true e)) (
        inr found,
        (tuple_lt_neg_trans c.0 next.0 best.0 newest.0 (tuple_lt_asymm best.0 next.0 e), newest),
      )
  | inr e ↦
      let c = largest best rest in
      let (found, newest) = largest-IsLargest best rest in
      subst (IsLargest (best ∷ next ∷ rest)) (sym (largest-cons best next rest false e)) (
        skip c best next rest found,
        (newest.0, (tuple_lt_neg_trans c.0 best.0 next.0 newest.0 e, newest.1)),
      )
]

In-candidates :
    (channel : Channel) (releases : List Release) (c : List ℕ × Release)
    → In c (candidates channel releases)
    → In c.1 releases × (candidate channel c.1 ≡ some c.0)
unfolding candidates
In-candidates channel [] c m = absurd m
In-candidates channel (r ∷ rest) c m = ground (arith, In-candidates channel rest c)

candidates-In :
    (channel : Channel) (releases : List Release) (key : List ℕ) (r : Release)
    → In r releases
    → candidate channel r ≡ some key
    → In (key, r) (candidates channel releases)
unfolding candidates
candidates-In channel [] key r m h = absurd m
candidates-In channel (x ∷ rest) key r m h = ground (arith, candidates-In channel rest key r)

-- What the client of `newest_release` gets: a completed public release of the channel, and no
-- other one in the list has a larger version tuple.
abbrev pub IsNewest : Channel → List Release → Release → Type 0
IsNewest channel releases r =
    In r releases
    × ((key : List ℕ) × IsCompleted channel r key
        × ((other : Release) (key' : List ℕ)
            → In other releases
            → IsCompleted channel other key'
            → tuple_lt key key' ≡ false))

IsLargest-IsNewest :
    (channel : Channel) (releases : List Release) (l : List (List ℕ × Release))
    (c : List ℕ × Release)
    → candidates channel releases ≡ l
    → IsLargest l c
    → IsNewest channel releases c.1
IsLargest-IsNewest channel releases l c e (found, newest) =
    let (there, is) = In-candidates channel releases c (subst (In c) (sym e) found) in
    (
      there,
      (
        c.0,
        (candidate_iff channel c.1 c.0).0 is,
        λ other key m h.
            All-In (λ d. tuple_lt c.0 d.0 ≡ false) l newest
              (subst (In (key, other)) e (
                candidates-In channel releases key other m
                  ((candidate_iff channel other key).1 h))),
      ),
    )

choose-IsNewest :
    (channel : Channel) (releases : List Release) (l : List (List ℕ × Release)) (r : Release)
    → candidates channel releases ≡ l
    → choose l ≡ some r
    → IsNewest channel releases r
unfolding choose
choose-IsNewest channel releases [] r e h = cc
choose-IsNewest channel releases (first ∷ rest) r e h =
    subst (IsNewest channel releases) (some-injective _ _ h) (
      IsLargest-IsNewest channel releases (first ∷ rest) (largest first rest) e
        (largest-IsLargest first rest))

-- The release that `newest_release` returns is in the list and is a completed public release of
-- the channel, and no completed public release of the channel in the list has a larger tuple.
pub newest_release-IsNewest :
    (channel : Channel) (releases : List Release) (r : Release)
    → newest_release channel releases ≡ some r
    → IsNewest channel releases r
unfolding newest_release
newest_release-IsNewest channel releases r h =
    choose-IsNewest channel releases (candidates channel releases) r refl h

choose-eq-none : (l : List (List ℕ × Release)) (c : List ℕ × Release) → choose l ≡ none → In c l → ⊥
unfolding choose
choose-eq-none [] c h m = m
choose-eq-none (first ∷ rest) c h m = cc

choose-cases :
    (l : List (List ℕ × Release)) → (choose l ≡ none) ⊎ ((r : Release) × (choose l ≡ some r))
unfolding choose
choose-cases [] = inl refl
choose-cases (first ∷ rest) = inr ((largest first rest).1, refl)

-- `newest_release` returns nothing only where no release of the list is a completed public one of
-- the channel.
pub newest_release-none :
    (channel : Channel) (releases : List Release) (r : Release) (key : List ℕ)
    → newest_release channel releases ≡ none
    → In r releases
    → ¬ IsCompleted channel r key
unfolding newest_release
newest_release-none channel releases r key h m c =
    choose-eq-none (candidates channel releases) (key, r) h
      (candidates-In channel releases key r m ((candidate_iff channel r key).1 c))

-- A channel has a completed public release in the list.
abbrev pub HasCompleted : Channel → List Release → Type 0
HasCompleted channel releases =
    (r : Release) × (key : List ℕ) × In r releases × IsCompleted channel r key

newest_release-cases :
    (channel : Channel) (releases : List Release)
    → (newest_release channel releases ≡ none)
      ⊎ ((r : Release) × (newest_release channel releases ≡ some r))
unfolding newest_release
newest_release-cases channel releases = choose-cases (candidates channel releases)

newest_release_iff :
    (channel : Channel) (releases : List Release)
    → (is_some (newest_release channel releases) ≡ true) ↔ HasCompleted channel releases
newest_release_iff channel releases = (λ h. found h, λ (r, key, m, c). shown r key m c)
  where
    cases :
        (newest_release channel releases ≡ none)
        ⊎ ((r : Release) × (newest_release channel releases ≡ some r))
    cases = newest_release-cases channel releases

    found : is_some (newest_release channel releases) ≡ true → HasCompleted channel releases
    found h = elim cases [
      | inl e ↦ let k = rw e at h in cc
      | inr (r, e) ↦
          let (m, (key, c, _)) = newest_release-IsNewest channel releases r e in (r, key, m, c)
    ]

    shown :
        (r : Release) (key : List ℕ)
        → In r releases
        → IsCompleted channel r key
        → is_some (newest_release channel releases) ≡ true
    shown r key m c = elim cases [
      | inl e ↦ absurd (newest_release-none channel releases r key e m c)
      | inr (_, e) ↦ rw e
    ]

-- A channel is selected for hosting exactly when the list has a completed public release of it.
pub select_channels_iff :
    (channel : Channel) (releases : List Release)
    → In channel (select_channels releases) ↔ HasCompleted channel releases
unfolding select_channels
select_channels_iff stable releases =
    let (f, g) = newest_release_iff stable releases in
    (λ m. f (ground arith), λ k. let e = g k in ground arith)
select_channels_iff internal releases =
    let (f, g) = newest_release_iff internal releases in
    (λ m. f (ground arith), λ k. let e = g k in ground arith)
