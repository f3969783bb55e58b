-- ===== src/UpdateFeed/Names/Prefix.antt =====
-- The prefix guard: a name that `FEED_OBJECT` lets through is under the directory of its channel.
use Prim.Native.String.append
use Prim.Native.Char.{code}
use Prim.Native.String.{[], ◌∷◌}
use mathlib.Core.Option.{some-injective}
use text.Mathlib.TextEquality.{Char-path}
use text.Mathlib.TextLemmas.{append_assoc}
use text.Mathlib.TextPositions.{starts_with-append}
use sesori_apps_monorepo.Prelude.{
  ◌≡◌, refl, sym, ap, ◌∙◌, true, false, String, ◌<>◌, Option, none, some, List, [], ◌∷◌, ◌==◌, ==→≡,
  nat_eq, arith, starts_with, Bool-cases, inl, inr, option_eq, string_eq, ◌&&◌, ◌||◌,
}
use sesori_apps_monorepo.Prelude.Text.{literal, ◌>>=◌}
use sesori_apps_monorepo.LinuxRepository.Versions.{Channel}
use sesori_apps_monorepo.LinuxRepository.Publication.{channel_value}
use sesori_apps_monorepo.UpdateFeed.Names.{one_of, feed_target, feed_object, is_hosted}

-- A literal that matched is the beginning of the text.
pub literal-prefix : (t s rest : String) → literal t s ≡ some rest → s ≡ t <> rest
unfolding literal
literal-prefix [] s rest h = rw append.nil (some-injective _ _ h)
literal-prefix (a ∷ t) [] rest h = cc
literal-prefix (a ∷ t) (c ∷ s) rest h = elim (Bool-cases (code a == code c)) [
  | inl e ↦ rw append.cons (
      let same : c ≡ a = Char-path c a (sym (==→≡ (code a) (code c) e)) in
      let k : literal t s ≡ some rest = rw e at h in
      let tail : s ≡ t <> rest = literal-prefix t s rest k in cc)
  | inr e ↦ let k : none ≡ some rest = rw e at h in cc
]

one_of-prefix :
    (ts : List String) (s t rest : String) → one_of ts s ≡ some (t, rest) → s ≡ t <> rest
unfolding one_of
one_of-prefix [] s t rest h = cc
one_of-prefix (u ∷ ts) s t rest h = first (literal u s) refl (one_of-prefix ts s t rest) h
  where
    first :
        (o : Option String)
        → literal u s ≡ o
        → (one_of ts s ≡ some (t, rest) → s ≡ t <> rest)
        → (elim o [ some r ↦ some (u, r) | none ↦ one_of ts s ]) ≡ some (t, rest)
        → s ≡ t <> rest
    first none e later k = later k
    first (some r) e later k =
        let same : u ≡ t = cc in let tail : r ≡ rest = cc in literal-prefix u s r e ∙ cc

-- What a part of an expression matched, where the whole did.
bind-some :
    {A B : Type 0} (o : Option A) (f : A → Option B) (b : B)
    → (o >>= f) ≡ some b
    → (a : A) × (o ≡ some a) × (f a ≡ some b)
bind-some none f b h = cc
bind-some (some a) f b h = (a, refl, h)

abbrev pub hosted_prefix : Channel → String
hosted_prefix channel = "desktop-updates/k1/" <> (channel_value channel <> "/")

feed_object-prefix :
    (name c : String) (feed : Option String)
    → feed_object name ≡ some (c, feed)
    → (rest : String) × (name ≡ "desktop-updates/k1/" <> (c <> ("/" <> rest)))
unfolding feed_object
feed_object-prefix name c feed h =
    let (s, e, h) = bind-some (literal "desktop-updates/k1/" name) _ (c, feed) h in
    let ((c', s'), e', h) = bind-some (one_of _ s) _ (c, feed) h in
    let (s'', e'', h) = bind-some (literal "/" s') _ (c, feed) h in
    let (feed', e''', h) = bind-some (feed_target s'') _ (c, feed) h in
    let same : c' ≡ c = cc in
    (
      s'',
      literal-prefix _ name s e
          ∙ ap (λ x. "desktop-updates/k1/" <> x)
              (one_of-prefix _ s c' s' e'
                ∙ ap (λ x. c' <> x) (literal-prefix "/" s' s'' e'')
                ∙ ap (λ x. x <> ("/" <> s'')) same),
    )

pub is_hosted-prefix :
    (channel : Channel) (name : String)
    → is_hosted channel name ≡ true
    → starts_with name (hosted_prefix channel) ≡ true
unfolding is_hosted
is_hosted-prefix channel name h = guarded (feed_object name) refl h
  where
    guarded :
        (o : Option (String × Option String))
        → feed_object name ≡ o
        → (elim o [
          | none ↦ false
          | some (c, feed) ↦
              c == channel_value channel && (feed == none || feed == some (channel_value channel))
        ])
          ≡ true
        → starts_with name (hosted_prefix channel) ≡ true
    guarded none e k = cc
    guarded (some (c, feed)) e k =
        let (rest, is) = feed_object-prefix name c feed e in
        let same : c ≡ channel_value channel = ground arith in
        let whole : name ≡ hosted_prefix channel <> rest =
          is
          ∙ ap (λ x. "desktop-updates/k1/" <> (x <> ("/" <> rest))) same
          ∙ sym (
              append_assoc "desktop-updates/k1/" (channel_value channel <> "/") rest
              ∙ ap (λ x. "desktop-updates/k1/" <> x)
                  (append_assoc (channel_value channel) "/" rest)) in
        ap (λ x. starts_with x (hosted_prefix channel)) whole
        ∙ starts_with-append (hosted_prefix channel) rest
