-- ===== src/BridgeSignatures/Laws.antt =====
-- What a delivery of the Bridge signatures has established when it returns.
use mathlib.Core.Path.{subst}
use sesori_apps_monorepo.Prelude.{
  ◌≡◌, refl, sym, ap, ◌∙◌, true, false, String, ◌<>◌, Option, some, List, [], ◌∷◌, contains, ==→≡,
  string_eq, not, Bool,
}
use sesori_apps_monorepo.Prelude.Lists.{All}
use sesori_apps_monorepo.Prelude.Exec.{ok, err, for_each, lift, collect}
use sesori_apps_monorepo.Prelude.Read.{ask}
use sesori_apps_monorepo.Prelude.Exec.Keeps.{
  Keeps, Keeps-bind, Keeps-pure, Keeps-if, Keeps-lift, Keeps-require, Keeps-for_each, Keeps-ask,
  Keeps-collect,
}
use sesori_apps_monorepo.Prelude.Exec.Ensures.{Ensures-for_each}
use sesori_apps_monorepo.Prelude.Exec.Inversion.{
  bind-run, require_iff, require-inv, lift-inv, pure-inv, ok-injective,
}
use sesori_apps_monorepo.ReleaseAssets.{path_name, asset_url}
use sesori_apps_monorepo.ReleaseAssets.Round.{upload_words}
use sesori_apps_monorepo.Json.{Json, null, boolean, number, string, array, object}
use sesori_apps_monorepo.Json.Equality.Laws.{json_eq_string_iff}
use sesori_apps_monorepo.Desktop.Producer.{is_text}
use sesori_apps_monorepo.Host.{Host, command, digest_of, subscript, text_of, items_of, truthy}
use sesori_apps_monorepo.Signing.Archives.{archives}
use sesori_apps_monorepo.BridgeSignatures.{
  github, public_sha256, public_release, assets_of, verify_record, verify_archive_bytes, name_in,
  verify_signing_asset, upload_missing, publish_asset, publish, signing_assets, is_permutation,
}

abbrev pub release_words : String → String → List String
release_words repository tag =
    "gh" ∷ "api" ∷ ("repos/" <> (repository <> ("/releases/tags/" <> tag))) ∷ []

-- The local files are the same in both worlds.
abbrev pub SameFiles : (H : Host) → H.World → H.World → Type 0
SameFiles H w u =
    (path : String)
    → (H.read_text path u ≡ H.read_text path w) × (H.read_bytes path u ≡ H.read_bytes path w)

-- What the code relies on of GitHub and gh, for one repository and tag.
pub record IsGithub (H : Host) (repository tag : String) : Type 0 where
  pub assets : H.World → String → Option H.Bytes
  -- a public read answers with the asset as it is, and changes nothing
  pub urlopen-asset :
      (name : String) (w : H.World) (body : H.Bytes)
      → (H.urlopen (asset_url repository tag name) w).0 ≡ ok body
      → assets w name ≡ some body
  pub urlopen_same :
      (url : String) (w : H.World)
      → ((n : String) → assets (H.urlopen url w).1 n ≡ assets w n)
        × SameFiles H w (H.urlopen url w).1
  -- the query of the release changes nothing
  pub release_same :
      (w : H.World)
      → ((n : String) → assets (H.run (command (release_words repository tag)) w).1 n ≡ assets w n)
        × SameFiles H w (H.run (command (release_words repository tag)) w).1
  -- `gh release upload` without flags replaces no asset, and changes no local file
  pub upload_kept :
      (path : String) (w : H.World)
      → ((n : String) (body : H.Bytes)
          → assets w n ≡ some body
          → assets (H.run (command ("gh" ∷ upload_words repository tag path [])) w).1 n ≡ some body)
        × SameFiles H w (H.run (command ("gh" ∷ upload_words repository tag path [])) w).1

-- The names that the rows state
abbrev pub NamedAs : List Json → List String → Type 0
NamedAs [] [] = Unit
NamedAs (row ∷ rows) (name ∷ names) = (subscript row "name" ≡ ok (string name)) × NamedAs rows names
NamedAs _ _ = ⊥

text_of-inv : (v : Json) (name : String) → text_of v ≡ ok name → v ≡ string name
unfolding text_of
text_of-inv (string s) name h = ap string (ok-injective h)
text_of-inv null name h = cc
text_of-inv (boolean b) name h = cc
text_of-inv (number s n f) name h = cc
text_of-inv (array xs) name h = cc
text_of-inv (object d) name h = cc

module _ (H : Host) (repository tag root : String) (g : IsGithub H repository tag)
    (w : H.World) where
  open H use {World}

  -- Neither the assets nor the local files differ from those in `w`.
  abbrev Same : World → Type 0
  Same u = ((n : String) → g.assets u n ≡ g.assets w n) × SameFiles H w u

  then_same : (u v : World) → SameFiles H u v → SameFiles H w u → SameFiles H w v
  then_same u v s t path = let (a, b) = s path in let (c, d) = t path in (a ∙ c, b ∙ d)

  same_read : (url : String) (u : World) → Same u → Same (H.urlopen url u).1
  same_read url u (a, f) = let (b, s) = g.urlopen_same url u in (λ n. b n ∙ a n, then_same u _ s f)

  Keeps-public_sha256 :
      (P : World → Type 0)
      → ((url : String) (u : World) → P u → P (H.urlopen url u).1)
      → (url : String) → Keeps P (public_sha256 H url)
  unfolding public_sha256
  Keeps-public_sha256 P read url = Keeps-bind _ _ (record { at = read url }) (λ body. Keeps-pure _)

  Keeps-public_release : Keeps Same (public_release H repository tag)
  unfolding public_release github
  Keeps-public_release = Keeps-bind _ _ (Keeps-require _ _) (λ _.
      Keeps-bind _ _
        (record {
          at = λ u (a, f). let (b, s) = g.release_same u in (λ n. b n ∙ a n, then_same u _ s f);
        })
        (λ answer. Keeps-bind _ _ (Keeps-lift _) (λ release. Keeps-bind _ _ (Keeps-lift _) (λ draft.
          Keeps-bind _ _ (Keeps-require _ _) (λ _.
            Keeps-bind _ _ (Keeps-lift _)
              (λ tag_name. Keeps-bind _ _ (Keeps-require _ _) (λ _. Keeps-pure _)))))))

  -- In `w`, GitHub answered with a release of the tag that is no draft.
  abbrev pub IsPublic : Json → Type 0
  IsPublic release =
      (answer : String) × (draft : Json) × ((H.run (command (release_words repository tag)) w).0
        ≡ ok answer)
      × (H.loads answer ≡ ok release)
      × (subscript release "draft" ≡ ok draft)
      × (truthy draft ≡ false)
      × (subscript release "tag_name" ≡ ok (string tag))

  negated : (b : Bool) → not b ≡ true → b ≡ false
  negated true h = cc
  negated false h = refl

  public_release-IsPublic :
      (release : Json) → (public_release H repository tag w).0 ≡ ok release → IsPublic release
  unfolding public_release github is_text
  public_release-IsPublic release h =
      let (_, h) = require-inv _ _ _ w release h in
      let (answer, a, _, h) = bind-run _ _ w release h in
      let (found, l, h) = lift-inv _ _ _ release h in
      let (draft, d, h) = lift-inv _ _ _ release h in
      let (c, h) = require-inv _ _ _ _ release h in
      let (name, n, h) = lift-inv _ _ _ release h in
      let (k, h) = require-inv _ _ _ _ release h in
      let e = pure-inv found release _ h in
      subst IsPublic e
        (answer, draft, a, l, d, negated _ c, n ∙ ap ok ((json_eq_string_iff name tag).0 k))

  Keeps-verify_record : (row : Json) → Keeps Same (verify_record H repository tag row)
  unfolding verify_record
  Keeps-verify_record row = Keeps-bind _ _ (Keeps-lift _) (λ value.
      Keeps-bind _ _ (Keeps-lift _) (λ name.
        Keeps-bind _ _ (Keeps-public_sha256 Same same_read _)
          (λ actual. Keeps-bind _ _ (Keeps-lift _) (λ stated. Keeps-require _ _))))

  Keeps-verify_archive_bytes : Keeps Same (verify_archive_bytes H repository tag root)
  unfolding verify_archive_bytes name_in
  Keeps-verify_archive_bytes = Keeps-bind _ _ (Keeps-ask _) (λ text.
      Keeps-bind _ _ (Keeps-lift _) (λ report. Keeps-bind _ _ (Keeps-lift _) (λ value.
        Keeps-bind _ _ (Keeps-lift _) (λ rows.
          Keeps-bind _ _
            (Keeps-collect _ rows (λ row _. Keeps-bind _ _ (Keeps-lift _) (λ name. Keeps-lift _)))
            (λ names. Keeps-bind _ _ (Keeps-require _ _) (λ _. Keeps-bind _ _ (Keeps-lift _) (λ key.
              Keeps-bind _ _ (Keeps-require _ _)
                (λ _. Keeps-for_each _ rows Keeps-verify_record))))))))

  Keeps-assets_of : (release : Json) → Keeps Same (assets_of H release)
  unfolding assets_of
  Keeps-assets_of release =
      Keeps-bind _ _ (Keeps-lift _)
        (λ value. Keeps-bind _ _ (Keeps-lift _) (λ assets. Keeps-lift _))

  -- In `w`, the public archive of a row had the digest that the row states.
  abbrev pub IsUnchanged : Json → Type 0
  IsUnchanged row =
      (name : String) × (body : H.Bytes) × (subscript row "name" ≡ ok (string name))
      × (g.assets w name ≡ some body)
      × (subscript row "sha256" ≡ ok (string (H.sha256 body)))

  public_sha256-inv :
      (name digest : String) (u : World)
      → (public_sha256 H (asset_url repository tag name) u).0 ≡ ok digest
      → (body : H.Bytes) × (g.assets u name ≡ some body) × (H.sha256 body ≡ digest)
  unfolding public_sha256
  public_sha256-inv name digest u h =
      let (body, b, _, h) = bind-run _ _ u digest h in
      (body, g.urlopen-asset name u body b, pure-inv _ digest _ h)

  verify_record-IsUnchanged :
      (row : Json) (u : World)
      → Same u
      → (verify_record H repository tag row u).0 ≡ ok tt
      → IsUnchanged row
  unfolding verify_record is_text
  verify_record-IsUnchanged row u (same, _) h =
      let (value, v, h) = lift-inv _ _ u tt h in
      let (name, n, h) = lift-inv _ _ u tt h in
      let (actual, p, _, h) = bind-run _ _ u tt h in
      let (stated, s, h) = lift-inv _ _ _ tt h in
      let c = (require_iff _ _ _).0 h in
      let (body, b, d) = public_sha256-inv name actual u p in
      (
        name,
        body,
        v ∙ ap ok (text_of-inv value name n),
        sym (same name) ∙ b,
        s ∙ ap ok ((json_eq_string_iff stated actual).0 c ∙ ap string (sym d)),
      )

  -- The report of the signing, as it was in `w`, names the two archives, in some order, and both were
  -- public with the digests that it states.
  abbrev pub ArchivesUnchanged : Type 0
  ArchivesUnchanged =
      (text : String) × (report value : Json) × (rows : List Json) × (H.read_text
          (root <> "/signing.json") w
        ≡ ok text)
      × (H.loads text ≡ ok report)
      × (subscript report "artifacts" ≡ ok value)
      × (items_of value ≡ ok rows)
      × ((names : List String) × NamedAs rows names × (is_permutation names archives ≡ true))
      × All IsUnchanged rows

  collect-NamedAs :
      (rows : List Json) (names : List String) (u : World)
      → (collect (name_in H) rows u).0 ≡ ok names
      → NamedAs rows names
  unfolding collect name_in lift
  collect-NamedAs [] names u h = subst (NamedAs []) (pure-inv [] names u h) tt
  collect-NamedAs (row ∷ rows) names u h =
      let (name, n, _, h) = bind-run _ _ u names h in
      let (rest, r, _, h) = bind-run _ _ _ names h in
      let (value, v, n) = lift-inv (subscript row "name") _ u name n in
      subst (NamedAs (row ∷ rows)) (pure-inv (name ∷ rest) names u h)
        (v ∙ ap ok (text_of-inv value name n), collect-NamedAs rows rest _ r)

  collect_same : (rows : List Json) (u : World) → Same u → Same (collect (name_in H) rows u).1
  unfolding name_in
  collect_same rows u same =
      (Keeps-collect {P = Same} _ rows
          (λ row _. Keeps-bind _ _ (Keeps-lift _) (λ name. Keeps-lift _))).at
        u same

  verify_archive_bytes-ArchivesUnchanged :
      (u : World)
      → Same u
      → (verify_archive_bytes H repository tag root u).0 ≡ ok tt
      → ArchivesUnchanged
  unfolding verify_archive_bytes ask
  verify_archive_bytes-ArchivesUnchanged u same h =
      let (text, t, _, h) = bind-run _ _ u tt h in
      let (report, l, h) = lift-inv _ _ _ tt h in
      let (value, v, h) = lift-inv _ _ _ tt h in
      let (rows, r, h) = lift-inv _ _ _ tt h in
      let (names, n, _, h) = bind-run _ _ _ tt h in
      let (c, h) = require-inv _ _ _ _ tt h in
      let (key, _, h) = lift-inv _ _ _ tt h in
      let (_, h) = require-inv _ _ _ _ tt h in
      (
        text,
        report,
        value,
        rows,
        sym (same.1 (root <> "/signing.json")).0 ∙ t,
        l,
        v,
        r,
        (names, collect-NamedAs rows names u n, c),
        (Ensures-for_each Same IsUnchanged (verify_record H repository tag) Keeps-verify_record
              (λ row v s. record { at = λ _ e. verify_record-IsUnchanged row v s e }) rows _
              (collect_same rows u same)).at
            tt h,
      )

  -- After `u`, a public asset is what the local file of the signing was in `w`.
  abbrev pub IsDelivered : World → String → Type 0
  IsDelivered u name =
      (body : H.Bytes) × (g.assets u (path_name (root <> ("/" <> name))) ≡ some body)
      × (digest_of H (root <> ("/" <> name)) w ≡ ok (H.sha256 body))

  -- What the rounds of the upload keep: the local files, and an asset that is there
  abbrev Kept : String → H.Bytes → World → Type 0
  Kept n body u = (g.assets u n ≡ some body) × SameFiles H w u

  Keeps-upload_missing :
      (P : World → Type 0)
      → ((path : String) (u : World)
          → P u
          → P (H.run (command ("gh" ∷ upload_words repository tag path [])) u).1)
      → (existing : List String) (path : String)
      → Keeps P (upload_missing H repository tag existing path)
  unfolding upload_missing github
  Keeps-upload_missing P kept existing path =
      Keeps-if (contains existing (path_name path)) _ _ (λ _. Keeps-pure tt)
        (λ _. Keeps-bind _ _ (record { at = kept path }) (λ _. Keeps-pure tt))

  Keeps-verify_signing_asset :
      (P : World → Type 0)
      → ((url : String) (u : World) → P u → P (H.urlopen url u).1)
      → (path : String) → Keeps P (verify_signing_asset H repository tag path)
  unfolding verify_signing_asset
  Keeps-verify_signing_asset P read path =
      Keeps-bind _ _ (Keeps-public_sha256 P read _)
        (λ actual. Keeps-bind _ _ (Keeps-ask _) (λ expected. Keeps-require _ _))

  Keeps-publish_asset :
      (P : World → Type 0)
      → ((path : String) (u : World)
          → P u
          → P (H.run (command ("gh" ∷ upload_words repository tag path [])) u).1)
      → ((url : String) (u : World) → P u → P (H.urlopen url u).1)
      → (existing : List String) (name : String)
      → Keeps P (publish_asset H repository tag root existing name)
  unfolding publish_asset
  Keeps-publish_asset P kept read existing name =
      Keeps-bind _ _ (Keeps-upload_missing P kept existing _)
        (λ _. Keeps-verify_signing_asset P read _)

  files_uploaded :
      (path : String) (u : World)
      → SameFiles H w u
      → SameFiles H w (H.run (command ("gh" ∷ upload_words repository tag path [])) u).1
  files_uploaded path u f = then_same u _ (g.upload_kept path u).1 f

  files_read : (url : String) (u : World) → SameFiles H w u → SameFiles H w (H.urlopen url u).1
  files_read url u f = then_same u _ (g.urlopen_same url u).1 f

  asset_uploaded :
      (n : String) (body : H.Bytes) (path : String) (u : World)
      → g.assets u n ≡ some body
      → g.assets (H.run (command ("gh" ∷ upload_words repository tag path [])) u).1 n ≡ some body
  asset_uploaded n body path u = (g.upload_kept path u).0 n body

  asset_read :
      (n : String) (body : H.Bytes) (url : String) (u : World)
      → g.assets u n ≡ some body
      → g.assets (H.urlopen url u).1 n ≡ some body
  asset_read n body url u e = (g.urlopen_same url u).0 n ∙ e

  digest_same :
      (path : String) (u : World) → SameFiles H w u → digest_of H path u ≡ digest_of H path w
  unfolding digest_of
  digest_same path u f = ap (λ r. elim r [ ok b ↦ ok (H.sha256 b) | err x ↦ err x ]) (f path).1

  verify_signing_asset-IsDelivered :
      (name : String) (u : World)
      → SameFiles H w u
      → (verify_signing_asset H repository tag (root <> ("/" <> name)) u).0 ≡ ok tt
      → IsDelivered (verify_signing_asset H repository tag (root <> ("/" <> name)) u).1 name
  unfolding verify_signing_asset ask
  verify_signing_asset-IsDelivered name u f h =
      let path = root <> ("/" <> name) in
      let (actual, p, _, k) = bind-run _ _ u tt h in
      let (expected, d, _, k) = bind-run _ _ _ tt k in
      let same = ==→≡ actual expected ((require_iff _ _ _).0 k) in
      let (body, b, e) = public_sha256-inv (path_name path) actual u p in
      let read = (Keeps-public_sha256 (SameFiles H w) files_read _).at u f in
      (
        body,
        (Keeps-verify_signing_asset (λ v. g.assets v (path_name path) ≡ some body)
              (asset_read (path_name path) body) path).at
            u b,
        sym (digest_same path _ read) ∙ d ∙ ap ok (sym (e ∙ same)),
      )

  publish_asset-IsDelivered :
      (existing : List String) (name : String) (u : World)
      → SameFiles H w u
      → (publish_asset H repository tag root existing name u).0 ≡ ok tt
      → IsDelivered (publish_asset H repository tag root existing name u).1 name
  unfolding publish_asset
  publish_asset-IsDelivered existing name u f h =
      let (_, _, e, k) = bind-run _ _ u tt h in
      let files = (Keeps-upload_missing (SameFiles H w) files_uploaded existing _).at u f in
      subst (λ q. IsDelivered q.1 name) (sym e) (verify_signing_asset-IsDelivered name _ files k)

  -- The rounds over the signing assets, each with the assets before it
  uploads-IsDelivered :
      (existing names : List String) (u : World)
      → SameFiles H w u
      → (for_each (publish_asset H repository tag root existing) names u).0 ≡ ok tt
      → All (IsDelivered (for_each (publish_asset H repository tag root existing) names u).1) names
  unfolding for_each
  uploads-IsDelivered existing [] u f h = tt
  uploads-IsDelivered existing (name ∷ names) u f h =
      let (_, one, e, k) = bind-run _ _ u tt h in
      let files =
        (Keeps-publish_asset (SameFiles H w) files_uploaded files_read existing name).at u f in
      let (body, b, d) = publish_asset-IsDelivered existing name u f one in
      let kept =
        (Keeps-for_each _ names (
            Keeps-publish_asset (λ v. g.assets v (path_name (root <> ("/" <> name))) ≡ some body)
              (asset_uploaded _ body) (asset_read _ body) existing)).at
          _ b in
      subst (λ q. All (IsDelivered q.1) (name ∷ names)) (sym e)
        ((body, kept, d), uploads-IsDelivered existing names _ files k)

  -- A delivery that returns found the release of the tag public, in the world that it began in, and
  -- the public archives there with the digests that the report of the signing states. When it returns,
  -- each of the signing assets is public as the local file is.
  pub publish-IsDelivered :
      (publish H repository tag root w).0 ≡ ok tt
      → ((release : Json) × IsPublic release)
        × ArchivesUnchanged
        × All (IsDelivered (publish H repository tag root w).1) signing_assets
  unfolding publish
  publish-IsDelivered h =
      let (release, r, e1, h1) = bind-run _ _ w tt h in
      let (_, a, e2, h2) = bind-run _ _ _ tt h1 in
      let (assets, _, e3, h3) = bind-run _ _ _ tt h2 in
      let same : Same w = (λ n. refl, λ path. (refl, refl)) in
      let public = Keeps-public_release.at w same in
      let checked = Keeps-verify_archive_bytes.at _ public in
      let listed = (Keeps-assets_of release).at _ checked in
      (
        (release, public_release-IsPublic release r),
        verify_archive_bytes-ArchivesUnchanged _ public a,
        subst (λ q. All (IsDelivered q.1) signing_assets) (sym (e1 ∙ e2 ∙ e3))
            (uploads-IsDelivered _ signing_assets _ listed.1 h3),
      )
