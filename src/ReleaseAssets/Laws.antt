-- ===== src/ReleaseAssets/Laws.antt =====
-- What the publications of desktop assets promise to those who download a release.
use mathlib.Core.Option
use mathlib.Core.Path.{subst}
use sesori_apps_monorepo.Prelude.{
  ℕ, ◌≡◌, ◌≢◌, refl, sym, ap, ◌∙◌, String, some, List, [], ◌∷◌, ◌++◌, contains, string_eq,
}
use sesori_apps_monorepo.Prelude.Lists.{In}
use sesori_apps_monorepo.Prelude.Sorting.{All-In}
use sesori_apps_monorepo.Prelude.Exec.{Error, Result, ok, err, for_each, require, bind-elim}
use sesori_apps_monorepo.Prelude.Exec.Keeps.{
  Keeps, Keeps-bind, Keeps-pure, Keeps-if, Keeps-lift, Keeps-require, Keeps-for_each,
}
use sesori_apps_monorepo.Delivery.{Distinct, for_each-delivered, for_each-last}
use sesori_apps_monorepo.LinuxRepository.Versions.{Channel, stable, internal, Release}
use sesori_apps_monorepo.ReleaseAssets.{
  Hub, Upload, name_of, Metadata, public_sha256, upload_missing, publish_asset, public_release,
  shared_release, check_commit, publish_release, publish_linux, upload_arguments,
}
use sesori_apps_monorepo.ReleaseAssets.Round.{IsHub, view, publish_asset-IsDelivery}

Keeps-public_release :
    (H : Hub) (P : H.World → Type 0) (channel : Channel) (release : Release)
    → Keeps P (public_release H channel release)
unfolding public_release
Keeps-public_release H P stable release = Keeps-bind _ _ (Keeps-require _ _) (λ _. Keeps-pure tt)
Keeps-public_release H P internal release =
    Keeps-bind _ _ (Keeps-require _ _) (λ _. Keeps-require _ _)

module _ (H : Hub) (repository : String) (metadata : Metadata) (h : IsHub H repository metadata.tag)
    (channel : Channel) where
  open H use {World, Bytes}

  -- No asset differs from what was there in `w`.
  Same : World → World → Type 0
  Same w w' = (n : String) → h.assets w' n ≡ h.assets w n

  Same-refl : (w : World) → Same w w
  unfolding Same
  Same-refl w n = refl

  Same-view :
      (w w' : World) (n : String)
      → Same w w'
      → view H repository metadata.tag h w' n ≡ view H repository metadata.tag h w n
  unfolding Same view
  Same-view w w' n same = ap (Option.map H.sha256) (same n)

  Keeps-shared_release :
      (w : World) → Keeps (Same w) (shared_release H channel repository metadata.tag)
  unfolding shared_release Same
  Keeps-shared_release w =
      Keeps-bind _ _ (record { at = λ u same n. h.assets-release u n ∙ same n })
        (λ answer. Keeps-bind _ _ (Keeps-lift _) (λ release.
          Keeps-bind _ _ (Keeps-public_release H (Same w) channel release)
            (λ _. Keeps-pure release)))

  Keeps-check_commit :
      (w : World) (source_sha : String)
      → Keeps (Same w) (check_commit H repository metadata.tag source_sha)
  unfolding check_commit Same
  Keeps-check_commit w source_sha =
      Keeps-bind _ _ (record { at = λ u same n. h.assets-commit u n ∙ same n })
        (λ answer. Keeps-bind _ _ (Keeps-lift _) (λ sha. Keeps-require _ _))

  -- A round replaces no asset.
  publish_asset-kept :
      (existing : List String) (a : Upload) (n : String) (body : Bytes)
      → Keeps (λ w. h.assets w n ≡ some body) (publish_asset H repository metadata.tag existing a)
  unfolding publish_asset upload_missing public_sha256
  publish_asset-kept existing a n body =
      Keeps-bind _ _
        (Keeps-if (contains existing (name_of a)) _ _ (λ _. Keeps-pure tt)
          (λ _. Keeps-bind _ _ (record { at = λ w e. upload w e }) (λ _. Keeps-pure tt)))
        (λ _.
          Keeps-bind _ _
            (Keeps-bind _ _ (record { at = λ w e. h.assets-urlopen _ w n ∙ e })
              (λ body. Keeps-pure (H.sha256 body)))
            (λ d. Keeps-require _ _))
    where
      upload :
          (w : World)
          → h.assets w n ≡ some body
          → h.assets (H.gh (upload_arguments repository metadata.tag a.path) w).1 n ≡ some body
      upload w e = elim (string_eq.dec n (name_of a)) [
        | yes same ↦
            subst
              (λ m.
                h.assets (H.gh (upload_arguments repository metadata.tag a.path) w).1 m ≡ some body)
              (sym same)
              (h.assets-upload_again a.path [] w body tt refl (ap (h.assets w) (sym same) ∙ e))
        | no other ↦ h.assets-upload a.path [] w n tt other ∙ e
      ]

  -- The upload loop over assets whose last one is `last`, run where no asset differs from `w`
  module _ (w : World) (rows : List Upload) (last : Upload) where
    Complete : Result (Unit {0}) × World → Type 0
    Complete q =
        q.0 ≡ ok tt
        → (a : Upload) → In a (rows ++ last ∷ [])
        → view H repository metadata.tag h q.1 (name_of a) ≡ some a.sha256

    LastFollows : Result (Unit {0}) × World → Type 0
    LastFollows q =
        (a : Upload)
        → In a rows
        → view H repository metadata.tag h q.1 (name_of last)
          ≢ view H repository metadata.tag h w (name_of last)
        → view H repository metadata.tag h q.1 (name_of a) ≡ some a.sha256

    uploads-Complete :
        (existing : List String) (w' : World)
        → Distinct name_of (rows ++ last ∷ [])
        → Complete
            (for_each (publish_asset H repository metadata.tag existing) (rows ++ last ∷ []) w')
    unfolding Complete
    uploads-Complete existing w' u returned a m =
        All-In
          (λ (r : Upload).
            view H repository metadata.tag h
              (for_each (publish_asset H repository metadata.tag existing) (rows ++ last ∷ []) w').1
              (name_of r)
            ≡ some r.sha256)
          (rows ++ last ∷ [])
          (for_each-delivered (view H repository metadata.tag h) name_of (λ (r : Upload). r.sha256)
            (publish_asset H repository metadata.tag existing)
            (publish_asset-IsDelivery H repository metadata.tag h existing) (rows ++ last ∷ []) w' u
            returned)
          m

    uploads-LastFollows :
        (existing : List String) (w' : World)
        → Same w w'
        → Distinct name_of (rows ++ last ∷ [])
        → LastFollows
            (for_each (publish_asset H repository metadata.tag existing) (rows ++ last ∷ []) w')
    unfolding LastFollows
    uploads-LastFollows existing w' same u a m changed =
        for_each-last (view H repository metadata.tag h) name_of (λ (r : Upload). r.sha256)
          (publish_asset H repository metadata.tag existing)
          (publish_asset-IsDelivery H repository metadata.tag h existing) last rows w' a u m
          (λ e. changed (e ∙ Same-view w w' (name_of last) same))

  module _ (version : String) (build_number : ℕ) (checksums manifest : Upload) (w : World) where
    publish_release-elim :
        (P : Result (Unit {0}) × World → Type 0)
        → ((e : Error) (w' : World) → Same w w' → P (err e, w'))
        → ((existing : List String) (w' : World)
            → Same w w'
            → P (
                for_each
                  (publish_asset H repository metadata.tag existing)
                  ((metadata.artifacts ++ checksums ∷ []) ++ manifest ∷ [])
                  w'))
        → P (
            publish_release H channel repository version build_number metadata checksums manifest w)
    unfolding publish_release
    publish_release-elim P refused uploaded =
        bind-elim P (require _ _) _ w
          (λ e _. refused e _ ((Keeps-require {P = Same w} _ _).at w same))
          (λ _ _.
            let checked = (Keeps-require {P = Same w} _ _).at w same in
            bind-elim P (shared_release H channel repository metadata.tag) _ _
              (λ e _. refused e _ ((Keeps-shared_release w).at _ checked))
              (λ release _. uploaded release.assets _ ((Keeps-shared_release w).at _ checked)))
      where
        same : Same w w
        same = Same-refl w

    -- If `publish_release` returns, anonymous readers get every asset, the manifest among them, under its
    -- digest. The assets have different names.
    pub publish_release_complete :
        (a : Upload)
        → Distinct name_of ((metadata.artifacts ++ checksums ∷ []) ++ manifest ∷ [])
        → (publish_release H channel repository version build_number metadata checksums manifest
            w).0
          ≡ ok tt
        → In a ((metadata.artifacts ++ checksums ∷ []) ++ manifest ∷ [])
        → view H repository metadata.tag h
            (publish_release H channel repository version build_number metadata checksums manifest
              w).1
            (name_of a)
          ≡ some a.sha256
    unfolding Complete
    publish_release_complete a u returned m =
        publish_release-elim (Complete w ((metadata.artifacts ++ checksums ∷ [])) manifest)
          (λ e w' _ k. cc)
          (λ existing w' _.
            uploads-Complete w ((metadata.artifacts ++ checksums ∷ [])) manifest existing w' u)
          returned a m

    -- Whether `publish_release` returns or raises: where the public manifest differs from the one before,
    -- every other asset is public under its digest. The assets have different names.
    pub publish_release-manifest_last :
        (a : Upload)
        → Distinct name_of ((metadata.artifacts ++ checksums ∷ []) ++ manifest ∷ [])
        → In a ((metadata.artifacts ++ checksums ∷ []))
        → view H repository metadata.tag h
            (publish_release H channel repository version build_number metadata checksums manifest
              w).1
            (name_of manifest)
          ≢ view H repository metadata.tag h w (name_of manifest)
        → view H repository metadata.tag h
            (publish_release H channel repository version build_number metadata checksums manifest
              w).1
            (name_of a)
          ≡ some a.sha256
    unfolding LastFollows
    publish_release-manifest_last a u =
        publish_release-elim (LastFollows w ((metadata.artifacts ++ checksums ∷ [])) manifest)
          (λ e w' same a m changed. absurd (changed (Same-view w w' (name_of manifest) same)))
          (λ existing w' same.
            uploads-LastFollows w ((metadata.artifacts ++ checksums ∷ [])) manifest existing w' same
              u)
          a

    -- Whether `publish_release` returns or raises, an asset that the release had stays as it is.
    pub publish_release-kept :
        (n : String) (body : Bytes)
        → h.assets w n ≡ some body
        → h.assets
            (publish_release H channel repository version build_number metadata checksums manifest
              w).1
            n
          ≡ some body
    unfolding Same
    publish_release-kept n body there =
        publish_release-elim (λ q. h.assets q.1 n ≡ some body) (λ e w' same. same n ∙ there)
          (λ existing w' same.
            (Keeps-for_each (publish_asset H repository metadata.tag existing)
                ((metadata.artifacts ++ checksums ∷ []) ++ manifest ∷ [])
                (λ a. publish_asset-kept existing a n body)).at
              w' (same n ∙ there))

  module _ (source_sha : String) (verification_files : List Upload) (manifest : Upload)
      (w : World) where
    publish_linux-elim :
        (P : Result (Unit {0}) × World → Type 0)
        → ((e : Error) (w' : World) → Same w w' → P (err e, w'))
        → ((existing : List String) (w' : World)
            → Same w w'
            → P (
                for_each
                  (publish_asset H repository metadata.tag existing)
                  ((metadata.artifacts ++ verification_files) ++ manifest ∷ [])
                  w'))
        → P (publish_linux H channel repository source_sha metadata verification_files manifest w)
    unfolding publish_linux
    publish_linux-elim P refused uploaded =
        let public = (Keeps-shared_release w).at w same in
        bind-elim P (shared_release H channel repository metadata.tag) _ w
          (λ e _. refused e _ public)
          (λ release _.
            let checked = (Keeps-check_commit w source_sha).at _ public in
            bind-elim P (check_commit H repository metadata.tag source_sha) _ _
              (λ e _. refused e _ checked) (λ _ _. uploaded release.assets _ checked))
      where
        same : Same w w
        same = Same-refl w

    -- If `publish_linux` returns, anonymous readers get every asset, the manifest among them, under its
    -- digest. The assets have different names.
    pub publish_linux_complete :
        (a : Upload)
        → Distinct name_of ((metadata.artifacts ++ verification_files) ++ manifest ∷ [])
        → (publish_linux H channel repository source_sha metadata verification_files manifest w).0
          ≡ ok tt
        → In a ((metadata.artifacts ++ verification_files) ++ manifest ∷ [])
        → view H repository metadata.tag h
            (publish_linux H channel repository source_sha metadata verification_files manifest w).1
            (name_of a)
          ≡ some a.sha256
    unfolding Complete
    publish_linux_complete a u returned m =
        publish_linux-elim (Complete w ((metadata.artifacts ++ verification_files)) manifest)
          (λ e w' _ k. cc)
          (λ existing w' _.
            uploads-Complete w ((metadata.artifacts ++ verification_files)) manifest existing w' u)
          returned a m

    -- Whether `publish_linux` returns or raises: where the public manifest differs from the one before,
    -- every other asset is public under its digest. The assets have different names.
    pub publish_linux-manifest_last :
        (a : Upload)
        → Distinct name_of ((metadata.artifacts ++ verification_files) ++ manifest ∷ [])
        → In a ((metadata.artifacts ++ verification_files))
        → view H repository metadata.tag h
            (publish_linux H channel repository source_sha metadata verification_files manifest w).1
            (name_of manifest)
          ≢ view H repository metadata.tag h w (name_of manifest)
        → view H repository metadata.tag h
            (publish_linux H channel repository source_sha metadata verification_files manifest w).1
            (name_of a)
          ≡ some a.sha256
    unfolding LastFollows
    publish_linux-manifest_last a u =
        publish_linux-elim (LastFollows w ((metadata.artifacts ++ verification_files)) manifest)
          (λ e w' same a m changed. absurd (changed (Same-view w w' (name_of manifest) same)))
          (λ existing w' same.
            uploads-LastFollows w ((metadata.artifacts ++ verification_files)) manifest existing w'
              same u)
          a

    -- Whether `publish_linux` returns or raises, an asset that the release had stays as it is.
    pub publish_linux-kept :
        (n : String) (body : Bytes)
        → h.assets w n ≡ some body
        → h.assets
            (publish_linux H channel repository source_sha metadata verification_files manifest w).1
            n
          ≡ some body
    unfolding Same
    publish_linux-kept n body there =
        publish_linux-elim (λ q. h.assets q.1 n ≡ some body) (λ e w' same. same n ∙ there)
          (λ existing w' same.
            (Keeps-for_each (publish_asset H repository metadata.tag existing)
                ((metadata.artifacts ++ verification_files) ++ manifest ∷ [])
                (λ a. publish_asset-kept existing a n body)).at
              w' (same n ∙ there))
