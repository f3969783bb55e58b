-- ===== src/Desktop/Linux/Laws.antt =====
-- What the metadata of prepared Linux packages says of them.
use mathlib.Core.Path.{subst}
use sesori_apps_monorepo.Prelude.{
  ℕ, ◌≡◌, refl, sym, ◌∙◌, inl, inr, ap, true, String, ◌<>◌, Option, List, [], ◌∷◌,
}
use sesori_apps_monorepo.Prelude.Lists.{All, In}
use sesori_apps_monorepo.Prelude.Exec.{ok, err, collect}
use sesori_apps_monorepo.Prelude.Read.{ask}
use sesori_apps_monorepo.Prelude.Exec.Inversion.{bind-run, require-inv, lift-inv, pure-inv}
use sesori_apps_monorepo.LinuxRepository.Retention.Groups.{All-append}
use sesori_apps_monorepo.LinuxRepository.Versions.{Channel}
use sesori_apps_monorepo.LinuxRepository.Publication.{channel_value}
use sesori_apps_monorepo.Json.{Json, string, Fields}
use sesori_apps_monorepo.Json.Equality.Laws.{json_eq_string_iff}
use sesori_apps_monorepo.Host.{Host, digest_of, size_of}
use sesori_apps_monorepo.Desktop.Producer.{is_text, is_number, require_producer}
use sesori_apps_monorepo.Desktop.Identity.{release_tag}
use sesori_apps_monorepo.Desktop.Macos.{architectures}
use sesori_apps_monorepo.Desktop.Linux.Evidence.{formats}
use sesori_apps_monorepo.Desktop.Linux.Inputs.{
  package_path, Unchanged, LiesApart, Keeps-prepare_package, Keeps-prepare_architecture,
}
use sesori_apps_monorepo.Desktop.Linux.{
  format_at, Artifact, Companion, LinuxMetadata, prepare_package, prepare_architecture,
  prepare_architectures, prepare,
}

same_digest :
    (H : Host) (path : String) (w u : H.World)
    → H.read_bytes path u ≡ H.read_bytes path w
    → digest_of H path u ≡ digest_of H path w
unfolding digest_of
same_digest H path w u e = ap (λ r. elim r [ ok b ↦ ok (H.sha256 b) | err x ↦ err x ]) e

same_size :
    (H : Host) (path : String) (w u : H.World)
    → H.read_bytes path u ≡ H.read_bytes path w
    → size_of H path u ≡ size_of H path w
unfolding size_of
same_size H path w u e = ap (λ r. elim r [ ok b ↦ ok (H.length b) | err x ↦ err x ]) e

module _ (H : Host) (root output version : String) (build : ℕ)
    (apart : LiesApart H root output version build) (w : H.World) where
  open H use {World}

  -- The row is one of an architecture and a format of the release, under the name of that format. In
  -- `w`, the package of that name had the digest and the size that the row states.
  abbrev pub Recorded : Artifact → Type 0
  Recorded artifact =
      let path = package_path root artifact.architecture artifact.name in
      In artifact.architecture architectures
      × (format_at (formats artifact.architecture version build) artifact.name ≡ ok artifact.format)
      × ((digest : String) × (digest_of H path w ≡ ok digest) × (artifact.sha256 ≡ string digest))
      × ((size : ℕ) × (size_of H path w ≡ ok size) × (is_number artifact.bytes size ≡ true))

  prepare_package-Recorded :
      (packaging arch : String) (identity : Fields) (source_sha : String)
      (checksums : List (String × String)) (row : Json) (u : World) (artifact : Artifact)
      → In arch architectures
      → Unchanged H root w u
      → (prepare_package H
          (root <> ("/desktop-linux-packages-" <> arch))
          packaging
          output
          arch
          identity
          source_sha
          (formats arch version build)
          checksums
          row
          u).0
        ≡ ok artifact
      → Recorded artifact
  unfolding prepare_package ask is_text
  prepare_package-Recorded packaging arch identity source_sha checksums row u artifact known same
        h =
      let (name, _, _, h) = bind-run _ _ u artifact h in
      let (kind, k, h) = lift-inv _ _ _ artifact h in
      let (_, _, _, h) = bind-run _ _ _ artifact h in
      let (_, _, _, h) = bind-run _ _ _ artifact h in
      let (size, s, _, h) = bind-run _ _ _ artifact h in
      let (bytes, _, h) = lift-inv _ _ _ artifact h in
      let (b, h) = require-inv _ _ _ _ artifact h in
      let (digest, d, _, h) = bind-run _ _ _ artifact h in
      let (sha256, _, h) = lift-inv _ _ _ artifact h in
      let (c, h) = require-inv _ _ _ _ artifact h in
      let (_, _, h) = lift-inv _ _ _ artifact h in
      let (_, h) = require-inv _ _ _ _ artifact h in
      let (_, _, _, h) = bind-run _ _ _ artifact h in
      let there = same arch name in
      subst Recorded (pure-inv _ artifact _ h) (
        known,
        k,
        (digest, sym (same_digest H _ w u there) ∙ d, (json_eq_string_iff sha256 digest).0 c),
        (size, sym (same_size H _ w u there) ∙ s, b),
      )

  -- The rounds over the rows of an architecture, each in what the one before has left
  rows-Recorded :
      (packaging arch : String) (identity : Fields) (source_sha : String)
      (checksums : List (String × String)) (rows : List Json) (u : World)
      (artifacts : List Artifact)
      → In arch architectures
      → Unchanged H root w u
      → (collect
          (prepare_package H
            (root <> ("/desktop-linux-packages-" <> arch))
            packaging
            output
            arch
            identity
            source_sha
            (formats arch version build)
            checksums)
          rows
          u).0
        ≡ ok artifacts
      → All Recorded artifacts
  unfolding collect
  rows-Recorded packaging arch identity source_sha checksums [] u artifacts known same h =
      subst (All Recorded) (pure-inv [] artifacts u h) tt
  rows-Recorded packaging arch identity source_sha checksums (row ∷ rows) u artifacts known same h =
      let (one, o, _, h) = bind-run _ _ u artifacts h in
      let (more, m, _, h) = bind-run _ _ _ artifacts h in
      let left =
        (Keeps-prepare_package H root output version build apart w _ packaging arch source_sha
            identity checksums row known).at
          u same in
      subst (All Recorded) (pure-inv (one ∷ more) artifacts u h) (
        prepare_package-Recorded packaging arch identity source_sha checksums row u one known same
            o,
        rows-Recorded packaging arch identity source_sha checksums rows _ more known left m,
      )

  prepare_architecture-Recorded :
      (source_sha : String) (channel : Channel) (arch : String) (u : World)
      (found : List Artifact × List Companion)
      → In arch architectures
      → Unchanged H root w u
      → (prepare_architecture H root output source_sha version build channel arch u).0 ≡ ok found
      → All Recorded found.0
  unfolding prepare_architecture ask
  prepare_architecture-Recorded source_sha channel arch u found known same h =
      let (_, _, _, h) = bind-run _ _ u found h in
      let (_, _, _, h) = bind-run _ _ _ found h in
      let (_, _, _, h) = bind-run _ _ _ found h in
      let (_, _, _, h) = bind-run _ _ _ found h in
      let (_, _, _, h) = bind-run _ _ _ found h in
      let (_, _, _, h) = bind-run _ _ _ found h in
      let (artifacts, is, _, h) = bind-run _ _ _ found h in
      let (_, _, _, h) = bind-run _ _ _ found h in
      let (_, _, _, h) = bind-run _ _ _ found h in
      let (_, _, _, h) = bind-run _ _ _ found h in
      let (_, _, _, h) = bind-run _ _ _ found h in
      subst (λ f. All Recorded f.0) (pure-inv _ found _ h)
        (rows-Recorded _ arch _ source_sha _ _ u artifacts known same is)

  prepare_architectures-Recorded :
      (source_sha : String) (channel : Channel) (archs : List String) (u : World)
      (found : List Artifact × List Companion)
      → All (λ arch. In arch architectures) archs
      → Unchanged H root w u
      → (prepare_architectures H root output source_sha version build channel archs u).0 ≡ ok found
      → All Recorded found.0
  unfolding prepare_architectures
  prepare_architectures-Recorded source_sha channel [] u found known same h =
      subst (λ f. All Recorded f.0) (pure-inv _ found u h) tt
  prepare_architectures-Recorded source_sha channel (arch ∷ rest) u found known same h =
      let (one, o, _, h) = bind-run _ _ u found h in
      let (more, m, _, h) = bind-run _ _ _ found h in
      let left =
        (Keeps-prepare_architecture H root output version build apart w source_sha arch channel
            known.0).at
          u same in
      subst (λ f. All Recorded f.0) (pure-inv _ found _ h)
        (All-append Recorded one.0 more.0
          (prepare_architecture-Recorded source_sha channel arch u one known.0 same o)
          (prepare_architectures-Recorded source_sha channel rest _ more known.1 left m))

  -- Where the output and the temporary directories lie apart from the packages: a preparation that
  -- returns was made from a producer that is accepted in the world that it began in, and is tagged
  -- for its channel. Every package in its metadata is of one of the two architectures and has the
  -- name of its format, and before the preparation it had the digest and the size that its row states.
  pub prepare-Recorded :
      (source_sha tooling_sha : String) (channel : Channel) (repository : String) (run_id : ℕ)
      (current_run_id : Option ℕ) (metadata : LinuxMetadata)
      → (prepare H root output source_sha tooling_sha channel repository run_id current_run_id
          version build w).0
        ≡ ok metadata
      → (producer : Fields) × (require_producer H root source_sha tooling_sha repository run_id
            current_run_id w
          ≡ ok producer)
        × (metadata.tag ≡ release_tag (channel_value channel) version build)
        × All Recorded metadata.artifacts
  unfolding prepare ask
  prepare-Recorded source_sha tooling_sha channel repository run_id current_run_id metadata h =
      let (producer, p, _, h) = bind-run _ _ w metadata h in
      let (_, h) = require-inv _ _ _ _ metadata h in
      let (_, h) = require-inv _ _ _ _ metadata h in
      let (_, _, _, h) = bind-run _ _ _ metadata h in
      let (found, f, _, h) = bind-run _ _ _ metadata h in
      let (_, _, _, h) = bind-run _ _ _ metadata h in
      let (_, _, _, h) = bind-run _ _ _ metadata h in
      let (_, _, h) = lift-inv _ _ _ metadata h in
      let (_, _, _, h) = bind-run _ _ _ metadata h in
      let e = pure-inv _ metadata _ h in
      let all =
        prepare_architectures-Recorded source_sha channel architectures _ found
          (inl refl, (inr (inl refl), tt)) (apart.mkdir w) f in
      (producer, p, ap (λ m. m.tag) (sym e), subst (λ m. All Recorded m.artifacts) e all)
