-- ===== src/Tests/Versions.antt =====
-- Releases and version orders of publish_linux_repository.py at concrete data.
use sesori_apps_monorepo.Prelude.{
  ◌≡◌, refl, some, List, [], ◌∷◌, inl, true, false, string_eq, nat_eq,
}
use sesori_apps_monorepo.Prelude.{arith}
use sesori_apps_monorepo.LinuxRepository.Publication.{channel_value}
use sesori_apps_monorepo.Desktop.Identity.{release_tag}
use sesori_apps_monorepo.LinuxRepository.Versions.Tags.{
  numbers, version_text, tag_groups-release_tag,
}
use sesori_apps_monorepo.Prelude.Exec.{ok}
use sesori_apps_monorepo.Prelude.Text.{literal, number, str}
use sesori_apps_monorepo.LinuxRepository.Versions.{
  Release, stable, internal, manifest, candidate, candidates, newest_release, select_channels,
  tag_groups, three_parts, positive_number, version_order,
}
use sesori_apps_monorepo.LinuxRepository.Versions.Order.{version_order-spell}
use sesori_apps_monorepo.LinuxRepository.Versions.Newest.{
  IsNewest, HasCompleted, newest_release-IsNewest, newest_release-none, select_channels_iff,
}
use sesori_apps_monorepo.Prelude.{◌↔◌}
use sesori_apps_monorepo.LinuxRepository.Versions.Completed.{IsCompleted}
use sesori_apps_monorepo.Prelude.Lists.{In}

abbrev release : Release
release = record {
  tag_name = "v1.10.0-internal.12";
  draft = false;
  prerelease = true;
  assets = manifest ∷ [];
}

abbrev older : Release
older = record {
  tag_name = "v1.9.3-internal.40";
  draft = false;
  prerelease = true;
  assets = manifest ∷ [];
}

abbrev draft : Release
draft = record { tag_name = "v2.0.0"; draft = true; prerelease = false; assets = manifest ∷ [] }

abbrev releases : List Release
releases = draft ∷ older ∷ release ∷ []

candidate_example : candidate internal release ≡ some (1 ∷ 10 ∷ 0 ∷ 12 ∷ [])
unfolding candidate tag_groups three_parts positive_number literal number nat_eq string_eq
candidate_example = refl

newest_release-IsNewest_example : IsNewest internal releases release
unfolding candidate_example newest_release candidates
newest_release-IsNewest_example = newest_release-IsNewest internal releases release refl

newest_release-none_example : ¬ IsCompleted stable draft (2 ∷ 0 ∷ 0 ∷ [])
unfolding candidate_example newest_release candidates
newest_release-none_example =
    newest_release-none stable releases draft (2 ∷ 0 ∷ 0 ∷ []) refl (inl refl)

select_channels_iff_example :
    In internal (select_channels releases) ↔ HasCompleted internal releases
select_channels_iff_example = select_channels_iff internal releases

version_order-spell_example : version_order "1.12.3-40" ≡ ok (1 ∷ 12 ∷ 3 ∷ 40 ∷ [])
unfolding str
version_order-spell_example = version_order-spell 1 12 3 40

tag_groups-release_tag_example :
    tag_groups internal (release_tag (channel_value internal) (version_text 1 10 0) 12)
    ≡ some (numbers internal 1 10 0 12)
tag_groups-release_tag_example = tag_groups-release_tag internal 1 10 0 12 (omega arith)
