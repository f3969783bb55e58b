-- ===== src/UpdateFeed/Publication/Laws.antt =====
-- What a publication of the feeds promises to those who read the bucket.
use mathlib.Core.Path.{subst}
use sesori_apps_monorepo.Prelude.{
  ◌≡◌, refl, sym, ◌∙◌, ◌≢◌, ◌≤◌, ◌<◌, String, some, List, true, false, arith, starts_with, nat_eq,
  string_eq,
}
use sesori_apps_monorepo.Prelude.Lists.{In, sort}
use sesori_apps_monorepo.Prelude.Sorting.{
  All-In, All-map, All-sort, In-sort, Pairwise-sort, sort-IsSorted,
}
use sesori_apps_monorepo.Prelude.Text.{ends_with}
use sesori_apps_monorepo.Prelude.Exec.{Error, Result, ok, err, for_each, bind-elim}
use sesori_apps_monorepo.Prelude.Exec.Keeps.{Keeps-for_each}
use sesori_apps_monorepo.Delivery.{
  Distinct, Ordered, for_each-delivered, for_each-frame, for_each-Ordered,
}
use sesori_apps_monorepo.Storage.{Storage, IsBucket, served}
use sesori_apps_monorepo.LinuxRepository.Versions.{Channel}
use sesori_apps_monorepo.UpdateFeed.Names.{is_hosted, publication_order}
use sesori_apps_monorepo.UpdateFeed.Names.Prefix.{hosted_prefix, is_hosted-prefix}
use sesori_apps_monorepo.UpdateFeed.Verification.{Tree, verify}
use sesori_apps_monorepo.UpdateFeed.Verification.Guard.{
  file_names, Guarded, Keeps-verify, verify-Guarded,
}
use sesori_apps_monorepo.UpdateFeed.Publication.{name_lt, publish_name, publish}
use sesori_apps_monorepo.UpdateFeed.Publication.Round.{
  digest_of, publish_name-IsDelivery, publish_name-immutable,
}

sort-Distinct :
    (names : List String) → Distinct (λ n. n) names → Distinct (λ n. n) (sort name_lt names)
sort-Distinct names distinct =
    Pairwise-sort name_lt {R = λ a c. a ≢ c} (λ a c h e. h (sym e)) names distinct

sort-Ordered : (names : List String) → Ordered publication_order (sort name_lt names)
unfolding name_lt
sort-Ordered names =
    sort-IsSorted name_lt {R = λ a c. publication_order a ≤ publication_order c}
      (λ a c d h k. omega arith) (λ a c h. ground arith) (λ a c h. ground arith) names

module _ (S : Storage) (b : IsBucket S) (root : String) (tree : Tree S.Bytes) (channel : Channel)
    (w : S.World) where
  -- A publication raises with the bucket untouched, or uploads the files of the tree, all of them
  -- feed objects of the channel.
  publish-elim :
      (P : Result (Unit {0}) × S.World → Type 0)
      → ((e : Error) (w' : S.World)
          → ((n : String) → served S b w' n ≡ served S b w n)
          → P (err e, w'))
      → ((names : List String) (w' : S.World)
          → Guarded channel tree.entries names
          → ((n : String) → served S b w' n ≡ served S b w n)
          → P (for_each (publish_name S root tree) (sort name_lt names) w'))
      → P (publish S root tree channel w)
  unfolding publish
  publish-elim P refused uploaded =
      bind-elim P (verify S.sha256 tree channel) _ w (λ e _. refused e _ same)
        (λ names done.
          uploaded names _ ((verify-Guarded S.sha256 tree channel w).at names done) same)
    where
      same : (n : String) → served S b (verify S.sha256 tree channel w).1 n ≡ served S b w n
      same n = (Keeps-verify S.sha256 tree (λ u. served S b u n ≡ served S b w n) channel).at w refl

  -- If `publish` returns, anonymous readers get every file of the tree as it is there, for a tree
  -- that lists each path once.
  pub publish-all_delivered :
      (name : String)
      → Distinct (λ n. n) (file_names tree.entries)
      → (publish S root tree channel w).0 ≡ ok tt
      → In name (file_names tree.entries)
      → served S b (publish S root tree channel w).1 name ≡ some (S.sha256 (tree.content name))
  publish-all_delivered name distinct returned m =
      publish-elim (λ q. q.0 ≡ ok tt → served S b q.1 name ≡ some (digest_of S b root tree name))
        (λ e w' _ h. cc)
        (λ names w' (same, _) _ h.
          let listed : Distinct (λ n. n) names = subst (Distinct (λ n. n)) (sym same) distinct in
          All-In
            (λ n.
              served S b (for_each (publish_name S root tree) (sort name_lt names) w').1 n
              ≡ some (digest_of S b root tree n))
            (sort name_lt names)
            (for_each-delivered (served S b) (λ n. n) (digest_of S b root tree)
              (publish_name S root tree) (publish_name-IsDelivery S b root tree)
              (sort name_lt names) w' (sort-Distinct names listed) h)
            (In-sort name_lt names name (subst (In name) (sym same) m)))
        returned

  -- Whether `publish` returns or raises: where the public object of a file differs from the one
  -- before, every file that comes earlier in the order of publication (packages, feeds,
  -- signatures) is served as it is in the tree. The tree lists each path once.
  pub publish-staged :
      (first later : String)
      → Distinct (λ n. n) (file_names tree.entries)
      → In first (file_names tree.entries)
      → In later (file_names tree.entries)
      → publication_order first < publication_order later
      → served S b (publish S root tree channel w).1 later ≢ served S b w later
      → served S b (publish S root tree channel w).1 first ≡ some (S.sha256 (tree.content first))
  publish-staged first later distinct mf ml lt =
      publish-elim
        (λ q.
          served S b q.1 later ≢ served S b w later
          → served S b q.1 first ≡ some (digest_of S b root tree first))
        (λ e w' same changed. absurd (changed (same later)))
        (λ names w' (listed, _) same changed.
          for_each-Ordered (served S b) (λ n. n) (digest_of S b root tree)
            (publish_name S root tree) (publish_name-IsDelivery S b root tree) publication_order
            (sort name_lt names) w'
            (sort-Distinct names (subst (Distinct (λ n. n)) (sym listed) distinct))
            (sort-Ordered names) first later
            (In-sort name_lt names first (subst (In first) (sym listed) mf))
            (In-sort name_lt names later (subst (In later) (sym listed) ml)) lt
            (λ e. changed (e ∙ same later)))

  -- Whether `publish` returns or raises, a package that was in the bucket is still there with the
  -- same content.
  pub publish-packages_kept :
      (name digest : String)
      → ends_with name ".nupkg" ≡ true
      → served S b w name ≡ some digest
      → served S b (publish S root tree channel w).1 name ≡ some digest
  publish-packages_kept name digest kept there =
      publish-elim (λ q. served S b q.1 name ≡ some digest) (λ e w' same. same name ∙ there)
        (λ names w' _ same.
          (Keeps-for_each (publish_name S root tree) (sort name_lt names)
              (λ n. publish_name-immutable S b root tree n name digest kept)).at
            w' (same name ∙ there))

  -- Whether `publish` returns or raises, an object outside `desktop-updates/k1/<channel>/` is the
  -- one that was there before.
  pub publish-inside :
      (name : String)
      → starts_with name (hosted_prefix channel) ≡ false
      → served S b (publish S root tree channel w).1 name ≡ served S b w name
  publish-inside name outside =
      publish-elim (λ q. served S b q.1 name ≡ served S b w name) (λ e w' same. same name)
        (λ names w' (_, hosted) same.
          for_each-frame (served S b) (λ n. n) (digest_of S b root tree) (publish_name S root tree)
            (publish_name-IsDelivery S b root tree) (sort name_lt names) w' name
            (All-sort name_lt (λ n. name ≢ n) names
              (All-map (λ n. is_hosted channel n ≡ true) (λ n. name ≢ n)
                (λ n h e.
                  let inside : starts_with n (hosted_prefix channel) ≡ true =
                    is_hosted-prefix channel n h in
                  cc)
                names hosted))
          ∙ same name)
