-- ===== src/UpdateFeed/Publication/Round.antt =====
-- One round of the upload loop of the feeds.
use mathlib.Core.Path.{subst}
use sesori_apps_monorepo.Prelude.{
  ◌≡◌, refl, sym, ap, ◌∙◌, ◌≢◌, Bool, true, String, Option, some, ◌==◌, ==→≡, string_eq, option_eq,
}
use sesori_apps_monorepo.Prelude.Text.{ends_with}
use sesori_apps_monorepo.Prelude.Exec.{ok}
use sesori_apps_monorepo.Prelude.Exec.Keeps.{Keeps, Keeps-bind, Keeps-pure, Keeps-if, Keeps-require}
use sesori_apps_monorepo.Prelude.Exec.Ensures.{
  Ensures, Ensures-bind, Ensures-require, Ensures-if, Ensures-pure,
}
use sesori_apps_monorepo.Delivery.{IsDelivery}
use sesori_apps_monorepo.Storage.{Storage, public_digest, IsBucket, served}
use sesori_apps_monorepo.Storage.Upload.{
  upload_verified-delivered, Keeps-upload_verified, Keeps-upload_immutable, Keeps-public_digest,
  public_digest-served,
}
use sesori_apps_monorepo.UpdateFeed.Verification.{Tree}
use sesori_apps_monorepo.UpdateFeed.Publication.{publish_object, publish_name}

module _ (S : Storage) (b : IsBucket S) (root : String) where
  open S use {World}

  object-delivered :
      (name digest : String) (immutable : Bool) (existing : Option String) (w : World)
      → ((d : String) → existing ≡ some d → served S b w name ≡ some d)
      → Ensures
          (λ _ w'. served S b w' name ≡ some digest)
          (publish_object S root name digest immutable existing)
          w
  unfolding publish_object
  object-delivered name digest immutable existing w is =
      Ensures-if (existing == some digest) _ _ w
        (λ e.
          Ensures-pure (λ _ w'. served S b w' name ≡ some digest) tt w
            (is digest (==→≡ existing (some digest) e)))
        (λ _.
          Ensures-bind (λ _ _. Unit) _ _ w (Ensures-require _ _ w (λ _. tt))
            (λ _ w' _. upload_verified-delivered S b root name digest immutable w'))

  object-frame :
      (name digest : String) (immutable : Bool) (existing : Option String) (n : String)
      (v : Option String)
      → n ≢ name
      → Keeps (λ w. served S b w n ≡ v) (publish_object S root name digest immutable existing)
  unfolding publish_object
  object-frame name digest immutable existing n v h =
      Keeps-if (existing == some digest) _ _ (λ _. Keeps-pure tt)
        (λ _.
          Keeps-bind _ _ (Keeps-require _ _)
            (λ _. Keeps-upload_verified S b n v root name digest immutable h))

  object-immutable :
      (name digest : String) (existing : Option String) (d : String)
      → Keeps (λ w. served S b w name ≡ some d) (publish_object S root name digest true existing)
  unfolding publish_object
  object-immutable name digest existing d =
      Keeps-if (existing == some digest) _ _ (λ _. Keeps-pure tt)
        (λ _.
          Keeps-bind _ _ (Keeps-require _ _) (λ _. Keeps-upload_immutable S b root name digest d))

  module _ (tree : Tree S.Bytes) where
    abbrev pub digest_of : String → String
    digest_of name = S.sha256 (tree.content name)

    name-delivered :
        (name : String) (w : World)
        → Ensures
            (λ _ w'. served S b w' name ≡ some (digest_of name))
            (publish_name S root tree name)
            w
    unfolding publish_name
    name-delivered name w =
        Ensures-bind (λ o w'. (d : String) → o ≡ some d → served S b w' name ≡ some d)
          (public_digest S name) _ w
          (record {
            at = λ o found d e.
                (Keeps-public_digest S b name (some d) name).at w
                  (public_digest-served S b name w d (found ∙ ap ok e));
          })
          (λ o w' is. object-delivered name (digest_of name) _ o w' is)

    name-frame :
        (name n : String) (v : Option String)
        → n ≢ name
        → Keeps (λ w. served S b w n ≡ v) (publish_name S root tree name)
    unfolding publish_name
    name-frame name n v h =
        Keeps-bind _ _ (Keeps-public_digest S b n v name)
          (λ o. object-frame name (digest_of name) _ o n v h)

    pub publish_name-IsDelivery :
        IsDelivery (served S b) (λ n. n) digest_of (publish_name S root tree)
    publish_name-IsDelivery = record {
      delivered = λ name w e. (name-delivered name w).at tt e;
      frame = λ name w n h. (name-frame name n (served S b w n) h).at w refl;
    }

    name_immutable :
        (name d : String)
        → ends_with name ".nupkg" ≡ true
        → Keeps (λ w. served S b w name ≡ some d) (publish_name S root tree name)
    unfolding publish_name
    name_immutable name d h =
        Keeps-bind _ _ (Keeps-public_digest S b name (some d) name)
          (λ o. rw h (object-immutable name (digest_of name) o d))

    -- A package that is there stays as it is, whatever object the round is about.
    pub publish_name-immutable :
        (name n d : String)
        → ends_with n ".nupkg" ≡ true
        → Keeps (λ w. served S b w n ≡ some d) (publish_name S root tree name)
    publish_name-immutable name n d h = elim (string_eq.dec n name) [
      | yes same ↦
          subst (λ m. Keeps (λ w. served S b w m ≡ some d) (publish_name S root tree name))
            (sym same) (name_immutable name d (ap (λ m. ends_with m ".nupkg") (sym same) ∙ h))
      | no other ↦ name-frame name n (some d) other
    ]
