-- ===== src/LinuxRepository/Publication/Round.antt =====
-- One round of the upload loop: it delivers its row, leaves other objects alone, and never changes
-- a package that is there.
use mathlib.Core.Path.{subst}
use sesori_apps_monorepo.Prelude.{
  ◌≡◌, refl, sym, ap, ◌∙◌, ◌≢◌, Bool, true, String, Option, none, some, ◌==◌, ==→≡, ≡→==, string_eq,
  nat_eq,
}
use sesori_apps_monorepo.Prelude.Exec.{ok}
use sesori_apps_monorepo.Prelude.Exec.Keeps.{Keeps, Keeps-bind, Keeps-pure, Keeps-if, Keeps-require}
use sesori_apps_monorepo.Prelude.Exec.Ensures.{
  Ensures, Ensures-bind, Ensures-require, Ensures-if, Ensures-pure,
}
use sesori_apps_monorepo.Delivery.{IsDelivery}
use sesori_apps_monorepo.Storage.{Storage, public_digest, IsBucket, served}
use sesori_apps_monorepo.Storage.Upload.{
  upload_verified-delivered, Keeps-upload_verified, Keeps-upload_immutable, Keeps-public_digest,
  public_digest-served,
}
use sesori_apps_monorepo.LinuxRepository.Publication.{
  Row, publication_order, publish_found, publish_row,
}

module _ (S : Storage) (b : IsBucket S) where
  open S use {World}

  found-delivered :
      (root : String) (row : Row) (immutable : Bool) (existing : Option String) (w : World)
      → ((d : String) → existing ≡ some d → served S b w row.name ≡ some d)
      → Ensures
          (λ _ w'. served S b w' row.name ≡ some row.sha256)
          (publish_found S root row immutable existing)
          w
  unfolding publish_found
  found-delivered root row immutable none w is =
      upload_verified-delivered S b root row.name row.sha256 immutable w
  found-delivered root row immutable (some existing) w is =
      Ensures-bind (λ _ w'. served S b w' row.name ≡ some existing) _ _ w
        (Ensures-require _ _ w (λ _. is existing refl))
        (λ _ w' there.
          Ensures-if (existing == row.sha256) _ _ w'
            (λ e.
              Ensures-pure (λ _ w''. served S b w'' row.name ≡ some row.sha256) tt w'
                (there ∙ ap some (==→≡ existing row.sha256 e)))
            (λ _. upload_verified-delivered S b root row.name row.sha256 immutable w'))

  found-frame :
      (root : String) (row : Row) (immutable : Bool) (existing : Option String) (n : String)
      (v : Option String)
      → n ≢ row.name
      → Keeps (λ w. served S b w n ≡ v) (publish_found S root row immutable existing)
  unfolding publish_found
  found-frame root row immutable none n v h =
      Keeps-upload_verified S b n v root row.name row.sha256 immutable h
  found-frame root row immutable (some existing) n v h = Keeps-bind _ _ (Keeps-require _ _) (λ _.
      Keeps-if (existing == row.sha256) _ _ (λ _. Keeps-pure tt)
        (λ _. Keeps-upload_verified S b n v root row.name row.sha256 immutable h))

  found-immutable :
      (root : String) (row : Row) (existing : Option String) (d : String)
      → Keeps (λ w. served S b w row.name ≡ some d) (publish_found S root row true existing)
  unfolding publish_found
  found-immutable root row none d = Keeps-upload_immutable S b root row.name row.sha256 d
  found-immutable root row (some existing) d = Keeps-bind _ _ (Keeps-require _ _) (λ _.
      Keeps-if (existing == row.sha256) _ _ (λ _. Keeps-pure tt)
        (λ _. Keeps-upload_immutable S b root row.name row.sha256 d))

  publish_row-delivered :
      (root : String) (row : Row) (w : World)
      → Ensures (λ _ w'. served S b w' row.name ≡ some row.sha256) (publish_row S root row) w
  unfolding publish_row
  publish_row-delivered root row w =
      Ensures-bind (λ o w'. (d : String) → o ≡ some d → served S b w' row.name ≡ some d)
        (public_digest S row.name) _ w
        (record {
          at = λ o found d e.
              (Keeps-public_digest S b row.name (some d) row.name).at w
                (public_digest-served S b row.name w d (found ∙ ap ok e));
        })
        (λ o w' is. found-delivered root row _ o w' is)

  publish_row-frame :
      (root : String) (row : Row) (n : String) (v : Option String)
      → n ≢ row.name
      → Keeps (λ w. served S b w n ≡ v) (publish_row S root row)
  unfolding publish_row
  publish_row-frame root row n v h =
      Keeps-bind _ _ (Keeps-public_digest S b n v row.name) (λ o. found-frame root row _ o n v h)

  pub publish_row-IsDelivery :
      (root : String) → IsDelivery (served S b) (λ r. r.name) (λ r. r.sha256) (publish_row S root)
  publish_row-IsDelivery root = record {
    delivered = λ r w e. (publish_row-delivered root r w).at tt e;
    frame = λ r w n h. (publish_row-frame root r n (served S b w n) h).at w refl;
  }

  row_immutable :
      (root : String) (row : Row) (d : String)
      → publication_order row.name ≡ 1
      → Keeps (λ w. served S b w row.name ≡ some d) (publish_row S root row)
  unfolding publish_row
  row_immutable root row d h =
      Keeps-bind _ _ (Keeps-public_digest S b row.name (some d) row.name)
        (λ o. rw (≡→== (publication_order row.name) 1 h) (found-immutable root row o d))

  -- A package that is there stays as it is, whatever row the round is about.
  pub publish_row-immutable :
      (root : String) (row : Row) (n d : String)
      → publication_order n ≡ 1
      → Keeps (λ w. served S b w n ≡ some d) (publish_row S root row)
  publish_row-immutable root row n d h = elim (string_eq.dec n row.name) [
    | yes same ↦
        subst (λ m. Keeps (λ w. served S b w m ≡ some d) (publish_row S root row)) (sym same)
          (row_immutable root row d (ap publication_order (sym same) ∙ h))
    | no other ↦ publish_row-frame root row n (some d) other
  ]
