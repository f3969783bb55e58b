-- ===== src/Storage/Upload.antt =====
-- The end of a round, the same in both publishers of the bucket: upload the file, and require that
-- anonymous readers get it.
use mathlib.Core.Option
use sesori_apps_monorepo.Prelude.{
  ◌≡◌, refl, ap, ◌∙◌, ◌≢◌, Bool, true, String, ◌<>◌, Option, none, some, ◌==◌, ==→≡, string_eq,
  option_eq, arith,
}
use sesori_apps_monorepo.Prelude.Exec.{
  Result, ok, err, http_error, Exec, ◌>>=◌, ◌>>◌, require, resume, pure,
}
use sesori_apps_monorepo.Prelude.Exec.Keeps.{Keeps, Keeps-bind, Keeps-pure, keeps_rules}
use sesori_apps_monorepo.Prelude.Exec.Ensures.{Ensures, Ensures-bind, Ensures-require}
use sesori_apps_monorepo.Storage.{
  Storage, found, upload_command, public_bytes, public_digest, public_root, IsBucket, served,
}

module _ (S : Storage) where
  open S use {World, Bytes, urlopen, run, sha256}

  unfoldable pub upload_verified : String → String → String → Bool → Exec World (Unit {0})
  upload_verified root name digest immutable = do
    run (upload_command (root <> "/" <> name) name immutable)
    delivered ← public_digest S name
    require (delivered == some digest) ("Anonymous delivery differs: " <> name)

module _ (S : Storage) (b : IsBucket S) where
  open S use {World, Bytes, urlopen, run, sha256}

  found-ok : (r : Result Bytes) (v : Bytes) → found r ≡ ok (some v) → r ≡ ok v
  unfolding found
  found-ok (ok v') v h = ground arith
  found-ok (err (http_error c)) v h = ground arith
  found-ok (err _) v h = cc

  -- A public read finds the object as it is, or finds that there is none.
  pub public_bytes-objects :
      (name : String) (w : World) (o : Option Bytes)
      → (public_bytes S name w).0 ≡ ok o
      → b.objects w name ≡ o
  unfolding public_bytes found
  public_bytes-objects name w o h = answer (urlopen (public_root <> "/" <> name) w).0 refl h
    where
      answer :
          (r : Result Bytes)
          → (urlopen (public_root <> "/" <> name) w).0 ≡ r
          → found r ≡ ok o
          → b.objects w name ≡ o
      answer (ok v) e k = b.urlopen-ok name w v e ∙ ground arith
      answer (err (http_error c)) e k = b.urlopen-missing name w (e ∙ ground arith) ∙ ground arith
      answer (err _) e k = cc

  digest-ok :
      (r : Result (Option Bytes)) (w : World) (d : String)
      → (resume r (λ body. pure (Option.map sha256 body)) w).0 ≡ ok (some d)
      → (v : Bytes) × (r ≡ ok (some v)) × (sha256 v ≡ d)
  unfolding pure
  digest-ok (ok none) w d h = cc
  digest-ok (ok (some v)) w d h = (v, refl, ground arith)
  digest-ok (err e) w d h = cc

  -- A public read changes nothing.
  module _ (n : String) (v : Option String) where
    Keeps-public_bytes : (name : String) → Keeps (λ w. served S b w n ≡ v) (public_bytes S name)
    unfolding public_bytes
    Keeps-public_bytes name = record {
      at = λ w h. ap (Option.map sha256) (b.objects-urlopen _ w n) ∙ h;
    }

    pub Keeps-public_digest :
        (name : String) → Keeps (λ w. served S b w n ≡ v) (public_digest S name)
    unfolding public_digest
    Keeps-public_digest name =
        Keeps-bind (public_bytes S name) _ (Keeps-public_bytes name)
          (λ body. Keeps-pure (Option.map sha256 body))

    pub Keeps-upload_verified :
        (root name digest : String) (immutable : Bool)
        → n ≢ name
        → Keeps (λ w. served S b w n ≡ v) (upload_verified S root name digest immutable)
    unfolding upload_verified
    Keeps-upload_verified root name digest immutable h =
        Keeps-bind _ _
          (record {
            at = λ w e. ap (Option.map sha256) (b.objects-upload _ name immutable w n h) ∙ e;
          })
          (λ _. search (keeps_rules, Keeps-public_digest))

  -- The digest that it finds is the one that is served.
  pub public_digest-served :
      (name : String) (w : World) (d : String)
      → (public_digest S name w).0 ≡ ok (some d)
      → served S b w name ≡ some d
  unfolding public_digest ◌>>=◌
  public_digest-served name w d h =
      let (v, is, digest) = digest-ok (found (urlopen (public_root <> "/" <> name) w).0) _ d h in
      rw (b.urlopen-ok name w v (found-ok _ v is)) (ap some digest)

  -- What returns is delivered.
  pub upload_verified-delivered :
      (root name digest : String) (immutable : Bool) (w : World)
      → Ensures
          (λ _ w'. served S b w' name ≡ some digest)
          (upload_verified S root name digest immutable)
          w
  unfolding upload_verified
  upload_verified-delivered root name digest immutable w =
      Ensures-bind (λ _ _. Unit) _ _ w (record { at = λ _ _. tt })
        λ _ w' _.
          Ensures-bind (λ d w''. d ≡ some digest → served S b w'' name ≡ some digest)
            (public_digest S name) _ w'
            (record {
              at = λ d found same.
                  (Keeps-public_digest name (some digest) name).at w'
                    (public_digest-served name w' digest (found ∙ ap ok same));
            })
            (λ d w'' served. Ensures-require _ _ w'' (λ same. served (==→≡ d (some digest) same)))

  -- A conditional upload leaves an object that is there as it is.
  pub Keeps-upload_immutable :
      (root name digest d : String)
      → Keeps (λ w. served S b w name ≡ some d) (upload_verified S root name digest true)
  unfolding upload_verified
  Keeps-upload_immutable root name digest d =
      Keeps-bind _ _ (record { at = λ w e. conditional w (b.objects w name) refl e })
        (λ _. search (keeps_rules, Keeps-public_digest))
    where
      conditional :
          (w : World) (o : Option Bytes)
          → b.objects w name ≡ o
          → Option.map sha256 (b.objects w name) ≡ some d
          → served S b (run (upload_command (root <> "/" <> name) name true) w).1 name ≡ some d
      conditional w none is h = ground arith
      conditional w (some v) is h =
          rw (b.objects-upload_immutable (root <> "/" <> name) name w v is) (ground arith)
