-- ===== src/Signing/Release.antt =====
-- What is left of the signing key once `signing_key` has returned.
use sesori_apps_monorepo.Prelude.{
  ◌≡◌, refl, sym, ≡→==, ◌<>◌, List, ap, ◌∙◌, true, false, Bool, String, [], ◌∷◌, ◌++◌, ◌==◌, ==→≡,
  string_eq, if◌then◌else◌,
}
use sesori_apps_monorepo.Prelude.Exec.{ok, Exec, Error, demand, ◌>>=◌}
use sesori_apps_monorepo.Prelude.Read.{ask}
use sesori_apps_monorepo.Prelude.Exec.Inversion.{
  bind-run, finally-run, require-inv, require-intro, lift-inv, lift-intro,
}
use sesori_apps_monorepo.Host.{Host, Command, in_temporary}
use sesori_apps_monorepo.Signing.Keys.{
  Environment, LinuxSigningKey, value_of, without, with_value, gpg_environment, key_secret,
  passphrase_secret, is_fingerprint, key_in, use_key, stop_agent, hold_key, signing_key, is_only,
  primary_fingerprints, gpg, import_key,
}

-- Neither secret of the signing is in the environment.
abbrev pub Unseen : Environment → Type 0
Unseen environ = (value_of environ key_secret ≡ "") × (value_of environ passphrase_secret ≡ "")

value_of-without :
    (name : String) (environ : Environment) → value_of (without name environ) name ≡ ""
unfolding value_of without
value_of-without name [] = refl
value_of-without name ((n, v) ∷ rest) =
    let ih = value_of-without name rest in by (n == name) refl ih
  where
    by :
        (b : Bool)
        → (n == name) ≡ b
        → value_of (without name rest) name ≡ ""
        → value_of (if b then without name rest else (n, v) ∷ without name rest) name ≡ ""
    by true e ih = ih
    by false e ih = rw e ih

value_of-without_other :
    (name other : String) (environ : Environment)
    → (other == name) ≡ false
    → value_of (without other environ) name ≡ value_of environ name
unfolding value_of without
value_of-without_other name other [] e = refl
value_of-without_other name other ((n, v) ∷ rest) e =
    let ih = value_of-without_other name other rest e in by (n == other) refl ih
  where
    by :
        (b : Bool)
        → (n == other) ≡ b
        → value_of (without other rest) name ≡ value_of rest name
        → value_of (if b then without other rest else (n, v) ∷ without other rest) name
          ≡ (if n == name then v else value_of rest name)
    by true k ih = rw (==→≡ n other k) (rw e ih)
    by false k ih = ap (λ r. if n == name then v else r) ih

value_of-append :
    (name n value : String) (environ : Environment)
    → (n == name) ≡ false
    → value_of (environ ++ (n, value) ∷ []) name ≡ value_of environ name
unfolding value_of
value_of-append name n value [] e = rw e refl
value_of-append name n value ((m, v) ∷ rest) e =
    ap (λ r. if m == name then v else r) (value_of-append name n value rest e)

value_of-with_value :
    (name n value : String) (environ : Environment)
    → (n == name) ≡ false
    → value_of (with_value n value environ) name ≡ value_of environ name
unfolding with_value
value_of-with_value name n value environ e =
    value_of-append name n value (without n environ) e ∙ value_of-without_other name n environ e

value_of-gpg_environment :
    (name home : String) (environ : Environment)
    → ("LC_ALL" == name) ≡ false
    → ("GNUPGHOME" == name) ≡ false
    → value_of (gpg_environment home environ) name ≡ value_of environ name
unfolding gpg_environment
value_of-gpg_environment name home environ e k =
    value_of-with_value name "LC_ALL" "C" (with_value "GNUPGHOME" home environ) e
    ∙ value_of-with_value name "GNUPGHOME" home environ k

-- The environment of a child process, once both secrets are taken out.
environment-Unseen :
    (environ : Environment) (home : String)
    → Unseen (gpg_environment home (without passphrase_secret (without key_secret environ)))
unfolding string_eq
environment-Unseen environ home =
    let own = without key_secret environ in
    let rest = without passphrase_secret own in
    (
      value_of-gpg_environment key_secret home rest refl refl
          ∙ value_of-without_other key_secret passphrase_secret own refl
          ∙ value_of-without key_secret environ,
      value_of-gpg_environment passphrase_secret home rest refl refl
          ∙ value_of-without passphrase_secret own,
    )

absent_append :
    (name value : String) (environ : Environment)
    → value_of (without name environ ++ (name, value) ∷ []) name ≡ value
unfolding value_of without
absent_append name value [] = rw (≡→== name name refl) refl
absent_append name value ((n, v) ∷ rest) =
    let ih = absent_append name value rest in by (n == name) refl ih
  where
    by :
        (b : Bool)
        → (n == name) ≡ b
        → value_of (without name rest ++ (name, value) ∷ []) name ≡ value
        → value_of
            ((if b then without name rest else (n, v) ∷ without name rest) ++ (name, value) ∷ [])
            name
          ≡ value
    by true e ih = ih
    by false e ih = rw e ih

home_of-gpg_environment :
    (home : String) (environ : Environment)
    → value_of (gpg_environment home environ) "GNUPGHOME" ≡ home
unfolding gpg_environment with_value string_eq
home_of-gpg_environment home environ =
    value_of-with_value "GNUPGHOME" "LC_ALL" "C" (with_value "GNUPGHOME" home environ) refl
    ∙ absent_append "GNUPGHOME" home environ

-- What is secret of the key lies in the directory `work`, its public part in `output`. Neither of
-- its environments has a secret of the signing.
pub record IsHeld (key : LinuxSigningKey) (work output : String) : Type 0 where
  pub home : key.home ≡ work <> "/gnupg"
  pub password : key.password ≡ work <> "/passphrase"
  pub ring : value_of key.env "GNUPGHOME" ≡ work <> "/gnupg"
  pub public_ring : value_of key.public_env "GNUPGHOME" ≡ work <> "/public-gnupg"
  pub public_key : key.public_key ≡ output <> "/sesori-linux-public.asc"
  pub unseen : Unseen key.env
  pub public_unseen : Unseen key.public_env

key_in-IsHeld :
    (H : Host) (environ : Environment) (output fingerprint work : String)
    → IsHeld
        (key_in H (without passphrase_secret (without key_secret environ)) output fingerprint work)
        work
        output
key_in-IsHeld H environ output fingerprint work = record {
  home = refl;
  password = refl;
  ring = home_of-gpg_environment (work <> "/gnupg") _;
  public_ring = home_of-gpg_environment (work <> "/public-gnupg") _;
  public_key = refl;
  unseen = environment-Unseen environ _;
  public_unseen = environment-Unseen environ _;
}

is_only-eq : (text : String) (found : List String) → is_only text found ≡ true → found ≡ text ∷ []
unfolding is_only
is_only-eq text [] h = cc
is_only-eq text (t ∷ []) h = ap (λ x. x ∷ []) (==→≡ t text h)
is_only-eq text (t ∷ u ∷ rest) h = cc

demand-run :
    {W B : Type 0} (c : Bool) (e : Error) (f : Unit {0} → Exec W B) (w : W) (b : B)
    → ((demand c e >>= f) w).0 ≡ ok b
    → ((demand c e >>= f) w ≡ f tt w) × ((f tt w).0 ≡ ok b)
unfolding ◌>>=◌
demand-run true e f w b h = (refl, h)
demand-run false e f w b h = cc

abbrev pub listing_command : LinuxSigningKey → Command
listing_command key = gpg key.env ("gpg" ∷ "--batch" ∷ "--with-colons" ∷ "--list-secret-keys" ∷ [])

abbrev pub export_command : LinuxSigningKey → Command
export_command key = gpg key.env ("gpg" ∷ "--batch" ∷ "--armor" ∷ "--export" ∷ key.fingerprint ∷ [])

module _ (H : Host) where
  open H use {World}

  -- From `w`, the private key was imported into the ring of the key, which then listed the one secret
  -- key of the fingerprint and no other; the public key was exported into its file, and imported from
  -- there into the public ring, which left `last`.
  abbrev pub Imported : LinuxSigningKey → String → World → World → Type 0
  Imported key private_key w last =
      let imported = (H.run (import_key key.env private_key) w).1 in
      let asked = H.run (listing_command key) imported in
      let given = H.run (export_command key) asked.1 in
      (listing exported : String) × (asked.0 ≡ ok listing)
      × (primary_fingerprints listing ≡ ok (key.fingerprint ∷ []))
      × (given.0 ≡ ok exported)
      × (last
          ≡ (H.run (gpg key.public_env ("gpg" ∷ "--batch" ∷ "--import" ∷ key.public_key ∷ []))
              (H.write_text key.public_key exported given.1).1).1)

  -- the directories of the rings and the file of the passphrase, made in `work`
  abbrev pub made : LinuxSigningKey → String → String → World → World
  made key work passphrase w =
      (H.write_private key.password passphrase
        (H.mkdir_private (work <> "/public-gnupg") (H.mkdir_private key.home w).1).1).1

module _ (H : Host) {A : Type 0} where
  open H use {World}

  -- The code under `with` is the last that runs under `try`.
  use_key-run :
      (key : LinuxSigningKey) (private_key : String) (body : LinuxSigningKey → Exec World A)
      (w : World) (a : A)
      → (use_key H key private_key body w).0 ≡ ok a
      → (w₁ : World) × (use_key H key private_key body w ≡ body key w₁)
        × Imported H key private_key w w₁
  unfolding use_key
  use_key-run key private_key body w a h =
      let (_, _, e1, h) = bind-run _ _ w a h in
      let (listing, l, e2, h) = bind-run _ _ _ a h in
      let (found, f, h3) = lift-inv _ _ _ a h in
      let e3 = lift-intro (primary_fingerprints listing) _ _ found f in
      let (c, h4) = require-inv _ _ _ _ a h3 in
      let e4 = require-intro _ _ _ _ c in
      let (exported, x, e5, h) = bind-run _ _ _ a h4 in
      let (_, _, e6, h) = bind-run _ _ _ a h in
      let (_, _, e7, h) = bind-run _ _ _ a h in
      (
        _,
        e1 ∙ e2 ∙ e3 ∙ e4 ∙ e5 ∙ e6 ∙ e7,
        (listing, exported, l, f ∙ ap ok (is_only-eq key.fingerprint found c), x, refl),
      )

  -- The key was used in `w₁`, and then its agent was stopped and its directory removed.
  abbrev pub Released :
      LinuxSigningKey → String → (LinuxSigningKey → Exec World A) → A → World → World → Type 0
  Released key work body a w₁ last =
      ((body key w₁).0 ≡ ok a)
      × ((stop_agent H key (body key w₁).1).0 ≡ ok tt)
      × ((H.rmtree work (stop_agent H key (body key w₁).1).1).0 ≡ ok tt)
      × (last ≡ (H.rmtree work (stop_agent H key (body key w₁).1).1).1)

  hold_key-run :
      (private_key passphrase work : String) (body : LinuxSigningKey → Exec World A)
      (key : LinuxSigningKey) (w : World) (a : A)
      → (hold_key H private_key passphrase work body key w).0 ≡ ok a
      → (w₁ : World) × Imported H key private_key (made H key work passphrase w) w₁
        × ((body key w₁).0 ≡ ok a)
        × ((stop_agent H key (body key w₁).1).0 ≡ ok tt)
        × ((hold_key H private_key passphrase work body key w).1
            ≡ (stop_agent H key (body key w₁).1).1)
  unfolding hold_key
  hold_key-run private_key passphrase work body key w a h =
      let (_, _, e1, h) = bind-run _ _ w a h in
      let (_, _, e2, h) = bind-run _ _ _ a h in
      let (_, _, e3, h) = bind-run _ _ _ a h in
      let (r, s, e4) = finally-run _ _ _ a h in
      let (w₁, e5, i) = use_key-run key private_key body _ a r in
      (
        w₁,
        i,
        ap (λ q. q.0) (sym e5) ∙ r,
        ap (λ q. (stop_agent H key q.1).0) (sym e5) ∙ s,
        ap (λ q. q.1) (e1 ∙ e2 ∙ e3) ∙ e4 ∙ ap (λ q. (stop_agent H key q.1).1) e5,
      )

  pub signing_key-Released :
      (environ : Environment) (output stated : String) (body : LinuxSigningKey → Exec World A)
      (w : World) (a : A)
      → (signing_key H environ output stated body w).0 ≡ ok a
      → (key : LinuxSigningKey) × (work : String) × (w₁ : World) × (key.fingerprint
          ≡ H.upper stated)
        × (is_fingerprint key.fingerprint ≡ true)
        × IsHeld key work output
        × ((H.mkdtemp "sesori-linux-signing-" (H.mkdir output w).1).0 ≡ ok work)
        × Imported H key
            (value_of environ key_secret)
            (made H key work
              (value_of environ passphrase_secret)
              (H.mkdtemp "sesori-linux-signing-" (H.mkdir output w).1).1)
            w₁
        × Released key work body a w₁ (signing_key H environ output stated body w).1
  unfolding signing_key in_temporary ask
  signing_key-Released environ output stated body w a h =
      let (c1, h1) = require-inv _ _ _ _ a h in
      let e1 = require-intro _ _ _ _ c1 in
      let (fp, h2) = require-inv _ _ _ _ a h1 in
      let e2 = require-intro _ _ _ _ fp in
      let (_, _, e3, h3) = bind-run _ _ _ a h2 in
      let (e4, h4) = demand-run _ _ _ _ a h3 in
      let (_, _, e5, h5) = bind-run _ _ _ a h4 in
      let (work, t, e6, h6) = bind-run _ _ _ a h5 in
      let (held, removed, e7) = finally-run _ _ _ a h6 in
      let (w₁, i, done, stopped, e8) = hold_key-run _ _ _ body _ _ a held in
      (
        key_in H (without passphrase_secret (without key_secret environ)) output (H.upper stated)
            work,
        work,
        w₁,
        refl,
        fp,
        key_in-IsHeld H environ output (H.upper stated) work,
        t,
        i,
        (
          done,
          stopped,
          ap (λ x. (H.rmtree work x).0) (sym e8) ∙ removed,
          ap (λ q. q.1) (e1 ∙ e2 ∙ e3 ∙ e4 ∙ e5 ∙ e6) ∙ e7 ∙ ap (λ x. (H.rmtree work x).1) e8,
        ),
      )
