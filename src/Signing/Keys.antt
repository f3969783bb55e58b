-- ===== src/Signing/Keys.antt =====
-- linux_signing.py: the OpenPGP key of a signing job, which lives in a temporary directory, and the
-- two ways to sign with it. The environment of the script is the list `environ`, in which a
-- name stands once.
use mathlib.Core.List
use Prim.Native.Char.{Char, code}
use Prim.Native.String.{[], ◌∷◌}
use sesori_apps_monorepo.Prelude.{
  ℕ, zero, suc, Bool, true, false, ◌&&◌, ◌||◌, not, String, ◌<>◌, none, some, List, [], ◌∷◌, ◌++◌,
  leb, ◌==◌, string_eq, nat_eq, if◌then◌else◌,
}
use sesori_apps_monorepo.Prelude.Text.{is_digit, all_chars, char_count}
use sesori_apps_monorepo.Prelude.Text.Lines.{splitlines, split}
use sesori_apps_monorepo.Prelude.Exec.{
  Result, ok, err, index_error, os_error, Exec, pure, lift, require, demand, ◌>>=◌, ◌>>◌, finally,
}
use sesori_apps_monorepo.Prelude.Read.{ask, test}
use sesori_apps_monorepo.Host.{Host, Command, in_temporary}

abbrev pub key_secret : String
key_secret = "LINUX_GPG_PRIVATE_KEY"

abbrev pub passphrase_secret : String
passphrase_secret = "LINUX_GPG_PASSPHRASE"

abbrev pub public_key_name : String
public_key_name = "sesori-linux-public.asc"

abbrev pub Environment : Type 0
Environment = List (String × String)

-- `environ.pop(name, "")`: the value, and what stays
unfoldable pub value_of : Environment → String → String
value_of [] name = ""
value_of ((n, value) ∷ rest) name = if n == name then value else value_of rest name

unfoldable pub without : String → Environment → Environment
without name [] = []
without name ((n, value) ∷ rest) =
    let more = without name rest in if n == name then more else (n, value) ∷ more

-- `{**environ, name: value}`
unfoldable pub with_value : String → String → Environment → Environment
unfolding without
with_value name value environ = without name environ ++ (name, value) ∷ []

-- the environment of a child process that uses the key ring in `home`
unfoldable pub gpg_environment : String → Environment → Environment
unfolding with_value
gpg_environment home environ = with_value "LC_ALL" "C" (with_value "GNUPGHOME" home environ)

-- `fields[n]`
unfoldable pub nth : List String → ℕ → Result String
nth [] n = err index_error
nth (x ∷ xs) zero = ok x
nth (x ∷ xs) (suc n) = nth xs n

abbrev pub first_of : List String → String
first_of [] = ""
first_of (x ∷ xs) = x

-- `primary_fingerprints`, over the fields of the lines that are left; `primary` says whether a secret
-- key waits for its fingerprint
unfoldable pub fingerprints_from : Bool → List (List String) → Result (List String)
unfolding nth
fingerprints_from primary [] = ok []
fingerprints_from primary (fields ∷ rest) =
    let waiting = fingerprints_from true rest in
    let found = fingerprints_from false rest in
    if first_of fields == "sec"
    then waiting
    else if first_of fields == "fpr" && primary
    then (elim (nth fields 9) [
      | ok fingerprint ↦ elim found [ ok more ↦ ok (fingerprint ∷ more) | err e ↦ err e ]
      | err e ↦ err e
    ])
    else if primary
    then waiting
    else found

unfoldable pub primary_fingerprints : String → Result (List String)
unfolding fingerprints_from
primary_fingerprints listing = fingerprints_from false (List.map (split ":") (splitlines listing))

-- `[A-F0-9]`, and `re.fullmatch(r"[A-F0-9]{40}", text)`
unfoldable pub is_upper_hex : Char → Bool
is_upper_hex c = is_digit c || (leb 65 (code c) && leb (code c) 70)

unfoldable pub is_fingerprint : String → Bool
unfolding is_upper_hex
is_fingerprint s = all_chars is_upper_hex s && char_count s == 40

-- `texts == [text]`
unfoldable pub is_only : String → List String → Bool
is_only text (t ∷ []) = t == text
is_only text _ = false

pub record LinuxSigningKey : Type 0 where
  pub fingerprint : String
  pub home : String
  pub password : String
  pub public_key : String
  pub env : Environment
  pub public_env : Environment

abbrev pub gpg : Environment → List String → Command
gpg env arguments = record { arguments = arguments; env = some env; input = none; cwd = none }

abbrev pub import_key : Environment → String → Command
import_key env private_key = record {
  arguments = "gpg" ∷ "--batch" ∷ "--import" ∷ [];
  env = some env;
  input = some private_key;
  cwd = none;
}

-- the arguments that both ways to sign begin with
abbrev pub sign_with : LinuxSigningKey → List String
sign_with key =
    "gpg" ∷ "--batch" ∷ "--pinentry-mode" ∷ "loopback" ∷ "--passphrase-file" ∷ key.password
    ∷ "--local-user" ∷ key.fingerprint ∷ "--digest-algo" ∷ "SHA256" ∷ []

module _ (H : Host) where
  open H use {World, exists, run, write_text, write_private, mkdir, mkdir_private, upper}

  unfoldable pub sign_detached : LinuxSigningKey → String → String → Exec World (Unit {0})
  sign_detached key source signature = do
    run (
        gpg key.env
          (sign_with key ++ "--armor" ∷ "--detach-sign" ∷ "--output" ∷ signature ∷ source ∷ []))
    run (gpg key.public_env ("gpg" ∷ "--batch" ∷ "--verify" ∷ signature ∷ source ∷ []))
    pure tt

  unfoldable pub sign_cleartext : LinuxSigningKey → String → String → Exec World (Unit {0})
  sign_cleartext key source signature = do
    run (gpg key.env (sign_with key ++ "--clearsign" ∷ "--output" ∷ signature ∷ source ∷ []))
    run (gpg key.public_env ("gpg" ∷ "--batch" ∷ "--verify" ∷ signature ∷ []))
    pure tt

  -- the key in the directory `work`, for the code under `with`
  abbrev pub key_in : Environment → String → String → String → LinuxSigningKey
  key_in environ output fingerprint work = record {
    fingerprint = fingerprint;
    home = work <> "/gnupg";
    password = work <> "/passphrase";
    public_key = output <> ("/" <> public_key_name);
    env = gpg_environment (work <> "/gnupg") environ;
    public_env = gpg_environment (work <> "/public-gnupg") environ;
  }

  -- what stands under `try`: the key is imported, and must be the expected one
  unfoldable pub use_key :
      {A : Type 0} → LinuxSigningKey → String → (LinuxSigningKey → Exec World A) → Exec World A
  use_key key private_key body = do
    run (import_key key.env private_key)
    listing ← run (gpg key.env ("gpg" ∷ "--batch" ∷ "--with-colons" ∷ "--list-secret-keys" ∷ []))
    found ← lift (primary_fingerprints listing)
    require (is_only key.fingerprint found)
        "Imported signing key does not match LINUX_GPG_FINGERPRINT"
    exported ← run (gpg key.env ("gpg" ∷ "--batch" ∷ "--armor" ∷ "--export" ∷ key.fingerprint ∷ []))
    write_text key.public_key exported
    run (gpg key.public_env ("gpg" ∷ "--batch" ∷ "--import" ∷ key.public_key ∷ []))
    body key

  -- `finally`: the agent that holds the key is stopped
  unfoldable pub stop_agent : LinuxSigningKey → Exec World (Unit {0})
  stop_agent key = do
    run (gpg key.env ("gpgconf" ∷ "--homedir" ∷ key.home ∷ "--kill" ∷ "all" ∷ []))
    pure tt

  unfoldable pub hold_key :
      {A : Type 0}
      → String
      → String
      → String
      → (LinuxSigningKey → Exec World A)
      → LinuxSigningKey
      → Exec World A
  hold_key private_key passphrase work body key = do
    mkdir_private key.home
    mkdir_private (work <> "/public-gnupg")
    write_private key.password passphrase
    finally (use_key key private_key body) (stop_agent key)

  -- `with signing_key(output=…, fingerprint=…) as key: body`
  unfoldable pub signing_key :
      {A : Type 0} → Environment → String → String → (LinuxSigningKey → Exec World A) → Exec World A
  signing_key environ output stated body = do
    let private_key = value_of environ key_secret
    let passphrase = value_of environ passphrase_secret
    let rest = without passphrase_secret (without key_secret environ)
    require (not (private_key == "" || passphrase == ""))
        "Linux signing requires both protected environment secrets"
    let fingerprint = upper stated
    require (is_fingerprint fingerprint)
        "LINUX_GPG_FINGERPRINT must be the full primary-key fingerprint"
    there ← ask (test (exists output))
    demand (not there) os_error
    mkdir output
    in_temporary H "sesori-linux-signing-"
        (λ work. hold_key private_key passphrase work body (key_in rest output fingerprint work))
