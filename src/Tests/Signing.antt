-- ===== src/Tests/Signing.antt =====
-- A signing with a key in memory.
use sesori_apps_monorepo.Prelude.{
  ◌≡◌, refl, String, ◌<>◌, Option, none, List, [], ◌∷◌, contains, true, ◌==◌, string_eq,
  if◌then◌else◌,
}
use sesori_apps_monorepo.Prelude.Exec.{Result, ok, Exec}
use sesori_apps_monorepo.Json.{no_fields}
use sesori_apps_monorepo.Host.{Host}
use sesori_apps_monorepo.Signing.Keys.{
  Environment, LinuxSigningKey, key_secret, passphrase_secret, signing_key, is_fingerprint,
}
use sesori_apps_monorepo.Signing.Release.{signing_key-Released, Released, IsHeld, Imported, made}
use sesori_apps_monorepo.Tests.Machine.{Files, machine}

abbrev fingerprint : String
fingerprint = "E6BF6EF7B203685F480D4A2E73B86E42F31FDAE7"

abbrev listing : String
listing =
    "sec:u:4096:1:73B86E42F31FDAE7:1:::u:::scESC:\nfpr:::::::::E6BF6EF7B203685F480D4A2E73B86E42F31FDAE7:\nssb:u:4096\nfpr:::::::::AAAA:\n"

unfoldable programs : List String → Files → Result String
programs arguments w = if contains arguments "--list-secret-keys" then ok listing else ok "out"

abbrev environ : Environment
environ = (key_secret, "private") ∷ ("HOME", "/root") ∷ (passphrase_secret, "phrase") ∷ []

abbrev host : Host
host = machine no_fields programs (λ url. none)

unfoldable name_key : LinuxSigningKey → Exec Files String
name_key key w = (ok key.fingerprint, w)

signed : (signing_key host environ "out" fingerprint name_key []).0 ≡ ok fingerprint
unfolding signing_key sesori_apps_monorepo.Prelude.Exec.◌>>=◌ string_eq
    sesori_apps_monorepo.Signing.Keys.value_of is_fingerprint
    sesori_apps_monorepo.Prelude.Text.is_digit sesori_apps_monorepo.Prelude.nat_eq
    sesori_apps_monorepo.Prelude.Read.ask sesori_apps_monorepo.Prelude.Read.test
    sesori_apps_monorepo.Tests.Machine.file_at sesori_apps_monorepo.Host.in_temporary
    sesori_apps_monorepo.Prelude.Exec.finally sesori_apps_monorepo.Signing.Keys.hold_key
    sesori_apps_monorepo.Tests.Machine.write_file sesori_apps_monorepo.Signing.Keys.stop_agent
    programs sesori_apps_monorepo.Signing.Keys.use_key
    sesori_apps_monorepo.Signing.Keys.primary_fingerprints sesori_apps_monorepo.Prelude.Exec.demand
    sesori_apps_monorepo.Prelude.Exec.lift sesori_apps_monorepo.Prelude.Exec.pure
    sesori_apps_monorepo.Prelude.Exec.raise sesori_apps_monorepo.Prelude.Exec.require
    sesori_apps_monorepo.Prelude.Text.Lines.parts_from sesori_apps_monorepo.Prelude.Text.Lines.split
    sesori_apps_monorepo.Prelude.Text.Lines.splitlines
    sesori_apps_monorepo.Signing.Keys.fingerprints_from
    sesori_apps_monorepo.Signing.Keys.gpg_environment sesori_apps_monorepo.Signing.Keys.is_only
    sesori_apps_monorepo.Signing.Keys.is_upper_hex sesori_apps_monorepo.Signing.Keys.nth
    sesori_apps_monorepo.Signing.Keys.with_value sesori_apps_monorepo.Signing.Keys.without name_key
signed = refl

signing_key-Released_example :
    (key : LinuxSigningKey) × (work : String) × (w₁ : Files) × (key.fingerprint ≡ fingerprint)
    × (is_fingerprint key.fingerprint ≡ true)
    × IsHeld key work "out"
    × ((host.mkdtemp "sesori-linux-signing-" (host.mkdir "out" []).1).0 ≡ ok work)
    × Imported host key "private"
        (made host key work "phrase"
          (host.mkdtemp "sesori-linux-signing-" (host.mkdir "out" []).1).1)
        w₁
    × Released host key work name_key fingerprint w₁
        (signing_key host environ "out" fingerprint name_key []).1
unfolding sesori_apps_monorepo.Signing.Keys.value_of string_eq
signing_key-Released_example =
    signing_key-Released host environ "out" fingerprint name_key [] fingerprint signed
