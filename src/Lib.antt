-- ===== src/Lib.antt =====
-- Verification library of the release tooling of sesori_apps_monorepo, the Python scripts of
-- .github/scripts. They put desktop packages, signed Linux repositories and update feeds before
-- the public; what they must not do is serve an entry point whose parts are missing, replace a
-- delivered package, go back to an older release, or write outside their part of the bucket.
--
-- Parts and files:
--   Prelude         shared names; Python's comparisons, lists, texts and digit runs; the monad Exec
--                   of code that raises and changes the world (what was changed before an exception
--                   stays changed), with rules for invariants (Keeps) and for what a returning action
--                   has established (Ensures). `require` is that of prepare_desktop_release.py.
--   Storage         the public bucket: public_bytes, public_digest and the upload command of
--                   publish_linux_repository.py; Storage/Upload has the end of a round, shared by
--                   both publishers of the bucket.
--   Delivery        the theory of an upload loop: rounds that deliver their row and leave other
--                   objects alone.
--   LinuxRepository publish_linux_repository.py and build_linux_repository.py (Build): Versions
--                   has TAGS, version_order, newest_release and select_channels; Publication has publication_order and publish; Retention has
--                   INTERNAL_PACKAGE, stale_internal_packages and prune_internal_packages.
--   UpdateFeed      publish_desktop_update_feed.py: Names has FEED_OBJECT and the names; Verification
--                   has velopack_package and verify, with verify of sign_desktop_update.py;
--                   Publication has publish.
--   ReleaseAssets   github_release_assets.py, and publish of publish_desktop_release.py and of
--                   publish_desktop_linux.py (publish_release and publish_linux).
--   Desktop         prepare_desktop_release.py: Producer has require_producer, Macos has prepare, which
--                   Macos/Output writes; Identity has what the preparations share.
--                   Linux has verify_checksums and prepare of publish_desktop_linux.py.
--   Host, Json      the machine of a script (files, commands, HTTP and the json library as the fields
--                   of the record Host), and JSON values with Python's equality.
--   Signing         linux_signing.py (Keys), sign_desktop_linux.py (Packages), sign_bridge_linux.py
--                   (Archives).
--   BridgeSignatures  publish_bridge_linux_signatures.py.
--   Packaging       package_desktop_linux.py: Bundle, Ownership, Audit, Formats (DEB and RPM), AppImage
--                   and Installed (verify_installed, and package as package_bundle); Native has
--                   native_arch and inventory of qualify_desktop.py, over Octets.
--   Qualification   qualify_desktop.py: Flutter (the bootstrap) and Inspection.
--   RemoteConfig    publish_firebase_analytics_release_cutoff.py: Template has _read_existing_build and _updated_template; Cutoff
--                   has publish_cutoff over the interface of its client.
--   Tests           a bucket and a server in memory that meet the assumptions, runs, and the
--                   theorems at concrete data.
--
-- HTTP, gcloud, gh, SHA-256, openssl, base64 and the XML and JSON readers are not code of the
-- repository: they are fields of the records Storage, Tree, Hub and Host, and records state what the
-- code relies on: IsBucket of Google Cloud Storage, IsPrunable of the commands of the pruning,
-- IsHub and IsGithub of the releases of GitHub and of gh, IsServer of Firebase Remote Config, and
-- LiesApart of the directories of a Linux preparation and of gpg. Nobody else writes to the
-- bucket or to a release between two steps of a publication; to Remote Config, others may.
-- Timeouts and the output of print are left out, a timeout being an exception that a call may
-- raise. Texts are ASCII where a regular expression reads digits. Numbers are natural numbers;
-- Python's integers have no bound either. No definition uses fuel but `str`, which writes at most
-- n + 1 digits of n.
--
-- Paths are texts that the callers have resolved. The text of an exception is shortened where the
-- code prints a list, a dictionary or a captured error into it.
--
-- Not modelled: verify and download of publish_linux_repository.py, the signing of the update feeds,
-- the packages for macOS and Windows, the drivers of the qualification, the command lines, and all
-- code in other languages.
pub mod BridgeSignatures
pub mod Delivery
pub mod Desktop
pub mod Host
pub mod Json
pub mod LinuxRepository
pub mod Packaging
pub mod Prelude
pub mod Qualification
pub mod ReleaseAssets
pub mod RemoteConfig
pub mod Signing
pub mod Storage
pub mod Tests
pub mod UpdateFeed
