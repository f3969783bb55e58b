-- ===== src/Tests.antt =====
-- The theorems at concrete data, and runs of the code.
mod BridgeSignatures
mod Bucket
mod Hub
mod LinuxRepository
mod Linux
mod Machine
mod Macos
mod Packaging
mod ReleaseAssets
mod RemoteConfig
mod Retention
mod Signing
mod UpdateFeed
mod Versions
