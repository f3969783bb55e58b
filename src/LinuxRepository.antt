-- ===== src/LinuxRepository.antt =====
-- .github/scripts/publish_linux_repository.py: the signed per-channel APT/RPM repositories in the
-- public bucket, hosted from completed Linux releases.
pub mod Versions
pub mod Publication
pub mod Retention
pub mod Build
