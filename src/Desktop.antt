-- ===== src/Desktop.antt =====
-- The preparation of desktop releases: `require_producer` and `prepare` of
-- prepare_desktop_release.py, `verify_checksums` and `prepare` of publish_desktop_linux.py.
pub mod Producer
pub mod Identity
pub mod Macos
pub mod Linux
