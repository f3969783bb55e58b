-- ===== src/Packaging.antt =====
-- The Linux packages of the desktop app, on a machine (Host): package_desktop_linux.py, and the
-- inventory of native binaries of qualify_desktop.py.
pub mod Octets
pub mod Native
pub mod Bundle
pub mod Ownership
pub mod Formats
pub mod Audit
pub mod AppImage
pub mod Installed
