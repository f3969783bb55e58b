-- ===== src/Signing.antt =====
-- The signing of the Linux packages and of the Bridge archives, on a machine (Host).
pub mod Keys
pub mod Packages
pub mod Archives
pub mod Release
