-- ===== src/Qualification.antt =====
-- qualify_desktop.py: the bootstrap of Flutter and the inspection of a built app, on a machine (Host).
pub mod Flutter
pub mod Inspection
