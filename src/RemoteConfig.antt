-- ===== src/RemoteConfig.antt =====
-- publish_firebase_analytics_release_cutoff.py: the JSON that it reads and writes, the template of
-- Remote Config, and the publication of the cutoff.
pub mod Template
pub mod Cutoff
pub mod Firebase
