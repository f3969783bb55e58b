-- ===== src/UpdateFeed.antt =====
-- publish_desktop_update_feed.py: the names of the feeds' objects, their verification, and the
-- publication to the bucket.
pub mod Names
pub mod Verification
pub mod Publication
