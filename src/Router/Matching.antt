-- ===== src/Router/Matching.antt =====
-- The counting of `publish_internal` against the filters of the subscriptions.
pub mod Counting
pub mod Selected
pub mod Priority
pub mod Listed
pub mod Listing
pub mod Delivered
