-- ===== src/Events.antt =====
-- Events in backend/app/services.py: `match_counts`, `event_summary`, `_refresh_full_status`,
-- `create_match`, `update_match` and the payment configuration.
pub mod Counts
pub mod Refresh
pub mod Manage
pub mod Refinement
pub mod FullStatus
