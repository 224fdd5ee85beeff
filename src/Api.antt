-- ===== src/Api.antt =====
-- The endpoints of web/src/lib/api.ts, as the requests that they make.
pub mod Request
pub mod Entities
pub mod Users
pub mod Runs
pub mod Plugins
pub mod Routes
mod Tests
