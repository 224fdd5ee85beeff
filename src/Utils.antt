-- ===== src/Utils.antt =====
-- web/src/lib/utils.ts
pub mod EntityName
pub mod Path
pub mod Json
pub mod Prune
pub mod Defaults
