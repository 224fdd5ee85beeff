-- ===== src/Export.antt =====
-- web/src/lib/flow-export.ts: a flow as an SVG, PNG or PDF document.
pub mod Escape
pub mod Wrap
pub mod FileName
pub mod Bytes
pub mod Decimal
pub mod Pdf
pub mod Options
