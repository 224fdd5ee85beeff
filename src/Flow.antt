-- ===== src/Flow.antt =====
-- web/src/lib/flow.tsx: flows of the diagram editor, with the types of web/src/lib/types.ts.
pub mod Types
pub mod Fields
pub mod Health
pub mod Looks
pub mod Dimensions
pub mod Graph
pub mod Copies
pub mod Repair
pub mod Arrange
pub mod Bounds
