-- ===== src/Editor.antt =====
-- The flow editor: the state and the handlers of the component `Flow` of web/src/pages/Flow.tsx.
pub mod State
pub mod Nodes
pub mod Nesting
pub mod Adding
pub mod Removing
pub mod Edges
pub mod Actions
pub mod Acyclic
pub mod Closed
pub mod Seeds
pub mod Guards
pub mod Titles
pub mod Draft
pub mod Dragging
pub mod Page
pub mod Resize
pub mod Intact
pub mod Samples
mod Tests
pub mod Links
pub mod Marking
pub mod Marks
