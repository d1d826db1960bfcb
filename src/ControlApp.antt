-- ===== src/ControlApp.antt =====
-- control-app/src: the callers who wait for an agent (queue.ts), and the flow that a call runs
-- through (flow-run.ts).
pub mod Queue
pub mod Line
pub mod Refines
pub mod Leaving
pub mod Hold
pub mod Turns
pub mod Flow
pub mod Silent
pub mod Configured
