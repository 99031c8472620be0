-- ===== src/Relay.antt =====
-- app/services/relay_engine.py: jobs, interrupts and compactions on the Codex bridge.
pub mod Result
pub mod Turn
pub mod Publish
pub mod Commands
pub mod Execute
pub mod Frame
pub mod Edges
pub mod Bound
pub mod Constraints
pub mod Asking
pub mod Interrupts
pub mod Ended
