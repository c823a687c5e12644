-- ===== src/Caliband.antt =====
-- crates/core/src/caliband: the frames that an agent's worker writes to its stream.
pub mod Frames
pub mod Wire
