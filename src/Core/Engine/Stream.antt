-- ===== src/Core/Engine/Stream.antt =====
-- core/engine.py: `stream_investigate`, which runs tools while the model still writes. Chunks reads
-- the stream and starts its tool calls, Gather
-- takes the results in, Rounds is the loop of steps with its checkpoints.
pub mod Chunks
pub mod Gather
pub mod Rounds
mod Kept
mod Paired
mod Stored
mod Admitted
mod Overlap
mod Denied
mod Bounded
mod Tests
