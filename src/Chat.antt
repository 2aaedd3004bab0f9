-- ===== src/Chat.antt =====
-- The blocks of a streaming chat turn: src/lib/chat/streaming-blocks.ts, and what it uses of
-- src/lib/engine/subagent-transcript.ts and src/lib/engine/tool-result-details.ts.
pub mod Transcript
pub mod Blocks
pub mod Children
pub mod Deltas
pub mod Tools
pub mod Shell
pub mod Drafts
pub mod Displaying
pub mod Saving
pub mod Saved
pub mod Replay
pub mod Opening
pub mod Tail
pub mod Output
pub mod Ended
pub mod Frames
pub mod Caps
pub mod Keeping
pub mod Bounded
pub mod Metadata
pub mod Plan
pub mod Resume
pub mod Preamble
pub mod Resuming
mod Tests
