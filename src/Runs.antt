-- ===== src/Runs.antt =====
-- The event stream of a run: src/lib/runtime/sse-codec.ts, src/lib/chat/sse-consumer.ts and
-- src/lib/runs/run-replay-stream.ts.
pub mod Codec
pub mod Consumer
pub mod Splitting
pub mod Numbers
pub mod Frames
pub mod Loose
pub mod Stream
pub mod Cutting
pub mod Reading
pub mod Resumes
pub mod Replay
pub mod Replayed
pub mod Tests
