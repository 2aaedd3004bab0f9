-- ===== src/Workspace.antt =====
-- The workspaces: src/lib/workspace/gc-core.ts (which directories of finished runs are
-- removed) and src/lib/engine/workspace-guard.ts (what a tool call may touch).
pub mod Gc
pub mod Removal
pub mod Guard
pub mod Containment
mod Tests
