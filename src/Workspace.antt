-- ===== src/Workspace.antt =====
-- internal/workspace/planner.go: the difference of two workspaces, and the actions that remove it.
pub mod Planner
pub mod Effects
pub mod Converge
mod Tests
