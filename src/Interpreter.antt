-- ===== src/Interpreter.antt =====
-- apps/automate-worker/internal/interpreter: the graph helpers and the workflow that walks a flow.
pub mod Graph
pub mod Workflow
pub mod Options
pub mod Steps
pub mod Runs
pub mod Trigger
pub mod Start
pub mod Paths
pub mod Led
pub mod Reached
pub mod Failures
pub mod OrderFree
mod Tests
