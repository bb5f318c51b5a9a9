-- ===== src/Execution.antt =====
-- Running a flow from the API and recording the run: runFlow of
-- apps/automate-api/internal/httpapi/handlers_write.go with the helpers it calls.
pub mod Steps
pub mod Recorded
pub mod Loading
pub mod Handlers
pub mod Started
pub mod Cancelled
pub mod Reported
mod Tests
