-- ===== src/Lifecycle.antt =====
-- The flow lifecycle: the state machine of apps/automate-api/internal/lifecycle/lifecycle.go and the
-- pause, resume and stop handlers of apps/automate-api/internal/httpapi/handlers_lifecycle.go.
pub mod Machine
pub mod Handlers
pub mod Commands
mod Tests
