-- ===== src/Feedback.antt =====
-- The execution feedback: monitor/execution_feedback.py.
mod Tests
pub mod Handlers
pub mod Idle
