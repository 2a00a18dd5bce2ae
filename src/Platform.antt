-- ===== src/Platform.antt =====
-- apps/agent-platform: the platform, which owns the cases, calls the decision layer and carries out its
-- tool plans through the Gateway.
pub mod Case
pub mod Inquiry
pub mod Request
pub mod Answers
pub mod Summarize
pub mod Process
pub mod Progress
pub mod Scheduler
pub mod Advisor
pub mod Ledger
pub mod ToolLoop
pub mod Brief
pub mod Messages
pub mod Summary
pub mod Capabilities
pub mod Classifier
