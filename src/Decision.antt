-- ===== src/Decision.antt =====
-- apps/decision-engine: the decision layer, which turns a request into an action and a tool plan.
pub mod Models
pub mod Intake
pub mod Knowledge
pub mod Tools
pub mod LocalCode
pub mod Inspector
pub mod Supervisor
pub mod Verifier
