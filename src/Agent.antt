-- ===== src/Agent.antt =====
-- The multi-agent service, taxcalc-agent-svc.
pub mod Budget
pub mod State
pub mod Deadline
pub mod Graph
pub mod Api
pub mod Retrieval
pub mod Synthesis
pub mod Sse
pub mod Deps
pub mod Runtime
