-- ===== src/Evals.antt =====
-- The evaluation suites: taxcalc-agent-svc/evals.
pub mod Trajectory
pub mod Suite
pub mod Contexts
pub mod Run
pub mod Gate
