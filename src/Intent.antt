-- ===== src/Intent.antt =====
-- The gates between the operator and an execution: src/domain/intent_ledger.py,
-- src/domain/intent_capsule.py and src/application/operator_gate.py.
pub mod Ledger
pub mod Capsule
pub mod Gate
mod Examples
