-- ===== src/Operator.antt =====
-- operator.py: the kopf handlers.
pub mod Apply
pub mod Inference
pub mod Agents
pub mod Training
