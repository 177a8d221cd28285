-- ===== src/Write/Tests.antt =====
-- Runs of the write path on small inputs.
mod GateExamples
mod StoreExamples
