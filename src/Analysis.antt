-- ===== src/Analysis.antt =====
-- analysis/: what becomes of a response of the model before it is a record of `analysis.jsonl`.
pub mod OutputSafety
pub mod Provenance
pub mod Pipeline
pub mod Summary
pub mod Correlation
