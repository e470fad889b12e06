-- ===== src/Conformance.antt =====
-- The taxonomy of artifacts (conformance/): types, states, domains, references, reports.
pub mod Engine
pub mod Artifact
pub mod Domain
pub mod State
pub mod Reference
pub mod Vocabulary
pub mod Rules
pub mod Report
pub mod Cko
