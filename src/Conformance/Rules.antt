-- ===== src/Conformance/Rules.antt =====
-- The rules of the validator (conformance/rules.go, rules_domain.go, graph.go).
pub mod Clean
pub mod Identity
pub mod States
pub mod References
pub mod Dimension
pub mod ChangeLog
pub mod Sections
pub mod WorkItems
pub mod Strata
pub mod NoteContent
pub mod Notes
