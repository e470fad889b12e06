-- ===== src/Lib.antt =====
-- eka-core: knowledge objects in a content-addressed store, and the transitions of their states.
--
-- The parts and how they meet. `conformance/` holds the tables of types, state domains and legal
-- steps, reads references, and checks a set of artifacts against rules R1 to R13. `exchange/` has the
-- unit: identity, state vector, change log and relationships; it projects a unit onto an artifact for
-- the rules, and compares the units of a package with those of a repository. `store/` keeps payloads,
-- addressed by the digest of their bytes, and a table of references from canonical forms to payloads.
-- `runtime/` moves a unit from one state to the next: it reads units of the store, evaluates the
-- gates, and puts the changed unit.
--
-- The files.
-- - Conformance/State: conformance/state.go (`domainValues`, `isLegalTransition`, `OwnedDomains`,
--   `NumberGroup`). A Go map is an association list, and the index -1 is `none`.
-- - Conformance/Reference: `parseReference` of conformance/rules.go, with its errors as values.
-- - Conformance/Domain, Vocabulary: conformance/domain.go and the other tables of state.go.
-- - Conformance/Artifact, Engine: the fields of `Artifact` that the rules read, a finding with one
--   constructor for each message, and the engine with `resolve` and `resolveRef`. Pointers to
--   artifacts are compared by their paths, which differ in a scan.
-- - Conformance/Rules: conformance/rules.go, rules_domain.go and graph.go, one function for a rule,
--   which gives the findings that the source appends. Maps are read in the order of their rows.
-- - Conformance/Report, Cko: the run of the rules in validate.go and cko.go, and report.go; the texts
--   of messages are a parameter where the order of findings depends on them.
-- - Exchange/Projection, Conflict: exchange/artifact.go and exchange/conflict.go, with the decoding of
--   a payload, the units of the target and its files as parameters.
-- - Exchange/References: exchange/resolver.go and `checkReferences` of exchange/import.go; the forms
--   that the target holds are a parameter.
-- - Exchange: the unit of exchange/model.go. `Codec` stands for encoding/json under `MarshalUnit`
--   and `DecodeUnit`, and for crypto/sha256; no law of them is assumed.
-- - Store/Rows, Store/Put, Store/Query, Store/Numbered: the two tables of store/schema.go as lists
--   of rows, `putUnitTx`, `isAncestor`, `PutUnits` of store/payloads.go, and the reads of store/units.go,
--   store/refs.go and store/numbers.go. A state goes in and comes out; an error carries no store,
--   since the transaction rolls back. Errors of SQL itself are not modelled, except for the unique
--   index on numbers.
-- - Store/Busy: `retryBusy` of store/busy.go over a function that says how each attempt ends.
-- - Store/Integrity: the scan of store/integrity.go, over the same tables and a registry of
--   attachments, repositories and projects.
-- - Runtime/World: what a transition is given, and its refusals with the values in their messages.
--   The clock, eka.yaml, the registration and the scanned drafts are fields of `World`.
-- - Runtime/Units, Gates, Plan, Closure, Container, PlanState, ContentState, Publish, Transition:
--   runtime/transition.go and runtime/container.go, one function for each of theirs, and one for
--   each stage of a long one.
-- - Runtime/Relate: the checks and the union of edges of runtime/relate.go. Both loops are recursions
--   that carry the keys seen so far.
-- - The children of these modules carry the proofs, and Tests the concrete runs.
--
-- Fuel. The walk of `isAncestor` gets one round more than there are payloads, since each round but
-- the last visits another row. The walk of `planClosure` gets (n + 1) * (n + 2) + 2 rounds for n
-- targets in the store: it visits n + 1 lines at most, and each visit queues at most n of them.
-- The walk of R10 gets two rounds more than there are artifacts: each enters its queue once.
-- Versions, revisions and numbers are unbounded natural numbers; the source's are 64-bit and never
-- computed with, but for a maximum and one more.
--
-- Not modelled: the scan of files and the decoding of YAML and JSON, export, and of import all but
-- the conflicts and the references; the drafts and notes of runtime/ and the published path of its
-- relate; sync, view and the rest of the packages; the texts of messages and hints; `BySource`, which
-- asks git; SQL and file errors.
pub mod Base
pub mod Conformance
pub mod Exchange
pub mod Store
pub mod Runtime
pub mod Tests
