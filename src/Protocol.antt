-- ===== src/Protocol.antt =====
-- The operations that `Protocol` builds on the store: the handlers of protocol_*.go, and rule.go,
-- wikilink.go, label_trait.go and compliance.go, which they call.
pub mod Cycle
pub mod Checks
pub mod Emit
pub mod Link
pub mod Unlink
pub mod Rules
pub mod Traits
pub mod Wikilink
pub mod Kinds
pub mod Statuses
pub mod Predicates
pub mod Templates
pub mod Admission
pub mod Transition
pub mod Parent
pub mod Compliance
pub mod Sections
pub mod Edits
pub mod Fields
