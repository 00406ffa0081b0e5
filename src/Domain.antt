-- ===== src/Domain.antt =====
-- internal/domain: the entities, their constructors and their state machines.
pub mod Ids
pub mod Job
pub mod Document
pub mod Tenant
pub mod Membership
pub mod Audit
pub mod Conversation
pub mod Patterns
pub mod DataSource
pub mod SourceView
pub mod PolicyProfile
