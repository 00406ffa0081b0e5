-- ===== src/App.antt =====
-- internal/app: the services that the HTTP handlers call, over the memory store.
pub mod Tenants
pub mod Jobs
pub mod Documents
pub mod SourceViews
pub mod Audit
pub mod DataSources
pub mod Search
pub mod Queries
pub mod Conversations
